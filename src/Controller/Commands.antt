-- ===== src/Controller/Commands.antt =====
-- What `exec deploy` does with the agent's answers.
use remote_exec.Base.{
  zero, suc, ◌≡◌, refl, ◌∙◌, ◌⊎◌, inl, inr, Text, ◌<>◌, true, false, Option, none, some, arith,
  Bool-cases,
}
use remote_exec.Base.Int.{ℤ, pos, negsuc}
use remote_exec.Base.Dict.{Dict}
use remote_exec.Io.{ok, err, Result-cases}
use remote_exec.Proto.{ApprovalRequest}
use remote_exec.Controller.{
  Terminal, Stream, Client, Remote, Options, parse_env, consume_stream, request, check_exit, send,
  second, first, needs, auto_approving, exec_deploy,
}

module _ {S : Type 0} (remote : Remote S) where
  -- A call of Deploy whose stream reported exit code 0 and asked for no approval.
  abbrev pub Succeeded : Options → Dict Text → Text → Type 0
  Succeeded o env id =
      (s : S) × (s' : S) × (stream : Stream) × (t : Terminal) × (t' : Terminal) × (remote.deploy
          (request remote o env id) s
        ≡ (ok stream, s'))
      × (consume_stream stream t ≡ (ok (pos 0, none), t'))

  exit_zero : (n : ℤ) → check_exit remote n ≡ ok tt → n ≡ pos 0
  exit_zero (pos zero) h = refl
  exit_zero (pos (suc n)) h = cc
  exit_zero (negsuc n) h = cc

  send-Succeeded :
      (o : Options) (env : Dict Text) (id : Text) (c : Client S)
      → (send remote o env id c).0 ≡ ok (pos 0, none)
      → Succeeded o env id
  unfolding send
  send-Succeeded o env id c h =
      elim (Result-cases (remote.deploy (request remote o env id) c.remote).0) [
        | inl (stream, opened) ↦ (
          c.remote,
          (remote.deploy (request remote o env id) c.remote).1,
          stream,
          c.terminal,
          (consume_stream stream c.terminal).1,
          ground arith,
          ground arith,
        )
        | inr (e, bad) ↦ absurd (ground arith)
      ]

  second_ok :
      (code : ℤ) (a : Option ApprovalRequest) (c : Client S)
      → (second remote (code, a) c).0 ≡ ok tt
      → (code ≡ pos 0) × (a ≡ none)
  second_ok code none c h = (exit_zero code h, refl)
  second_ok code (some a) c h = cc

  both :
      (answer : ℤ × Option ApprovalRequest)
      → answer.0 ≡ pos 0
      → answer.1 ≡ none
      → ok answer ≡ ok (pos 0, none)
  both answer z n = λ i. ok (z i, n i)

  first_ok :
      (o : Options) (env : Dict Text) (code : ℤ) (a : Option ApprovalRequest) (c : Client S)
      → (first remote o env (code, a) c).0 ≡ ok tt
      → ((code ≡ pos 0) × (a ≡ none))
        ⊎ ((q : ApprovalRequest) × (a ≡ some q)
            × (o.auto_yes ≡ true)
            × Succeeded o env q.approval_id)
  first_ok o env code none c h = inl (exit_zero code h, refl)
  first_ok o env code (some q) c h = elim (Bool-cases o.auto_yes) [
    | inr asks ↦ absurd (ground arith)
    | inl yes_ ↦
        let c' : Client S = record c {
          terminal = record c.terminal { errors = c.terminal.errors <> auto_approving remote q };
        } in
        elim (Result-cases (send remote o env q.approval_id c').0) [
          | inr (e, bad) ↦ absurd (ground arith)
          | inl (answer, sent) ↦
              let (zero_, clear) =
                second_ok answer.0 answer.1 (send remote o env q.approval_id c').1 (ground arith) in
              inr (
                q,
                refl,
                yes_,
                send-Succeeded o env q.approval_id c' (sent ∙ both answer zero_ clear),
              )
        ]
  ]

  -- `exec deploy` succeeds only if some Deploy call's stream reported exit code 0 and asked for
  -- nothing: the call with the approval id of the command line, or, under `--yes` alone, one with
  -- the id that the agent sent back. Command, arguments, directory and environment are those given.
  pub exec_deploy_ok :
      (o : Options) (c : Client S)
      → (exec_deploy remote o c).0 ≡ ok tt
      → (env : Dict Text) × (parse_env o.env_kv ≡ ok env)
        × (Succeeded o env o.approval_id ⊎ ((id : Text) × (o.auto_yes ≡ true) × Succeeded o env id))
  unfolding exec_deploy
  exec_deploy_ok o c h = elim (Result-cases (parse_env o.env_kv)) [
    | inr (e, bad) ↦ absurd (ground arith)
    | inl (env, parsed) ↦ elim (Result-cases (remote.dial c.remote).0) [
      | inr (e, bad) ↦ absurd (ground arith)
      | inl (done, dialled) ↦
          let c' : Client S = record c { remote = (remote.dial c.remote).1 } in
          elim (Result-cases (send remote o env o.approval_id c').0) [
            | inr (e, bad) ↦ absurd (ground arith)
            | inl (answer, sent) ↦
                elim (first_ok o env answer.0 answer.1 (send remote o env o.approval_id c').1
                  (ground arith)) [
                    | inl (z, n) ↦ (
                      env,
                      parsed,
                      inl (send-Succeeded o env o.approval_id c' (sent ∙ both answer z n)),
                    )
                    | inr (q, asked_, yes_, good) ↦ (env, parsed, inr (q.approval_id, yes_, good))
                  ]
          ]
    ]
  ]

  -- Without `--yes` a request for approval is passed to the user: the command fails with the id to
  -- pass on, and the agent is called once.
  exec_deploy_asks :
      (o : Options) (c : Client S) (env : Dict Text) (s s' : S) (stream : Stream) (code : ℤ)
      (a : ApprovalRequest) (t : Terminal)
      → o.auto_yes ≡ false
      → parse_env o.env_kv ≡ ok env
      → remote.dial c.remote ≡ (ok tt, s)
      → remote.deploy (request remote o env o.approval_id) s ≡ (ok stream, s')
      → consume_stream stream c.terminal ≡ (ok (code, some a), t)
      → ((exec_deploy remote o c).0 ≡ err (needs remote a))
        × ((exec_deploy remote o c).1.remote ≡ s')
  unfolding exec_deploy send
  exec_deploy_asks o c env s s' stream code a t manual parsed dialled opened read_ = ground arith
