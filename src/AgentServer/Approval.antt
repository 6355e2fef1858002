-- ===== src/AgentServer/Approval.antt =====
-- The round of an approval: asked for, granted once, and gone.
use remote_exec.Base.{
  suc, ◌≡◌, ◌≢◌, refl, sym, subst, ap, ◌∙◌, ◌↔◌, inl, inr, Text, Bool, List, [], ◌∷◌, ◌++◌, arith,
  Option-cases,
}
use remote_exec.Base.Int.{ℤ, ◌≤ℤ◌, ◌+ℤ◌}
use remote_exec.Base.Base64.{encode_to_string, encode_to_string-ne_empty}
use remote_exec.Io.Calls.{random, random-cons}
use remote_exec.Error.{Sentinel, Code, Error, sentinel}
use remote_exec.Io.{ok, err, Result-cases}
use remote_exec.Io.World.{World, Env}
use remote_exec.Policy.{Policy, asked, evaluate}
use remote_exec.Policy.Grants.{Grants, rand_id, issue, consume}
use remote_exec.Policy.Grants.OneTime.{consume_iff, consume_twice}
use remote_exec.Policy.Grants.History.{issue-consume}
use remote_exec.Execute.{write, run}
use remote_exec.Execute.Order.{run_keeps}
use remote_exec.Proto.{ExecRequest, ApprovalRequest, ExecChunk, exit_code, needs_approval}
use remote_exec.AgentServer.{
  Host, Session, send, emit, spec_of, int32, run_stream, approval_error, operation_of, approval_ttl,
  deploy,
}
use remote_exec.AgentServer.Gate.{Authorized}

module _ (host : Host) where
  grants-write :
      (stream : Bool) (p : Text) (c : Session) → (write (emit host) stream p c).1.grants ≡ c.grants
  unfolding write emit send
  grants-write stream p c = ground arith

  grants-send : (chunk : ExecChunk) (c : Session) → (send host chunk c).1.grants ≡ c.grants
  unfolding send
  grants-send chunk c = ground arith

  pub grants-run_stream :
      (req : ExecRequest) (c : Session) → (run_stream host req c).1.grants ≡ c.grants
  unfolding run_stream
  grants-run_stream req c =
      let kept =
        run_keeps (emit host) (λ s. s.grants ≡ c.grants) host.environ host.range host.launch
          (λ stream p s h. grants-write stream p s ∙ h) (spec_of host req) c refl in
      elim (Result-cases
        (run host.environ host.range host.launch (emit host) (spec_of host req) c).0) [
          | inl (code, done) ↦ ground (
            arith,
            kept,
            grants-send (exit_code (int32 code))
                (run host.environ host.range host.launch (emit host) (spec_of host req) c).1,
          )
          | inr (e, failed_) ↦ ground (arith, kept)
        ]

module _ (env : Env) (host : Host) (policy : Policy) where
  pub grants-deploy :
      (req : ExecRequest) (c : Session)
      → req.approval_id ≢ ""
      → (deploy env host policy req c).1.grants
        ≡ (consume env req.approval_id req.command c.grants).1
  unfolding deploy
  grants-deploy req c carries =
      elim (Result-cases (consume env req.approval_id req.command c.grants).0) [
        | inl (done, granted) ↦ ground (
          arith,
          grants-run_stream host req
              (record c { grants = (consume env req.approval_id req.command c.grants).1 }),
        )
        | inr (e, refused) ↦ ground arith
      ]

  pub deploy_refused :
      (req : ExecRequest) (c : Session) (e : Error)
      → req.approval_id ≢ ""
      → (consume env req.approval_id req.command c.grants).0 ≡ err e
      → (deploy env host policy req c).0 ≡ err (approval_error Code.permission_denied e)
  unfolding deploy
  deploy_refused req c e carries refused = ground arith

  -- An approval id serves one Deploy: the next one that carries it, with no other call in between, is
  -- refused with PermissionDenied, for whatever command and arguments, and whether or not the first
  -- one ran.
  pub deploy_twice :
      (req again : ExecRequest) (c : Session) (sent : List ExecChunk)
      → req.approval_id ≢ ""
      → again.approval_id ≡ req.approval_id
      → let c' = record (deploy env host policy req c).1 { sent = sent } in
        (deploy env host policy again c').0
        ≡ err (approval_error Code.permission_denied (sentinel Sentinel.no_grant))
  deploy_twice req again c sent carries same =
      deploy_refused again (record (deploy env host policy req c).1 { sent = sent })
        (sentinel Sentinel.no_grant) (λ e. carries (sym same ∙ e))
        (rw (same, grants-deploy req c carries)
          (consume_twice env req.approval_id c.grants req.command again.command))

rand_id-ne_empty : (env : Env) (w : World) (id : Text) → (rand_id env w).0 ≡ ok id → id ≢ ""
unfolding rand_id
rand_id-ne_empty env w id h e = elim (Result-cases (random env 18 w).0) [
  | inr (bad, failed_) ↦ absurd (ground arith)
  | inl (b, drawn) ↦
      let (a, l, cons) = random-cons env 17 w b drawn in
      let same : id ≡ encode_to_string b = ground arith in
      encode_to_string-ne_empty a l (sym (same ∙ ap encode_to_string cons) ∙ e)
]

issued_ne_empty :
    (env : Env) (command : Text) (ttl : ℤ) (g : Grants) (id : Text)
    → (issue env command ttl g).0 ≡ ok id
    → id ≢ ""
unfolding issue
issued_ne_empty env command ttl g id h = elim (Result-cases (rand_id env g.world).0) [
  | inr (bad, failed_) ↦ absurd (ground arith)
  | inl (i, drawn) ↦ rand_id-ne_empty env g.world id (ground arith)
]

-- What an id that was just issued authorizes.
pub issued_Authorized :
    (env : Env) (policy : Policy) (command id : Text) (g : Grants)
    → (issue env command approval_ttl g).0 ≡ ok id
    → (later : World) (sent : List ExecChunk) (again : ExecRequest) → again.approval_id ≡ id
    → Authorized env policy
        (record {
          grants = record (issue env command approval_ttl g).1 { world = later };
          sent = sent;
        })
        again
      ↔ (env.now later.calls ≤ℤ env.now (suc g.world.calls) +ℤ approval_ttl)
        × (command ≡ again.command)
issued_Authorized env policy command id g h later sent again same = (to, from)
  where
    g' : Grants
    g' = record (issue env command approval_ttl g).1 { world = later }

    carries : again.approval_id ≢ ""
    carries e = issued_ne_empty env command approval_ttl g id h (sym same ∙ e)

    good :
        ((consume env again.approval_id again.command g').0 ≡ ok tt)
        ↔ (env.now later.calls ≤ℤ env.now (suc g.world.calls) +ℤ approval_ttl)
          × (command ≡ again.command)
    good = rw same (issue-consume env command approval_ttl g id h later again.command)

    to :
        Authorized env policy (record { grants = g'; sent = sent }) again
        → (env.now later.calls ≤ℤ env.now (suc g.world.calls) +ℤ approval_ttl)
          × (command ≡ again.command)
    to (inl (ne, approved)) =
        good.0 ((consume_iff env again.approval_id g' again.command).1 approved)
    to (inr (bare, allows)) = absurd (carries bare)

    from :
        (env.now later.calls ≤ℤ env.now (suc g.world.calls) +ℤ approval_ttl)
          × (command ≡ again.command)
        → Authorized env policy (record { grants = g'; sent = sent }) again
    from fits = inl (carries, (consume_iff env again.approval_id g' again.command).0 (good.1 fits))

module _ (env : Env) (host : Host) (policy : Policy) where
  -- A command on which the policy asks, sent without an approval, comes back with an approval id,
  -- if nothing fails. Until five minutes after that, and for this command alone, a Deploy that
  -- carries the id is authorized, whatever arguments it has.
  pub ask_and_approve :
      (req : ExecRequest) (c c' : Session)
      → req.approval_id ≡ ""
      → evaluate policy req.command ≡ asked
      → deploy env host policy req c ≡ (ok tt, c')
      → (a : ApprovalRequest) × (c'.sent ≡ c.sent ++ needs_approval a ∷ [])
        × (a.operation ≡ operation_of req)
        × ((later : World) (sent : List ExecChunk) (again : ExecRequest)
            → again.approval_id ≡ a.approval_id
            → Authorized env policy
                (record { grants = record c'.grants { world = later }; sent = sent })
                again
              ↔ (env.now later.calls ≤ℤ env.now (suc c.grants.world.calls) +ℤ approval_ttl)
                × (req.command ≡ again.command))
  unfolding deploy send
  ask_and_approve req c c' bare asks h =
      elim (Result-cases (issue env req.command approval_ttl c.grants).0) [
        | inr (bad, failed_) ↦ absurd (ground arith)
        | inl (id, issued) ↦ elim (Option-cases (host.broken c.sent)) [
          | inr (bad, broken) ↦ absurd (ground arith)
          | inl fine ↦
              let left : c'.grants ≡ (issue env req.command approval_ttl c.grants).1 =
                ground arith in
              (
                record {
                  operation = operation_of req;
                  reason = "agent policy requires approval for destructive operations";
                  approval_id = id;
                },
                ground arith,
                refl,
                λ later sent again same.
                    subst
                      (λ g.
                        Authorized env policy
                          (record { grants = record g { world = later }; sent = sent }) again
                        ↔ (env.now later.calls
                            ≤ℤ env.now (suc c.grants.world.calls) +ℤ approval_ttl)
                          × (req.command ≡ again.command))
                      (sym left)
                      (issued_Authorized env policy req.command id c.grants issued later sent again
                        same),
              )
        ]
      ]
