-- ===== src/Controller/Approved.antt =====
-- `exec deploy --yes` against the agent's `Deploy`, under a policy that asks.
use remote_exec.Base.{
  suc, ◌≡◌, ◌≢◌, refl, ap, ◌∙◌, Text, ◌<>◌, Bool, true, false, Option, none, some, List, [], ◌∷◌,
  ◌++◌, arith,
}
use remote_exec.Base.Int.{ℤ, pos, ◌≤ℤ◌, ◌+ℤ◌}
use remote_exec.Base.Dict.{Dict}
use remote_exec.Io.{Result, ok, Done}
use remote_exec.Io.World.{Env}
use remote_exec.Execute.{Exit, exited, started, command_of}
use remote_exec.Policy.{Policy, asked, evaluate}
use remote_exec.Policy.Grants.{Grants, issue}
use remote_exec.Proto.{ExecRequest, ApprovalRequest, ExecChunk, exit_code, needs_approval}
use remote_exec.AgentServer.{
  Host, Session, int32, emit, send, spec_of, deploy, operation_of, approval_ttl,
}
use remote_exec.AgentServer.Gate.{Authorized, spent, deploy-Authorized}
use remote_exec.AgentServer.Approval.{issued_Authorized}
use remote_exec.Controller
use remote_exec.Controller.{
  Terminal, Stream, Client, Remote, Options, parse_env, consume_stream, request, check_exit,
  auto_approving, exec_deploy,
}
use remote_exec.Controller.Reading.{shows, messages, consume_run}
use remote_exec.Controller.Relay.{opened, stream_of, run_stream_relayed}

-- A connection that does not fail, to an agent with that policy on that host, whose approvals are
-- part of what the connection is to.
pub record RelaysDeploy {S : Type 0} (env : Env) (policy : Policy) (host : Host) (remote : Remote S)
    (grants : S → Grants) : Type 0 where
  pub unbroken : (sent : List ExecChunk) → host.broken sent ≡ none
  pub dials : (s : S) → remote.dial s ≡ (ok tt, s)
  pub deploys :
      (req : ExecRequest) (s : S)
      → let out = deploy env host policy req (opened (grants s)) in
        (s' : S) × (remote.deploy req s ≡ (ok (stream_of out), s')) × (grants s' ≡ out.1.grants)

abbrev pub asks_for : ExecRequest → Text → ApprovalRequest
asks_for req id = record {
  operation = operation_of req;
  reason = "agent policy requires approval for destructive operations";
  approval_id = id;
}

module _ (env : Env) (policy : Policy) (host : Host)
    (unbroken : (sent : List ExecChunk) → host.broken sent ≡ none) where
  -- What the agent answers to the call without an approval.
  deploy_asks :
      (req : ExecRequest) (g : Grants) (id : Text)
      → req.approval_id ≡ ""
      → evaluate policy req.command ≡ asked
      → (issue env req.command approval_ttl g).0 ≡ ok id
      → deploy env host policy req (opened g) ≡ (
        ok tt,
        record {
          grants = (issue env req.command approval_ttl g).1;
          sent = needs_approval (asks_for req id) ∷ [];
        },
      )
  unfolding deploy send
  deploy_asks req g id bare asks issued = ground (arith, unbroken [])

  sent-spent : (req : ExecRequest) (g : Grants) → (spent env policy (opened g) req).sent ≡ []
  sent-spent req g = ground arith

  -- The stream of a call that is authorized.
  redeemed_stream :
      (req : ExecRequest) (g : Grants) (output : List (Bool × Text)) (ending : Bool → Exit)
      (code : ℤ)
      → Authorized env policy (opened g) req
      → req.command ≢ ""
      → host.launch (command_of host.environ host.range host.launch (emit host) (spec_of host req))
        ≡ started output ending
      → ending false ≡ exited code
      → stream_of (deploy env host policy req (opened g))
        ≡ record { incoming = messages output ++ exit_code (int32 code) ∷ []; ends = none }
  redeemed_stream req g output ending code may named starts ends =
      ap stream_of (
        deploy-Authorized env policy host (opened g) req may
        ∙ run_stream_relayed host unbroken req named output ending code starts ends
            (spent env policy (opened g) req))
      ∙ ap
          (λ (l : List ExecChunk). record {
            incoming = (l ++ messages output) ++ exit_code (int32 code) ∷ [];
            ends = none;
          })
          (sent-spent req g)

ask_read :
    (a : ApprovalRequest) (t : Terminal)
    → consume_stream (record { incoming = needs_approval a ∷ []; ends = none }) t
      ≡ (ok (pos 0, some a), t)
unfolding consume_stream
ask_read a t = refl

-- The terminal once `--yes` was noted on it.
abbrev pub noted : {S : Type 0} → Remote S → ApprovalRequest → Terminal → Terminal
noted remote a t = record t { errors = t.errors <> auto_approving remote a }

module _ {S : Type 0} (remote : Remote S) where
  sends :
      (o : Options) (vars : Dict Text) (id : Text) (c : Client S) (stream : Stream) (s : S)
      (r : Result (ℤ × Option ApprovalRequest)) (t : Terminal)
      → remote.deploy (request remote o vars id) c.remote ≡ (ok stream, s)
      → consume_stream stream c.terminal ≡ (r, t)
      → Controller.send remote o vars id c ≡ (r, record { remote = s; terminal = t })
  unfolding Controller.send
  sends o vars id c stream s r t called read = ground arith

  -- What two calls of Deploy make of `exec deploy --yes`.
  two_calls :
      (o : Options) (vars : Dict Text) (a : ApprovalRequest) (n : ℤ) (c c' c'' : Client S)
      → parse_env o.env_kv ≡ ok vars
      → o.auto_yes ≡ true
      → remote.dial c.remote ≡ (ok tt, c.remote)
      → Controller.send remote o vars o.approval_id c ≡ (ok (pos 0, some a), c')
      → Controller.send remote o vars a.approval_id
          (record c' { terminal = noted remote a c'.terminal })
        ≡ (ok (n, none), c'')
      → exec_deploy remote o c ≡ (check_exit remote n, c'')
  unfolding exec_deploy
  two_calls o vars a n c c' c'' parsed says dials first_ second_ = ground arith

module _ {S : Type 0} (env : Env) (policy : Policy) (host : Host) (remote : Remote S)
    (grants : S → Grants) (relays : RelaysDeploy env policy host remote grants) where
  -- Over a connection that does not fail, `exec deploy --yes` of a command on which the policy asks
  -- makes two calls: the first one gets an approval id, and the second one, at most five minutes
  -- later, runs the command with it, if the process starts and exits with a code. The terminal shows the note on the approval and then all of the
  -- output, and the result is that of the exit code.
  pub exec_deploy_approved :
      (o : Options) (vars : Dict Text) (output : List (Bool × Text)) (ending : Bool → Exit)
      (code : ℤ) (id : Text) (c : Client S)
      → parse_env o.env_kv ≡ ok vars
      → o.command ≢ ""
      → o.approval_id ≡ ""
      → o.auto_yes ≡ true
      → evaluate policy o.command ≡ asked
      → (issue env o.command approval_ttl (grants c.remote)).0 ≡ ok id
      → env.now (issue env o.command approval_ttl (grants c.remote)).1.world.calls
        ≤ℤ env.now (suc (grants c.remote).world.calls) +ℤ approval_ttl
      → host.launch (
          command_of host.environ host.range host.launch
            (emit host)
            (spec_of host (request remote o vars id)))
        ≡ started output ending
      → ending false ≡ exited code
      → let (r, c') = exec_deploy remote o c in
        (r ≡ check_exit remote (int32 code))
        × (c'.terminal
            ≡ shows (noted remote (asks_for (request remote o vars "") id) c.terminal) output)
  exec_deploy_approved o vars output ending code id c parsed named bare says asks issued fresh
        starts ends =
      let g = grants c.remote in
      let req = request remote o vars "" in
      let again = request remote o vars id in
      let a = asks_for req id in
      let g1 = (issue env o.command approval_ttl g).1 in
      let (s1, first_call, kept) = relays.deploys req c.remote in
      let answered = deploy_asks env policy host relays.unbroken req g id refl asks issued in
      let (s2, second_call, kept') = relays.deploys again s1 in
      let may =
        (issued_Authorized env policy o.command id g issued g1.world [] again refl).1
          (fresh, refl) in
      let g1_kept = kept ∙ ap (λ (x : Result Done × Session). x.1.grants) answered in
      let t' = noted remote a c.terminal in
      let first_sent =
        sends remote o vars "" c (record { incoming = needs_approval a ∷ []; ends = none }) s1
          (ok (pos 0, some a)) c.terminal
          (first_call ∙ ap (λ (x : Result Done × Session). (ok (stream_of x), s1)) answered)
          (ask_read a c.terminal) in
      let second_sent =
        sends remote o vars id (record { remote = s1; terminal = t' })
          (record { incoming = messages output ++ exit_code (int32 code) ∷ []; ends = none }) s2
          (ok (int32 code, none)) (shows t' output)
          (second_call
            ∙ ap (λ (k : Grants). (ok (stream_of (deploy env host policy again (opened k))), s2))
                g1_kept
            ∙ ap (λ (x : Stream). (ok x, s2))
                (redeemed_stream env policy host relays.unbroken again g1 output ending code may
                  named starts ends))
          (consume_run output (int32 code) t') in
      let both =
        two_calls remote o vars a (int32 code) c _ _ parsed says (relays.dials c.remote)
          (simp bare first_sent) second_sent in
      (
        ap (λ (x : Result Done × Client S). x.0) both,
        ap (λ (x : Result Done × Client S). x.1.terminal) both,
      )
