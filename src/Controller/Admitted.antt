-- ===== src/Controller/Admitted.antt =====
-- `exec run` against the agent's `Run` behind its gate.
use remote_exec.Base.{
  ◌≡◌, ◌≢◌, ◌∙◌, ◌⊎◌, inl, inr, Text, Bool, false, none, List, [], ◌∷◌, arith, text_dec,
}
use remote_exec.Base.Int.{ℤ}
use remote_exec.Base.Dict.{Dict}
use remote_exec.Error.{Code, status}
use remote_exec.Io.{Result, ok, err, Done}
use remote_exec.Io.World.{Env}
use remote_exec.Pki.Primitives.{Crypto}
use remote_exec.Pki.Cert.{Certificate}
use remote_exec.Execute.{Exit, exited, started, command_of}
use remote_exec.Policy.Grants.{Grants}
use remote_exec.Proto.{ExecRequest, ExecChunk}
use remote_exec.Authz.{Peer, tls, role_operator, role_admin, agent_table}
use remote_exec.Authz.Gate.{Permits, unary_permitted, unary_refused, stream_eq_unary}
use remote_exec.Authz.Production.{run_method}
use remote_exec.Enroll.Roles.{run_of_role}
use remote_exec.AgentServer.{Server, Host, Session, int32, emit, spec_of, run_stream}
use remote_exec.Transport.{run_call}
use remote_exec.Controller.{
  Client, Remote, Options, parse_env, request, check_exit, consume_stream, consume_loop, exec_run,
}
use remote_exec.Controller.Reading.{shows}
use remote_exec.Controller.Relay.{Relays, stream_of, opened, exec_run_relayed}

module _ (env : Env) (x : Crypto) (s : Server x) (host : Host) (peer : Peer) where
  -- A connection that does not fail, to the service of an agent on that host, over which the agent
  -- sees that peer.
  pub record RelaysRun {S : Type 0} (remote : Remote S) : Type 0 where
    pub unbroken : (sent : List ExecChunk) → host.broken sent ≡ none
    pub dials : (w : S) → remote.dial w ≡ (ok tt, w)
    pub runs :
        (req : ExecRequest) (w : S)
        → (g : Grants) × (w' : S) × (remote.run req w
            ≡ (ok (stream_of (run_call agent_table env x s host peer req (opened g))), w'))

  run_call_permitted :
      (req : ExecRequest) (c : Session)
      → Permits agent_table peer run_method
      → run_call agent_table env x s host peer req c ≡ run_stream host req c
  unfolding run_call
  run_call_permitted req c permitted =
      stream_eq_unary agent_table peer run_method (run_stream host req) c
      ∙ unary_permitted agent_table peer run_method (run_stream host req) permitted c

  run_call_refused :
      (req : ExecRequest) (c : Session)
      → ¬ Permits agent_table peer run_method
      → (code : Code) × (text : Text) × (run_call agent_table env x s host peer req c
          ≡ (err (status code text), c))
        × ((code ≡ Code.permission_denied) ⊎ (code ≡ Code.unauthenticated))
  unfolding run_call
  run_call_refused req c n =
      let (code, text, e, which) =
        unary_refused peer run_method (run_stream host req) c agent_table n in
      (code, text, stream_eq_unary agent_table peer run_method (run_stream host req) c ∙ e, which)

  module _ {S : Type 0} (remote : Remote S) (relays : RelaysRun remote) where
    -- past the gate it is a connection to the handler
    permitted-Relays : Permits agent_table peer run_method → Relays host remote
    permitted-Relays permitted = record {
      unbroken = relays.unbroken;
      dials = relays.dials;
      runs = λ req w.
          let (g, w', e) = relays.runs req w in
          (g, w', rw (← run_call_permitted req (opened g) permitted) e);
    }

    exec_run_refused :
        (o : Options) (vars : Dict Text) (c : Client S)
        → parse_env o.env_kv ≡ ok vars
        → ¬ Permits agent_table peer run_method
        → let (r, c') = exec_run remote o c in
          (code : Code) × (text : Text) × (r ≡ err (status code text))
          × ((code ≡ Code.permission_denied) ⊎ (code ≡ Code.unauthenticated))
          × (c'.terminal ≡ c.terminal)
    unfolding exec_run consume_stream consume_loop
    exec_run_refused o vars c parsed n =
        let (g, w', runs) = relays.runs (request remote o vars "") c.remote in
        let (code, text, e, which) = run_call_refused (request remote o vars "") (opened g) n in
        (
          code,
          text,
          ground (arith, relays.dials c.remote),
          which,
          ground (arith, relays.dials c.remote),
        )

-- The roles that may call Run.
abbrev pub MayRun : Text → Type 0
MayRun role = (role ≡ role_operator) ⊎ (role ≡ role_admin)

-- `exec run` for that role: it shows the output and reports the code, or it fails with a refusal and
-- shows nothing.
abbrev pub RunsFor :
    {S : Type 0}
    → Text
    → Remote S
    → List (Bool × Text)
    → ℤ
    → Client S
    → Result Done × Client S
    → Type 0
RunsFor role remote output code c (r, c') =
    MayRun role × (r ≡ check_exit remote (int32 code)) × (c'.terminal ≡ shows c.terminal output)
    ⊎ ¬ MayRun role
      × (denied : Code) × (text : Text) × (r ≡ err (status denied text))
      × ((denied ≡ Code.permission_denied) ⊎ (denied ≡ Code.unauthenticated))
      × (c'.terminal ≡ c.terminal)

-- Over a connection that does not fail, with a certificate of one role, `exec run` of a command that
-- starts and exits with a code: for "rex:operator" and "rex:admin" it shows what the command wrote,
-- whole and in order, and reports its code; for any other role it fails with PermissionDenied or
-- Unauthenticated and shows nothing.
pub exec_run_admitted :
    (env : Env) (x : Crypto) (s : Server x) (host : Host) (cert : Certificate) (role : Text)
    → cert.organization ≡ role ∷ []
    → {S : Type 0} (remote : Remote S) → RelaysRun env x s host (tls (cert ∷ [])) remote
    → (o : Options) (vars : Dict Text) (output : List (Bool × Text)) (ending : Bool → Exit)
      (code : ℤ) (c : Client S)
    → parse_env o.env_kv ≡ ok vars
    → o.command ≢ ""
    → host.launch (
        command_of host.environ host.range host.launch
          (emit host)
          (spec_of host (request remote o vars "")))
      ≡ started output ending
    → ending false ≡ exited code
    → RunsFor role remote output code c (exec_run remote o c)
exec_run_admitted env x s host cert role one remote relays o vars output ending code c parsed named
      starts ends =
    let gate = run_of_role cert [] role one in
    let runs = λ (may : MayRun role).
      exec_run_relayed host remote
        (permitted-Relays env x s host (tls (cert ∷ [])) remote relays (gate.1 may)) o vars output
        ending code c parsed named starts ends in
    let ran : MayRun role → RunsFor role remote output code c (exec_run remote o c) =
      λ may. let (r, shown) = runs may in inl (may, r, shown) in
    elim (text_dec role role_operator) [
      | yes operator ↦ ran (inl operator)
      | no n ↦ elim (text_dec role role_admin) [
        | yes admin ↦ ran (inr admin)
        | no m ↦
            let neither : ¬ MayRun role =
              λ may. elim may [ inl operator ↦ n operator | inr admin ↦ m admin ] in
            let (denied, text, r, which, kept) =
              exec_run_refused env x s host (tls (cert ∷ [])) remote relays o vars c parsed
                (λ permitted. neither (gate.0 permitted)) in
            inr (neither, denied, text, r, which, kept)
      ]
    ]
