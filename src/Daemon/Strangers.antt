-- ===== src/Daemon/Strangers.antt =====
-- A call without the role that its method asks for leaves no trace in the daemon's history.
use remote_exec.Base.{
  ◌≡◌, refl, sym, ap, subst, ◌∙◌, Text, Bool, true, false, List, [], ◌∷◌, ◌++◌, arith,
}
use remote_exec.Io.{Result, ok, err, Done, pure}
use remote_exec.Io.World.{World, Env}
use remote_exec.Pki.Primitives.{Crypto}
use remote_exec.Policy.Grants.{Grants}
use remote_exec.AgentServer.{
  Server, Host, Session, enroll_rpc, identity_rpc, info_rpc, run_stream, deploy,
}
use remote_exec.Authz.{Peer, agent_table}
use remote_exec.Authz.Gate.{Permits, IsRefusal, unary_refused, stream_eq_unary}
use remote_exec.Authz.Production.{enroll_method, run_method, deploy_method}
use remote_exec.Transport.{enroll_call, identity_call, info_call, run_call, deploy_call}
use remote_exec.Daemon.{
  Call, enrolling, identifying, informing, running, deploying, Visit, calls, elsewhere, Answer,
  enrolled, identified, informed, streamed, Served, serve, history,
}
use remote_exec.Daemon.Counting.{refuses}

-- The method of a call, by the name that the service description gives it.
abbrev pub method_of : Call → Text
method_of (enrolling req) = enroll_method
method_of identifying = "/rexec.v1.Agent/Identity"
method_of informing = "/rexec.v1.Agent/Info"
method_of (running req) = run_method
method_of (deploying req) = deploy_method

-- PermissionDenied or Unauthenticated, and nothing sent before it.
abbrev refused_result : {A : Type 0} → Result A → Bool
refused_result (ok a) = false
refused_result (err e) = refuses e

abbrev pub is_refused : Answer → Bool
is_refused (enrolled r) = refused_result r
is_refused (identified r) = refused_result r
is_refused (informed r) = refused_result r
is_refused (streamed r []) = refused_result r
is_refused (streamed r (_ ∷ _)) = false

abbrev IsTurnedAway : Answer × Grants → Grants → Type 0
IsTurnedAway (answer, g') g = (is_refused answer ≡ true) × (g' ≡ g)

world_refused :
    {A : Type 0} (answer : Result A → Answer) (g : Grants) (out : Result A × World)
    → ((r : Result A) → is_refused (answer r) ≡ refused_result r)
    → IsRefusal g.world out
    → IsTurnedAway (answer out.0, record g { world = out.1 }) g
world_refused answer g out same (code, text, e, which) = (same out.0 ∙ ground (arith), ground arith)

stream_refused :
    (g : Grants) (out : Result Done × Session)
    → IsRefusal (record { grants = g; sent = [] }) out
    → IsTurnedAway (streamed out.0 out.1.sent, out.1.grants) g
stream_refused g out (code, text, e, which) = (ground arith, ground arith)

module _ (env : Env) (x : Crypto) (s : Server x) (host : Host) where
  serve_refused :
      (peer : Peer) (call : Call) (g : Grants)
      → ¬ Permits agent_table peer (method_of call)
      → IsTurnedAway (serve env x s host peer call g) g
  unfolding serve enroll_call identity_call info_call run_call deploy_call
  serve_refused peer (enrolling req) g n =
      world_refused enrolled g _ (λ r. refl)
        (unary_refused peer enroll_method (enroll_rpc env x s req) g.world agent_table n)
  serve_refused peer identifying g n =
      world_refused identified g _ (λ r. refl)
        (unary_refused peer (method_of identifying) (pure (identity_rpc env x s)) g.world
          agent_table n)
  serve_refused peer informing g n =
      world_refused informed g _ (λ r. refl)
        (unary_refused peer (method_of informing) (pure (info_rpc env x s host)) g.world agent_table
          n)
  serve_refused peer (running req) g n =
      let c : Session = record { grants = g; sent = [] } in
      stream_refused g _ (
        subst (IsRefusal c)
          (sym (stream_eq_unary agent_table peer run_method (run_stream host req) c))
          (unary_refused peer run_method (run_stream host req) c agent_table n))
  serve_refused peer (deploying req) g n =
      let c : Session = record { grants = g; sent = [] } in
      stream_refused g _ (
        subst (IsRefusal c)
          (sym (stream_eq_unary agent_table peer deploy_method (deploy env host s.policy req) c))
          (unary_refused peer deploy_method (deploy env host s.policy req) c agent_table n))

  history-append :
      (before after : List Visit) (g : Grants)
      → let (log, g') = history env x s host before g in
        let (log', g'') = history env x s host after g' in
        history env x s host (before ++ after) g ≡ (log ++ log', g'')
  unfolding history
  history-append [] after g = refl
  history-append (elsewhere w ∷ before) after g =
      history-append before after (record g { world = w })
  history-append (calls peer call ∷ before) after g =
      let (answer, g') = serve env x s host peer call g in
      ap
        (λ (p : List Served × Grants).
          (record { peer = peer; call = call; answer = answer } ∷ p.0, p.1))
        (history-append before after g')

  -- Among any other calls, before and after it, a call of a peer that the table does not permit is
  -- answered with PermissionDenied or Unauthenticated and nothing else; all others are answered, and
  -- the daemon ends, as if it had not come.
  pub stranger_unnoticed :
      (before after : List Visit) (peer : Peer) (call : Call) (g : Grants)
      → ¬ Permits agent_table peer (method_of call)
      → let (log, g') = history env x s host before g in
        let (log', g'') = history env x s host after g' in
        (answer : Answer) × (is_refused answer ≡ true)
        × (history env x s host (before ++ calls peer call ∷ after) g
            ≡ (log ++ record { peer = peer; call = call; answer = answer } ∷ log', g''))
        × (history env x s host (before ++ after) g ≡ (log ++ log', g''))
  unfolding history
  stranger_unnoticed before after peer call g n =
      let g' = (history env x s host before g).1 in
      let (refused, same) = serve_refused peer call g' n in
      (
        (serve env x s host peer call g').0,
        refused,
        history-append before (calls peer call ∷ after) g ∙ rw same refl,
        history-append before after g,
      )
