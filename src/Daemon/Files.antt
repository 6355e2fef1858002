-- ===== src/Daemon/Files.antt =====
-- What the calls of the service write: only Enroll touches a file.
use remote_exec.Base.{◌≡◌, refl, ap, inl, inr, Text, [], arith, text_dec}
use remote_exec.Error.{Code, Error, wrap, status, message}
use remote_exec.Io.{err, pure, Result-cases}
use remote_exec.Io.World.{World, Env}
use remote_exec.Pki.Primitives.{Crypto}
use remote_exec.Pki.Leaves.{files-sign}
use remote_exec.Pki.{sign}
use remote_exec.Policy.{Policy, Decision, denied, allowed, asked, evaluate}
use remote_exec.Policy.Grants.{Grants, issue, consume}
use remote_exec.Policy.Grants.History.{issue_lem}
use remote_exec.Enroll.{Service, enroll}
use remote_exec.Enroll.Roles.{client_request}
use remote_exec.Proto.{EnrollRequest, ExecRequest}
use remote_exec.AgentServer.{
  Server, Host, Session, send, run_stream, decide, approval_ttl, deploy, enroll_rpc, identity_rpc,
  info_rpc,
}
use remote_exec.AgentServer.Approval.{grants-run_stream, grants-deploy}
use remote_exec.Authz.{Peer, Table, role_public, agent_table, unary_interceptor}
use remote_exec.Authz.Gate.{unary_permitted, stream_cases}
use remote_exec.Authz.Production.{enroll_method, run_method, deploy_method, lookup-enroll}
use remote_exec.Transport.{enroll_call, identity_call, info_call, run_call, deploy_call}
use remote_exec.Daemon.{Call, enrolling, identifying, informing, running, deploying, serve}

module _ (env : Env) (x : Crypto) where
  files-enroll :
      (s : Service x) (csr_pem value : Text) (w : World)
      → (enroll env x s csr_pem value w).1.files ≡ (s.tokens.consume value w).1.files
  unfolding enroll
  files-enroll s csr_pem value w = elim (Result-cases (s.tokens.consume value w).0) [
    | inr (e, bad) ↦ ground arith
    | inl (role, good) ↦
        let v = (s.tokens.consume value w).1 in
        let signed = files-sign env x s.ca (client_request env x s csr_pem role) v in
        elim (Result-cases (sign env x s.ca (client_request env x s csr_pem role) v).0) [
          | inl (cert, fine) ↦ ground (arith, signed)
          | inr (e, bad) ↦ ground (arith, signed)
        ]
  ]

  pub enroll_call_open :
      (s : Server x) (host : Host) (peer : Peer) (req : EnrollRequest) (w : World)
      → enroll_call agent_table env x s host peer req w ≡ enroll_rpc env x s req w
  unfolding enroll_call
  enroll_call_open s host peer req w =
      unary_permitted agent_table peer enroll_method (enroll_rpc env x s req)
        (role_public, lookup-enroll, inl refl) w

  pub files-enroll_rpc :
      (s : Server x) (req : EnrollRequest) (w : World)
      → (enroll_rpc env x s req w).1.files ≡ (s.enroller.tokens.consume req.token w).1.files
  unfolding enroll_rpc
  files-enroll_rpc s req w =
      elim (Result-cases (enroll env x s.enroller req.csr_pem req.token w).0) [
        | inl (out, fine) ↦ ground (arith, files-enroll s.enroller req.csr_pem req.token w)
        | inr (e, bad) ↦ ground (arith, files-enroll s.enroller req.csr_pem req.token w)
      ]

  -- without a role from the token there is no response
  pub enroll_rpc_refused :
      (s : Server x) (req : EnrollRequest) (w : World) (e : Error)
      → (s.enroller.tokens.consume req.token w).0 ≡ err e
      → (f : Error) × ((enroll_rpc env x s req w).0 ≡ err f)
  unfolding enroll_rpc enroll
  enroll_rpc_refused s req w e bad =
      (status Code.permission_denied (message (wrap "enroll: token: " e)), ground arith)

module _ (env : Env) (host : Host) (policy : Policy) where
  files-consume :
      (id command : Text) (g : Grants) → (consume env id command g).1.world.files ≡ g.world.files
  unfolding consume
  files-consume id command g = ground arith

  files-issue :
      (command : Text) (g : Grants)
      → (issue env command approval_ttl g).1.world.files ≡ g.world.files
  files-issue command g = ground (arith, issue_lem env command approval_ttl g)

  files-decide :
      (d : Decision) (req : ExecRequest) (c : Session)
      → (decide env host policy d req c).1.grants.world.files ≡ c.grants.world.files
  unfolding send
  files-decide denied req c = refl
  files-decide allowed req c = rw (grants-run_stream host req c) refl
  files-decide asked req c = elim (Result-cases (issue env req.command approval_ttl c.grants).0) [
    | inl (id, issued) ↦ ground (arith, files-issue req.command c.grants)
    | inr (e, failed) ↦ ground (arith, files-issue req.command c.grants)
  ]

  pub files-deploy :
      (req : ExecRequest) (c : Session)
      → (deploy env host policy req c).1.grants.world.files ≡ c.grants.world.files
  unfolding deploy
  files-deploy req c = elim (text_dec req.approval_id "") [
    | yes bare ↦ ground (arith, files-decide (evaluate policy req.command) req c)
    | no carries ↦ ground (
      arith,
      grants-deploy env host policy req c carries,
      files-consume req.approval_id req.command c.grants,
    )
  ]

state-unary_pure :
    {S A : Type 0} (table : Table) (peer : Peer) (method : Text) (a : A) (s : S)
    → (unary_interceptor table peer method (pure a) s).1 ≡ s
unfolding unary_interceptor
state-unary_pure table peer method a s = ground arith

abbrev pub IsEnrolling : Call → Type 0
IsEnrolling (enrolling req) = Unit
IsEnrolling call = ⊥

module _ (env : Env) (x : Crypto) (s : Server x) (host : Host) (peer : Peer) where
  -- A call of another method than Enroll writes no file.
  pub files-serve :
      (call : Call) (g : Grants)
      → ¬ IsEnrolling call
      → (serve env x s host peer call g).1.world.files ≡ g.world.files
  unfolding serve identity_call info_call run_call deploy_call
  files-serve (enrolling req) g n = absurd (n tt)
  files-serve identifying g n =
      ap (λ (w : World). w.files)
        (state-unary_pure agent_table peer "/rexec.v1.Agent/Identity" (identity_rpc env x s)
          g.world)
  files-serve informing g n =
      ap (λ (w : World). w.files)
        (state-unary_pure agent_table peer "/rexec.v1.Agent/Info" (info_rpc env x s host) g.world)
  files-serve (running req) g n =
      let c : Session = record { grants = g; sent = [] } in
      elim (stream_cases agent_table peer run_method (run_stream host req) c) [
        | inl runs ↦ ground (arith, runs, grants-run_stream host req c)
        | inr (code, text, e, which) ↦ ground (arith, e)
      ]
  files-serve (deploying req) g n =
      let c : Session = record { grants = g; sent = [] } in
      elim (stream_cases agent_table peer deploy_method (deploy env host s.policy req) c) [
        | inl runs ↦ ground (arith, runs, files-deploy env host s.policy req c)
        | inr (code, text, e, which) ↦ ground (arith, e)
      ]
