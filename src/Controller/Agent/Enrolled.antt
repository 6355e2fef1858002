-- ===== src/Controller/Agent/Enrolled.antt =====
-- `agent enroll` against a daemon that was loaded from its data directory: both sides in one
-- statement. The two run in worlds of their own; the connection carries the answers.
use remote_exec.Base.{ℕ, ◌≡◌, inl, inr, Text, some, [], ◌∷◌, arith}
use remote_exec.Base.Dict.{lookup}
use remote_exec.Io.{Result, ok, Action, Result-cases}
use remote_exec.Io.World.{World, Env}
use remote_exec.Pki.{parse_cert, fingerprint_pem}
use remote_exec.Pki.Cert.{Certificate}
use remote_exec.Pki.Primitives.{Crypto, IsLawful}
use remote_exec.Policy.{Policy}
use remote_exec.Token.{Codec, consume}
use remote_exec.Enroll.{Enrollment, enroll}
use remote_exec.Enroll.Roles.{enroll_ok, enroll_leaf}
use remote_exec.ClientConfig.{Config, Yaml, Tls}
use remote_exec.Proto.{EnrollRequest, EnrollResponse}
use remote_exec.AgentServer.{Server, enroll_rpc, identity_rpc}
use remote_exec.Agentd.{tokens_path}
use remote_exec.Agentd.Serve.{Agent, load_agent}
use remote_exec.Agentd.Serve.Redeemed.{tokens_of_agent}
use remote_exec.Controller.Agent.{Flags, credential_of, check_pin, identity_text, agent_enroll}
use remote_exec.Controller.Agent.Pinned.{check_pin-same, enroll_answered, agent_enroll_ok}

module _ (env : Env) (x : Crypto) (s : Server x) where
  enroll_rpc_ok :
      (req : EnrollRequest) (w w' : World) (resp : EnrollResponse)
      → enroll_rpc env x s req w ≡ (ok resp, w')
      → (out : Enrollment) × (enroll env x s.enroller req.csr_pem req.token w ≡ (ok out, w'))
        × (resp.client_cert_pem ≡ out.client_cert_pem)
        × (resp.agent_id ≡ out.agent_id)
        × (resp.fingerprint ≡ out.fingerprint)
  unfolding enroll_rpc
  enroll_rpc_ok req w w' resp h =
      elim (Result-cases (enroll env x s.enroller req.csr_pem req.token w).0) [
        | inr (e, bad) ↦ absurd (ground arith)
        | inl (out, done) ↦ (out, ground arith, ground arith, ground arith, ground arith)
      ]

-- Every answer to a call of Enroll over the connection is one that the server's handler gave.
abbrev pub Serves :
    {Conn : Type 0}
    → (Conn → EnrollRequest → Action World EnrollResponse)
    → Env
    → (x : Crypto) → Server x
    → Type 0
Serves {Conn} rpc env x s =
    (conn : Conn) (req : EnrollRequest) (v v' : World) (resp : EnrollResponse)
    → rpc conn req v ≡ (ok resp, v')
    → (u : World) × (u' : World) × (enroll_rpc env x s req u ≡ (ok resp, u'))

module _ (env : Env) (x : Crypto) (tls : Tls) (json : Codec) (policy : Text → Result Policy)
    (uuid : ℕ → Text) (dir version : Text) where
  -- The daemon reports the fingerprint of the certificate that it serves with.
  fingerprint_of_agent :
      (w w' : World) (agent : Agent x)
      → load_agent env x tls json policy uuid dir version w ≡ (ok agent, w')
      → fingerprint_pem x agent.server.enroller.server_cert_pem ≡ ok agent.server.fingerprint
  unfolding load_agent
  fingerprint_of_agent w w' agent h = ground arith

  -- After a successful `agent enroll` against a daemon loaded from its data directory, the
  -- credential file holds a credential for the endpoint of the flag that pins this daemon: what its
  -- Identity answers passes the check of `agent identity`. Its certificate carries exactly the role
  -- of the token, which was consumed in the daemon's token file.
  pub agent_enroll-load_agent :
      (law : IsLawful x) (agent : Agent x) (w w' : World)
      → load_agent env x tls json policy uuid dir version w ≡ (ok agent, w')
      → {Conn : Type 0} (here : Env) (yaml : Yaml) (connect : Text → Action World Conn)
        (rpc : Conn → EnrollRequest → Action World EnrollResponse)
      → Serves rpc env x agent.server
      → (token cn : Text) (f : Flags) (v v' : World) (text : Text)
      → agent_enroll here x yaml connect rpc token cn f v ≡ (ok text, v')
      → (cfg : Config) × (t : Text) × (role : Text) × (cert : Certificate) × (u : World)
        × (u' : World) × (yaml.marshal cfg ≡ ok t)
        × (lookup (credential_of f) v'.files ≡ some t)
        × (cfg.endpoints ≡ f.endpoint ∷ [])
        × (check_pin cfg (identity_rpc env x agent.server)
            ≡ ok (identity_text (identity_rpc env x agent.server)))
        × (parse_cert x cfg.client_cert ≡ ok cert)
        × (cert.organization ≡ role ∷ [])
        × (consume env json (tokens_path dir) token u ≡ (ok role, u'))
  unfolding identity_rpc
  agent_enroll-load_agent law agent w w' loaded here yaml connect rpc serves token cn f v v' text
        h =
      let (cfg, name, a, b, t, enrolled, coded, stored) =
        agent_enroll_ok here x yaml connect rpc token cn f v v' text h in
      let (csr_pem, conn, c, resp, answered, ca, cert_pem, endpoints, id, fp) =
        enroll_answered here x connect rpc f.endpoint token name a b cfg enrolled in
      let req : EnrollRequest = record { token = token; csr_pem = csr_pem } in
      let (u, u', handled) = serves conn req c b resp answered in
      let (out, done, cert_out, id_out, fp_out) =
        enroll_rpc_ok env x agent.server req u u' resp handled in
      let (role, cert, m, consumed, parsed, no_ca, orgs, usage, same_id, files) =
        enroll_leaf env x agent.server.enroller law csr_pem token u u' out done in
      let (role', m', m'', consumed', signed, printed, id', same) =
        enroll_ok env x agent.server.enroller csr_pem token u u' out done in
      (
        cfg,
        t,
        role,
        cert,
        u,
        m,
        coded,
        stored,
        endpoints,
        check_pin-same cfg (identity_rpc env x agent.server)
            (ground (arith, fingerprint_of_agent w w' agent loaded)),
        ground (arith, cert_pem, cert_out, parsed),
        orgs,
        ground (arith, tokens_of_agent env x tls json policy uuid dir version w w' agent loaded),
      )
