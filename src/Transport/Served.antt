-- ===== src/Transport/Served.antt =====
-- Both halves of the gate in front of a Deploy, as a call meets them.
use remote_exec.Base.{◌≡◌, ◌≢◌, ◌∙◌, ◌⊎◌, Text, [], ◌∷◌}
use remote_exec.Error.{status, Code}
use remote_exec.Io.{ok, err}
use remote_exec.Io.World.{World, Env}
use remote_exec.Pki.Cert.{Certificate}
use remote_exec.Pki.Primitives.{Crypto, IsLawful}
use remote_exec.Pki.{parse_cert}
use remote_exec.Enroll.{Enrollment, enroll}
use remote_exec.Enroll.Roles.{enroll_leaf, deploy_of_role}
use remote_exec.Authz.{Peer, tls, role_admin, agent_table}
use remote_exec.Authz.Gate.{stream_eq_unary, unary_permitted, unary_refused}
use remote_exec.Authz.Production.{Names, deploy_method, deploy_iff}
use remote_exec.Proto.{ExecRequest}
use remote_exec.AgentServer.{Server, Host, Session, run_stream, deploy}
use remote_exec.AgentServer.Gate.{Authorized, spent, deploy-Authorized}
use remote_exec.Transport.{deploy_call}

module _ (env : Env) (x : Crypto) (s : Server x) (host : Host) (peer : Peer) where
  -- A Deploy call of a peer whose first certificate names "rex:admin", authorized by an approval or
  -- by the policy, runs its command.
  pub deploy_call_runs :
      (req : ExecRequest) (c : Session)
      → Names peer (λ org. org ≡ role_admin)
      → Authorized env s.policy c req
      → deploy_call agent_table env x s host peer req c
        ≡ run_stream host req (spent env s.policy c req)
  unfolding deploy_call
  deploy_call_runs req c admin authorized =
      stream_eq_unary agent_table peer deploy_method (deploy env host s.policy req) c
      ∙ unary_permitted agent_table peer deploy_method (deploy env host s.policy req)
          ((deploy_iff peer).1 admin) c
      ∙ deploy-Authorized env s.policy host c req authorized

  -- A peer whose first certificate does not name "rex:admin" changes nothing by a Deploy call: no
  -- grant, no chunk, no file. It gets a status PermissionDenied or Unauthenticated.
  pub deploy_call_stranger :
      (req : ExecRequest) (c : Session)
      → ¬ Names peer (λ org. org ≡ role_admin)
      → (code : Code) × (text : Text) × (deploy_call agent_table env x s host peer req c
          ≡ (err (status code text), c))
        × ((code ≡ Code.permission_denied) ⊎ (code ≡ Code.unauthenticated))
  unfolding deploy_call
  deploy_call_stranger req c stranger =
      let (code, text, e, which) =
        unary_refused peer deploy_method (deploy env host s.policy req) c agent_table
          (λ permitted. stranger ((deploy_iff peer).0 permitted)) in
      (
        code,
        text,
        stream_eq_unary agent_table peer deploy_method (deploy env host s.policy req) c ∙ e,
        which,
      )

-- From a join token to the command: the certificate that a successful enrolment returned brings a
-- Deploy call to its handler, which then answers as if there were no gate, exactly if the consumed
-- token granted "rex:admin". With any other role the call changes nothing and gets a status
-- PermissionDenied or Unauthenticated.
pub enroll-deploy_call :
    (env : Env) (x : Crypto) (s : Server x) (host : Host) (law : IsLawful x) (csr_pem value : Text)
    (w w' : World) (out : Enrollment)
    → enroll env x s.enroller csr_pem value w ≡ (ok out, w')
    → (role : Text) × (cert : Certificate) × (v : World) × (s.enroller.tokens.consume value w
        ≡ (ok role, v))
      × (parse_cert x out.client_cert_pem ≡ ok cert)
      × ((req : ExecRequest) (c : Session)
          → let answer = deploy_call agent_table env x s host (tls (cert ∷ [])) req c in
            (role ≡ role_admin → answer ≡ deploy env host s.policy req c)
            × (role ≢ role_admin
                → (code : Code) × (text : Text) × (answer ≡ (err (status code text), c))
                  × ((code ≡ Code.permission_denied) ⊎ (code ≡ Code.unauthenticated))))
unfolding deploy_call
enroll-deploy_call env x s host law csr_pem value w w' out h =
    let (role, cert, v, consumed, parsed, no_ca, orgs, usage, id, files) =
      enroll_leaf env x s.enroller law csr_pem value w w' out h in
    let peer = tls (cert ∷ []) in
    let (admin, permitted) = deploy_of_role cert [] role orgs in
    (
      role,
      cert,
      v,
      consumed,
      parsed,
      λ req c.
          let handler = deploy env host s.policy req in
          let gate = stream_eq_unary agent_table peer deploy_method handler c in
          (
            λ is_admin.
                gate
                ∙ unary_permitted agent_table peer deploy_method handler (permitted is_admin) c,
            λ other.
                let (code, text, e, which) =
                  unary_refused peer deploy_method handler c agent_table (λ p. other (admin p)) in
                (code, text, gate ∙ e, which),
          ),
    )
