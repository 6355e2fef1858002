-- ===== src/Enroll/Roles.antt =====
-- What an enrolled controller may do is what its token granted.
use mathlib.Core.List.{Mem, mem-cons, not-mem-nil}
use mathlib.Core.Logic.Or
use remote_exec.Base.{
  ◌≡◌, refl, subst, ap, sym, ◌∙◌, ◌↔◌, ◌⊎◌, inl, inr, Text, text_set, true, false, List, [], ◌∷◌,
  arith,
}
use remote_exec.Io.{Result, ok, Result-cases}
use remote_exec.Io.World.{World, Env}
use remote_exec.Pki.Cert.{Certificate, client_auth}
use remote_exec.Pki.Primitives.{Crypto, IsLawful}
use remote_exec.Pki.{sign, parse_cert, fingerprint_pem, SignRequest}
use remote_exec.Pki.Leaves.{sign-IsLeafFor, files-sign}
use remote_exec.Authz.{Peer, tls, role_admin, role_operator, agent_table}
use remote_exec.Authz.Gate.{Permits}
use remote_exec.Authz.Production.{Names, deploy_method, deploy_iff, run_method, run_iff}
use remote_exec.Enroll.{Service, Enrollment, enroll}

module _ (env : Env) (x : Crypto) (s : Service x) where
  -- The request that `Enroll` signs.
  abbrev pub client_request : Text → Text → SignRequest
  client_request csr_pem role = record {
    csr_pem = csr_pem;
    roles = role ∷ [];
    validity = s.leaf_validity;
    client = true;
    dns_names = [];
    ips = [];
  }

  pub enroll_ok :
      (csr_pem value : Text) (w w' : World) (out : Enrollment)
      → enroll env x s csr_pem value w ≡ (ok out, w')
      → (role : Text) × (v : World) × (v' : World) × (s.tokens.consume value w ≡ (ok role, v))
        × (sign env x s.ca (client_request csr_pem role) v ≡ (ok out.client_cert_pem, v'))
        × (fingerprint_pem x s.server_cert_pem ≡ ok out.fingerprint)
        × (out.agent_id ≡ s.agent_id)
        × (w' ≡ v')
  unfolding enroll
  enroll_ok csr_pem value w w' out h = elim (Result-cases (s.tokens.consume value w).0) [
    | inr (e, bad) ↦ absurd (ground arith)
    | inl (role, good) ↦
        let v = (s.tokens.consume value w).1 in
        elim (Result-cases (sign env x s.ca (client_request csr_pem role) v).0) [
          | inr (e, bad) ↦ absurd (ground arith)
          | inl (cert, signed) ↦ elim (Result-cases (fingerprint_pem x s.server_cert_pem)) [
            | inr (e, bad) ↦ absurd (ground arith)
            | inl (fp, printed) ↦ (
              role,
              v,
              (sign env x s.ca (client_request csr_pem role) v).1,
              ground arith,
              ground arith,
              ground arith,
              ground arith,
              ground arith,
            )
          ]
        ]
  ]

  -- A successful enrolment consumed the token, and its certificate is a client leaf that carries
  -- exactly the role which the token granted, whatever the CSR asked for; the agent's id comes
  -- with it.
  pub enroll_leaf :
      (law : IsLawful x) (csr_pem value : Text) (w w' : World) (out : Enrollment)
      → enroll env x s csr_pem value w ≡ (ok out, w')
      → (role : Text) × (cert : Certificate) × (v : World) × (s.tokens.consume value w
          ≡ (ok role, v))
        × (parse_cert x out.client_cert_pem ≡ ok cert)
        × (cert.is_ca ≡ false)
        × (cert.organization ≡ role ∷ [])
        × (cert.usages ≡ client_auth ∷ [])
        × (out.agent_id ≡ s.agent_id)
        × (w'.files ≡ v.files)
  enroll_leaf law csr_pem value w w' out h =
      let (role, v, v', consumed, signed, printed, id, same) = enroll_ok csr_pem value w w' out h in
      let req = client_request csr_pem role in
      let (cert, csr, parsed, leaf, valid, name) =
        sign-IsLeafFor env x law s.ca req v v' out.client_cert_pem signed in
      (
        role,
        cert,
        v,
        consumed,
        parsed,
        leaf.no_ca,
        leaf.roles,
        leaf.usage,
        id,
        ap (λ (u : World). u.files) same
            ∙ sym (ap (λ (p : Result Text × World). p.1.files) signed)
            ∙ files-sign env x s.ca req v,
      )

-- The organizations that the gate looks at.
abbrev organizations : Peer → List Text
organizations (tls (cert ∷ _)) = cert.organization
organizations _ = []

sole_name :
    (peer : Peer) (role org : Text)
    → organizations peer ≡ role ∷ []
    → Mem org (organizations peer)
    → org ≡ role
sole_name peer role org one m =
    Or.elim (text_set _ _) (mem-cons.0 (subst (λ l. Mem org l) one m)) (λ e. e)
      (λ other. absurd (not-mem-nil other))

named_role :
    (peer : Peer) (role : Text) (P : Text → Type 0)
    → organizations peer ≡ role ∷ []
    → Names peer P
    → P role
named_role peer role P one (cert, rest, org, e, m, holds) =
    subst P (sole_name peer role org one (subst (λ p. Mem org (organizations p)) (sym e) m)) holds

names_role :
    (cert : Certificate) (rest : List Certificate) (role : Text) (P : Text → Type 0)
    → cert.organization ≡ role ∷ []
    → P role
    → Names (tls (cert ∷ rest)) P
names_role cert rest role P one holds =
    (cert, rest, role, refl, rw one (mem-cons.1 (Or.inl refl)), holds)

-- A certificate with one organization reaches Deploy exactly if that is "rex:admin".
pub deploy_of_role :
    (cert : Certificate) (rest : List Certificate) (role : Text)
    → cert.organization ≡ role ∷ []
    → Permits agent_table (tls (cert ∷ rest)) deploy_method ↔ (role ≡ role_admin)
deploy_of_role cert rest role one =
    let peer = tls (cert ∷ rest) in
    (
      λ permitted.
          named_role peer role (λ org. org ≡ role_admin) one ((deploy_iff peer).0 permitted),
      λ admin. (deploy_iff peer).1 (names_role cert rest role (λ org. org ≡ role_admin) one admin),
    )

-- And Run exactly if that is "rex:operator" or "rex:admin".
pub run_of_role :
    (cert : Certificate) (rest : List Certificate) (role : Text)
    → cert.organization ≡ role ∷ []
    → Permits agent_table (tls (cert ∷ rest)) run_method
      ↔ (role ≡ role_operator) ⊎ (role ≡ role_admin)
run_of_role cert rest role one =
    let peer = tls (cert ∷ rest) in
    let runs = λ (org : Text). (org ≡ role_operator) ⊎ (org ≡ role_admin) in
    (
      λ permitted. named_role peer role runs one ((run_iff peer).0 permitted),
      λ may. (run_iff peer).1 (names_role cert rest role runs one may),
    )
