-- ===== src/Agentd/Minting.antt =====
-- The server's own certificate.
use mathlib.Core.List.{Mem, mem-cons, not-mem-nil}
use mathlib.Core.Logic.Or
use remote_exec.Base.{
  ◌≡◌, ◌≢◌, ◌∙◌, refl, sym, subst, ap, inl, inr, Text, Bool, true, false, some, List, [], ◌∷◌,
  arith, ◌==◌, if◌then◌else◌,
}
use remote_exec.Base.Dict.{lookup}
use remote_exec.Io.{ok, Result-cases}
use remote_exec.Io.World.{World, Env, step}
use remote_exec.Pki.Cert.{Certificate, server_auth}
use remote_exec.Pki.Primitives.{Crypto, IsLawful}
use remote_exec.Pki.{Ca, sign, new_csr, parse_cert}
use remote_exec.Pki.Leaves.{sign-IsLeafFor}
use remote_exec.Pki.Pairs.{CarriesKey, IsPair, sign-IsPair}
use remote_exec.Authz.{Peer, tls, Table, role_public}
use remote_exec.Authz.Gate.{Presents, Permits}
use remote_exec.Agentd.{mint_server_cert, server_request}

module _ (env : Env) (x : Crypto) where
  mint_ok :
      (ca : Ca x) (w w' : World) (cert key : Text)
      → mint_server_cert env x ca w ≡ (ok (cert, key), w')
      → (csr_pem : Text) × (host : Text) × (u : World) × (v : World) × (v' : World) × (new_csr env x
            "rexec-agentd" w
          ≡ (ok (csr_pem, key), u))
        × (sign env x ca (server_request env x csr_pem host) v ≡ (ok cert, v'))
  unfolding mint_server_cert
  mint_ok ca w w' cert key h = elim (Result-cases (new_csr env x "rexec-agentd" w).0) [
    | inr (e, bad) ↦ absurd (ground arith)
    | inl (pair, made) ↦
        let v = (new_csr env x "rexec-agentd" w).1 in
        let req = server_request env x pair.0 (env.hostname v.calls) in
        elim (Result-cases (sign env x ca req (step v)).0) [
          | inr (e, bad) ↦ absurd (ground arith)
          | inl (signed, good) ↦ (
            pair.0,
            env.hostname v.calls,
            v,
            step v,
            (sign env x ca req (step v)).1,
            ground arith,
            ground arith,
          )
        ]
  ]

  -- The certificate and the key that are minted belong together.
  pub mint_server_cert-IsPair :
      (law : IsLawful x) (carries : CarriesKey x) (ca : Ca x) (w w' : World) (cert key : Text)
      → mint_server_cert env x ca w ≡ (ok (cert, key), w')
      → IsPair x cert key
  mint_server_cert-IsPair law carries ca w w' cert key h =
      let (csr_pem, host, u, v, v', made, signed) = mint_ok ca w w' cert key h in
      sign-IsPair env x law carries "rexec-agentd" csr_pem key cert ca
        (server_request env x csr_pem host) w u v v' made refl signed

  localhost_named :
      (csr_pem host : Text) → Mem "localhost" (server_request env x csr_pem host).dns_names
  localhost_named csr_pem host = named (host == "")
    where
      named :
          (b : Bool)
          → Mem {A = Text} "localhost" (if b then "localhost" ∷ [] else ("localhost" ∷ host ∷ []))
      named true = mem-cons.1 (Or.inl refl)
      named false = mem-cons.1 (Or.inl refl)

-- The organizations that the gate looks at.
abbrev organizations : Peer → List Text
organizations (tls (cert ∷ _)) = cert.organization
organizations _ = []

nameless : (peer : Peer) (need : Text) → organizations peer ≡ [] → ¬ Presents peer need
nameless peer need none_ (cert, rest, org, e, m, le, pos) = not-mem-nil (
    subst (λ (l : List Text). Mem org l) none_
      (subst (λ (p : Peer). Mem org (organizations p)) (sym e) m))

-- The certificate that the agent mints for its server is a leaf for server authentication which is
-- valid for localhost. It opens no method that is not public, under any table.
pub mint_server_cert_powerless :
    (env : Env) (x : Crypto) (law : IsLawful x) (ca : Ca x) (w w' : World) (cert_pem key : Text)
    → mint_server_cert env x ca w ≡ (ok (cert_pem, key), w')
    → (cert : Certificate) × (parse_cert x cert_pem ≡ ok cert)
      × (cert.is_ca ≡ false)
      × (cert.usages ≡ server_auth ∷ [])
      × Mem "localhost" cert.dns_names
      × ((table : Table) (method : Text)
          → lookup method table ≢ some role_public
          → ¬ Permits table (tls (cert ∷ [])) method)
mint_server_cert_powerless env x law ca w w' cert_pem key h =
    let (csr_pem, host, u, v, v', made, signed) = mint_ok env x ca w w' cert_pem key h in
    let req = server_request env x csr_pem host in
    let (cert, csr, parsed, leaf, valid, name) =
      sign-IsLeafFor env x law ca req v v' cert_pem signed in
    (
      cert,
      parsed,
      leaf.no_ca,
      leaf.usage,
      subst (λ (l : List Text). Mem "localhost" l) (sym leaf.names)
          (localhost_named env x csr_pem host),
      refuse cert leaf.roles,
    )
  where
    refuse :
        (cert : Certificate)
        → cert.organization ≡ []
        → (table : Table) (method : Text) → lookup method table ≢ some role_public
        → ¬ Permits table (tls (cert ∷ [])) method
    refuse cert empty table method private (need, listed, inl public) =
        private (listed ∙ ap some public)
    refuse cert empty table method private (need, listed, inr presents) =
        nameless (tls (cert ∷ [])) need empty presents
