-- ===== src/Pki/Leaves.antt =====
-- What `Sign` signs: a leaf with the roles that were asked for, and never a CA.
use remote_exec.Base.{
  ℕ, ◌≡◌, refl, ◌∙◌, inl, inr, Text, Bool, true, false, none, some, [], ◌∷◌, arith, Option-cases,
  if◌then◌else◌,
}
use remote_exec.Base.Int.{ℤ}
use remote_exec.Io.{ok, Result-cases}
use remote_exec.Io.World.{World, Env}
use remote_exec.Pki.Cert.{Certificate, Usage, client_auth, server_auth}
use remote_exec.Pki.Primitives.{Request, Block, Crypto, IsLawful}
use remote_exec.Pki.{Ca, SignRequest, leaf_template, serial_number, sign, parse_cert, block_cert}

abbrev pub usage_of : Bool → Usage
usage_of true = client_auth
usage_of false = server_auth

-- The certificate is a leaf for the request: no CA, with the roles asked for as organization, the
-- one usage asked for, and the names asked for.
pub record IsLeafFor (req : SignRequest) (cert : Certificate) : Type 0 where
  pub no_ca : cert.is_ca ≡ false
  pub roles : cert.organization ≡ req.roles
  pub usage : cert.usages ≡ usage_of req.client ∷ []
  pub names : cert.dns_names ≡ req.dns_names
  pub addresses : cert.ips ≡ req.ips

module _ (env : Env) (x : Crypto) where
  -- The CSR decodes, and its signature is valid.
  abbrev pub Verified : Text → Request → Type 0
  Verified csr_pem csr =
      (block : Block) × (x.pem_decode csr_pem ≡ some block)
      × (x.parse_request block.bytes ≡ ok csr)
      × (x.check_signature block.bytes ≡ none)

  pub sign_ok :
      (ca : Ca x) (req : SignRequest) (w w' : World) (out : Text)
      → sign env x ca req w ≡ (ok out, w')
      → (csr : Request) × (serial : ℕ) × (t : ℤ) × (der : Text) × Verified req.csr_pem csr
        × (x.create_certificate serial (leaf_template req csr t) ca.cert csr.public_key ca.key
            ≡ ok der)
        × (out ≡ x.pem_encode (record { kind = block_cert; bytes = der }))
  unfolding sign
  sign_ok ca req w w' out h = elim (Option-cases (x.pem_decode req.csr_pem)) [
    | inl bad ↦ absurd (ground arith)
    | inr (block, decoded) ↦ elim (Result-cases (x.parse_request block.bytes)) [
      | inr (e, bad) ↦ absurd (ground arith)
      | inl (csr, parsed) ↦ elim (Option-cases (x.check_signature block.bytes)) [
        | inr (e, bad) ↦ absurd (ground arith)
        | inl good ↦ elim (Result-cases (serial_number env x w).0) [
          | inr (e, bad) ↦ absurd (ground arith)
          | inl (serial, drawn) ↦
              let t = env.now (serial_number env x w).1.calls in
              elim (Result-cases (
                x.create_certificate serial (leaf_template req csr t) ca.cert csr.public_key
                  ca.key)) [
                    | inr (e, bad) ↦ absurd (ground arith)
                    | inl (der, made) ↦
                        (csr, serial, t, der, (block, decoded, parsed, good), made, ground arith)
                  ]
        ]
      ]
    ]
  ]

  -- A signed certificate parses to a leaf for the request, whose subject's name is that of a CSR
  -- with a valid signature.
  pub sign-IsLeafFor :
      (law : IsLawful x) (ca : Ca x) (req : SignRequest) (w w' : World) (out : Text)
      → sign env x ca req w ≡ (ok out, w')
      → (cert : Certificate) × (csr : Request) × (parse_cert x out ≡ ok cert)
        × IsLeafFor req cert
        × Verified req.csr_pem csr
        × (cert.common_name ≡ csr.common_name)
  unfolding parse_cert
  sign-IsLeafFor law ca req w w' out h =
      let (csr, serial, t, der, valid, made, e) = sign_ok ca req w w' out h in
      let (cert, parsed, raw, name, org, use_, no_ca, usage, dns, ips) =
        law.parse-create serial (leaf_template req csr t) ca.cert csr.public_key ca.key der made in
      (
        cert,
        csr,
        ground (arith, law.decode-encode (record { kind = block_cert; bytes = der })),
        record {
          no_ca = no_ca;
          roles = org;
          usage = usage ∙ one_usage req.client;
          names = dns;
          addresses = ips;
        },
        valid,
        name,
      )
    where
      one_usage : (b : Bool) → (if b then client_auth else server_auth) ∷ [] ≡ usage_of b ∷ []
      one_usage true = refl
      one_usage false = refl

-- A call of `Sign`, successful or not, writes no file.
pub files-sign :
    (env : Env) (x : Crypto) (ca : Ca x) (req : SignRequest) (w : World)
    → (sign env x ca req w).1.files ≡ w.files
unfolding sign serial_number
files-sign env x ca req w = ground arith
