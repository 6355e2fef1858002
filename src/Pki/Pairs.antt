-- ===== src/Pki/Pairs.antt =====
-- The key that a CSR is made with, and the certificate that is signed for it.
use remote_exec.Base.{ℕ, ◌≡◌, sym, ap, ◌∙◌, inl, inr, Text, arith}
use mathlib.Core.Option.{some-injective}
use remote_exec.Io.{ok, Result-cases}
use remote_exec.Io.World.{World, Env}
use remote_exec.Pki.Cert.{Certificate}
use remote_exec.Pki.Primitives.{Request, Block, Crypto, IsLawful}
use remote_exec.Pki.{
  Ca, SignRequest, leaf_template, new_csr, sign, block_cert, block_csr, block_key,
}
use remote_exec.Pki.Leaves.{sign_ok}

-- crypto/x509: a request carries the public part of the key that it was created with.
pub record CarriesKey (x : Crypto) : Type 0 where
  pub parse-request :
      (name der : Text) (k : x.Key) (r : Request)
      → x.create_request name k ≡ ok der
      → x.parse_request der ≡ ok r
      → r.public_key ≡ x.public_of k

-- The texts are a certificate that was created for a key, and that key.
pub record IsPair (x : Crypto) (cert key : Text) : Type 0 where
  pub secret : x.Key
  pub key_der : Text
  pub marshalled : x.marshal_key secret ≡ ok key_der
  pub key_text : key ≡ x.pem_encode (record { kind = block_key; bytes = key_der })
  pub serial : ℕ
  pub template : Certificate
  pub parent : Certificate
  pub signer : x.Key
  pub der : Text
  pub created : x.create_certificate serial template parent (x.public_of secret) signer ≡ ok der
  pub cert_text : cert ≡ x.pem_encode (record { kind = block_cert; bytes = der })

module _ (env : Env) (x : Crypto) where
  new_csr_ok :
      (name csr_pem key : Text) (w w' : World)
      → new_csr env x name w ≡ (ok (csr_pem, key), w')
      → (k : x.Key) × (csr_der : Text) × (key_der : Text) × (x.create_request name k ≡ ok csr_der)
        × (x.marshal_key k ≡ ok key_der)
        × (csr_pem ≡ x.pem_encode (record { kind = block_csr; bytes = csr_der }))
        × (key ≡ x.pem_encode (record { kind = block_key; bytes = key_der }))
  unfolding new_csr
  new_csr_ok name csr_pem key w w' h = elim (Result-cases (x.generate_key w.calls)) [
    | inr (e, bad) ↦ absurd (ground arith)
    | inl (k, drawn) ↦ elim (Result-cases (x.create_request name k)) [
      | inr (e, bad) ↦ absurd (ground arith)
      | inl (csr_der, made) ↦ elim (Result-cases (x.marshal_key k)) [
        | inr (e, bad) ↦ absurd (ground arith)
        | inl (key_der, printed) ↦ (k, csr_der, key_der, made, printed, ground arith, ground arith)
      ]
    ]
  ]

  -- What `NewCSR` and then `Sign` return are a pair, whatever else is asked for.
  pub sign-IsPair :
      (law : IsLawful x) (carries : CarriesKey x) (name csr_pem key cert : Text) (ca : Ca x)
      (req : SignRequest) (w w' v v' : World)
      → new_csr env x name w ≡ (ok (csr_pem, key), w')
      → req.csr_pem ≡ csr_pem
      → sign env x ca req v ≡ (ok cert, v')
      → IsPair x cert key
  sign-IsPair law carries name csr_pem key cert ca req w w' v v' made asks signed =
      let (k, csr_der, key_der, requested, printed, csr_text, key_text) =
        new_csr_ok name csr_pem key w w' made in
      let (csr, serial, t, der, (block, decoded, parsed, valid), created, cert_text) =
        sign_ok env x ca req v v' cert signed in
      let csr_block : Block = record { kind = block_csr; bytes = csr_der } in
      let same : block ≡ csr_block =
        some-injective block csr_block
          (sym decoded ∙ ap x.pem_decode (asks ∙ csr_text) ∙ law.decode-encode csr_block) in
      let public : csr.public_key ≡ x.public_of k =
        carries.parse-request name csr_der k csr requested
          (ap (λ (b : Block). x.parse_request b.bytes) (sym same) ∙ parsed) in
      record {
        secret = k;
        key_der = key_der;
        marshalled = printed;
        key_text = key_text;
        serial = serial;
        template = leaf_template req csr t;
        parent = ca.cert;
        signer = ca.key;
        der = der;
        created =
            ap
              (λ (p : Text). x.create_certificate serial (leaf_template req csr t) ca.cert p ca.key)
              (sym public)
            ∙ created;
        cert_text = cert_text;
      }
