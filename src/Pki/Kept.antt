-- ===== src/Pki/Kept.antt =====
-- What a CA prints of itself loads as the same CA.
use remote_exec.Base.{◌≡◌, inl, inr, Text, arith}
use remote_exec.Base.Int.{ℤ}
use remote_exec.Io.{ok, Result-cases}
use remote_exec.Io.World.{World, Env, step}
use remote_exec.Pki.Primitives.{Crypto, IsLawful, LoadsKeys}
use remote_exec.Pki.{
  Ca, ca_template, serial_number, new_ca, load_ca, parse_cert, cert_pem, key_pem, block_cert,
  block_key,
}

module _ (x : Crypto) where
  -- The certificate is the one that its raw bytes parse to.
  abbrev pub IsParsed : Ca x → Type 0
  IsParsed ca = x.parse_certificate ca.cert.raw ≡ ok ca.cert

  key_pem_ok :
      (ca : Ca x) (key : Text)
      → key_pem x ca ≡ ok key
      → (der : Text) × (x.marshal_key ca.key ≡ ok der)
        × (key ≡ x.pem_encode (record { kind = block_key; bytes = der }))
  unfolding key_pem
  key_pem_ok ca key h = elim (Result-cases (x.marshal_key ca.key)) [
    | inr (e, bad) ↦ absurd (ground arith)
    | inl (der, good) ↦ (der, good, ground arith)
  ]

  -- `LoadCA` of `CertPEM` and `KeyPEM` is the CA that printed them, if its certificate is the one
  -- that its bytes parse to, and PEM and PKCS#8 read back what they wrote.
  pub load_ca-IsParsed :
      (law : IsLawful x) (keys : LoadsKeys x) (ca : Ca x) (key : Text)
      → IsParsed ca
      → key_pem x ca ≡ ok key
      → load_ca x (cert_pem x ca) key ≡ ok ca
  unfolding load_ca parse_cert cert_pem
  load_ca-IsParsed law keys ca key parsed h =
      let (der, marshalled, e) = key_pem_ok ca key h in
      ground (
        arith,
        law.decode-encode (record { kind = block_cert; bytes = ca.cert.raw }),
        law.decode-encode (record { kind = block_key; bytes = der }),
        keys.parse-marshal ca.key der marshalled,
      )

module _ (env : Env) (x : Crypto) where
  pub new_ca-IsParsed :
      (law : IsLawful x) (common_name : Text) (validity : ℤ) (w w' : World) (ca : Ca x)
      → new_ca env x common_name validity w ≡ (ok ca, w')
      → IsParsed x ca
  unfolding new_ca
  new_ca-IsParsed law common_name validity w w' ca h =
      elim (Result-cases (x.generate_key w.calls)) [
        | inr (e, bad) ↦ absurd (ground arith)
        | inl (key, drawn) ↦ elim (Result-cases (serial_number env x (step w)).0) [
          | inr (e, bad) ↦ absurd (ground arith)
          | inl (serial, got) ↦
              let t = env.now (serial_number env x (step w)).1.calls in
              let tmpl = ca_template common_name validity t in
              elim (Result-cases (x.create_certificate serial tmpl tmpl (x.public_of key) key)) [
                | inr (e, bad) ↦ absurd (ground arith)
                | inl (der, made) ↦
                    let (cert, parsed, raw, name, org, use_, no_ca, usage, dns, ips) =
                      law.parse-create serial tmpl tmpl (x.public_of key) key der made in
                    ground (arith, raw, parsed)
              ]
        ]
      ]

  pub files-new_ca :
      (common_name : Text) (validity : ℤ) (w : World)
      → (new_ca env x common_name validity w).1.files ≡ w.files
  unfolding new_ca serial_number
  files-new_ca common_name validity w = ground arith
