-- ===== src/Pki.antt =====
-- internal/pki/pki.go: the agent's certificate authority. A CSR's signature check takes the
-- decoded CSR's text.
pub mod Cert
pub mod Primitives
pub mod Leaves
pub mod Kept
pub mod Pairs
use remote_exec.Base.{
  ℕ, suc, ◌*◌, ◌^◌, Text, Bool, true, false, Option, none, some, List, [], ◌∷◌, if◌then◌else◌,
}
use remote_exec.Base.Int.{ℤ, pos, negsuc, ◌+ℤ◌}
use remote_exec.Error.{Sentinel, Error, sentinel, plain, wrap}
use remote_exec.Io.{
  Result, ok, err, Action, Done, with_error, pure, raise, lift, on_error, bind, ◌>>=◌, ◌>>◌,
}
use remote_exec.Io.World.{World, Env, step}
use remote_exec.Io.Calls.{now}
use Cert.{Certificate, client_auth, server_auth, cert_sign, crl_sign, digital_signature}
use Primitives.{Request, Block, Crypto}

abbrev pub block_cert : Text
block_cert = "CERTIFICATE"

abbrev block_key : Text
block_key = "PRIVATE KEY"

abbrev block_csr : Text
block_csr = "CERTIFICATE REQUEST"

abbrev pub hour : ℕ
hour = 3600000000000

abbrev pub default_ca_validity : ℤ
default_ca_validity = pos (10 * 365 * 24 * hour)

abbrev pub default_leaf_validity : ℤ
default_leaf_validity = pos (24 * hour)

-- `now.Add(-time.Minute)` adds this.
abbrev minus_minute : ℤ
minus_minute = negsuc 59999999999

abbrev invalid_pem : Error
invalid_pem = sentinel Sentinel.invalid_pem

pub record SignRequest : Type 0 where
  pub csr_pem : Text
  pub roles : List Text
  pub validity : ℤ
  pub client : Bool
  pub dns_names : List Text
  pub ips : List Text

-- The template of a self-signed CA.
abbrev ca_template : Text → ℤ → ℤ → Certificate
ca_template common_name validity t = record {
  raw = "";
  common_name = common_name;
  organization = [];
  not_before = t +ℤ minus_minute;
  not_after = t +ℤ validity;
  key_usage = cert_sign ∷ crl_sign ∷ [];
  basic_constraints_valid = true;
  is_ca = true;
  max_path_len_zero = true;
  usages = [];
  dns_names = [];
  ips = [];
}

-- The template of a leaf.
abbrev pub leaf_template : SignRequest → Request → ℤ → Certificate
leaf_template req csr t = record {
  raw = "";
  common_name = csr.common_name;
  organization = req.roles;
  not_before = t +ℤ minus_minute;
  not_after = t +ℤ req.validity;
  key_usage = digital_signature ∷ [];
  basic_constraints_valid = false;
  is_ca = false;
  max_path_len_zero = false;
  usages = (if req.client then client_auth else server_auth) ∷ [];
  dns_names = req.dns_names;
  ips = req.ips;
}

abbrev verified : Option Error → Result Done
verified none = ok tt
verified (some e) = err (wrap "pki: CSR signature: " e)

abbrev or_invalid : {A : Type 0} → Option A → Result A
or_invalid none = err invalid_pem
or_invalid (some a) = ok a

module _ (x : Crypto) where
  open x use {Key}

  pub record Ca : Type 0 where
    pub cert : Certificate
    pub key : Key

  -- `ParseCert`
  unfoldable pub parse_cert : Text → Result Certificate
  parse_cert cert_pem =
      bind (or_invalid (x.pem_decode cert_pem))
        λ block. with_error (wrap "pki: parse cert: ") (x.parse_certificate block.bytes)

  abbrev ed25519_only : Option Key → Result Key
  ed25519_only none = err (plain "pki: CA key is not Ed25519")
  ed25519_only (some key) = ok key

  -- `LoadCA`
  unfoldable pub load_ca : Text → Text → Result Ca
  unfolding parse_cert
  load_ca cert_pem key_pem = bind (parse_cert cert_pem) λ cert.
      bind (or_invalid (x.pem_decode key_pem)) λ block.
        bind (with_error (wrap "pki: parse CA key: ") (x.parse_key block.bytes))
          λ parsed. bind (ed25519_only parsed) λ key. ok (record { cert = cert; key = key })

  -- `CertPEM`
  unfoldable pub cert_pem : Ca → Text
  cert_pem ca = x.pem_encode (record { kind = block_cert; bytes = ca.cert.raw })

  -- `KeyPEM`
  unfoldable pub key_pem : Ca → Result Text
  key_pem ca =
      bind (with_error (wrap "pki: marshal CA key: ") (x.marshal_key ca.key))
        λ der. ok (x.pem_encode (record { kind = block_key; bytes = der }))

  -- `Fingerprint`
  unfoldable pub fingerprint : Certificate → Text
  fingerprint cert = x.sha256_hex cert.raw

  -- `FingerprintPEM`
  unfoldable pub fingerprint_pem : Text → Result Text
  unfolding parse_cert fingerprint
  fingerprint_pem pem_ = bind (parse_cert pem_) λ cert. ok (fingerprint cert)

module _ (env : Env) (x : Crypto) where
  -- A call whose answer depends on when it is made.
  abbrev drawn : {A : Type 0} → (ℕ → Result A) → Action World A
  drawn f w = (f w.calls, step w)

  unfoldable pub serial_number : Action World ℕ
  serial_number = on_error (wrap "pki: serial: ") (drawn (λ call. x.random_int call (2 ^ 128)))

  -- `NewCA`
  unfoldable pub new_ca : Text → ℤ → Action World (Ca x)
  unfolding now
  new_ca common_name validity = do
    key ← on_error (wrap "pki: generate CA key: ") (drawn x.generate_key)
    serial ← serial_number
    t ← now env
    let tmpl = ca_template common_name validity t
    der ← lift (
        with_error (wrap "pki: create CA cert: ")
          (x.create_certificate serial tmpl tmpl (x.public_of key) key))
    cert ← lift (with_error (wrap "pki: parse CA cert: ") (x.parse_certificate der))
    pure (record { cert = cert; key = key })

  -- `Sign`
  unfoldable pub sign : Ca x → SignRequest → Action World Text
  unfolding now
  sign ca req = do
    block ← lift (or_invalid (x.pem_decode req.csr_pem))
    csr ← lift (with_error (wrap "pki: parse CSR: ") (x.parse_request block.bytes))
    lift (verified (x.check_signature block.bytes)) >>= λ _. do
      serial ← serial_number
      t ← now env
      der ← lift (
          with_error (wrap "pki: sign leaf: ")
            (x.create_certificate serial (leaf_template req csr t) ca.cert csr.public_key ca.key))
      pure (x.pem_encode (record { kind = block_cert; bytes = der }))

  -- `NewCSR` returns the CSR and the key.
  unfoldable pub new_csr : Text → Action World (Text × Text)
  new_csr common_name = do
    key ← on_error (wrap "pki: generate key: ") (drawn x.generate_key)
    csr_der ← lift (with_error (wrap "pki: create CSR: ") (x.create_request common_name key))
    key_der ← lift (with_error (wrap "pki: marshal key: ") (x.marshal_key key))
    pure (
      x.pem_encode (record { kind = block_csr; bytes = csr_der }),
      x.pem_encode (record { kind = block_key; bytes = key_der }),
    )
