-- ===== src/Pki/Primitives.antt =====
-- The cryptography and the encodings that internal/pki calls: crypto/ed25519, crypto/x509,
-- encoding/pem, crypto/sha256 and encoding/hex. Their operations are the fields of a parameter;
-- what the program relies on of them is stated below, as laws that a theorem may ask for.
use remote_exec.Base.{ℕ, ◌≡◌, Text, Option, some}
use remote_exec.Error.{Error}
use remote_exec.Io.{Result, ok}
use remote_exec.Pki.Cert.{Certificate}

-- `x509.CertificateRequest`: its subject's common name and the public key that it carries.
pub record Request : Type 0 where
  pub common_name : Text
  pub public_key : Text

-- `pem.Block`
pub record Block : Type 0 where
  pub kind : Text
  pub bytes : Text

pub record Crypto : Type 1 where
  pub Key : Type 0
  -- `ed25519.GenerateKey`: the key drawn at a call, whose `Public()` is `public_of`
  pub generate_key : ℕ → Result Key
  pub public_of : Key → Text
  -- `rand.Int` below a limit, at a call
  pub random_int : ℕ → ℕ → Result ℕ
  pub pem_decode : Text → Option Block
  pub pem_encode : Block → Text
  -- `CreateCertificate`: serial, template, parent, public key and signing key
  pub create_certificate : ℕ → Certificate → Certificate → Text → Key → Result Text
  pub parse_certificate : Text → Result Certificate
  pub create_request : Text → Key → Result Text
  pub parse_request : Text → Result Request
  pub check_signature : Text → Option Error
  pub marshal_key : Key → Result Text
  -- the key of a PKCS#8 text, `none` if it is of another kind than Ed25519
  pub parse_key : Text → Result (Option Key)
  -- `hex.EncodeToString` of `sha256.Sum256`
  pub sha256_hex : Text → Text

-- The documented behaviour that theorems rely on.
pub record IsLawful (c : Crypto) : Type 0 where
  -- what was encoded is the first block that is decoded
  pub decode-encode : (b : Block) → c.pem_decode (c.pem_encode b) ≡ some b
  -- a certificate that was created parses to one with the names, the usages and the kind of its
  -- template (its times are rounded)
  pub parse-create :
      (serial : ℕ) (template parent : Certificate) (public : Text) (key : c.Key) (der : Text)
      → c.create_certificate serial template parent public key ≡ ok der
      → (cert : Certificate) × (c.parse_certificate der ≡ ok cert)
        × (cert.raw ≡ der)
        × (cert.common_name ≡ template.common_name)
        × (cert.organization ≡ template.organization)
        × (cert.key_usage ≡ template.key_usage)
        × (cert.is_ca ≡ template.is_ca)
        × (cert.usages ≡ template.usages)
        × (cert.dns_names ≡ template.dns_names)
        × (cert.ips ≡ template.ips)

-- PKCS#8: a key that was marshalled parses to itself.
pub record LoadsKeys (c : Crypto) : Type 0 where
  pub parse-marshal :
      (k : c.Key) (der : Text) → c.marshal_key k ≡ ok der → c.parse_key der ≡ ok (some k)
