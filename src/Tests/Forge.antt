-- ===== src/Tests/Forge.antt =====
-- A concrete cryptography for the examples, which protects nothing.
use Prim.Native.String.{String}
use remote_exec.Base.{
  ◌≡◌, refl, Text, Bool, true, false, Option, none, some, List, [], ◌∷◌, map, ap, ◌∙◌, arith,
}
use remote_exec.Base.Int.{pos}
use remote_exec.Error.{plain}
use remote_exec.Io.{Result, ok, err}
use remote_exec.Pki.Cert.{
  Certificate, Usage, KeyUsage, client_auth, server_auth, cert_sign, crl_sign, digital_signature,
}
use remote_exec.Pki.Primitives.{Block, Crypto, IsLawful}
use remote_exec.Tests.Coding.{join_all, split, split-join_all}

unfoldable pub usage_text : Usage → Text
usage_text client_auth = ""
usage_text server_auth = "s"

unfoldable pub usage_back : Text → Usage
usage_back String.[] = client_auth
usage_back (String.◌∷◌ c s) = server_auth

unfoldable pub key_usage_text : KeyUsage → Text
key_usage_text cert_sign = ""
key_usage_text crl_sign = "l"
key_usage_text digital_signature = "di"

unfoldable pub short : Text → KeyUsage
short String.[] = crl_sign
short (String.◌∷◌ c s) = digital_signature

unfoldable pub key_usage_back : Text → KeyUsage
unfolding short
key_usage_back String.[] = cert_sign
key_usage_back (String.◌∷◌ c s) = short s

unfoldable pub bool_text : Bool → Text
bool_text true = "t"
bool_text false = ""

unfoldable pub bool_back : Text → Bool
bool_back String.[] = false
bool_back (String.◌∷◌ c s) = true

usages_back : (l : List Usage) → map usage_back (map usage_text l) ≡ l
unfolding usage_back usage_text
usages_back [] = refl
usages_back (client_auth ∷ l) = ap (λ (m : List Usage). client_auth ∷ m) (usages_back l)
usages_back (server_auth ∷ l) = ap (λ (m : List Usage). server_auth ∷ m) (usages_back l)

key_usages_back : (l : List KeyUsage) → map key_usage_back (map key_usage_text l) ≡ l
unfolding key_usage_back key_usage_text
key_usages_back [] = refl
key_usages_back (cert_sign ∷ l) = ap (λ (m : List KeyUsage). cert_sign ∷ m) (key_usages_back l)
key_usages_back (crl_sign ∷ l) = ap (λ (m : List KeyUsage). crl_sign ∷ m) (key_usages_back l)
key_usages_back (digital_signature ∷ l) =
    ap (λ (m : List KeyUsage). digital_signature ∷ m) (key_usages_back l)

bool_round : (b : Bool) → bool_back (bool_text b) ≡ b
unfolding bool_back bool_text
bool_round true = refl
bool_round false = refl

-- A certificate without its times, as text.
unfoldable pub der_of : Certificate → Text
der_of c = join_all (
    c.common_name
    ∷ join_all c.organization
    ∷ join_all (map key_usage_text c.key_usage)
    ∷ bool_text c.is_ca
    ∷ join_all (map usage_text c.usages)
    ∷ join_all c.dns_names
    ∷ join_all c.ips
    ∷ [])

unfoldable pub cert_from : Text → List Text → Result Certificate
cert_from raw (name ∷ organization ∷ key_usage ∷ ca ∷ usages ∷ dns ∷ ips ∷ []) = ok (record {
  raw = raw;
  common_name = name;
  organization = split false organization;
  not_before = pos 0;
  not_after = pos 0;
  key_usage = map key_usage_back (split false key_usage);
  basic_constraints_valid = false;
  is_ca = bool_back ca;
  max_path_len_zero = false;
  usages = map usage_back (split false usages);
  dns_names = split false dns;
  ips = split false ips;
})
cert_from raw _ = err (plain "malformed certificate")

unfoldable pub block_of : List Text → Option Block
block_of (kind ∷ bytes ∷ []) = some (record { kind = kind; bytes = bytes })
block_of _ = none

-- Certificates that anyone could forge, with one key and requests of one name.
abbrev pub crypto : Crypto
crypto = record {
  Key = Unit {0};
  generate_key = λ call. ok tt;
  public_of = λ key. "public";
  random_int = λ call limit. ok call;
  pem_decode = λ t. block_of (split false t);
  pem_encode = λ b. join_all (b.kind ∷ b.bytes ∷ []);
  create_certificate = λ serial template parent public key. ok (der_of template);
  parse_certificate = λ der. cert_from der (split false der);
  create_request = λ name key. ok name;
  parse_request = λ der. ok (record { common_name = der; public_key = "public" });
  check_signature = λ der. none;
  marshal_key = λ key. ok "key";
  parse_key = λ der. ok (some tt);
  sha256_hex = λ der. der;
}

created :
    (template : Certificate) (der : Text)
    → ok (der_of template) ≡ ok der
    → (cert : Certificate) × (crypto.parse_certificate der ≡ ok cert)
      × (cert.raw ≡ der)
      × (cert.common_name ≡ template.common_name)
      × (cert.organization ≡ template.organization)
      × (cert.key_usage ≡ template.key_usage)
      × (cert.is_ca ≡ template.is_ca)
      × (cert.usages ≡ template.usages)
      × (cert.dns_names ≡ template.dns_names)
      × (cert.ips ≡ template.ips)
unfolding der_of cert_from
created c der h = (
  record {
    raw = der;
    common_name = c.common_name;
    organization = split false (join_all c.organization);
    not_before = pos 0;
    not_after = pos 0;
    key_usage = map key_usage_back (split false (join_all (map key_usage_text c.key_usage)));
    basic_constraints_valid = false;
    is_ca = bool_back (bool_text c.is_ca);
    max_path_len_zero = false;
    usages = map usage_back (split false (join_all (map usage_text c.usages)));
    dns_names = split false (join_all c.dns_names);
    ips = split false (join_all c.ips);
  },
  ground (
    arith,
    split-join_all (
        c.common_name
        ∷ join_all c.organization
        ∷ join_all (map key_usage_text c.key_usage)
        ∷ bool_text c.is_ca
        ∷ join_all (map usage_text c.usages)
        ∷ join_all c.dns_names
        ∷ join_all c.ips
        ∷ []),
  ),
  refl,
  refl,
  split-join_all c.organization,
  ap (map key_usage_back) (split-join_all (map key_usage_text c.key_usage))
      ∙ key_usages_back c.key_usage,
  bool_round c.is_ca,
  ap (map usage_back) (split-join_all (map usage_text c.usages)) ∙ usages_back c.usages,
  split-join_all c.dns_names,
  split-join_all c.ips,
)

pem_round : (b : Block) → crypto.pem_decode (crypto.pem_encode b) ≡ some b
unfolding block_of
pem_round b = ground (arith, split-join_all (b.kind ∷ b.bytes ∷ []))

pub crypto-IsLawful : IsLawful crypto
crypto-IsLawful = record {
  decode-encode = pem_round;
  parse-create = λ serial template parent public key der h. created template der h;
}
