-- ===== src/Tests/Formats.antt =====
-- Concrete formats for the examples, which stand in for encoding/json and for YAML.
use Prim.Native.String.{String}
use text.Mathlib.TextLemmas.{cons-append, cons≢nil}
use remote_exec.Base.{ℕ, zero, suc, ◌≡◌, ◌≢◌, refl, sym, ap, ◌∙◌, Text, false, List, [], ◌∷◌, arith}
use remote_exec.Base.Int.{ℤ, pos, negsuc}
use remote_exec.Error.{plain}
use remote_exec.Io.{Result, ok, err}
use remote_exec.Token.{Tokens, Codec, IsFaithful}
use remote_exec.ClientConfig.{Config, Yaml}
use remote_exec.Tests.Coding.{code_text, join_all, split, split-join_all}

unfoldable pub unary : ℕ → Text
unary zero = ""
unary (suc n) = String.◌∷◌ "1" (unary n)

unfoldable pub size : Text → ℕ
size String.[] = 0
size (String.◌∷◌ c s) = suc (size s)

size-unary : (n : ℕ) → size (unary n) ≡ n
unfolding size unary
size-unary zero = refl
size-unary (suc n) = ap suc (size-unary n)

unfoldable pub sign_and_size : ℤ → Text × Text
unfolding unary
sign_and_size (pos n) = ("", unary n)
sign_and_size (negsuc n) = ("-", unary n)

unfoldable pub signed : Text → ℕ → ℤ
signed String.[] n = pos n
signed (String.◌∷◌ c s) n = negsuc n

abbrev number : Text → Text → ℤ
number sign digits = signed sign (size digits)

number_back : (i : ℤ) → number (sign_and_size i).0 (sign_and_size i).1 ≡ i
unfolding sign_and_size signed
number_back (pos n) = ap pos (size-unary n)
number_back (negsuc n) = ap negsuc (size-unary n)

unfoldable pub fields : Tokens → List Text
fields [] = []
fields ((value, rec) ∷ m) =
    value ∷ rec.role ∷ (sign_and_size rec.expiry).0 ∷ (sign_and_size rec.expiry).1 ∷ fields m

unfoldable pub entries : List Text → Tokens
entries (value ∷ role ∷ sign ∷ digits ∷ rest) =
    (value, record { role = role; expiry = number sign digits }) ∷ entries rest
entries _ = []

entries-fields : (m : Tokens) → entries (fields m) ≡ m
unfolding entries fields
entries-fields [] = refl
entries-fields ((value, rec) ∷ m) =
    λ i. (value, record { role = rec.role; expiry = number_back rec.expiry i }) ∷ entries-fields m i

abbrev behind_first : List Text → Tokens
behind_first [] = []
behind_first (first ∷ rest) = entries rest

-- The list starts with an empty text, so that no encoding is empty.
abbrev pub json : Codec
json = record {
  encode = λ m. ok (join_all ("" ∷ fields m));
  decode = λ t. ok (behind_first (split false t));
}

text_of : Result Text → Text
text_of (ok t) = t
text_of (err e) = ""

starts : (l : List Text) → join_all ("" ∷ l) ≢ ""
unfolding join_all code_text
starts l e = cons≢nil (sym (cons-append "." "" (join_all l)) ∙ e)

never : (m : Tokens) → json.encode m ≢ ok ""
unfolding text_of
never m h = starts (fields m) (ap text_of h)

pub json-IsFaithful : IsFaithful json
json-IsFaithful = record {
  decode-encode =
      λ m t h. (m, ground (arith, split-join_all ("" ∷ fields m), entries-fields m), λ k. refl);
  encode-ne-empty = never;
}

abbrev parts : Config → List Text
parts c = c.ca ∷ c.client_cert ∷ c.client_key ∷ c.agent_id ∷ c.fingerprint ∷ c.endpoints

abbrev config_of : List Text → Result Config
config_of (ca ∷ client_cert ∷ client_key ∷ agent_id ∷ fingerprint ∷ endpoints) = ok (record {
  ca = ca;
  client_cert = client_cert;
  client_key = client_key;
  endpoints = endpoints;
  agent_id = agent_id;
  fingerprint = fingerprint;
})
config_of _ = err (plain "short")

abbrev pub yaml : Yaml
yaml = record { marshal = λ c. ok (join_all (parts c)); unmarshal = λ t. config_of (split false t) }
