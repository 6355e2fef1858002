-- ===== src/Tests/Started.antt =====
-- `ca init`, and the daemon that starts on what it wrote.
use remote_exec.Base.{
  ◌≡◌, refl, inl, ap, ◌∙◌, List, Text, text_dec, true, Option, none, some, [], ◌∷◌, ne_literal,
  arith, ◌&&◌, ◌==◌, if◌then◌else◌,
}
use remote_exec.Base.Dict.{lookup, insert, delete}
use remote_exec.Base.Trim.{IsSolid, trim_space, trim_left, trim_right, is_space}
use remote_exec.Error.{Error, plain, is_not_exist}
use remote_exec.Io.{Result, ok, err}
use remote_exec.Io.World.{World}
use remote_exec.Io.Calls.{hostname, read_file, write_file, mkdir_all, now}
use remote_exec.Identity.{agent_id, generate}
use remote_exec.Pki.{
  Ca, default_ca_validity, new_ca, new_csr, load_ca, key_pem, sign, parse_cert, fingerprint,
  fingerprint_pem, cert_pem, serial_number,
}
use remote_exec.Pki.Primitives.{Block, LoadsKeys}
use remote_exec.Pki.Pairs.{CarriesKey, IsPair}
use remote_exec.ClientConfig.{Tls}
use remote_exec.Pki.Kept.{new_ca-IsParsed, load_ca-IsParsed}
use remote_exec.Policy.{denied, evaluate}
use remote_exec.Agentd.{ca_init, stat, write_files, mint_server_cert, report}
use remote_exec.Agentd.Serve.{Agent, load_agent}
use remote_exec.Agentd.Serve.Starts.{Accepts, load_agent-ca_init}
use remote_exec.Tests.Coding.{join_all, code_text, split}
use remote_exec.Tests.Formats.{json}
use remote_exec.Tests.Forge.{
  crypto, crypto-IsLawful, der_of, cert_from, block_of, usage_text, key_usage_text, bool_text,
}
use remote_exec.Tests.Certificates.{ca}
use remote_exec.Tests.Restart.{no_policy, one_id}
use remote_exec.Tests.Data.{calm, start, in_order}

crypto-LoadsKeys : LoadsKeys crypto
crypto-LoadsKeys = record { parse-marshal = λ k der h. refl }

crypto-CarriesKey : CarriesKey crypto
crypto-CarriesKey = record { parse-request = λ name der k r made parsed. ground arith }

abbrev kind_in : Option Block → Text
kind_in none = ""
kind_in (some b) = b.kind

abbrev pair_verdict : Option Block → Option Block → Option Error
pair_verdict cert key =
    if kind_in cert == "CERTIFICATE" && kind_in key == "PRIVATE KEY"
    then none
    else some (plain "tls: no certificate with its key")

abbrev pool_verdict : Text → Option Block → Option (List Text)
pool_verdict pem cert = if kind_in cert == "CERTIFICATE" then some (pem ∷ []) else none

-- TLS that wants a certificate and a private key in PEM.
abbrev strict : Tls
strict = record {
  key_pair = λ cert key. pair_verdict (crypto.pem_decode cert) (crypto.pem_decode key);
  roots_of = λ pem. pool_verdict pem (crypto.pem_decode pem);
}

strict_pairs : (cert key : Text) → IsPair crypto cert key → strict.key_pair cert key ≡ none
unfolding text_dec
strict_pairs cert key p =
    let c : Block = record { kind = "CERTIFICATE"; bytes = p.der } in
    let k : Block = record { kind = "PRIVATE KEY"; bytes = p.key_der } in
    let at_cert : crypto.pem_decode cert ≡ some c =
      ap crypto.pem_decode p.cert_text ∙ crypto-IsLawful.decode-encode c in
    let at_key : crypto.pem_decode key ≡ some k =
      ap crypto.pem_decode p.key_text ∙ crypto-IsLawful.decode-encode k in
    ap (λ (b : Option Block). pair_verdict b (crypto.pem_decode key)) at_cert
    ∙ ap (λ (b : Option Block). pair_verdict (some c) b) at_key

strict_pools :
    (der : Text)
    → let pem = crypto.pem_encode (record { kind = "CERTIFICATE"; bytes = der }) in
      strict.roots_of pem ≡ some (pem ∷ [])
unfolding text_dec
strict_pools der =
    let b : Block = record { kind = "CERTIFICATE"; bytes = der } in
    ap (λ (o : Option Block). pool_verdict (crypto.pem_encode b) o)
      (crypto-IsLawful.decode-encode b)

strict-Accepts : Accepts crypto strict
strict-Accepts = record { pairs = strict_pairs; pools = λ cert der parsed. (_, strict_pools der) }

abbrev ca_of : Result (Ca crypto) → Ca crypto
ca_of (ok c) = c
ca_of (err e) = ca

abbrev minting : Result (Ca crypto) × World
minting = new_ca calm crypto "CA" default_ca_validity start

mints : minting ≡ (ok (ca_of minting.0), minting.1)
unfolding new_ca serial_number now der_of cert_from split join_all code_text usage_text
    key_usage_text bool_text
mints = refl

load_ca-IsParsed_example :
    load_ca crypto
      (cert_pem crypto (ca_of minting.0))
      (crypto.pem_encode (record { kind = "PRIVATE KEY"; bytes = "key" }))
    ≡ ok (ca_of minting.0)
unfolding key_pem
load_ca-IsParsed_example =
    load_ca-IsParsed crypto crypto-IsLawful crypto-LoadsKeys (ca_of minting.0)
      (crypto.pem_encode (record { kind = "PRIVATE KEY"; bytes = "key" }))
      (new_ca-IsParsed calm crypto crypto-IsLawful "CA" default_ca_validity start minting.1
        (ca_of minting.0) mints)
      refl

abbrev text_of : Result Text → Text
text_of (ok t) = t
text_of (err e) = ""

abbrev initialising : Result Text × World
initialising = ca_init calm crypto one_id in_order "d" true start

initialises : initialising ≡ (ok (text_of initialising.0), initialising.1)
unfolding ca_init stat read_file lookup text_dec mkdir_all agent_id generate is_not_exist trim_space
    trim_left trim_right is_space new_ca serial_number now key_pem cert_pem write_files write_file
    insert delete mint_server_cert new_csr hostname sign fingerprint_pem fingerprint parse_cert
    der_of cert_from block_of split join_all code_text usage_text key_usage_text bool_text
initialises = refl

solid : IsSolid "a1"
unfolding is_space
solid = (refl, (refl, tt))

no_policy_file : lookup "d/policy.yaml" initialising.1.files ≡ none
unfolding ca_init stat read_file lookup text_dec mkdir_all agent_id generate is_not_exist trim_space
    trim_left trim_right is_space new_ca serial_number now key_pem cert_pem write_files write_file
    insert delete mint_server_cert new_csr hostname sign fingerprint_pem fingerprint parse_cert
    der_of cert_from block_of split join_all code_text usage_text key_usage_text bool_text
no_policy_file = refl

load_agent-ca_init_example :
    (agent : Agent crypto) × (u : World) × (load_agent calm crypto strict json no_policy one_id "d"
        "1" initialising.1
      ≡ (ok agent, u))
    × (text_of initialising.0
        ≡ report calm crypto "d" agent.server.agent_id agent.server.fingerprint)
    × ((c : Text) → evaluate agent.server.policy c ≡ denied)
load_agent-ca_init_example =
    load_agent-ca_init calm crypto strict json no_policy one_id "d" "1" crypto-IsLawful
      crypto-LoadsKeys crypto-CarriesKey strict-Accepts (λ n. (solid, ne_literal "a1" "" refl))
      in_order (λ a b. inl refl) calm true start initialising.1 initialising.1
      (text_of initialising.0) initialises refl (λ n. refl) no_policy_file
