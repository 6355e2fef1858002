-- ===== src/Tests/Restart.antt =====
-- A daemon loaded from its data directory, before and after a restart.
use remote_exec.Base.{ℕ, ◌≡◌, refl, Text, text_dec, none, some, [], ◌∷◌}
use remote_exec.Base.Int.{pos}
use remote_exec.Base.Dict.{lookup}
use remote_exec.Base.Trim.{trim_space, trim_left, trim_right, is_space}
use remote_exec.Error.{is_not_exist}
use remote_exec.Io.{Result, ok, err}
use remote_exec.Io.World.{World}
use remote_exec.Io.Calls.{hostname, read_file}
use remote_exec.Pki.{parse_cert, load_ca, fingerprint, fingerprint_pem}
use remote_exec.Identity.{agent_id}
use remote_exec.Policy.{Policy, load, default}
use remote_exec.ClientConfig.{Tls}
use remote_exec.Transport.{server_creds}
use remote_exec.Agentd.Serve.{Agent, load_agent}
use remote_exec.Tests.Coding.{join_all, code_text, split}
use remote_exec.Tests.Formats.{json}
use remote_exec.Tests.Forge.{
  crypto, der_of, cert_from, block_of, usage_text, key_usage_text, bool_text,
}
use remote_exec.Tests.Certificates.{server_cert, service}
use remote_exec.Tests.Tokens.{encoded}
use remote_exec.Tests.Data.{calm}

abbrev pub tls : Tls
tls = record { key_pair = λ cert key. none; roots_of = λ pem. some (pem ∷ []) }

abbrev pub no_policy : Text → Result Policy
no_policy t = ok (record { destructive = ""; allow = []; deny = [] })

abbrev pub one_id : ℕ → Text
one_id n = "a1"

abbrev pub installed : World
installed = record {
  files =
      ("d/ca.crt", server_cert)
      ∷ ("d/ca.key", crypto.pem_encode (record { kind = "PRIVATE KEY"; bytes = "key" }))
      ∷ ("d/server.crt", server_cert)
      ∷ ("d/server.key", "key")
      ∷ ("d/agent.id", "a1")
      ∷ ("d/tokens.json", encoded (("t", record { role = "a"; expiry = pos 30 }) ∷ []))
      ∷ [];
  calls = 0;
}

abbrev pub agent_of : Result (Agent crypto) → Agent crypto
agent_of (ok a) = a
agent_of (err e) = record {
  server = record {
    enroller = service;
    agent_id = "";
    fingerprint = "";
    hostname = "";
    version = "";
    policy = record { destructive = ""; allow = []; deny = [] };
  };
  creds = remote_exec.Transport.bootstrap_creds;
}

abbrev pub loading : Result (Agent crypto) × World
loading = load_agent calm crypto tls json no_policy one_id "d" "1" installed

abbrev pub agent : Agent crypto
agent = agent_of loading.0

pub loads : loading ≡ (ok agent, loading.1)
unfolding load_agent read_file lookup text_dec load_ca parse_cert block_of split join_all code_text
    der_of cert_from usage_text key_usage_text bool_text agent_id is_not_exist trim_space trim_left
    trim_right is_space fingerprint_pem fingerprint load default hostname server_creds
loads = refl
