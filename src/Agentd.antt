-- ===== src/Agentd.antt =====
-- cmd/rexec-agentd/agentcmds.go: what the agent's administrator runs.
pub mod Minting
pub mod Serve
pub mod Stored
pub mod Steps
pub mod Initialised
pub mod Service
pub mod Platform
pub mod Manage
use remote_exec.Base.{
  ℕ, ◌*◌, Text, ◌<>◌, Bool, true, false, not, ◌&&◌, Option, none, some, List, [], ◌∷◌, ◌==◌,
  if◌then◌else◌,
}
use remote_exec.Base.Int.{ℤ, pos}
use remote_exec.Base.Dict.{Dict}
use remote_exec.Error.{Error, plain, wrap}
use remote_exec.Io.{ok, Action, Done, pure, raise, lift, on_error, ◌>>=◌, ◌>>◌}
use remote_exec.Io.World.{World, Env, step}
use remote_exec.Io.Calls.{Read, read_file, write_file, mkdir_all, hostname}
use remote_exec.Pki.Primitives.{Crypto}
use remote_exec.Pki.{
  Ca, SignRequest, hour, default_ca_validity, new_ca, key_pem, cert_pem, sign, new_csr,
  fingerprint_pem,
}
use remote_exec.Identity.{agent_id}
use remote_exec.Token.{Codec, issue}

-- `filepath.Join` of a cleaned directory and one name.
abbrev pub in_dir : Text → Text → Text
in_dir dir name = dir <> "/" <> name

-- The methods of `dataLayout`.
abbrev pub ca_cert_path : Text → Text
ca_cert_path dir = in_dir dir "ca.crt"

abbrev pub ca_key_path : Text → Text
ca_key_path dir = in_dir dir "ca.key"

abbrev pub server_cert_path : Text → Text
server_cert_path dir = in_dir dir "server.crt"

abbrev pub server_key_path : Text → Text
server_key_path dir = in_dir dir "server.key"

abbrev pub agent_id_path : Text → Text
agent_id_path dir = in_dir dir "agent.id"

abbrev pub tokens_path : Text → Text
tokens_path dir = in_dir dir "tokens.json"

abbrev pub policy_path : Text → Text
policy_path dir = in_dir dir "policy.yaml"

abbrev is_nil : Option Error → Bool
is_nil none = true
is_nil (some e) = false

module _ (env : Env) where
  -- Whether `os.Stat` of a file succeeds: as a read of it would.
  unfoldable pub stat : Text → Action World Bool
  unfolding read_file
  stat path w = let (r, w') = read_file env path w in (ok (is_nil r.failure), w')

  -- The loop of `writeFiles`, over the entries in the order in which they are visited.
  unfoldable pub write_files : List (Text × Text) → Action World Done
  write_files [] = pure tt
  write_files ((path, contents) ∷ rest) =
      on_error (wrap ("write " <> path <> ": ")) (write_file env path contents) >> write_files rest

module _ (env : Env) (x : Crypto) where
  abbrev dns_names : Text → List Text
  dns_names host = if host == "" then "localhost" ∷ [] else "localhost" ∷ host ∷ []

  abbrev pub server_request : Text → Text → SignRequest
  server_request csr_pem host = record {
    csr_pem = csr_pem;
    roles = [];
    validity = pos (365 * 24 * hour);
    client = false;
    dns_names = dns_names host;
    ips = "127.0.0.1" ∷ "::1" ∷ [];
  }

  -- `mintServerCert` returns the certificate and the key.
  unfoldable pub mint_server_cert : Ca x → Action World (Text × Text)
  unfolding hostname
  mint_server_cert ca = do
    (csr_pem, key) ← new_csr env x "rexec-agentd"
    host ← hostname env
    cert ← sign env x ca (server_request csr_pem host)
    pure (cert, key)

  abbrev pub existing : Text → Error
  existing dir = plain ("CA already exists at " <> ca_key_path dir <> " (use --force to overwrite)")

  abbrev pub report : Text → Text → Text → Text
  report dir id fp =
      "agent CA initialised\n  data dir:    " <> dir <> "\n  agent id:    " <> id
      <> "\n  fingerprint: " <> fp <> "\n"

  -- `ca init`, once the CA is stored.
  abbrev finish_init : (Dict Text → List (Text × Text)) → Text → Text → Ca x → Action World Text
  finish_init range dir id ca = do
    (server_cert, server_key) ← mint_server_cert ca
    write_files env
          (range ((server_cert_path dir, server_cert) ∷ (server_key_path dir, server_key) ∷ []))
        >>= λ stored. do fp ← lift (fingerprint_pem x server_cert); pure (report dir id fp)

  -- `ca init`, whose result is the text that it prints. `range` is the order in which the run-time
  -- visits a map.
  unfoldable pub ca_init :
      (ℕ → Text) → (Dict Text → List (Text × Text)) → Text → Bool → Action World Text
  ca_init uuid range dir force = do
    there ← stat env (ca_key_path dir)
    if there && not force
        then raise (existing dir)
        else mkdir_all env >>= λ made. do
          id ← agent_id env uuid (agent_id_path dir)
          ca ← new_ca env x ("rexec-agentd CA " <> id) default_ca_validity
          key ← lift (key_pem x ca)
          write_files env (range ((ca_cert_path dir, cert_pem x ca) ∷ (ca_key_path dir, key) ∷ []))
              >>= λ stored. finish_init range dir id ca

-- `token new`, whose result is what it writes to stdout.
unfoldable pub token_new : Env → Codec → Text → Text → ℤ → Action World Text
token_new env json dir role ttl = do
  value ← issue env json (tokens_path dir) role ttl
  pure (value <> "\n")
