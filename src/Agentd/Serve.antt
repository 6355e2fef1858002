-- ===== src/Agentd/Serve.antt =====
-- cmd/rexec-agentd/agentcmds.go: what `serveAgent` assembles from the data directory before it
-- listens.
pub mod Redeemed
pub mod Starts
use remote_exec.Base.{Text, ◌<>◌, Option, none, some}
use remote_exec.Error.{Error, wrap}
use remote_exec.Io.{Result, ok, err, Action, Done, pure, lift, on_error, ◌>>=◌, ◌>>◌}
use remote_exec.Io.World.{World, Env}
use remote_exec.Io.Calls.{hostname, Read, read_file, attempt}
use remote_exec.Pki.Primitives.{Crypto}
use remote_exec.Pki.{load_ca, fingerprint_pem, default_leaf_validity}
use remote_exec.Identity.{agent_id}
use remote_exec.Token.{Codec, consume}
use remote_exec.Policy.{Policy, load}
use remote_exec.Policy.Grants.{Grants, new_grants}
use remote_exec.Enroll.{Service}
use remote_exec.AgentServer.{Server}
use remote_exec.ClientConfig.{Tls, TlsConfig}
use remote_exec.Transport.{server_creds}
use remote_exec.Agentd.{
  ca_cert_path, ca_key_path, server_cert_path, server_key_path, agent_id_path, tokens_path,
  policy_path,
}

abbrev contents_or : Option Error → Text → Result Text
contents_or none t = ok t
contents_or (some e) t = err e

-- What `serveAgent` hands to gRPC.
pub record Agent (x : Crypto) : Type 0 where
  pub server : Server x
  pub creds : TlsConfig

module _ (env : Env) (x : Crypto) (tls : Tls) (json : Codec) (yaml : Text → Result Policy) where
  abbrev pub read_or : Text → Text → Action World Text
  read_or prefix path =
      on_error (wrap prefix)
        (λ w. let (r, w') = read_file env path w in (contents_or r.failure r.contents, w'))

  -- `serveAgent`, up to `net.Listen`; the grants that it makes are `new_grants`.
  unfoldable pub load_agent : (Prim.Native.Nat.ℕ → Text) → Text → Text → Action World (Agent x)
  load_agent uuid dir version = do
    ca_cert ← read_or "read CA (run `rexec-agentd ca init` first): " (ca_cert_path dir)
    ca_key ← read_or "read CA key: " (ca_key_path dir)
    ca ← lift (load_ca x ca_cert ca_key)
    server_cert ← read_or "read server cert: " (server_cert_path dir)
    server_key ← read_or "read server key: " (server_key_path dir)
    id ← agent_id env uuid (agent_id_path dir)
    fp ← lift (fingerprint_pem x server_cert)
    pol ← load env yaml (policy_path dir)
    host ← hostname env
    creds ← lift (server_creds tls ca_cert server_cert server_key)
    pure (record {
      server = record {
        enroller = record {
          ca = ca;
          server_cert_pem = server_cert;
          agent_id = id;
          tokens = record { consume = consume env json (tokens_path dir) };
          leaf_validity = default_leaf_validity;
        };
        agent_id = id;
        fingerprint = fp;
        hostname = host;
        version = version;
        policy = pol;
      };
      creds = creds;
    })

  -- `net.Listen`; which address is free is the run-time's business.
  abbrev listening : Text → Action World Done
  listening address = on_error (wrap ("listen " <> address <> ": ")) (attempt env)

  -- `serveAgent`, up to its `select`.
  unfoldable pub ready : (Prim.Native.Nat.ℕ → Text) → Text → Text → Text → Action World (Agent x)
  ready uuid dir address version = do
    agent ← load_agent uuid dir version
    listening address
    pure agent
