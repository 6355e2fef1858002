-- ===== src/Transport.antt =====
-- internal/transport/transport.go: the Agent service over mTLS.
pub mod Served
use remote_exec.Base.{
  Text, ◌<>◌, Bool, true, false, Option, none, some, List, [], ◌∷◌, ◌==◌, if◌then◌else◌,
}
use remote_exec.Error.{Error, plain, wrap}
use remote_exec.Io.{
  Result, ok, err, Action, Done, with_error, bind, pure, lift, on_error, ◌>>=◌, ◌>>◌,
}
use remote_exec.Io.World.{World, Env}
use remote_exec.Pki.Primitives.{Crypto}
use remote_exec.Pki.{new_csr}
use remote_exec.Policy.{Policy}
use remote_exec.Authz.{Peer, Table, unary_interceptor, stream_interceptor}
use remote_exec.ClientConfig.{Config, Tls, TlsConfig, no_client_cert, verify_if_given, client_tls}
use remote_exec.Proto.{EnrollRequest, EnrollResponse, IdentityResponse, InfoResponse, ExecRequest}
use remote_exec.AgentServer.{
  Server, Host, Session, enroll_rpc, identity_rpc, info_rpc, run_stream, deploy,
}

module _ (tls : Tls) where
  abbrev server_pair : Option Error → Result Done
  server_pair none = ok tt
  server_pair (some e) = err (wrap "transport: server key pair: " e)

  abbrev client_roots : Option (List Text) → Result (List Text)
  client_roots none = err (plain "transport: invalid CA PEM")
  client_roots (some roots) = ok roots

  -- `ServerCreds`
  unfoldable pub server_creds : Text → Text → Text → Result TlsConfig
  server_creds ca_pem server_cert_pem server_key_pem =
      bind (server_pair (tls.key_pair server_cert_pem server_key_pem)) λ done.
        bind (client_roots (tls.roots_of ca_pem)) λ roots. ok (record {
          certificates = (server_cert_pem, server_key_pem) ∷ [];
          root_cas = none;
          client_cas = some roots;
          client_auth = verify_if_given;
          server_name = "";
          insecure_skip_verify = false;
          tls13_only = true;
        })

  abbrev named_as : Text → TlsConfig → TlsConfig
  named_as server_name c = if server_name == "" then c else record c { server_name = server_name }

  -- `ClientCreds`
  unfoldable pub client_creds : Config → Text → Result TlsConfig
  client_creds cfg server_name = bind (client_tls tls cfg) λ c. ok (named_as server_name c)

  -- `Dial`, with `grpc.NewClient` as a parameter.
  unfoldable pub dial :
      {Conn : Type 0} → (Text → TlsConfig → Result Conn) → Config → Text → Result Conn
  unfolding client_creds
  dial new_client cfg endpoint =
      bind (client_creds cfg "")
        λ creds. with_error (λ e. wrap (dial_prefix endpoint) e) (new_client endpoint creds)
    where
      dial_prefix : Text → Text
      dial_prefix endpoint = "transport: dial " <> endpoint <> ": "

-- `bootstrapCreds`
unfoldable pub bootstrap_creds : TlsConfig
bootstrap_creds = record {
  certificates = [];
  root_cas = none;
  client_cas = none;
  client_auth = no_client_cert;
  server_name = "";
  insecure_skip_verify = true;
  tls13_only = true;
}

-- `NewServer`: every call passes the interceptor of its kind on the way to its handler. The names
-- of the methods are those that the generated service description registers.
module _ (table : Table) (env : Env) (x : Crypto) (s : Server x) (host : Host) (peer : Peer) where
  unfoldable pub enroll_call : EnrollRequest → Action World EnrollResponse
  enroll_call req = unary_interceptor table peer "/rexec.v1.Agent/Enroll" (enroll_rpc env x s req)

  unfoldable pub identity_call : Action World IdentityResponse
  identity_call =
      unary_interceptor table peer "/rexec.v1.Agent/Identity" (pure (identity_rpc env x s))

  unfoldable pub info_call : Action World InfoResponse
  info_call = unary_interceptor table peer "/rexec.v1.Agent/Info" (pure (info_rpc env x s host))

  unfoldable pub run_call : ExecRequest → Action Session Done
  run_call req = stream_interceptor table peer "/rexec.v1.Agent/Run" (run_stream host req)

  unfoldable pub deploy_call : ExecRequest → Action Session Done
  deploy_call req =
      stream_interceptor table peer "/rexec.v1.Agent/Deploy" (deploy env host s.policy req)

-- The client's `Enroll`. `connect` is `dialBootstrap` and `rpc` the call over the connection.
module _ (env : Env) (x : Crypto) {Conn : Type 0} where
  -- `dialBootstrap`: the caller's dialer if there is one, else `grpc.NewClient`.
  unfoldable pub dial_bootstrap :
      Option (Text → Action World Conn)
      → (Text → TlsConfig → Result Conn)
      → Text
      → Action World Conn
  dial_bootstrap (some dialer) new_client endpoint = dialer endpoint
  dial_bootstrap none new_client endpoint =
      lift (with_error (wrap "transport: dial bootstrap: ") (new_client endpoint bootstrap_creds))

  unfoldable pub enroll :
      (Text → Action World Conn)
      → (Conn → EnrollRequest → Action World EnrollResponse)
      → Text
      → Text
      → Text
      → Action World Config
  enroll connect rpc endpoint token common_name = do
    (csr_pem, key_pem) ← new_csr env x common_name
    conn ← connect endpoint
    resp ←
        on_error (wrap "transport: enroll: ")
          (rpc conn (record { token = token; csr_pem = csr_pem }))
    pure (record {
      ca = resp.ca_pem;
      client_cert = resp.client_cert_pem;
      client_key = key_pem;
      endpoints = endpoint ∷ [];
      agent_id = resp.agent_id;
      fingerprint = resp.fingerprint;
    })
