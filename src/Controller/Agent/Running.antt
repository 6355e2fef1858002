-- ===== src/Controller/Agent/Running.antt =====
-- From a join token to a command on the agent: `agent enroll`, then `exec run`.
use remote_exec.Base.{ℕ, ◌≡◌, ◌≢◌, Text, Bool, false, some, List, [], ◌∷◌}
use remote_exec.Base.Int.{ℤ}
use remote_exec.Base.Dict.{Dict}
use remote_exec.Io.{Result, ok, Action}
use remote_exec.Io.World.{World, Env}
use remote_exec.Pki.{parse_cert}
use remote_exec.Pki.Cert.{Certificate}
use remote_exec.Pki.Primitives.{Crypto, IsLawful}
use remote_exec.Policy.{Policy}
use remote_exec.Token.{Codec, consume}
use remote_exec.ClientConfig.{Config, Yaml, Tls}
use remote_exec.Execute.{Exit, exited, started, command_of}
use remote_exec.Proto.{EnrollRequest, EnrollResponse}
use remote_exec.AgentServer.{Host, emit, spec_of}
use remote_exec.Authz.{Peer, tls}
use remote_exec.Agentd.{tokens_path}
use remote_exec.Agentd.Serve.{Agent, load_agent}
use remote_exec.Controller.{Client, Remote, Options, parse_env, request, exec_run}
use remote_exec.Controller.Admitted.{RelaysRun, RunsFor, exec_run_admitted}
use remote_exec.Controller.Agent.{Flags, credential_of, agent_enroll}
use remote_exec.Controller.Agent.Enrolled.{Serves, agent_enroll-load_agent}
use remote_exec.Base.Dict.{lookup}

module _ (env : Env) (x : Crypto) (key_pairs : Tls) (json : Codec) (policy : Text → Result Policy)
    (uuid : ℕ → Text) (dir version : Text) where
  -- Both sides from the token to the command, with a cryptography that keeps its laws and a connection
  -- that carries the answers. After a successful `agent enroll` against a daemon loaded from its data directory, the token was consumed there with a role, and the credential file
  -- holds a certificate with which `exec run`, over a connection that does not fail, does what that
  -- role may: for "rex:operator" and "rex:admin" it shows what the command wrote and reports its exit
  -- code; for any other role it fails with PermissionDenied or Unauthenticated and shows nothing. The
  -- command is not empty, its variables are well-formed, and its process starts and exits with a code.
  pub enrolled_run :
      (law : IsLawful x) (agent : Agent x) (w w' : World)
      → load_agent env x key_pairs json policy uuid dir version w ≡ (ok agent, w')
      → {Conn : Type 0} (here : Env) (yaml : Yaml) (connect : Text → Action World Conn)
        (rpc : Conn → EnrollRequest → Action World EnrollResponse)
      → Serves rpc env x agent.server
      → (token cn : Text) (f : Flags) (v v' : World) (text : Text)
      → agent_enroll here x yaml connect rpc token cn f v ≡ (ok text, v')
      → {S : Type 0} (host : Host) (link : Peer → Remote S)
      → ((peer : Peer) → RelaysRun env x agent.server host peer (link peer))
      → (o : Options) (vars : Dict Text) (output : List (Bool × Text)) (ending : Bool → Exit)
        (code : ℤ) (c : Client S)
      → parse_env o.env_kv ≡ ok vars
      → o.command ≢ ""
      → ((peer : Peer)
          → host.launch (
              command_of host.environ host.range host.launch
                (emit host)
                (spec_of host (request (link peer) o vars "")))
            ≡ started output ending)
      → ending false ≡ exited code
      → (cfg : Config) × (t : Text) × (role : Text) × (cert : Certificate) × (u : World)
        × (u' : World) × (yaml.marshal cfg ≡ ok t)
        × (lookup (credential_of f) v'.files ≡ some t)
        × (parse_cert x cfg.client_cert ≡ ok cert)
        × (consume env json (tokens_path dir) token u ≡ (ok role, u'))
        × (let remote = link (tls (cert ∷ [])) in
            RunsFor role remote output code c (exec_run remote o c))
  enrolled_run law agent w w' loaded here yaml connect rpc serves token cn f v v' text h host link
        relays o vars output ending code c parsed named starts ends =
      let (cfg, t, role, cert, u, u', coded, stored, endpoints, pinned, certified, orgs, consumed) =
        agent_enroll-load_agent env x key_pairs json policy uuid dir version law agent w w' loaded
          here yaml connect rpc serves token cn f v v' text h in
      let peer = tls (cert ∷ []) in
      (
        cfg,
        t,
        role,
        cert,
        u,
        u',
        coded,
        stored,
        certified,
        consumed,
        exec_run_admitted env x agent.server host cert role orgs (link peer) (relays peer) o vars
            output ending code c parsed named (starts peer) ends,
      )
