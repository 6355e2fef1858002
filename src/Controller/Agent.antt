-- ===== src/Controller/Agent.antt =====
-- cmd/rexec/controllercmds.go: dialling the agent, and the commands `agent enroll`, `agent identity`
-- and `agent info`. What a command prints is its result.
pub mod Pinned
pub mod Enrolled
pub mod Running
use remote_exec.Base.{
  Text, ◌<>◌, Bool, true, not, ◌&&◌, Option, none, some, List, [], ◌∷◌, ◌==◌, if◌then◌else◌,
}
use remote_exec.Error.{Error, plain}
use remote_exec.Io.{Result, ok, err, Action, pure, raise, lift, ◌>>=◌, ◌>>◌}
use remote_exec.Io.World.{World, Env, step}
use remote_exec.Io.Calls.{hostname}
use remote_exec.Pki.Primitives.{Crypto}
use remote_exec.ClientConfig.{Config, Yaml, Tls, TlsConfig, load, save}
use remote_exec.Proto.{EnrollRequest, EnrollResponse, IdentityResponse, InfoResponse}
use remote_exec.Transport.{dial, enroll}

-- `defaultControllerConfig`; `home` is what `os.UserHomeDir` returned.
unfoldable pub default_controller_config : Result Text → Text
default_controller_config (err e) = ".rexec/config.yaml"
default_controller_config (ok home) =
    if home == "" then ".rexec/config.yaml" else home <> "/.rexec/config.yaml"

-- `credentialFlag`
unfoldable pub credential_flag : Result Text → Text → Text
unfolding default_controller_config
credential_flag home v = if v == "" then default_controller_config home else v

-- The flags that the root passes on, and the home directory.
pub record Flags : Type 0 where
  pub home : Result Text
  pub credential : Text
  pub endpoint : Text

abbrev no_endpoint : Text → Error
no_endpoint path = plain ("no endpoint in " <> path <> "; pass --endpoint")

abbrev pub credential_of : Flags → Text
credential_of f = credential_flag f.home f.credential

-- The endpoint of `dialAgent`: the flag's, else the first one of the credential.
abbrev pinned : List Text → Flags → Result Text
pinned [] f = err (no_endpoint (credential_of f))
pinned (e ∷ _) f = ok e

unfoldable pub endpoint_of : Config → Flags → Result Text
endpoint_of cfg f = if f.endpoint == "" then pinned cfg.endpoints f else ok f.endpoint

abbrev pub mismatch : Config → IdentityResponse → Error
mismatch cfg resp = plain (
    "fingerprint mismatch: pinned " <> cfg.fingerprint <> ", got " <> resp.fingerprint
    <> " (possible MITM)")

abbrev pub identity_text : IdentityResponse → Text
identity_text resp =
    "agent id:    " <> resp.agent_id <> "\n  fingerprint: " <> resp.fingerprint <> " (pin OK)\n"

-- The re-assertion of the pin.
unfoldable pub check_pin : Config → IdentityResponse → Result Text
check_pin cfg resp =
    if not (cfg.fingerprint == "") && not (resp.fingerprint == cfg.fingerprint)
    then err (mismatch cfg resp)
    else ok (identity_text resp)

abbrev info_text : InfoResponse → Text
info_text resp =
    "os:       " <> resp.os <> "/" <> resp.arch <> "\n  hostname: " <> resp.hostname
    <> "\n  version:  " <> resp.version <> "\n"

-- `--cn`, or the host's name.
abbrev named : Env → Text → Action World Text
named env common_name =
    if common_name == ""
    then (hostname env >>= λ host. pure ("rexec@" <> host))
    else pure common_name

abbrev enrolled_text : Config → Flags → Text
enrolled_text cfg f =
    "enrolled with agent "
    <> cfg.agent_id
    <> "\n  fingerprint: "
    <> cfg.fingerprint
    <> "\n  credential:  "
    <> credential_of f
    <> "\n"

module _ (env : Env) (yaml : Yaml) (tls : Tls) {Conn : Type 0} where
  -- `dialAgent`; `new_client` is `grpc.NewClient`.
  unfoldable pub dial_agent : (Text → TlsConfig → Result Conn) → Flags → Action World Conn
  dial_agent new_client f = do
    cfg ← load env yaml (credential_of f)
    endpoint ← lift (endpoint_of cfg f)
    lift (dial tls new_client cfg endpoint)

  -- `agentIdentityCmd`; `rpc` is the call of Identity over a connection.
  unfoldable pub agent_identity :
      (Text → TlsConfig → Result Conn)
      → (Conn → Action World IdentityResponse)
      → Flags
      → Action World Text
  agent_identity new_client rpc f = do
    cfg ← load env yaml (credential_of f)
    conn ← dial_agent new_client f
    resp ← rpc conn
    lift (check_pin cfg resp)

  -- `agentInfoCmd`
  unfoldable pub agent_info :
      (Text → TlsConfig → Result Conn)
      → (Conn → Action World InfoResponse)
      → Flags
      → Action World Text
  agent_info new_client rpc f = do
    conn ← dial_agent new_client f
    resp ← rpc conn
    pure (info_text resp)

module _ (env : Env) (x : Crypto) (yaml : Yaml) {Conn : Type 0} where
  -- `agentEnrollCmd`; `connect` is `dialBootstrap` and `rpc` the call of Enroll over a connection.
  unfoldable pub agent_enroll :
      (Text → Action World Conn)
      → (Conn → EnrollRequest → Action World EnrollResponse)
      → Text
      → Text
      → Flags
      → Action World Text
  agent_enroll connect rpc token common_name f =
      if f.endpoint == "" then raise (plain "--endpoint is required to enroll") else do
        cn ← named env common_name
        cfg ← enroll env x connect rpc f.endpoint token cn
        save env yaml cfg (credential_of f) >>= λ done. pure (enrolled_text cfg f)
