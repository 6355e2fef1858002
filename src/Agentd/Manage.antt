-- ===== src/Agentd/Manage.antt =====
-- cmd/rexec-agentd/agentcmds.go: the flags that every subcommand inherits; and
-- cmd/rexec-agentd/servicecmds.go: the service that its subcommands manage.
pub mod Settings
use remote_exec.Base.{Text, ◌<>◌, Bool, true, false, ◌||◌, List, [], ◌∷◌, ◌==◌, if◌then◌else◌}
use remote_exec.Io.{Result, ok, err, Action, Done, pure, ◌>>=◌, ◌>>◌}
use remote_exec.Agentd.{in_dir}

-- `defaultDataDir`; `base` is what `os.UserConfigDir` returned.
unfoldable pub default_data_dir : Result Text → Text
default_data_dir (err e) = "rexec-agentd-data"
default_data_dir (ok base) = if base == "" then "rexec-agentd-data" else in_dir base "rexec-agentd"

-- The persistent flags of the root, and the user's configuration directory.
pub record Flags : Type 0 where
  pub base : Result Text
  pub data_dir : Text
  pub listen : Text

-- `dataDirOf`
unfoldable pub data_dir_of : Flags → Text
data_dir_of f = if f.data_dir == "" then default_data_dir f.base else f.data_dir

-- `listenOf`
unfoldable pub listen_of : Flags → Text
listen_of f = if f.listen == "" then "127.0.0.1:50000" else f.listen

-- `service.Config`, as far as it is set, and `service.Status`.
pub record Config : Type 0 where
  pub name : Text
  pub display_name : Text
  pub description : Text
  pub arguments : List Text

pub data Status : Type 0 where
  running stopped unknown : Status

-- github.com/kardianos/service, with the `program` that it is given.
pub record Services (S : Type 0) : Type 1 where
  pub Service : Type 0
  pub create : Text → Text → Config → Action S Service
  pub install : Service → Action S Done
  pub uninstall : Service → Action S Done
  pub start_service : Service → Action S Done
  pub stop_service : Service → Action S Done
  pub run_service : Service → Action S Done
  pub status : Service → Action S Status

abbrev pub config_of : Text → Text → Config
config_of dir listen = record {
  name = "rexec-agentd";
  display_name = "rexec-agentd (remote-exec agent)";
  description = "Secure cross-OS remote execution agent (mTLS gRPC).";
  arguments = "service" ∷ "run" ∷ "--data-dir" ∷ dir ∷ "--listen" ∷ listen ∷ [];
}

-- `statusString`
unfoldable pub status_string : Status → Text
status_string Status.running = "running"
status_string Status.stopped = "stopped"
status_string Status.unknown = "unknown (not installed?)"

-- The subcommands of `service`.
pub data Verb : Type 0 where
  installing uninstalling starting stopping reporting serving : Verb

module _ {S : Type 0} (services : Services S) where
  open services use {Service, create}

  -- `newAgentService`
  unfoldable pub new_agent_service : Text → Text → Action S Service
  new_agent_service dir listen = create dir listen (config_of dir listen)

  -- `action`
  abbrev acting : (Service → Action S Done) → Service → Action S Text
  acting fn svc = fn svc >> pure ""

  abbrev does : Verb → Service → Action S Text
  does Verb.installing = acting services.install
  does Verb.uninstalling = acting services.uninstall
  does Verb.starting = acting services.start_service
  does Verb.stopping = acting services.stop_service
  does Verb.serving = acting services.run_service
  does Verb.reporting = λ svc. services.status svc >>= λ st. pure (status_string st <> "\n")

  -- A subcommand of `service`, whose result is what it prints.
  unfoldable pub service_command : Verb → Flags → Action S Text
  unfolding new_agent_service
  service_command verb f = new_agent_service (data_dir_of f) (listen_of f) >>= does verb
