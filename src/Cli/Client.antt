-- ===== src/Cli/Client.antt =====
-- cmd/rexec/controllercmds.go and cmd/rexec/main.go: the commands of rexec.
use remote_exec.Base.{ℕ, Text, ◌<>◌, false, List, [], ◌∷◌}
use remote_exec.Base.Dict.{Dict}
use remote_exec.Error.{message}
use remote_exec.Io.{Result, ok, err, Done}
use remote_exec.Controller.Agent.{default_controller_config}
use remote_exec.Cli.{
  Value, string, boolean, strings, Rule, no_args, any_args, minimum, Task, group, starting,
  agent_enroll, agent_identity, agent_info, exec_run, exec_deploy, Command, command, Commands, nil,
  cons,
}

-- A command without subcommands and without persistent flags.
abbrev pub leaf : Text → Rule → Dict Value → List Text → Task → Command
leaf name rule flags required task =
    command
      (record {
        name = name;
        rule = rule;
        flags = flags;
        persistent = [];
        required = required;
        task = task;
      })
      nil

-- A command that only groups others.
abbrev pub grouping : Text → Commands → Command
grouping name subs =
    command
      (record {
        name = name;
        rule = any_args;
        flags = [];
        persistent = [];
        required = [];
        task = group;
      })
      subs

abbrev agent_enroll_flags : Dict Value
agent_enroll_flags = ("token", string "") ∷ ("cn", string "") ∷ []

abbrev agent_enroll_cmd : Command
agent_enroll_cmd = leaf "enroll" no_args agent_enroll_flags ("token" ∷ []) agent_enroll

abbrev agent_identity_cmd : Command
agent_identity_cmd = leaf "identity" no_args [] [] agent_identity

abbrev agent_info_cmd : Command
agent_info_cmd = leaf "info" no_args [] [] agent_info

abbrev agent_group : Command
agent_group =
    grouping "agent" (cons agent_enroll_cmd (cons agent_identity_cmd (cons agent_info_cmd nil)))

abbrev exec_run_flags : Dict Value
exec_run_flags = ("workdir", string "") ∷ ("set-env", strings []) ∷ []

abbrev exec_run_cmd : Command
exec_run_cmd = leaf "run" (minimum 1) exec_run_flags [] exec_run

abbrev exec_deploy_flags : Dict Value
exec_deploy_flags =
    ("workdir", string "")
    ∷ ("set-env", strings [])
    ∷ ("approval", string "")
    ∷ ("yes", boolean false)
    ∷ []

abbrev exec_deploy_cmd : Command
exec_deploy_cmd = leaf "deploy" (minimum 1) exec_deploy_flags [] exec_deploy

abbrev exec_group : Command
exec_group = grouping "exec" (cons exec_run_cmd (cons exec_deploy_cmd nil))

abbrev controller_commands : Commands
controller_commands = cons agent_group (cons exec_group nil)

-- The root; `home` is what `os.UserHomeDir` returned.
unfoldable pub rexec : Result Text → Command
rexec home =
    command
      (record {
        name = "rexec";
        rule = any_args;
        flags = [];
        persistent =
            ("endpoint", string "") ∷ ("credential", string (default_controller_config home)) ∷ [];
        required = [];
        task = starting;
      })
      controller_commands

-- How a process of either program ends: its exit status, and what its `main` itself reports.
pub record Ended : Type 0 where
  pub exit_status : ℕ
  pub reported : Text

-- `main`, by what the configuration of the root and `root.Execute` returned; cobra reports the error
-- of a command.
unfoldable pub main : Result Done → Result Done → Ended
main (err e) executed = record { exit_status = 1; reported = message e <> "\n" }
main (ok _) (err e) = record { exit_status = 1; reported = "" }
main (ok _) (ok _) = record { exit_status = 0; reported = "" }
