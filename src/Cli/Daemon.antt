-- ===== src/Cli/Daemon.antt =====
-- cmd/rexec-agentd/agentcmds.go, servicecmds.go and main.go: the commands of rexec-agentd.
use remote_exec.Base.{◌*◌, ◌≡◌, refl, Text, text_dec, false, some, List, [], ◌∷◌, ◌++◌}
use remote_exec.Base.Int.{pos}
use remote_exec.Base.Dict.{Dict}
use remote_exec.Io.{Result}
use remote_exec.Agentd.Manage.{Verb, Flags, default_data_dir, data_dir_of, listen_of, config_of}
use remote_exec.Agentd.Manage.Settings.{ReadsFlags, installed_settings}
use remote_exec.Cli.{
  Value, string, boolean, duration, any_args, group, ca_init, token_new, serving, managing, Spec,
  Command, command, Commands, nil, cons, add, find,
}
use remote_exec.Cli.Client.{leaf, grouping}

abbrev ca_init_flags : Dict Value
ca_init_flags = ("force", boolean false) ∷ []

abbrev ca_init_cmd : Command
ca_init_cmd = grouping "ca" (cons (leaf "init" any_args ca_init_flags [] ca_init) nil)

-- The lifetime is ten minutes by default.
abbrev token_flags : Dict Value
token_flags = ("role", string "rex:reader") ∷ ("ttl", duration (pos (600 * 1000000000))) ∷ []

abbrev token_cmd : Command
token_cmd = grouping "token" (cons (leaf "new" any_args token_flags [] token_new) nil)

-- The `action` of `serviceCmd`, and its other subcommands.
abbrev action : Text → Verb → Command
action name verb = leaf name any_args [] [] (managing verb)

abbrev service_run_cmd : Command
service_run_cmd = action "run" Verb.serving

abbrev service_cmd : Command
service_cmd = grouping "service" (
    cons (action "install" Verb.installing) (
      cons (action "uninstall" Verb.uninstalling) (
        cons (action "start" Verb.starting) (
          cons (action "stop" Verb.stopping)
            (cons (action "status" Verb.reporting) (cons service_run_cmd nil))))))

abbrev serve_cmd : Command
serve_cmd = leaf "serve" any_args [] [] serving

-- `agentCommands`
abbrev agent_commands : Commands
agent_commands = cons ca_init_cmd (cons token_cmd (cons service_cmd nil))

-- The root, with `serve` that `main` adds; `base` is what `os.UserConfigDir` returned.
unfoldable pub rexec_agentd : Result Text → Command
rexec_agentd base =
    command
      (record {
        name = "rexec-agentd";
        rule = any_args;
        flags = [];
        persistent =
            ("data-dir", string (default_data_dir base))
            ∷ ("listen", string "127.0.0.1:50000")
            ∷ [];
        required = [];
        task = group;
      })
      (add agent_commands serve_cmd)

abbrev spec_of : Command → Spec
spec_of (command spec subs) = spec

-- If each long flag takes the argument behind it:
-- the command that the service manager starts is the one that serves, and it has the data directory
-- and the address of the command that installed it, as whichever user, defaults included: the
-- installed arguments are the path of a declared command and its flags.
pub installed_command :
    (parse : Result Text → List Text → Flags)
    → ReadsFlags parse
    → (f : Flags) (base : Result Text)
    → let arguments = (config_of (data_dir_of f) (listen_of f)).arguments in
      (path : List Text) × (rest : List Text) × (flags : Dict Value) × (spec : Spec) × (arguments
        ≡ path ++ rest)
      × (find path [] (rexec_agentd base) ≡ some (flags, spec))
      × (spec.task ≡ managing Verb.serving)
      × (data_dir_of (parse base arguments) ≡ data_dir_of f)
      × (listen_of (parse base arguments) ≡ listen_of f)
unfolding rexec_agentd add find text_dec
installed_command parse reads f base =
    let (dir, listen) = installed_settings parse reads f base in
    (
      "service" ∷ "run" ∷ [],
      "--data-dir" ∷ data_dir_of f ∷ "--listen" ∷ listen_of f ∷ [],
      ("data-dir", string (default_data_dir base)) ∷ ("listen", string "127.0.0.1:50000") ∷ [],
      spec_of service_run_cmd,
      refl,
      refl,
      refl,
      dir,
      listen,
    )
