-- ===== src/Tests/Commands.antt =====
-- The declared commands.
use remote_exec.Base.{◌++◌, ◌≡◌, refl, Text, some, List, [], ◌∷◌}
use remote_exec.Base.Dict.{Dict}
use remote_exec.Io.{Result, ok, err}
use remote_exec.Error.{plain}
use remote_exec.Agentd.Manage.{Verb, Flags, config_of, data_dir_of, listen_of}
use remote_exec.Cli.{managing, Value, Spec, find}
use remote_exec.Cli.Daemon.{rexec_agentd, installed_command}

abbrev no_flags : Result Text → Flags
no_flags base = record { base = base; data_dir = ""; listen = "" }

abbrev flags_of : Result Text → List Text → Flags
flags_of base (a ∷ b ∷ c ∷ d ∷ e ∷ l ∷ []) = record { base = base; data_dir = d; listen = l }
flags_of base _ = no_flags base

installed_command_example :
    let f = no_flags (ok "/home/a/.config") in
    let base = err (plain "no home") in
    let arguments = (config_of (data_dir_of f) (listen_of f)).arguments in
    (path : List Text) × (rest : List Text) × (flags : Dict Value) × (spec : Spec) × (arguments
      ≡ path ++ rest)
    × (find path [] (rexec_agentd base) ≡ some (flags, spec))
    × (spec.task ≡ managing Verb.serving)
    × (data_dir_of (flags_of base arguments) ≡ data_dir_of f)
    × (listen_of (flags_of base arguments) ≡ listen_of f)
installed_command_example =
    installed_command flags_of (record { two_flags = λ base d l. refl })
      (no_flags (ok "/home/a/.config")) (err (plain "no home"))
