-- ===== src/Cli.antt =====
-- The commands that cmd/rexec and cmd/rexec-agentd declare to github.com/spf13/cobra: names, flags
-- with their defaults, and rules on arguments.
pub mod Client
pub mod Daemon
use mathlib.Core.Path.{◌≡◌}
use remote_exec.Base.{
  ℕ, zero, suc, Text, Bool, true, false, not, ◌&&◌, Option, none, some, List, [], ◌∷◌, ◌++◌, map,
  ◌==◌, leb, if◌then◌else◌,
}
use remote_exec.Base.Int.{ℤ}
use remote_exec.Base.Dict.{Dict, lookup}
use remote_exec.Agentd.Manage.{Verb}

-- The value of a flag of each of the kinds that the program declares.
pub data Value : Type 0 where
  string : Text → Value
  boolean : Bool → Value
  duration : ℤ → Value
  strings : List Text → Value

-- `cobra.NoArgs`, `cobra.MinimumNArgs(n)`, or no rule.
pub data Rule : Type 0 where
  no_args any_args : Rule
  minimum : ℕ → Rule

-- The function that a command runs; a group of commands runs none.
pub data Task : Type 0 where
  group : Task
  -- rexec
  starting agent_enroll agent_identity agent_info exec_run exec_deploy : Task
  -- rexec-agentd
  ca_init token_new serving : Task
  managing : Verb → Task

-- A declaration: the flags by their names, with their defaults.
pub record Spec : Type 0 where
  pub name : Text
  pub rule : Rule
  pub flags : Dict Value
  pub persistent : Dict Value
  pub required : List Text
  pub task : Task

mutual
  pub data Command : Type 0 where
    command : Spec → Commands → Command

  pub data Commands : Type 0 where
    nil : Commands
    cons : Command → Commands → Commands

abbrev pub name_of : Command → Text
name_of (command spec subs) = spec.name

-- `AddCommand` of one more command
unfoldable pub add : Commands → Command → Commands
add nil c = cons c nil
add (cons d rest) c = cons d (add rest c)

-- The command that a path of names leads to, with the flags that it has: its own, and the persistent
-- ones of the commands above it.
unfoldable mutual
  pub find : List Text → Dict Value → Command → Option (Dict Value × Spec)
  find [] inherited (command spec subs) = some (inherited ++ spec.persistent ++ spec.flags, spec)
  find (name ∷ path) inherited (command spec subs) =
      find_in name path (inherited ++ spec.persistent) subs

  find_in : Text → List Text → Dict Value → Commands → Option (Dict Value × Spec)
  find_in name path inherited nil = none
  find_in name path inherited (cons c rest) =
      let found = find path inherited c in
      let other = find_in name path inherited rest in if name_of c == name then found else other
