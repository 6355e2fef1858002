-- ===== src/Policy.antt =====
-- internal/policy/policy.go: the agent's stance on destructive commands.
pub mod Decide
pub mod Loading
pub mod Grants
use remote_exec.Base.{
  Text, Bool, true, not, ◌&&◌, Option, none, some, List, [], ◌∷◌, ◌==◌, contains, if◌then◌else◌,
}
use remote_exec.Error.{Error, wrap, is_not_exist}
use remote_exec.Io.{Result, ok, err, Action, bind, with_error}
use remote_exec.Io.World.{World, Env}
use remote_exec.Io.Calls.{Read, read_file}

-- `type Mode string`: any text may be read from the file.
abbrev pub Mode : Type 0
Mode = Text

abbrev pub mode_deny : Mode
mode_deny = "deny"

abbrev pub mode_allow : Mode
mode_allow = "allow"

abbrev pub mode_ask : Mode
mode_ask = "ask"

pub record Policy : Type 0 where
  pub destructive : Mode
  pub allow : List Text
  pub deny : List Text

pub data Decision : Type 0 where
  denied allowed asked : Decision

unfoldable pub default : Policy
default = record { destructive = mode_deny; allow = []; deny = [] }

abbrev is_empty : List Text → Bool
is_empty [] = true
is_empty (x ∷ xs) = Bool.false

-- `Policy.Evaluate`
unfoldable pub evaluate : Policy → Text → Decision
evaluate p command =
    if contains p.deny command
    then denied
    else if p.destructive == mode_allow
    then (if not (is_empty p.allow) && not (contains p.allow command) then denied else allowed)
    else if p.destructive == mode_ask
    then (if contains p.allow command then allowed else asked)
    else denied

-- The default for an empty `destructive`.
abbrev with_mode : Policy → Policy
with_mode p = if p.destructive == "" then record p { destructive = mode_deny } else p

-- `yaml` is `yaml.Unmarshal` into a zero `Policy`.
module _ (env : Env) (yaml : Text → Result Policy) where
  abbrev decode : Text → Result Policy
  decode data_ = bind (with_error (wrap "policy: decode: ") (yaml data_)) (λ p. ok (with_mode p))

  abbrev interpret : Option Error → Text → Result Policy
  interpret none data_ = decode data_
  interpret (some e) data_ = if is_not_exist e then ok default else err (wrap "policy: read: " e)

  -- `Load`
  unfoldable pub load : Text → Action World Policy
  unfolding default read_file is_not_exist
  load path w = let (r, w') = read_file env path w in (interpret r.failure r.contents, w')
