-- ===== src/Policy/Loading.antt =====
-- What `Load` makes of the policy file.
use remote_exec.Base.{◌≡◌, refl, ◌≢◌, Text, none, arith, ne_literal, text_dec, contains}
use remote_exec.Base.Dict.{lookup}
use remote_exec.Io.{Result, ok}
use remote_exec.Io.World.{World, Env, step}
use remote_exec.Policy.{Policy, denied, mode_deny, default, evaluate, load}

deny-ne-empty : ◌≢◌ {A = Text} mode_deny ""
deny-ne-empty = ne_literal mode_deny "" refl

pub evaluate-default : (c : Text) → evaluate default c ≡ denied
unfolding evaluate default text_dec contains
evaluate-default c = refl

module _ (env : Env) (yaml : Text → Result Policy) (path : Text) (w : World) where
  -- A policy that was loaded names a mode, also where the file left the mode out.
  pub load-mode : (p : Policy) (w' : World) → load env yaml path w ≡ (ok p, w') → p.destructive ≢ ""
  unfolding load
  load-mode p w' h e = ground (arith, deny-ne-empty)

  pub load-default :
      env.fault w.calls ≡ none
      → lookup path w.files ≡ none
      → load env yaml path w ≡ (ok default, step w)
  unfolding load
  load-default quiet missing = ground arith

  -- A missing policy file is no error, and the policy that it stands for denies every command.
  load_missing :
      env.fault w.calls ≡ none
      → lookup path w.files ≡ none
      → (p : Policy) × (w' : World) × (load env yaml path w ≡ (ok p, w'))
        × ((c : Text) → evaluate p c ≡ denied)
  load_missing quiet missing = (default, step w, load-default quiet missing, evaluate-default)
