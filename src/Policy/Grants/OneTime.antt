-- ===== src/Policy/Grants/OneTime.antt =====
-- An approval is good for one command, once, and only while it is fresh.
use remote_exec.Base.{◌≡◌, ◌≢◌, ◌↔◌, inl, inr, Option-cases, Text, none, some, arith}
use remote_exec.Base.Int.{◌≤ℤ◌}
use remote_exec.Base.Dict.{lookup, lookup-delete, lookup-delete_self}
use remote_exec.Error.{Sentinel, sentinel}
use remote_exec.Io.{ok, err}
use remote_exec.Io.World.{Env}
use remote_exec.Policy.Grants.{Grant, Grants, consume}

module _ (env : Env) (id : Text) where
  -- What `Consume` requires of the stored grant: it is there, it has not expired, and it is for
  -- this very command.
  abbrev pub Approves : Grants → Text → Type 0
  Approves g command =
      (rec : Grant) × (lookup id g.m ≡ some rec)
      × (env.now g.world.calls ≤ℤ rec.expiry)
      × (rec.command ≡ command)

  -- `Consume` succeeds exactly on a stored, fresh grant for the same command.
  pub consume_iff :
      (g : Grants) (command : Text) → ((consume env id command g).0 ≡ ok tt) ↔ Approves g command
  unfolding consume
  consume_iff g command = (
    λ h. elim (Option-cases (lookup id g.m)) [
      | inl absent ↦ absurd (ground arith)
      | inr (rec, stored) ↦ (rec, stored, ground arith, ground arith)
    ],
    λ h. ground arith,
  )

  lookup-consume : (g : Grants) (command : Text) → lookup id (consume env id command g).1.m ≡ none
  unfolding consume
  lookup-consume g command = ground (arith, lookup-delete_self id g.m)

  consume_absent :
      (g : Grants) (command : Text)
      → lookup id g.m ≡ none
      → (consume env id command g).0 ≡ err (sentinel Sentinel.no_grant)
  unfolding consume
  consume_absent g command absent = ground arith

  -- Whatever a first `Consume` answered, a second one with the same id finds no grant.
  pub consume_twice :
      (g : Grants) (command again : Text)
      → (consume env id again (consume env id command g).1).0 ≡ err (sentinel Sentinel.no_grant)
  consume_twice g command again = consume_absent _ again (lookup-consume g command)

  -- A `Consume` leaves every other grant as it was.
  pub consume_other :
      (g : Grants) (command other : Text)
      → other ≢ id
      → lookup other (consume env id command g).1.m ≡ lookup other g.m
  unfolding consume
  consume_other g command other ne = ground (arith, lookup-delete other id g.m)
