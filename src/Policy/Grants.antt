-- ===== src/Policy/Grants.antt =====
-- internal/policy/grants.go: one-time approvals, kept in the daemon's memory.
pub mod OneTime
pub mod History
use remote_exec.Base.{Text, not, Option, none, some, [], ◌==◌, if◌then◌else◌}
use remote_exec.Base.Int.{ℤ, ◌+ℤ◌, after}
use remote_exec.Base.Dict.{Dict, lookup, insert, delete}
use remote_exec.Base.Base64.{encode_to_string}
use remote_exec.Error.{Sentinel, sentinel, wrap}
use remote_exec.Io.{ok, err, Action, Done, pure, raise, on_error, ◌>>=◌, ◌>>◌}
use remote_exec.Io.World.{World, Env}
use remote_exec.Io.Calls.{random, now}

pub record Grant : Type 0 where
  pub command : Text
  pub expiry : ℤ

-- The map of a `Grants`, and the world that its calls change.
pub record Grants : Type 0 where
  pub m : Dict Grant
  pub world : World

-- `NewGrants`
abbrev pub new_grants : World → Grants
new_grants w = record { m = []; world = w }

abbrev on_world {ℓ} : {A : Type ℓ} → Action World A → Action Grants A
on_world call g = let (r, w) = call g.world in (r, record g { world = w })

abbrev put : Text → Grant → Action Grants Done
put id rec g = (ok tt, record g { m = insert id rec g.m })

module _ (env : Env) where
  unfoldable pub rand_id : Action World Text
  unfolding random
  rand_id = do b ← on_error (wrap "policy: rand: ") (random env 18); pure (encode_to_string b)

  unfoldable pub issue : Text → ℤ → Action Grants Text
  unfolding now
  issue command ttl = do
    id ← on_world rand_id
    t ← on_world (now env)
    put id (record { command = command; expiry = t +ℤ ttl })
    pure id

  -- The checks that follow the `delete`.
  check_grant : Grant → Text → Action Grants Done
  unfolding now
  check_grant rec command = do
    t ← on_world (now env)
    if after t rec.expiry
        then raise (sentinel Sentinel.grant_expired)
        else if not (rec.command == command)
        then raise (sentinel Sentinel.command_mismatch)
        else pure tt

  settle : Option Grant → Text → Text → Action Grants Done
  unfolding check_grant
  settle none id command g = (err (sentinel Sentinel.no_grant), g)
  settle (some rec) id command g = check_grant rec command (record g { m = delete id g.m })

  unfoldable pub consume : Text → Text → Action Grants Done
  unfolding settle
  consume id command g = settle (lookup id g.m) id command g
