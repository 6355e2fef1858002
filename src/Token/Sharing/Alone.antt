-- ===== src/Token/Sharing/Alone.antt =====
-- A caller that nobody interrupts does what `Consume` and `Issue` do.
use remote_exec.Base.{ℕ, zero, suc, ◌≡◌, refl, Text, arith}
use remote_exec.Base.Int.{ℤ}
use remote_exec.Io.{Action, pure, ◌>>=◌}
use remote_exec.Io.World.{World, Env}
use remote_exec.Token.{Codec, store, write, persist, mutate, add_token, rand_token, issue, consume}
use remote_exec.Token.Sharing.{Op, consuming, issuing, updates, Pc, outside, finished, advance}

module _ (env : Env) (json : Codec) (path : Text) where
  abbrev turns : Op → ℕ → Pc × World → Pc × World
  turns op zero s = s
  turns op (suc n) s = turns op n (advance env json path op s.0 s.1)

  -- The call, without the drawing of the token.
  abbrev called : Op → Action World Text
  called (consuming value) = consume env json path value
  called (issuing value role ttl) =
      mutate env json path (add_token env json path value role ttl) >>= λ done. pure value

  -- Seven accesses, one after the other, are a whole call: same answer, same world, whatever fails.
  turns-called :
      (op : Op) (w : World) → turns op 7 (outside, w) ≡ (finished (called op w).0, (called op w).1)
  unfolding advance updates consume mutate persist write store
  turns-called (consuming value) w = ground arith
  turns-called (issuing value role ttl) w = ground arith

  -- `Issue` draws a token first.
  issue_lem :
      (role : Text) (ttl : ℤ) (w : World)
      → issue env json path role ttl w
        ≡ (rand_token env json path >>= λ value. called (issuing value role ttl)) w
  unfolding issue
  issue_lem role ttl w = refl
