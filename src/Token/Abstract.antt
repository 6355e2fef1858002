-- ===== src/Token/Abstract.antt =====
-- What internal/token/token.go promises: a set of outstanding tokens. It forgets how the map is
-- laid out, since lists of entries with the same lookups are one element of the quotient.
use mathlib.Core.HLevel.{hedberg}
use mathlib.Core.Quot
use mathlib.Core.Quot.{Quot, Quot-set}
use native.Mathlib.Decide.{ℕ_discrete}
use remote_exec.Base.{Text, Option, none, some, text_dec, arith, if◌then◌else◌}
use remote_exec.Base.Int.{ℤ, ◌+ℤ◌, after}
use remote_exec.Base.Dict.{SameLookups, lookup, insert, delete, lookup-insert, lookup-delete}
use remote_exec.Error.{Sentinel, sentinel}
use remote_exec.Io.{Result, ok, err}
use remote_exec.Token.{Entry, Tokens}

abbrev pub Outstanding : Type 0
Outstanding = Quot (SameLookups {V = Entry})

pub entry_IsSet : IsSet (Option Entry)
entry_IsSet = hlevel (hedberg, text_dec, ℕ_discrete)

pub delete-SameLookups :
    (v : Text) (m n : Tokens) → SameLookups m n → SameLookups (delete v m) (delete v n)
delete-SameLookups v m n h k = ground (arith, lookup-delete k v m, lookup-delete k v n, h k)

pub insert-SameLookups :
    (v : Text) (e : Entry) (m n : Tokens)
    → SameLookups m n
    → SameLookups (insert v e m) (insert v e n)
insert-SameLookups v e m n h k = ground (arith, lookup-insert k v e m, lookup-insert k v e n, h k)

unfoldable pub find : Text → Outstanding → Option Entry
find v = Quot.lift entry_IsSet (lookup v) (λ m n h. h v)

unfoldable pub without : Text → Outstanding → Outstanding
without v =
    Quot.lift Quot-set (λ m. Quot.mk (delete v m))
      (λ m n h. Quot.sound (delete-SameLookups v m n h))

unfoldable pub including : Text → Entry → Outstanding → Outstanding
including v e =
    Quot.lift Quot-set (λ m. Quot.mk (insert v e m))
      (λ m n h. Quot.sound (insert-SameLookups v e m n h))

pub data Op : Type 0 where
  issuing : Text → ℤ → Op
  consuming : Text → Op

-- What a call takes from its surroundings: the random token, and the clock.
pub record Stamp : Type 0 where
  pub drawn : Text
  pub time : ℤ

abbrev pub answer : Option Entry → ℤ → Result Text
answer none t = err (sentinel Sentinel.unknown_token)
answer (some e) t = if after t e.expiry then err (sentinel Sentinel.token_expired) else ok e.role

-- One operation: `Issue` adds the token that it draws, and `Consume` removes the one it answers.
unfoldable pub promised : Stamp → Op → Outstanding → Result Text × Outstanding
promised s (issuing role ttl) a =
    (ok s.drawn, including s.drawn (record { role = role; expiry = s.time +ℤ ttl }) a)
promised s (consuming v) a = (answer (find v a) s.time, without v a)
