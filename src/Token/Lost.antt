-- ===== src/Token/Lost.antt =====
-- `read` tests the length of the data before it looks at the error, so a token file that cannot be
-- opened reads as an empty map.
use remote_exec.Base.{ℕ, suc, ◌≡◌, ◌≢◌, ◌∙◌, Text, none, some, [], arith}
use remote_exec.Base.Int.{ℤ, ◌+ℤ◌}
use remote_exec.Base.Dict.{lookup, lookup-nil, insert, lookup-insert_ne}
use remote_exec.Io.{ok, Done}
use remote_exec.Io.World.{World, Env, Fault, step}
use remote_exec.Token.Storage.{store_stores}
use remote_exec.Token.{
  Tokens, Entry, Codec, IsFaithful, interpret, read, write, persist, mutate, rand_token, add_token,
  issue,
}

abbrev pub read_call : World → ℕ
read_call w = suc (suc (suc w.calls))

-- The read of an `Issue`, its fourth call, fails before it has any data; no other call fails.
abbrev pub OnlyReadFails : Env → World → Type 0
OnlyReadFails env w =
    (f : Fault) × (env.fault (read_call w) ≡ some f)
    × (f.part ≡ none)
    × ((n : ℕ) → n ≢ read_call w → env.fault n ≡ none)

module _ (env : Env) (json : Codec) (path : Text) where
  read_forgets :
      (w : World) (f : Fault)
      → env.fault w.calls ≡ some f
      → f.part ≡ none
      → read env json path w ≡ (ok [], step w)
  unfolding read interpret
  read_forgets w f fails part = ground arith

  persist_stores :
      (m : Tokens) (t : Text) (w : World)
      → json.encode m ≡ ok t
      → env.fault w.calls ≡ none
      → env.fault (suc w.calls) ≡ none
      → lookup path (persist env json path {A = Done} ((ok tt, m), w)).1.files ≡ some t
  unfolding persist write
  persist_stores m t w coded q q' = ground (arith, store_stores env json path t w q q')

  world-rand_token : (w : World) → (rand_token env json path w).1 ≡ step w
  unfolding rand_token
  world-rand_token w = ground arith

  abbrev issued : Text → ℤ → World → Entry
  issued role ttl w = record { role = role; expiry = env.now (suc (read_call w)) +ℤ ttl }

  issue_stores_alone :
      (role value t : Text) (ttl : ℤ) (w : World)
      → OnlyReadFails env w
      → (issue env json path role ttl w).0 ≡ ok value
      → json.encode (insert value (issued role ttl w) []) ≡ ok t
      → lookup path (issue env json path role ttl w).1.files ≡ some t
  unfolding issue mutate add_token
  issue_stores_alone role value t ttl w (f, fails, part, others) h coded = ground (
    arith,
    world-rand_token w,
    others (suc w.calls) (omega arith),
    others (suc (suc w.calls)) (omega arith),
    read_forgets (step (step (step w))) f fails part,
    persist_stores (insert value (issued role ttl w) []) t (step (step (step (step (step w)))))
        coded (others (suc (suc (suc (suc (suc w.calls))))) (omega arith))
        (others (suc (suc (suc (suc (suc (suc w.calls)))))) (omega arith)),
  )

  -- If the one call that fails is the read of the token file, and it fails before any data came,
  -- a successful `Issue` leaves a file that lists no other token: all that were outstanding are
  -- lost.
  pub issue_loses_tokens :
      (law : IsFaithful json) (role value : Text) (ttl : ℤ) (w : World)
      → OnlyReadFails env w
      → (issue env json path role ttl w).0 ≡ ok value
      → (t : Text) → json.encode (insert value (issued role ttl w) []) ≡ ok t
      → (n : Tokens) × (lookup path (issue env json path role ttl w).1.files ≡ some t)
        × (json.decode t ≡ ok n)
        × ((other : Text) → other ≢ value → lookup other n ≡ none)
  issue_loses_tokens law role value ttl w only h t coded =
      let (n, parsed, alike) = law.decode-encode (insert value (issued role ttl w) []) t coded in
      (
        n,
        issue_stores_alone role value t ttl w only h coded,
        parsed,
        λ other ne.
            alike other ∙ lookup-insert_ne other value (issued role ttl w) [] ne ∙ lookup-nil other,
      )
