-- ===== src/Token/Quiet.antt =====
-- With no call failing: what was issued can be consumed, once, until it expires.
pub mod Refines
use remote_exec.Base.{ℕ, suc, ◌≡◌, ◌∙◌, Text, none, some, arith, if◌then◌else◌}
use remote_exec.Base.Int.{ℤ, ◌+ℤ◌, after}
use remote_exec.Base.Dict.{SameLookups, lookup, insert, delete, lookup-insert_self}
use remote_exec.Error.{Sentinel, sentinel}
use remote_exec.Io.{Result, ok, err}
use remote_exec.Io.World.{World, Env, step}
use remote_exec.Io.Calls.{found}
use remote_exec.Token.Storage.{store_stores}
use remote_exec.Token.{
  Tokens, Entry, Codec, IsFaithful, Update, interpret, read, store, write, persist, mutate,
  rand_token, add_token, take_token, issue, consume,
}

module _ (env : Env) (json : Codec) (path : Text) (quiet : (n : ℕ) → env.fault n ≡ none) where
  store_quiet :
      (contents : Text) (w : World)
      → ((store env json path contents w).0 ≡ ok tt)
        × (lookup path (store env json path contents w).1.files ≡ some contents)
  store_quiet contents w =
      store_stores env json path contents w (quiet w.calls) (quiet (suc w.calls))

  persist_quiet :
      {A : Type 0} (r : Result A) (m : Tokens) (t : Text) (w : World)
      → json.encode m ≡ ok t
      → let (out, w') = persist env json path ((r, m), w) in
        (out ≡ r) × (lookup path w'.files ≡ some t)
  unfolding persist write
  persist_quiet r m t w coded = ground (arith, store_quiet t w)

  -- What a read of the file returns if nothing fails.
  abbrev pub listing : World → Result Tokens
  listing w = interpret env json path (found (lookup path w.files))

  pub read_quiet : (w : World) → read env json path w ≡ (listing w, step w)
  unfolding read
  read_quiet w = ground (arith, quiet w.calls)

  -- A `mutate` runs its function on the map of the file and stores the result.
  mutate_quiet :
      {A : Type 0} (fn : Update A) (t : Text) (m : Tokens) (w : World)
      → listing w ≡ ok m
      → json.encode (fn m (step (step (step w)))).0.1 ≡ ok t
      → let (out, u) = mutate env json path fn w in
        (out ≡ (fn m (step (step (step w)))).0.0) × (lookup path u.files ≡ some t)
  unfolding mutate
  mutate_quiet fn t m w listed coded =
      let run = fn m (step (step (step w))) in
      ground (
        arith,
        quiet w.calls,
        quiet (suc w.calls),
        read_quiet (step (step w)),
        persist_quiet run.0.0 run.0.1 t run.1 coded,
      )

  -- What an expired or a live token answers.
  abbrev pub outcome : Entry → ℤ → Result Text
  outcome rec t = if after t rec.expiry then err (sentinel Sentinel.token_expired) else ok rec.role

  consume_stored :
      (value : Text) (m : Tokens) (rec : Entry) (t : Text) (w : World)
      → listing w ≡ ok m
      → lookup value m ≡ some rec
      → json.encode (delete value m) ≡ ok t
      → let (out, u) = consume env json path value w in
        (out ≡ outcome rec (env.now (suc (suc (suc w.calls))))) × (lookup path u.files ≡ some t)
  unfolding consume take_token
  consume_stored value m rec t w listed found coded =
      ground (arith, mutate_quiet (take_token env json path value) t m w listed)

  world-rand_token : (w : World) → (rand_token env json path w).1 ≡ step w
  unfolding rand_token
  world-rand_token w = ground arith

  -- The entry that `Issue` makes.
  abbrev pub issued : Text → ℤ → World → Entry
  issued role ttl w = record {
    role = role;
    expiry = env.now (suc (suc (suc (suc w.calls)))) +ℤ ttl;
  }

  issue_stored :
      (role value : Text) (ttl : ℤ) (m : Tokens) (t : Text) (w : World)
      → listing w ≡ ok m
      → (issue env json path role ttl w).0 ≡ ok value
      → json.encode (insert value (issued role ttl w) m) ≡ ok t
      → lookup path (issue env json path role ttl w).1.files ≡ some t
  unfolding issue add_token
  issue_stored role value ttl m t w listed h coded = ground (
    arith,
    world-rand_token w,
    mutate_quiet (add_token env json path value role ttl) t m (step w) listed,
  )

  module _ (law : IsFaithful json)
      (total : (m : Tokens) → (t : Text) × (json.encode m ≡ ok t)) where
    listing_of_encoded :
        (m : Tokens) (t : Text) (w : World)
        → json.encode m ≡ ok t
        → lookup path w.files ≡ some t
        → (n : Tokens) × (listing w ≡ ok n) × SameLookups n m
    unfolding interpret
    listing_of_encoded m t w coded stored =
        let (n, parsed, alike) = law.decode-encode m t coded in
        (n, ground (arith, law.encode-ne-empty m), alike)

    -- A listed token is taken out of the file and answered by its role, or by ErrExpired if its
    -- lifetime is over; every other token stays as it was.
    pub consume_listed :
        (value : Text) (m : Tokens) (rec : Entry) (w : World)
        → listing w ≡ ok m
        → lookup value m ≡ some rec
        → let (out, u) = consume env json path value w in
          (n : Tokens) × (out ≡ outcome rec (env.now (suc (suc (suc w.calls)))))
          × (listing u ≡ ok n)
          × SameLookups n (delete value m)
    consume_listed value m rec w listed found =
        let (t, coded) = total (delete value m) in
        let (out, stored) = consume_stored value m rec t w listed found coded in
        let (n, relisted, alike) =
          listing_of_encoded (delete value m) t (consume env json path value w).1 coded stored in
        (n, out, relisted, alike)

    -- With no call failing, an encoding that reads back and a file that could be read before: a token
    -- that `Issue` returned grants its role until its lifetime is over, in any later world whose token
    -- file is the one that `Issue` left; then it is answered by ErrExpired.
    pub issued_token :
        (role value : Text) (ttl : ℤ) (m : Tokens) (w later : World)
        → listing w ≡ ok m
        → (issue env json path role ttl w).0 ≡ ok value
        → lookup path later.files ≡ lookup path (issue env json path role ttl w).1.files
        → (consume env json path value later).0
          ≡ outcome (issued role ttl w) (env.now (suc (suc (suc later.calls))))
    issued_token role value ttl m w later listed h same =
        let (t, coded) = total (insert value (issued role ttl w) m) in
        let stored = issue_stored role value ttl m t w listed h coded in
        let (n, relisted, alike) =
          listing_of_encoded (insert value (issued role ttl w) m) t later coded (same ∙ stored) in
        (consume_listed value n (issued role ttl w) later relisted
          (alike value ∙ lookup-insert_self value (issued role ttl w) m)).1
