-- ===== src/Token.antt =====
-- internal/token/token.go: single-use join tokens in a JSON file.
pub mod Storage
pub mod Lost
pub mod Abstract
pub mod Quiet
pub mod Single
pub mod Sharing
pub mod Gone
use remote_exec.Base.{
  ◌≡◌, ◌≢◌, Text, ◌<>◌, Bool, true, false, ◌||◌, Option, none, some, List, [], ◌==◌, if◌then◌else◌,
}
use remote_exec.Base.Int.{ℤ, ◌+ℤ◌, after}
use remote_exec.Base.Dict.{Dict, SameLookups, lookup, insert, delete}
use remote_exec.Base.Base64.{encode_to_string}
use remote_exec.Error.{Sentinel, Error, sentinel, wrap, join, is_not_exist}
use remote_exec.Io.{Result, ok, err, Action, Done, with_error, pure, lift, on_error, ◌>>=◌, ◌>>◌}
use remote_exec.Io.World.{World, Env, step}
use remote_exec.Io.Calls.{Read, read_file, write_file, rename, mkdir_all, attempt, random}

pub record Entry : Type 0 where
  pub role : Text
  pub expiry : ℤ

abbrev pub Tokens : Type 0
Tokens = Dict Entry

-- encoding/json at `map[string]record`: `Marshal`, and `Unmarshal` into an empty map.
pub record Codec : Type 0 where
  pub encode : Tokens → Result Text
  pub decode : Text → Result Tokens

-- What is written reads back as the same map, and is never the empty text.
pub record IsFaithful (json : Codec) : Type 0 where
  pub decode-encode :
      (m : Tokens) (t : Text)
      → json.encode m ≡ ok t
      → (n : Tokens) × (json.decode t ≡ ok n) × SameLookups n m
  pub encode-ne-empty : (m : Tokens) → json.encode m ≢ ok ""

-- What the function passed to `mutate` returns: its error or value, and the map that it changed.
abbrev pub Update : Type 0 → Type 0
Update A = Tokens → World → (Result A × Tokens) × World

abbrev is_missing : Option Error → Bool
is_missing none = false
is_missing (some e) = is_not_exist e

-- `errors.Join` of the function's error and the write's, where there is one.
abbrev pub joined : {A : Type 0} → Result A → Result Done → Result A
joined r (ok _) = r
joined (ok a) (err e) = err e
joined (err d) (err e) = err (join d e)

-- `path` is the field of the `FileStore`.
module _ (env : Env) (json : Codec) (path : Text) where
  abbrev parse : Option Error → Text → Result Tokens
  parse none contents = with_error (wrap "token: decode: ") (json.decode contents)
  parse (some e) contents = err (wrap "token: read: " e)

  -- The test on the length comes before the one on the error, as in the source.
  unfoldable pub interpret : Read → Result Tokens
  unfolding is_not_exist
  interpret r =
      if is_missing r.failure || r.contents == "" then ok [] else parse r.failure r.contents

  unfoldable pub read : Action World Tokens
  unfolding read_file
  read w = let (r, w') = read_file env path w in (interpret r, w')

  -- The part of `write` that follows the encoding.
  unfoldable pub store : Text → Action World Done
  unfolding write_file rename
  store contents = do
    on_error (wrap "token: write tmp: ") (write_file env (path <> ".tmp") contents)
    on_error (wrap "token: rename: ") (rename env (path <> ".tmp") path)

  unfoldable pub write : Tokens → Action World Done
  write m = do contents ← lift (with_error (wrap "token: encode: ") (json.encode m)); store contents

  -- The map is written back also where the function reports an error.
  unfoldable pub persist : {A : Type 0} → (Result A × Tokens) × World → Result A × World
  persist ((r, m), w) = let (done, w') = write m w in (joined r done, w')

  -- `defer func() { _ = s.lock.Unlock() }()`
  abbrev unlocking : {A : Type 0} → Action World A → Action World A
  unlocking body w = let (r, w') = body w in (r, (attempt env w').1)

  unfoldable pub mutate : {A : Type 0} → Update A → Action World A
  unfolding mkdir_all attempt
  mutate fn = do
    on_error (wrap "token: mkdir: ") (mkdir_all env)
    on_error (wrap "token: lock: ") (attempt env)
    unlocking (do m ← read; λ w. persist (fn m w))

  unfoldable pub rand_token : Action World Text
  unfolding random
  rand_token = do b ← on_error (wrap "token: rand: ") (random env 24); pure (encode_to_string b)

  unfoldable pub add_token : Text → Text → ℤ → Update Done
  add_token value role ttl m w =
      let rec : Entry = record { role = role; expiry = env.now w.calls +ℤ ttl } in
      ((ok tt, insert value rec m), step w)

  -- `Issue`
  unfoldable pub issue : Text → ℤ → Action World Text
  issue role ttl = do value ← rand_token; mutate (add_token value role ttl); pure value

  -- The function of `Consume`, once the token is looked up.
  abbrev take : Option Entry → Text → Update Text
  take none value m w = ((err (sentinel Sentinel.unknown_token), m), w)
  take (some rec) value m w = (
    (
      if after (env.now w.calls) rec.expiry
          then err (sentinel Sentinel.token_expired)
          else ok rec.role,
      delete value m,
    ),
    step w,
  )

  unfoldable pub take_token : Text → Update Text
  take_token value m w = take (lookup value m) value m w

  -- `Consume`
  unfoldable pub consume : Text → Action World Text
  consume value = mutate (take_token value)
