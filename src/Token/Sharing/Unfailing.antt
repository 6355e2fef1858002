-- ===== src/Token/Sharing/Unfailing.antt =====
-- What each access of a caller does if no call fails.
use remote_exec.Base.{ℕ, ◌≡◌, refl, Text, ◌<>◌, false, none, some, arith}
use remote_exec.Base.Int.{after}
use remote_exec.Base.Dict.{lookup, insert, delete}
use remote_exec.Io.{Result, ok}
use remote_exec.Io.World.{World, Env, step}
use remote_exec.Io.Calls.{write_file, rename, mkdir_all, attempt}
use remote_exec.Token.{Tokens, Entry, Codec, take_token}
use remote_exec.Token.Quiet.{listing, read_quiet}
use remote_exec.Token.Sharing.{
  consuming, updates, outside, waiting, entered, loaded, storing, renaming, leaving, finished,
  advance,
}

pub pair_path : {A : Type 0} {B : Type 0} {x : A × B} {a : A} → x.0 ≡ a → x ≡ (a, x.1)
pair_path {x = x} e = λ i. (e i, x.1)

module _ (env : Env) (json : Codec) (path value : Text) (quiet : (n : ℕ) → env.fault n ≡ none) where
  pub advance-outside :
      (w : World) → advance env json path (consuming value) outside w ≡ (waiting, step w)
  unfolding advance mkdir_all
  advance-outside w = ground (arith, quiet w.calls)

  pub advance-waiting :
      (w : World) → advance env json path (consuming value) waiting w ≡ (entered, step w)
  unfolding advance attempt
  advance-waiting w = ground (arith, quiet w.calls)

  pub advance-entered :
      (m : Tokens) (w : World)
      → listing env json path quiet w ≡ ok m
      → advance env json path (consuming value) entered w ≡ (loaded m, step w)
  unfolding advance
  advance-entered m w listed = ground (arith, read_quiet env json path quiet w)

  pub advance-loaded :
      (m : Tokens) (rec : Entry) (t : Text) (w : World)
      → lookup value m ≡ some rec
      → after (env.now w.calls) rec.expiry ≡ false
      → json.encode (delete value m) ≡ ok t
      → advance env json path (consuming value) (loaded m) w ≡ (storing (ok rec.role) t, step w)
  unfolding advance updates take_token
  advance-loaded m rec t w found live coded = ground arith

  pub advance-storing :
      (r : Result Text) (t : Text) (w : World)
      → advance env json path (consuming value) (storing r t) w
        ≡ (renaming r t, record (step w) { files = insert (path <> ".tmp") t w.files })
  unfolding advance write_file
  advance-storing r t w = ground (arith, quiet w.calls)

  pub advance-leaving :
      (r : Result Text) (w : World)
      → (advance env json path (consuming value) (leaving r) w).0 ≡ finished r
  unfolding advance
  advance-leaving r w = refl

  pub advance-renaming :
      (r : Result Text) (t : Text) (w : World)
      → lookup (path <> ".tmp") w.files ≡ some t
      → (advance env json path (consuming value) (renaming r t) w).0 ≡ leaving r
  unfolding advance rename
  advance-renaming r t w stored = ground (arith, quiet w.calls)
