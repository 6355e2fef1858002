-- ===== src/Token/Sharing.antt =====
-- internal/token/token.go: several callers of `Consume` and `Issue` on one token file. The body of `mutate` is
-- cut at its accesses to what the callers share, and these interleave in any order.
pub mod Exclusive
pub mod Local
pub mod Access
pub mod Shared
pub mod Unfailing
pub mod Overlap
pub mod Alone
pub mod Listed
pub mod Keeping
pub mod Issued
use remote_exec.Base.{ℕ, ◌≡◌, ◌≢◌, refl, ap, Text, ◌<>◌, Bool, true, false, eqb, if◌then◌else◌}
use remote_exec.Base.Int.{ℤ}
use remote_exec.Base.Family.{update}
use remote_exec.Error.{wrap}
use remote_exec.Io.{Result, ok, err, Done, with_error, on_error}
use remote_exec.Io.World.{World, Env}
use remote_exec.Io.Calls.{write_file, rename, mkdir_all, attempt}
use remote_exec.Token.{Tokens, Codec, Update, joined, read, take_token, add_token}

-- Where a caller stands, with its live variables.
pub data Pc : Type 0 where
  -- before `os.MkdirAll`
  outside : Pc
  -- before `s.lock.Lock()`
  waiting : Pc
  -- before `s.read()`
  entered : Pc
  -- before `fn(m)`
  loaded : Tokens → Pc
  -- before `os.WriteFile`, with the function's result and the encoded map
  storing : Result Text → Text → Pc
  -- before `os.Rename`
  renaming : Result Text → Text → Pc
  -- before `s.lock.Unlock()`
  leaving : Result Text → Pc
  finished : Result Text → Pc

abbrev after_mkdir : Result Done → Pc
after_mkdir (ok _) = waiting
after_mkdir (err e) = finished (err e)

abbrev after_lock : Result Done → Pc
after_lock (ok _) = entered
after_lock (err e) = finished (err e)

abbrev after_read : Result Tokens → Pc
after_read (ok m) = loaded m
after_read (err e) = leaving (err e)

abbrev after_encode : Result Text → Result Text → Pc
after_encode r (ok t) = storing r t
after_encode r (err e) = leaving (joined r (err e))

abbrev after_save : Result Text → Text → Result Done → Pc
after_save r t (ok _) = renaming r t
after_save r t (err e) = leaving (joined r (err e))

-- Between `Lock` and `Unlock`.
abbrev pub critical : Pc → Bool
critical entered = true
critical (loaded _) = true
critical (storing _ _) = true
critical (renaming _ _) = true
critical (leaving _) = true
critical _ = false

-- What a caller is about: `Consume` of a token, or `Issue`, which has drawn its token.
pub data Op : Type 0 where
  consuming : Text → Op
  issuing : Text → Text → ℤ → Op

-- `Issue` returns its token, if `mutate` returned no error.
abbrev pub as_value : Text → Result Done → Result Text
as_value value (ok _) = ok value
as_value value (err e) = err e

module _ (env : Env) (json : Codec) (path : Text) where
  -- The function that the caller passes to `mutate`, with what the caller makes of its answer.
  unfoldable pub updates : Op → Update Text
  updates (consuming value) m w = take_token env json path value m w
  updates (issuing value role ttl) m w =
      let ((r, m'), w') = add_token env json path value role ttl m w in ((as_value value r, m'), w')

  -- One access of a caller.
  unfoldable pub advance : Op → Pc → World → Pc × World
  advance op outside w =
      let (r, w') = on_error (wrap "token: mkdir: ") (mkdir_all env) w in (after_mkdir r, w')
  advance op waiting w =
      let (r, w') = on_error (wrap "token: lock: ") (attempt env) w in (after_lock r, w')
  advance op entered w = let (r, w') = read env json path w in (after_read r, w')
  advance op (loaded m) w =
      let ((r, m'), w') = updates op m w in
      (after_encode r (with_error (wrap "token: encode: ") (json.encode m')), w')
  advance op (storing r t) w =
      let (done, w') = on_error (wrap "token: write tmp: ") (write_file env (path <> ".tmp") t) w in
      (after_save r t done, w')
  advance op (renaming r t) w =
      let (done, w') = on_error (wrap "token: rename: ") (rename env (path <> ".tmp") path) w in
      (leaving (joined r done), w')
  advance op (leaving r) w = (finished r, (attempt env w).1)
  advance op (finished r) w = (finished r, w)

-- The lock of github.com/gofrs/flock: its states, and when a caller's `Lock` and `Unlock` return.
pub record Lock : Type 1 where
  pub State : Type 0
  pub Take : ℕ → State → State → Type 0
  pub Drop : ℕ → State → State → Type 0

module _ (env : Env) (json : Codec) (path : Text) (k : Lock) (op : ℕ → Op) where
  open k use {State, Take, Drop}

  pub record System : Type 0 where
    pub world : World
    pub lock : State
    pub pc : ℕ → Pc

  -- Caller `i`, which is about `op i`, makes its next access.
  abbrev pub moved : ℕ → System → System
  moved i s =
      let (p, w) = advance env json path (op i) (s.pc i) s.world in
      record s { world = w; pc = update s.pc i p }

  pub data Step (s : System) : System → Type 0 where
    run : (i : ℕ) → s.pc i ≢ waiting → ((r : Result Text) → s.pc i ≢ leaving r) → Step s (moved i s)
    lock :
        (i : ℕ) (l : State)
        → s.pc i ≡ waiting
        → (moved i s).pc i ≡ entered
        → Take i s.lock l
        → Step s (record (moved i s) { lock = l })
    lock_fails : (i : ℕ) → s.pc i ≡ waiting → (moved i s).pc i ≢ entered → Step s (moved i s)
    unlock :
        (i : ℕ) (r : Result Text) (l : State)
        → s.pc i ≡ leaving r
        → Drop i s.lock l
        → Step s (record (moved i s) { lock = l })

  pub data Reach (s : System) : System → Type 0 where
    here : Reach s s
    next : {t u : System} → Reach s t → Step t u → Reach s u

  -- Nobody has started.
  abbrev pub started : World → State → System
  started w l = record { world = w; lock = l; pc = λ i. outside }
