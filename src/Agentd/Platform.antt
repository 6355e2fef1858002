-- ===== src/Agentd/Platform.antt =====
-- cmd/rexec-agentd/internal/db/db.go, cmd/rexec-agentd/internal/platform/platform.go, and the
-- function `core` of cmd/rexec-agentd/main.go: the daemon's database, opened before it serves and
-- closed behind it.
pub mod Released
use remote_exec.Base.{ℕ, suc, ◌≡◌, Text, Option, none, some, ◌==◌, if◌then◌else◌}
use remote_exec.Error.{Error, wrap}
use remote_exec.Io.{Result, ok, err, Action, Done, pure, raise, on_error, ◌>>=◌, ◌>>◌}

-- database/sql over the sqlite driver, on the state of the process.
pub record Sql (S : Type 0) : Type 1 where
  pub Handle : Type 0
  pub open_dsn : Text → Action S Handle
  pub ping : Handle → Action S Done
  pub close_handle : Handle → Action S Done

module _ {S : Type 0} (sql : Sql S) where
  open sql use {Handle, open_dsn, ping, close_handle}

  -- `_ = db.Close()`
  abbrev dropping : Handle → S → S
  dropping h s = (close_handle h s).1

  abbrev pinged : Handle → Result Done × S → Result Handle × S
  pinged h (ok _, s) = (ok h, s)
  pinged h (err e, s) = (err (wrap "ping sqlite: " e), dropping h s)

  -- `db.New`
  unfoldable pub open_db : Text → Action S Handle
  open_db dsn = on_error (wrap "open sqlite: ") (open_dsn dsn) >>= λ h s. pinged h (ping h s)

  pub record Platform : Type 0 where
    pub db : Option Handle

  abbrev pub dsn_or_default : Text → Text
  dsn_or_default dsn = if dsn == "" then "file:remote-exec.db" else dsn

  -- `platform.New`; `dsn` is the variable DATABASE_URL.
  unfoldable pub new_platform : Text → Action S Platform
  new_platform dsn = do h ← open_db (dsn_or_default dsn); pure (record { db = some h })

  -- `Platform.Close`; `errors.Join` of one error prints as that error.
  unfoldable pub close_platform : Platform → Action S Done
  close_platform p = elim p.db [ none ↦ pure tt | some h ↦ on_error (wrap "") (close_handle h) ]

  -- `defer func() { _ = plat.Close(ctx) }()`
  abbrev closing : Platform → Result Done × S → Result Done × S
  closing p (r, s) = (r, (close_platform p s).1)

  -- `core`, over `serveAgent` and the run-time's `Shutdown`.
  unfoldable pub core : Text → Action S Done → Action S Done → Action S Done
  core dsn serve shutdown = new_platform dsn >>= λ p s. closing p ((serve >> shutdown) s)
