-- ===== src/Agentd/Platform/Released.antt =====
-- The daemon leaves no database open.
use remote_exec.Base.{ℕ, suc, ◌≡◌, ◌∙◌, ◌⊎◌, Text, inl, inr, arith}
use remote_exec.Error.{Error, wrap}
use remote_exec.Io.{ok, err, Action, Done, Result-cases, ◌>>◌}
use remote_exec.Agentd.Platform.{Sql, dsn_or_default, open_db, new_platform, close_platform, core}

-- What database/sql documents of the number of open databases.
pub record Counts {S : Type 0} (sql : Sql S) : Type 0 where
  pub count : S → ℕ
  pub opens :
      (dsn : Text) (h : sql.Handle) (s : S)
      → (sql.open_dsn dsn s).0 ≡ ok h
      → count (sql.open_dsn dsn s).1 ≡ suc (count s)
  pub opens_none :
      (dsn : Text) (e : Error) (s : S)
      → (sql.open_dsn dsn s).0 ≡ err e
      → count (sql.open_dsn dsn s).1 ≡ count s
  pub pings : (h : sql.Handle) (s : S) → count (sql.ping h s).1 ≡ count s
  pub closes :
      (h : sql.Handle) (s : S) (n : ℕ) → count s ≡ suc n → count (sql.close_handle h s).1 ≡ n

module _ {S : Type 0} (sql : Sql S) (law : Counts sql) where
  open law use {count, opens, opens_none, pings, closes}

  open_db-count :
      (dsn : Text) (s : S)
      → let (r, s') = open_db sql dsn s in
        ((h : sql.Handle) × (r ≡ ok h) × (count s' ≡ suc (count s)))
        ⊎ ((e : Error) × (r ≡ err e) × (count s' ≡ count s))
  unfolding open_db
  open_db-count dsn s = elim (Result-cases (sql.open_dsn dsn s).0) [
    | inl (h, opened) ↦
        let s1 = (sql.open_dsn dsn s).1 in
        let one_more = opens dsn h s opened in
        elim (Result-cases (sql.ping h s1).0) [
          | inl (_, fine) ↦ inl (h, ground arith, ground (arith, pings h s1))
          | inr (e, bad) ↦ inr (
            wrap "ping sqlite: " e,
            ground arith,
            ground (arith, closes h (sql.ping h s1).1 (count s) (pings h s1 ∙ one_more)),
          )
        ]
    | inr (e, failed) ↦
        inr (wrap "open sqlite: " e, ground arith, ground (arith, opens_none dsn e s failed))
  ]

  then-count :
      (serve shutdown : Action S Done) (s : S)
      → ((t : S) → count (serve t).1 ≡ count t)
      → ((t : S) → count (shutdown t).1 ≡ count t)
      → count ((serve >> shutdown) s).1 ≡ count s
  then-count serve shutdown s keeps keeps' = elim (Result-cases (serve s).0) [
    | inl (_, fine) ↦ ground (arith, keeps s, keeps' (serve s).1)
    | inr (e, bad) ↦ ground (arith, keeps s)
  ]

  -- Whichever step fails, the daemon ends with as many open databases as it began with, if serving
  -- and shutting down open and close none; and a failing start of the database is its result.
  pub core-count :
      (dsn : Text) (serve shutdown : Action S Done) (s : S)
      → ((t : S) → count (serve t).1 ≡ count t)
      → ((t : S) → count (shutdown t).1 ≡ count t)
      → (count (core sql dsn serve shutdown s).1 ≡ count s)
        × ((e : Error)
            → (open_db sql (dsn_or_default sql dsn) s).0 ≡ err e
            → (core sql dsn serve shutdown s).0 ≡ err e)
  unfolding core new_platform close_platform
  core-count dsn serve shutdown s keeps keeps' = elim (open_db-count (dsn_or_default sql dsn) s) [
    | inl (h, opened, one_more) ↦
        let s1 = (open_db sql (dsn_or_default sql dsn) s).1 in
        let same = then-count serve shutdown s1 keeps keeps' in
        (
          ground (arith, closes h ((serve >> shutdown) s1).1 (count s) (same ∙ one_more)),
          λ e failed. absurd (ground arith),
        )
    | inr (e, failed, same) ↦ (ground arith, λ e' failed'. ground arith)
  ]
