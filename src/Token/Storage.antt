-- ===== src/Token/Storage.antt =====
-- The file under a `mutate`: what a read may see, and what a write may leave.
use remote_exec.Base.{
  ◌≡◌, ◌≢◌, refl, ap, ◌∙◌, ◌⊎◌, inl, inr, Text, ◌<>◌, Option, none, some, [], arith, append-ne_self,
  ne_literal, Option-cases, suc,
}
use remote_exec.Base.Dict.{Dict, lookup, insert, delete, lookup-insert_self, lookup-insert_ne}
use remote_exec.Error.{Error, plain, wrap, join}
use remote_exec.Io.{Result, ok, err, Result-cases}
use remote_exec.Io.World.{World, Env, step}
use remote_exec.Io.Calls.{Read, torn, read_file}
use remote_exec.Token.{Tokens, Codec, Update, interpret, read, store, write, persist, mutate}

tmp-ne : (path : Text) → path ≢ path <> ".tmp"
tmp-ne path = append-ne_self path ".tmp" (ne_literal ".tmp" "" refl)

module _ (path : Text) (contents : Text) (files : Dict Text) where
  pub lookup-torn :
      (o : Option Text) → lookup path (torn o (path <> ".tmp") files) ≡ lookup path files
  lookup-torn none = refl
  lookup-torn (some t) = lookup-insert_ne path (path <> ".tmp") t files (tmp-ne path)

  pub lookup-tmp : lookup path (insert (path <> ".tmp") contents files) ≡ lookup path files
  lookup-tmp = lookup-insert_ne path (path <> ".tmp") contents files (tmp-ne path)

module _ (env : Env) (json : Codec) (path : Text) where
  -- Storing succeeds if neither of its calls fails.
  pub store_stores :
      (contents : Text) (w : World)
      → env.fault w.calls ≡ none
      → env.fault (suc w.calls) ≡ none
      → ((store env json path contents w).0 ≡ ok tt)
        × (lookup path (store env json path contents w).1.files ≡ some contents)
  unfolding store
  store_stores contents w q q' = ground (
    arith,
    lookup-insert_self (path <> ".tmp") contents w.files,
    lookup-insert_self path contents
        (delete (path <> ".tmp") (insert (path <> ".tmp") contents w.files)),
  )

  -- Storing either replaces the file as a whole or leaves it as it was.
  pub store_cases :
      (contents : Text) (w : World)
      → let (r, w') = store env json path contents w in
        (r ≡ ok tt) × (lookup path w'.files ≡ some contents)
        ⊎ (e : Error) × (r ≡ err e) × (lookup path w'.files ≡ lookup path w.files)
  unfolding store
  store_cases contents w = elim (Option-cases (env.fault w.calls)) [
    | inl quiet ↦ elim (Option-cases (env.fault (suc w.calls))) [
      | inl quiet' ↦ inl (
          ground (
            arith,
            lookup-insert_self (path <> ".tmp") contents w.files,
            lookup-insert_self path contents
                (delete (path <> ".tmp") (insert (path <> ".tmp") contents w.files)),
          ))
      | inr (f, fails) ↦ inr (
        wrap "token: rename: " (plain f.reason),
        ground (arith),
        ground (arith, lookup-tmp path contents w.files),
      )
    ]
    | inr (f, fails) ↦ inr (
      wrap "token: write tmp: " (plain f.reason),
      ground arith,
      ground (arith, lookup-torn path contents w.files f.part),
    )
  ]

  -- The same of a map that is written: its whole encoding, or what was there.
  write_cases :
      (m : Tokens) (w : World)
      → let (r, w') = write env json path m w in
        ((t : Text) × (json.encode m ≡ ok t) × (r ≡ ok tt) × (lookup path w'.files ≡ some t))
        ⊎ (e : Error) × (r ≡ err e) × (lookup path w'.files ≡ lookup path w.files)
  unfolding write
  write_cases m w = elim (Result-cases (json.encode m)) [
    | inl (t, e) ↦ elim (store_cases t w) [
      | inl (done, stored) ↦ inl (t, e, ground arith, ground arith)
      | inr (f, fails, kept) ↦ inr (f, ground arith, ground arith)
    ]
    | inr (f, e) ↦ inr (wrap "token: encode: " f, ground arith, ground arith)
  ]

  -- What the file holds after the function's map was written back, and what the caller gets.
  pub persist_cases :
      {A : Type 0} (r : Result A) (m : Tokens) (w : World)
      → let (out, w') = persist env json path ((r, m), w) in
        ((t : Text) × (json.encode m ≡ ok t) × (out ≡ r) × (lookup path w'.files ≡ some t))
        ⊎ (e : Error) × (out ≡ err e) × (lookup path w'.files ≡ lookup path w.files)
  unfolding persist
  persist_cases r m w = elim (write_cases m w) [
    | inl (t, e, done, stored) ↦ inl (t, e, ground arith, stored)
    | inr (f, fails, kept) ↦ elim (Result-cases r) [
      | inl (a, was_ok) ↦ inr (f, ground arith, kept)
      | inr (d, was_err) ↦ inr (join d f, ground arith, kept)
    ]
  ]

  pub world-read : (w : World) → (read env json path w).1 ≡ step w
  unfolding read
  world-read w = ground arith

  -- A map that a read may return: that of the file, or the empty one.
  abbrev pub Seen : World → Tokens → Type 0
  Seen w m = (m ≡ []) ⊎ (t : Text) × (lookup path w.files ≡ some t) × (json.decode t ≡ ok m)

  interpret_cases :
      (r : Read) (m : Tokens)
      → interpret env json path r ≡ ok m
      → (m ≡ []) ⊎ (r.failure ≡ none) × (json.decode r.contents ≡ ok m)
  unfolding interpret
  interpret_cases r m h = ground arith

  pub read-Seen : (w : World) (m : Tokens) → (read env json path w).0 ≡ ok m → Seen w m
  unfolding read
  read-Seen w m h = elim (interpret_cases (read_file env path w).0 m h) [
    | inl empty ↦ inl empty
    | inr (fine, parsed) ↦ elim (Option-cases (env.fault w.calls)) [
      | inl quiet ↦ elim (Option-cases (lookup path w.files)) [
        | inl missing ↦ absurd (ground arith)
        | inr (t, stored) ↦ inr (t, stored, ground arith)
      ]
      | inr (f, fails) ↦ absurd (ground arith)
    ]
  ]

  -- A `mutate` either stops before the function, with the file as it was, or runs the function on
  -- a map that the file may show and writes the result back.
  pub mutate_cases :
      {A : Type 0} (fn : Update A) (w : World)
      → let (out, w') = mutate env json path fn w in
        ((e : Error) × (out ≡ err e) × (w'.files ≡ w.files))
        ⊎ ((m : Tokens) × Seen w m
            × (out ≡ (persist env json path (fn m (step (step (step w))))).0)
            × (w'.files ≡ (persist env json path (fn m (step (step (step w))))).1.files))
  unfolding mutate
  mutate_cases fn w = elim (Option-cases (env.fault w.calls)) [
    | inl quiet ↦ elim (Option-cases (env.fault (suc w.calls))) [
      | inl quiet' ↦ elim (Result-cases (read env json path (step (step w))).0) [
        | inl (m, seen) ↦ inr (
          m,
          read-Seen (step (step w)) m seen,
          ground (arith, world-read (step (step w))),
          ground (arith, world-read (step (step w))),
        )
        | inr (e, unread) ↦ inl (e, ground arith, ground (arith, world-read (step (step w))))
      ]
      | inr (f, fails) ↦ inl (wrap "token: lock: " (plain f.reason), ground arith, ground arith)
    ]
    | inr (f, fails) ↦ inl (wrap "token: mkdir: " (plain f.reason), ground arith, ground arith)
  ]

  -- Whatever fails, a `mutate` leaves the file as it was, or the whole encoding of the function's
  -- map, computed from a map that the file may show.
  pub mutate_atomic :
      {A : Type 0} (fn : Update A) (w : World)
      → ((m : Tokens) (v : World) → (fn m v).1.files ≡ v.files)
      → let after_ = lookup path (mutate env json path fn w).1.files in
        (after_ ≡ lookup path w.files)
        ⊎ ((m : Tokens) × (t : Text) × Seen w m
            × (json.encode (fn m (step (step (step w)))).0.1 ≡ ok t)
            × (after_ ≡ some t))
  mutate_atomic fn w keeps = elim (mutate_cases fn w) [
    | inl (e, fails, kept) ↦ inl (ap (λ (f : Dict Text). lookup path f) kept)
    | inr (m, seen, out, files) ↦
        let run = fn m (step (step (step w))) in
        elim (persist_cases run.0.0 run.0.1 run.1) [
          | inl (t, coded, same, stored) ↦
              inr (m, t, seen, coded, ap (λ (f : Dict Text). lookup path f) files ∙ stored)
          | inr (e, fails, kept) ↦ inl (
              ap (λ (f : Dict Text). lookup path f) files
              ∙ kept
              ∙ ap (λ (f : Dict Text). lookup path f) (keeps m (step (step (step w)))))
        ]
  ]
