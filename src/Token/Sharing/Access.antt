-- ===== src/Token/Sharing/Access.antt =====
-- internal/token/token.go: each access of a caller keeps what the callers rely on.
use remote_exec.Base.{
  ◌≡◌, ◌≢◌, refl, sym, ap, ◌∙◌, ◌⊎◌, inl, inr, Text, ◌<>◌, none, some, arith, Option-cases,
}
use remote_exec.Base.Int.{◌+ℤ◌}
use remote_exec.Base.Dict.{
  Dict, lookup, lookup-nil, delete, lookup-delete, lookup-insert, lookup-insert_self,
}
use remote_exec.Error.{Error, wrap, plain}
use remote_exec.Io.{Result, ok, err, with_error, on_error}
use remote_exec.Io.World.{World, Env}
use remote_exec.Io.Calls.{write_file, rename, mkdir_all, attempt}
use remote_exec.Token.{Tokens, Codec, IsFaithful, read, take_token, add_token}
use remote_exec.Token.Storage.{read-Seen, world-read, lookup-torn, lookup-tmp}
use remote_exec.Token.Sharing.{
  Op, consuming, issuing, updates, Pc, outside, waiting, entered, loaded, storing, renaming,
  leaving, finished, advance,
}
use remote_exec.Token.Sharing.Local.{
  won, Spares, Lacks, Absent, Writes, Local, Fine, kept, after_mkdir-Fine, after_lock-Fine,
  after_read-Fine, after_encode-Fine, after_save-Fine, after_rename-Fine,
}

module _ (env : Env) (json : Codec) (law : IsFaithful json) (path token : Text) where
  -- The function never adds the token.
  updates-none :
      (op : Op) (m : Tokens) (w : World)
      → Spares token op
      → lookup token m ≡ none
      → lookup token (updates env json path op m w).0.1 ≡ none
  unfolding updates take_token add_token
  updates-none (consuming v) m w spares h = ground (arith, lookup-delete token v m)
  updates-none (issuing v role ttl) m w spares h = ground (
    arith,
    spares,
    lookup-insert token v (record { role = role; expiry = env.now w.calls +ℤ ttl }) m,
  )

  module _ (op : Op) where
    pub files-updates : (m : Tokens) (w : World) → (updates env json path op m w).1.files ≡ w.files
    unfolding updates take_token add_token
    files-updates m w = ground arith

    -- It answers `Consume` with a role only if it removes the token.
    updates-ok :
        (a : Text) (m : Tokens) (w : World)
        → op ≡ consuming token
        → (updates env json path op m w).0.0 ≡ ok a
        → (lookup token m ≢ none) × (lookup token (updates env json path op m w).0.1 ≡ none)
    unfolding updates take_token
    updates-ok a m w e h = (
      λ missing. ground (arith, e, h, missing),
      ground (arith, e, h, lookup-delete token token m),
    )

  pub encoded :
      (m : Tokens) (t : Text)
      → with_error (wrap "token: encode: ") (json.encode m) ≡ ok t
      → json.encode m ≡ ok t
  encoded m t h = ground arith

  encode-Lacks :
      (m : Tokens) (t : Text)
      → json.encode m ≡ ok t
      → lookup token m ≡ none
      → Lacks env json law path token t
  encode-Lacks m t coded missing n parsed =
      let (n', parsed', alike) = law.decode-encode m t coded in
      let same : n' ≡ n = cc in
      ap (λ (l : Tokens). lookup token l) (sym same) ∙ alike token ∙ missing

  updates-Writes :
      (op : Op) (spares : Spares token op) (m : Tokens) (t : Text) (w : World)
      → (Absent env json law path token w → lookup token m ≡ none)
      → json.encode (updates env json path op m w).0.1 ≡ ok t
      → Writes env json law path token op
          (updates env json path op m w).0.0
          t
          (updates env json path op m w).1
  updates-Writes op spares m t w known coded =
      let m' = (updates env json path op m w).0.1 in
      let back : Absent env json law path token (updates env json path op m w).1
          → Absent env json law path token w =
        λ absent u e. absent u (ap (λ (f : Dict Text). lookup path f) (files-updates op m w) ∙ e) in
      (
        λ absent. encode-Lacks m' t coded (updates-none op m w spares (known (back absent))),
        λ e a won_.
            let (listed, gone) = updates-ok op a m w e won_ in
            ((λ absent. listed (known (back absent))), encode-Lacks m' t coded gone),
      )

  read-known :
      (w : World) (m : Tokens)
      → (read env json path w).0 ≡ ok m
      → Absent env json law path token (read env json path w).1
      → lookup token m ≡ none
  read-known w m h absent = elim (read-Seen env json path w m h) [
    | inl empty ↦ ap (λ (l : Tokens). lookup token l) empty ∙ lookup-nil token
    | inr (t, stored, parsed) ↦
        absent t (ap (λ (v : World). lookup path v.files) (world-read env json path w) ∙ stored) m
          parsed
  ]

  pub files-read : (w : World) → (read env json path w).1.files ≡ w.files
  files-read w = ap (λ (v : World). v.files) (world-read env json path w)

  pub rename_cases :
      (t : Text) (w : World)
      → lookup (path <> ".tmp") w.files ≡ some t
      → let (done, w') = on_error (wrap "token: rename: ") (rename env (path <> ".tmp") path) w in
        (done ≡ ok tt) × (lookup path w'.files ≡ some t)
        ⊎ (e : Error) × (done ≡ err e) × (lookup path w'.files ≡ lookup path w.files)
  unfolding rename
  rename_cases t w stored = elim (Option-cases (env.fault w.calls)) [
    | inl quiet ↦ inl (ground (arith, lookup-insert_self path t (delete (path <> ".tmp") w.files)))
    | inr (f, fails) ↦ inr (wrap "token: rename: " (plain f.reason), ground arith, ground arith)
  ]

  pub write_file-kept :
      (t : Text) (w : World)
      → lookup path (write_file env (path <> ".tmp") t w).1.files ≡ lookup path w.files
  unfolding write_file
  write_file-kept t w = elim (Option-cases (env.fault w.calls)) [
    | inl quiet ↦ ground (arith, lookup-tmp path t w.files)
    | inr (f, fails) ↦ ground (arith, lookup-torn path t w.files f.part)
  ]

  pub write_file-stored :
      (t : Text) (w : World)
      → with_error (wrap "token: write tmp: ") (write_file env (path <> ".tmp") t w).0 ≡ ok tt
      → lookup (path <> ".tmp") (write_file env (path <> ".tmp") t w).1.files ≡ some t
  unfolding write_file
  write_file-stored t w good = elim (Option-cases (env.fault w.calls)) [
    | inl quiet ↦ ground (arith, lookup-insert_self (path <> ".tmp") t w.files)
    | inr (f, fails) ↦ absurd (ground arith)
  ]

  pub files-mkdir_all : (w : World) → (mkdir_all env w).1.files ≡ w.files
  unfolding mkdir_all
  files-mkdir_all w = ground arith

  pub files-attempt : (w : World) → (attempt env w).1.files ≡ w.files
  unfolding attempt
  files-attempt w = ground arith

  pub won-finished : (r : Result Text) → won (finished r) ≡ won (leaving r)
  won-finished (ok a) = refl
  won-finished (err e) = refl

  pub advance-Fine :
      (op : Op) (spares : Spares token op) (p : Pc) (w : World)
      → Local env json law path token op p w
      → let (p', w') = advance env json path op p w in Fine env json law path token op p w p' w'
  unfolding advance
  advance-Fine op spares outside w h =
      let (r, w') = on_error (wrap "token: mkdir: ") (mkdir_all env) w in
      after_mkdir-Fine env json law path token op r w w' (files-mkdir_all w)
  advance-Fine op spares waiting w h =
      let (r, w') = on_error (wrap "token: lock: ") (attempt env) w in
      after_lock-Fine env json law path token op r w w' (files-attempt w)
  advance-Fine op spares entered w h =
      after_read-Fine env json law path token op (read env json path w).0 w (read env json path w).1
        (files-read w) (λ m e absent. read-known w m e absent)
  advance-Fine op spares (loaded m) w h =
      let ((r, m'), w') = updates env json path op m w in
      after_encode-Fine env json law path token op m r
        (with_error (wrap "token: encode: ") (json.encode m')) w w' (files-updates op m w)
        (λ t coded. updates-Writes op spares m t w h (encoded m' t coded))
  advance-Fine op spares (storing r t) w h =
      let (done, w') = on_error (wrap "token: write tmp: ") (write_file env (path <> ".tmp") t) w in
      after_save-Fine env json law path token op r t done w w' (write_file-kept t w)
        (λ good. write_file-stored t w good) h
  advance-Fine op spares (renaming r t) w h =
      let (done, w') = on_error (wrap "token: rename: ") (rename env (path <> ".tmp") path) w in
      after_rename-Fine env json law path token op r t done w w' (rename_cases t w h.1) h.0
  advance-Fine op spares (leaving r) w h =
      kept env json law path token op (leaving r) (finished r) w (attempt env w).1 (files-attempt w)
        (won-finished r) tt
  advance-Fine op spares (finished r) w h =
      kept env json law path token op (finished r) (finished r) w w refl refl tt
