-- ===== src/Token/Sharing/Keeping.antt =====
-- Each access of a caller that keeps a token: it leaves the token in the file, or puts it there.
use remote_exec.Base.{
  ◌≡◌, refl, sym, ap, ◌∙◌, ◌⊎◌, inl, inr, Text, ◌<>◌, arith, Option-cases, text_dec,
}
use remote_exec.Base.Int.{◌+ℤ◌}
use remote_exec.Base.Dict.{Dict, lookup, lookup-delete, lookup-insert, lookup-insert_self}
use remote_exec.Error.{wrap, is_not_exist}
use remote_exec.Io.{ok, with_error, on_error}
use remote_exec.Io.World.{World, Env}
use remote_exec.Io.Calls.{read_file, write_file, rename, mkdir_all, attempt}
use remote_exec.Token.{Tokens, Entry, Codec, IsFaithful, interpret, read, take_token, add_token}
use remote_exec.Token.Sharing.{
  Op, consuming, issuing, updates, Pc, outside, waiting, entered, loaded, storing, renaming,
  leaving, finished, advance,
}
use remote_exec.Token.Sharing.Access.{
  files-updates, encoded, rename_cases, write_file-kept, write_file-stored, files-read,
  files-mkdir_all, files-attempt, won-finished,
}
use remote_exec.Token.Sharing.Listed.{
  FailsLate, IsListed, Shows, Lists, Issues, Keeps, Known, Fine, Lists-same, kept, after_mkdir-Fine,
  after_lock-Fine, after_read-Fine, after_encode-Fine, after_save-Fine, after_rename-Fine,
  encode-Shows,
}

module _ (env : Env) (json : Codec) (law : IsFaithful json) (path token role : Text)
    (late : FailsLate env) where
  -- The function leaves the token in the map, or puts it there.
  updates-IsListed :
      (op : Op) (m : Tokens) (w : World)
      → Keeps json path token role op
      → IsListed json path token role m
      → IsListed json path token role (updates env json path op m w).0.1
  unfolding updates take_token add_token
  updates-IsListed (consuming v) m w keeps (rec, found, same) =
      (rec, ground (arith, lookup-delete token v m, keeps), same)
  updates-IsListed (issuing v r ttl) m w keeps (rec, found, same) =
      let new : Entry = record { role = r; expiry = env.now w.calls +ℤ ttl } in
      elim (text_dec v token) [
        | yes e ↦ (new, ground (arith, lookup-insert token v new m), keeps e)
        | no other ↦ (rec, ground (arith, lookup-insert token v new m), same)
      ]

  issued-IsListed :
      (op : Op) (m : Tokens) (w : World)
      → Issues json path token role op
      → IsListed json path token role (updates env json path op m w).0.1
  unfolding updates add_token
  issued-IsListed op m w (ttl, e) =
      let rec : Entry = record { role = role; expiry = env.now w.calls +ℤ ttl } in
      (rec, ground (arith, e, lookup-insert_self token rec m), refl)

  updates-Shows :
      (op : Op) (m : Tokens) (w w' : World) (t : Text)
      → Keeps json path token role op
      → (Lists json path token role w → IsListed json path token role m)
      → lookup path w'.files ≡ lookup path w.files
      → json.encode (updates env json path op m w).0.1 ≡ ok t
      → Lists json path token role w' ⊎ Issues json path token role op
      → Shows json path token role t
  updates-Shows op m w w' t keeps known same coded (inl listed) =
      encode-Shows json path token role law (updates env json path op m w).0.1 t coded (
        updates-IsListed op m w keeps
          (known (Lists-same json path token role w' w (sym same) listed)))
  updates-Shows op m w w' t keeps known same coded (inr issues) =
      encode-Shows json path token role law (updates env json path op m w).0.1 t coded
        (issued-IsListed op m w issues)

  -- A read that succeeds sees what the file lists.
  read-IsListed :
      (w : World) (m : Tokens)
      → (read env json path w).0 ≡ ok m
      → Lists json path token role w
      → IsListed json path token role m
  unfolding read interpret read_file is_not_exist
  read-IsListed w m h (t, stored, (n, nonempty, parsed, (rec, found, same))) =
      elim (Option-cases (env.fault w.calls)) [
        | inl quiet ↦
            let seen : m ≡ n = ground arith in
            (rec, ap (λ (l : Tokens). lookup token l) seen ∙ found, same)
        | inr (f, fails) ↦
            let (part, left, some_data) = late w.calls f fails in absurd (ground arith)
      ]

  pub advance-Fine :
      (op : Op) (keeps : Keeps json path token role op) (p : Pc) (w : World)
      → Known json path token role op p w
      → let (p', w') = advance env json path op p w in Fine json path token role op p w p' w'
  unfolding advance
  advance-Fine op keeps outside w h =
      let (r, w') = on_error (wrap "token: mkdir: ") (mkdir_all env) w in
      after_mkdir-Fine json path token role op r w w'
        (ap (λ (f : Dict Text). lookup path f) (files-mkdir_all env json law path token w))
  advance-Fine op keeps waiting w h =
      let (r, w') = on_error (wrap "token: lock: ") (attempt env) w in
      after_lock-Fine json path token role op r w w'
        (ap (λ (f : Dict Text). lookup path f) (files-attempt env json law path token w))
  advance-Fine op keeps entered w h =
      let same = ap (λ (f : Dict Text). lookup path f) (files-read env json law path token w) in
      after_read-Fine json path token role op (read env json path w).0 w (read env json path w).1
        same
        (λ m e listed.
          read-IsListed w m e
            (Lists-same json path token role (read env json path w).1 w (sym same) listed))
  advance-Fine op keeps (loaded m) w h =
      let ((r, m'), w') = updates env json path op m w in
      let same =
        ap (λ (f : Dict Text). lookup path f) (files-updates env json law path token op m w) in
      after_encode-Fine json path token role op m r
        (with_error (wrap "token: encode: ") (json.encode m')) w w' same
        (λ t coded.
          updates-Shows op m w w' t keeps h same (encoded env json law path token m' t coded))
  advance-Fine op keeps (storing r t) w h =
      let (done, w') = on_error (wrap "token: write tmp: ") (write_file env (path <> ".tmp") t) w in
      after_save-Fine json path token role op r t done w w'
        (write_file-kept env json law path token t w)
        (λ good. write_file-stored env json law path token t w good) h
  advance-Fine op keeps (renaming r t) w h =
      let (done, w') = on_error (wrap "token: rename: ") (rename env (path <> ".tmp") path) w in
      after_rename-Fine json path token role op r t done w w'
        (rename_cases env json law path token t w h.1) h.0
  advance-Fine op keeps (leaving r) w h =
      kept json path token role op (leaving r) (finished r) w (attempt env w).1
        (ap (λ (f : Dict Text). lookup path f) (files-attempt env json law path token w))
        (won-finished env json law path token r) tt
  advance-Fine op keeps (finished r) w h =
      kept json path token role op (finished r) (finished r) w w refl refl tt
