-- ===== src/Token/Single.antt =====
-- A token is good once, for as long as it lasts, whatever else fails.
use remote_exec.Base.{suc, ◌≡◌, ◌≢◌, sym, ap, ◌∙◌, inl, inr, Text, none, some, arith, Option-cases}
use mathlib.Core.Option.{some-ne-none, some-injective}
use remote_exec.Base.Int.{◌≤ℤ◌}
use remote_exec.Base.Dict.{Dict, lookup, lookup-nil, delete, lookup-delete_self}
use remote_exec.Error.{Error}
use remote_exec.Io.{Result, ok, err}
use remote_exec.Io.World.{World, Env, step}
use remote_exec.Token.{Tokens, Entry, Codec, IsFaithful, take_token, consume}
use remote_exec.Token.Storage.{Seen, persist_cases, mutate_cases}

ok-ne-err : (a : Text) (e : Error) → ok a ≡ err e → ⊥
ok-ne-err a e h = cc

module _ (env : Env) (json : Codec) (path : Text) where
  -- The file of a world, read without a fault.
  abbrev pub Holds : World → Text → Entry → Type 0
  Holds w value rec =
      (t : Text) × (m : Tokens) × (lookup path w.files ≡ some t)
      × (json.decode t ≡ ok m)
      × (lookup value m ≡ some rec)

  take_token_lem :
      (value : Text) (m : Tokens) (w : World) (role : Text)
      → (take_token env json path value m w).0.0 ≡ ok role
      → (rec : Entry) × (lookup value m ≡ some rec)
        × (env.now w.calls ≤ℤ rec.expiry)
        × (rec.role ≡ role)
        × (take_token env json path value m w ≡ ((ok role, delete value m), step w))
  unfolding take_token
  take_token_lem value m w role h = elim (Option-cases (lookup value m)) [
    | inl absent ↦ absurd (ground arith)
    | inr (rec, stored) ↦ (rec, stored, ground arith, ground arith, ground arith)
  ]

  -- What a successful `Consume` did: it saw the token in the file, and wrote the file without it.
  pub consume_ok :
      (value role : Text) (w : World)
      → (consume env json path value w).0 ≡ ok role
      → (m : Tokens) × (rec : Entry) × (t : Text) × Seen env json path w m
        × (lookup value m ≡ some rec)
        × (env.now (suc (suc (suc w.calls))) ≤ℤ rec.expiry)
        × (rec.role ≡ role)
        × (json.encode (delete value m) ≡ ok t)
        × (lookup path (consume env json path value w).1.files ≡ some t)
  unfolding consume
  consume_ok value role w h = elim (mutate_cases env json path (take_token env json path value) w) [
    | inl (e, fails, kept) ↦ absurd (ground arith)
    | inr (m, seen, out, files) ↦
        let w3 = step (step (step w)) in
        let run = take_token env json path value m w3 in
        elim (persist_cases env json path run.0.0 run.0.1 run.1) [
          | inl (t, coded, same, stored) ↦
              let (rec, found, fresh, role_eq, e) =
                take_token_lem value m w3 role (sym same ∙ sym out ∙ h) in
              (
                m,
                rec,
                t,
                seen,
                found,
                fresh,
                role_eq,
                ap (λ (x : (Result Text × Tokens) × World). json.encode x.0.1) (sym e) ∙ coded,
                ap (λ (x : Dict Text). lookup path x) files ∙ stored,
              )
          | inr (e, fails, kept) ↦ absurd (ok-ne-err role e (sym (sym fails ∙ sym out ∙ h)))
        ]
  ]

  pub absent_of_Seen :
      (value : Text) (w : World) (m : Tokens)
      → ((t : Text) (n : Tokens)
          → lookup path w.files ≡ some t
          → json.decode t ≡ ok n
          → lookup value n ≡ none)
      → Seen env json path w m
      → lookup value m ≡ none
  absent_of_Seen value w m gone (inl empty) = rw empty (lookup-nil value)
  absent_of_Seen value w m gone (inr (t, stored, parsed)) = gone t m stored parsed

  -- A file in which the token is not listed lets no `Consume` succeed.
  pub consume_absent :
      (value role : Text) (w : World)
      → ((t : Text) (n : Tokens)
          → lookup path w.files ≡ some t
          → json.decode t ≡ ok n
          → lookup value n ≡ none)
      → (consume env json path value w).0 ≢ ok role
  consume_absent value role w gone h =
      let (m, rec, t, seen, found, fresh, same, coded, stored) = consume_ok value role w h in
      some-ne-none rec (sym found ∙ absent_of_Seen value w m gone seen)

  -- A role comes from a token that the file lists with that role and whose lifetime is not over.
  consume_sound :
      (value role : Text) (w : World)
      → (consume env json path value w).0 ≡ ok role
      → (rec : Entry) × Holds w value rec
        × (env.now (suc (suc (suc w.calls))) ≤ℤ rec.expiry)
        × (rec.role ≡ role)
  consume_sound value role w h =
      let (m, rec, t, seen, found, fresh, same, coded, stored) = consume_ok value role w h in
      (rec, held m rec found seen, fresh, same)
    where
      held :
          (m : Tokens) (rec : Entry)
          → lookup value m ≡ some rec
          → Seen env json path w m
          → Holds w value rec
      held m rec found (inl empty) =
          absurd (some-ne-none rec (sym found ∙ rw empty (lookup-nil value)))
      held m rec found (inr (t, stored, parsed)) = (t, m, stored, parsed, found)

module _ (env : Env) (json : Codec) (law : IsFaithful json) (path : Text) where
  -- After a `Consume` returned a role, no `Consume` of the same token returns one again, as long
  -- as nobody else has written the file: whatever calls fail, then or later, in whatever way.
  pub consume_once :
      (value role again : Text) (w later : World)
      → (consume env json path value w).0 ≡ ok role
      → lookup path later.files ≡ lookup path (consume env json path value w).1.files
      → (consume env json path value later).0 ≢ ok again
  consume_once value role again w later h same =
      let (m, rec, t, seen, found, fresh, role_eq, coded, stored) =
        consume_ok env json path value role w h in
      let (n, parsed, alike) = law.decode-encode (delete value m) t coded in
      consume_absent env json path value again later λ t' n' stored' parsed'.
        let same_text : t' ≡ t = some-injective t' t (sym stored' ∙ same ∙ stored) in
        let same_map : n' ≡ n = cc in rw same_map (alike value ∙ lookup-delete_self value m)
