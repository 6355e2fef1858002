-- ===== src/Token/Gone.antt =====
-- A token that is gone from the file stays gone, whatever other tokens are redeemed.
use mathlib.Core.Option.{some-injective}
use remote_exec.Base.{◌≡◌, sym, ◌∙◌, inl, inr, Text, none, some, arith}
use remote_exec.Base.Dict.{lookup, delete, lookup-delete, lookup-delete_self}
use remote_exec.Io.{ok}
use remote_exec.Io.World.{World, Env, step}
use remote_exec.Token.{Tokens, Codec, IsFaithful, take_token, consume}
use remote_exec.Token.Storage.{mutate_atomic}
use remote_exec.Token.Single.{absent_of_Seen, consume_ok}

-- No reading of the file lists the token.
abbrev pub Lacks : Codec → Text → Text → World → Type 0
Lacks json path value w =
    (t : Text) (n : Tokens)
    → lookup path w.files ≡ some t
    → json.decode t ≡ ok n
    → lookup value n ≡ none

module _ (env : Env) (json : Codec) (path value : Text) where
  world-take_token :
      (other : Text) (m : Tokens) (w : World)
      → (take_token env json path other m w).1.files ≡ w.files
  unfolding take_token
  world-take_token other m w = ground arith

  -- The map that the function of `Consume` leaves lists nothing new.
  take_token-none :
      (other : Text) (m : Tokens) (w : World)
      → lookup value m ≡ none
      → lookup value (take_token env json path other m w).0.1 ≡ none
  unfolding take_token
  take_token-none other m w h = ground (arith, lookup-delete value other m)

module _ (env : Env) (json : Codec) (law : IsFaithful json) (path value : Text) where
  -- what was written reads back as the map that was encoded
  Lacks-of_encoded :
      (m : Tokens) (t : Text) (w : World)
      → lookup value m ≡ none
      → json.encode m ≡ ok t
      → lookup path w.files ≡ some t
      → Lacks json path value w
  Lacks-of_encoded m t w out coded stored t' n' stored' parsed' =
      let (n, parsed, alike) = law.decode-encode m t coded in
      let same_text : t' ≡ t = some-injective t' t (sym stored' ∙ stored) in
      let same_map : n' ≡ n = cc in rw same_map (alike value ∙ out)

  pub consume_Lacks :
      (role : Text) (w : World)
      → (consume env json path value w).0 ≡ ok role
      → Lacks json path value (consume env json path value w).1
  consume_Lacks role w h =
      let (m, rec, t, seen, found, fresh, role_eq, coded, stored) =
        consume_ok env json path value role w h in
      Lacks-of_encoded (delete value m) t (consume env json path value w).1
        (lookup-delete_self value m) coded stored

  pub consume-Lacks :
      (other : Text) (w : World)
      → Lacks json path value w
      → Lacks json path value (consume env json path other w).1
  unfolding consume
  consume-Lacks other w gone =
      elim (mutate_atomic env json path (take_token env json path other) w
        (world-take_token env json path value other)) [
          | inl kept ↦ λ t n stored parsed. gone t n (sym kept ∙ stored) parsed
          | inr (m, t, seen, coded, stored) ↦
              Lacks-of_encoded (take_token env json path other m (step (step (step w)))).0.1 t
                (consume env json path other w).1
                (take_token-none env json path value other m (step (step (step w)))
                  (absent_of_Seen env json path value w m gone seen))
                coded stored
        ]
