-- ===== src/Token/Quiet/Refines.antt =====
-- internal/token/token.go against its abstract view, over any sequence of calls.
use mathlib.Core.Quot
use remote_exec.Base.{
  ℕ, suc, ◌≡◌, refl, ◌∙◌, inl, inr, Text, none, some, List, [], ◌∷◌, arith, Option-cases,
}
use remote_exec.Base.Int.{ℤ}
use remote_exec.Base.Dict.{SameLookups, lookup, insert, delete, lookup-delete}
use remote_exec.Error.{Sentinel, sentinel}
use remote_exec.Io.{Result, ok, err, Action, Result-cases}
use remote_exec.Io.World.{World, Env, step}
use remote_exec.Io.Calls.{random}
use remote_exec.Token.Abstract.{
  Outstanding, Op, issuing, consuming, Stamp, find, without, including, promised,
}
use remote_exec.Token.Quiet.{
  listing, issued, mutate_quiet, issue_stored, listing_of_encoded, consume_listed, world-rand_token,
}
use remote_exec.Token.{Tokens, Codec, IsFaithful, rand_token, add_token, take_token, issue, consume}

abbrev or_empty : Result Text → Text
or_empty (ok t) = t
or_empty (err e) = ""

delete_missing : (v k : Text) (m : Tokens) → lookup v m ≡ none → lookup k m ≡ lookup k (delete v m)
delete_missing v k m missing = ground (arith, lookup-delete k v m)

module _ (env : Env) (json : Codec) (path : Text) where
  -- The code of an operation.
  abbrev pub performed : Op → Action World Text
  performed (issuing role ttl) = issue env json path role ttl
  performed (consuming v) = consume env json path v

  -- The random token and the reading of the clock that a call in that world gets.
  abbrev pub stamp : Op → World → Stamp
  stamp (issuing role ttl) w = record {
    drawn = or_empty (rand_token env json path w).0;
    time = env.now (suc (suc (suc (suc w.calls))));
  }
  stamp (consuming v) w = record { drawn = ""; time = env.now (suc (suc (suc w.calls))) }

  -- A sequence of calls, and what was promised of it.
  abbrev pub results : List Op → World → List (Result Text)
  results [] w = []
  results (op ∷ ops) w = let (r, w') = performed op w in r ∷ results ops w'

  abbrev pub promises : List Op → World → Outstanding → List (Result Text)
  promises [] w a = []
  promises (op ∷ ops) w a =
      let (r, a') = promised (stamp op w) op a in r ∷ promises ops (performed op w).1 a'

  module _ (quiet : (n : ℕ) → env.fault n ≡ none) (law : IsFaithful json)
      (total : (m : Tokens) → (t : Text) × (json.encode m ≡ ok t)) where
    -- The file lists that set of tokens.
    abbrev pub Shows : World → Outstanding → Type 0
    Shows w a = (m : Tokens) × (listing env json path quiet w ≡ ok m) × (Quot.mk m ≡ a)

    rand_token_quiet : (w : World) → (v : Text) × ((rand_token env json path w).0 ≡ ok v)
    unfolding rand_token random
    rand_token_quiet w = elim (Result-cases (rand_token env json path w).0) [
      | inl drawn ↦ drawn
      | inr (e, bad) ↦ absurd (ground (arith, quiet w.calls))
    ]

    issue_ok :
        (role : Text) (ttl : ℤ) (v : Text) (m : Tokens) (w : World)
        → listing env json path quiet w ≡ ok m
        → (rand_token env json path w).0 ≡ ok v
        → (issue env json path role ttl w).0 ≡ ok v
    unfolding issue add_token
    issue_ok role ttl v m w listed drawn =
        let (t, coded) = total (insert v (issued env json path quiet role ttl w) m) in
        ground (
          arith,
          world-rand_token env json path quiet w,
          mutate_quiet env json path quiet (add_token env json path v role ttl) t m (step w) listed,
        )

    unlisted_stored :
        (v : Text) (m : Tokens) (t : Text) (w : World)
        → listing env json path quiet w ≡ ok m
        → lookup v m ≡ none
        → json.encode m ≡ ok t
        → ((consume env json path v w).0 ≡ err (sentinel Sentinel.unknown_token))
          × (lookup path (consume env json path v w).1.files ≡ some t)
    unfolding consume take_token
    unlisted_stored v m t w listed missing coded =
        ground (arith, mutate_quiet env json path quiet (take_token env json path v) t m w listed)

    consume_unlisted :
        (v : Text) (m : Tokens) (w : World)
        → listing env json path quiet w ≡ ok m
        → lookup v m ≡ none
        → (n : Tokens) × ((consume env json path v w).0 ≡ err (sentinel Sentinel.unknown_token))
          × (listing env json path quiet (consume env json path v w).1 ≡ ok n)
          × SameLookups n m
    consume_unlisted v m w listed missing =
        let (t, coded) = total m in
        let (out, stored) = unlisted_stored v m t w listed missing coded in
        let (n, relisted, alike) =
          listing_of_encoded env json path quiet law total m t (consume env json path v w).1 coded
            stored in
        (n, out, relisted, alike)

    -- One operation does what is promised of it.
    performs :
        (op : Op) (m : Tokens) (w : World)
        → listing env json path quiet w ≡ ok m
        → let (r, w') = performed op w in
          let (r', a') = promised (stamp op w) op (Quot.mk m) in (r ≡ r') × Shows w' a'
    unfolding promised find without including
    performs (issuing role ttl) m w listed =
        let (v, drawn) = rand_token_quiet w in
        let issued_ = issue_ok role ttl v m w listed drawn in
        let (t, coded) = total (insert v (issued env json path quiet role ttl w) m) in
        let stored = issue_stored env json path quiet role v ttl m t w listed issued_ coded in
        let (n, relisted, alike) =
          listing_of_encoded env json path quiet law total
            (insert v (issued env json path quiet role ttl w) m) t
            (issue env json path role ttl w).1 coded stored in
        rw drawn (issued_, (n, relisted, Quot.sound alike))
    performs (consuming v) m w listed = elim (Option-cases (lookup v m)) [
      | inl missing ↦
          let (n, out, relisted, alike) = consume_unlisted v m w listed missing in
          rw missing (out, (n, relisted, Quot.sound (λ k. alike k ∙ delete_missing v k m missing)))
      | inr (rec, found) ↦
          let (n, out, relisted, alike) =
            consume_listed env json path quiet law total v m rec w listed found in
          rw found (out, (n, relisted, Quot.sound alike))
    ]

    -- With no call failing, and every map encoded to a text that reads back as the same map: any
    -- sequence of calls of `Issue` and `Consume` answers as promised of the set of tokens that the
    -- file lists at its beginning, whatever the order of the map's entries in the file.
    pub results-promises :
        (ops : List Op) (w : World) (a : Outstanding) → Shows w a → results ops w ≡ promises ops w a
    results-promises [] w a shows = refl
    results-promises (op ∷ ops) w a (m, listed, e) =
        let (same, shows') = performs op m w listed in
        let rest =
          results-promises ops (performed op w).1 (promised (stamp op w) op (Quot.mk m)).1 shows' in
        rw (← e) (λ i. same i ∷ rest i)
