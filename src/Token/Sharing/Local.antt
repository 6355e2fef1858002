-- ===== src/Token/Sharing/Local.antt =====
-- One access: what it does to the file, and what the caller knows of the file.
use remote_exec.Base.{
  ◌≡◌, ◌≢◌, refl, subst, sym, ap, ◌∙◌, ◌⊎◌, inl, inr, Text, ◌<>◌, Bool, true, false, none, some,
}
use mathlib.Core.Option.{some-injective}
use remote_exec.Base.Dict.{Dict, lookup}
use remote_exec.Error.{Error}
use remote_exec.Io.{Result, ok, err, Done}
use remote_exec.Io.World.{World, Env}
use remote_exec.Token.{Tokens, Codec, IsFaithful, joined}
use remote_exec.Token.Sharing.{
  Op, consuming, issuing, Pc, outside, waiting, entered, loaded, storing, renaming, leaving,
  finished, critical, after_mkdir, after_lock, after_read, after_encode, after_save,
}

-- The call has succeeded, and its map is in the file.
abbrev pub won : Pc → Bool
won (leaving (ok _)) = true
won (finished (ok _)) = true
won _ = false

pub loses : (r : Result Text) (e : Error) → won (leaving (joined r (err e))) ≡ false
loses (ok a) e = refl
loses (err d) e = refl

-- It issues no such token.
abbrev pub Spares : Text → Op → Type 0
Spares token (consuming v) = Unit
Spares token (issuing v role ttl) = v ≢ token

module _ (env : Env) (json : Codec) (law : IsFaithful json) (path token : Text) where
  -- The text lists no such token.
  abbrev pub Lacks : Text → Type 0
  Lacks t = (n : Tokens) → json.decode t ≡ ok n → lookup token n ≡ none

  abbrev pub Absent : World → Type 0
  Absent w = (t : Text) → lookup path w.files ≡ some t → Lacks t

  -- What a caller in the critical section relies on: it does not bring the token back, and if it
  -- takes the token, the file lists it now and will not any more.
  abbrev pub Writes : Op → Result Text → Text → World → Type 0
  Writes op r t w =
      (Absent w → Lacks t) × (op ≡ consuming token → (a : Text) → r ≡ ok a → (¬ Absent w) × Lacks t)

  abbrev pub Local : Op → Pc → World → Type 0
  Local op (loaded m) w = Absent w → lookup token m ≡ none
  Local op (storing r t) w = Writes op r t w
  Local op (renaming r t) w = Writes op r t w × (lookup (path <> ".tmp") w.files ≡ some t)
  Local op _ w = Unit {0}

  -- What an access keeps and what it may bring about.
  pub record Fine (op : Op) (p : Pc) (w : World) (p' : Pc) (w' : World) : Type 0 where
    pub known : Local op p' w'
    pub stays : Absent w → Absent w'
    pub wins : won p' ≡ true → won p ≡ false → op ≡ consuming token → (¬ Absent w) × Absent w'
    pub alone : critical p ≡ false → w'.files ≡ w.files

  -- An access that leaves the files alone and does not make the caller win.
  pub kept :
      (op : Op) (p p' : Pc) (w w' : World)
      → w'.files ≡ w.files
      → won p' ≡ won p
      → Local op p' w'
      → Fine op p w p' w'
  kept op p p' w w' same as_before local = record {
    known = local;
    stays = λ absent t e. absent t (ap (λ (f : Dict Text). lookup path f) (sym same) ∙ e);
    wins = λ win lost e. cc;
    alone = λ e. same;
  }

  pub after_mkdir-Fine :
      (op : Op) (r : Result Done) (w w' : World)
      → w'.files ≡ w.files
      → Fine op outside w (after_mkdir r) w'
  after_mkdir-Fine op (ok _) w w' same = kept op outside waiting w w' same refl tt
  after_mkdir-Fine op (err e) w w' same = kept op outside (finished (err e)) w w' same refl tt

  pub after_lock-Fine :
      (op : Op) (r : Result Done) (w w' : World)
      → w'.files ≡ w.files
      → Fine op waiting w (after_lock r) w'
  after_lock-Fine op (ok _) w w' same = kept op waiting entered w w' same refl tt
  after_lock-Fine op (err e) w w' same = kept op waiting (finished (err e)) w w' same refl tt

  pub after_read-Fine :
      (op : Op) (r : Result Tokens) (w w' : World)
      → w'.files ≡ w.files
      → ((m : Tokens) → r ≡ ok m → Absent w' → lookup token m ≡ none)
      → Fine op entered w (after_read r) w'
  after_read-Fine op (ok m) w w' same seen = kept op entered (loaded m) w w' same refl (seen m refl)
  after_read-Fine op (err e) w w' same seen = kept op entered (leaving (err e)) w w' same refl tt

  pub after_encode-Fine :
      (op : Op) (m : Tokens) (r coded : Result Text) (w w' : World)
      → w'.files ≡ w.files
      → ((t : Text) → coded ≡ ok t → Writes op r t w')
      → Fine op (loaded m) w (after_encode r coded) w'
  after_encode-Fine op m r (ok t) w w' same writes =
      kept op (loaded m) (storing r t) w w' same refl (writes t refl)
  after_encode-Fine op m r (err e) w w' same writes =
      kept op (loaded m) (leaving (joined r (err e))) w w' same (loses r e) tt

  -- The same where only the file itself is known to be kept.
  kept_file :
      (op : Op) (p p' : Pc) (w w' : World)
      → lookup path w'.files ≡ lookup path w.files
      → won p' ≡ won p
      → critical p ≡ true
      → Local op p' w'
      → Fine op p w p' w'
  kept_file op p p' w w' same as_before inside local = record {
    known = local;
    stays = λ absent t e. absent t (sym same ∙ e);
    wins = λ win lost e. cc;
    alone = λ e. cc;
  }

  pub Writes-kept :
      (op : Op) (r : Result Text) (t : Text) (w w' : World)
      → lookup path w'.files ≡ lookup path w.files
      → Writes op r t w
      → Writes op r t w'
  Writes-kept op r t w w' same h = (
    λ absent. h.0 (λ u e. absent u (same ∙ e)),
    λ e a won_. ((λ absent. (h.1 e a won_).0 (λ u e'. absent u (same ∙ e'))), (h.1 e a won_).1),
  )

  pub after_save-Fine :
      (op : Op) (r : Result Text) (t : Text) (done : Result Done) (w w' : World)
      → lookup path w'.files ≡ lookup path w.files
      → (done ≡ ok tt → lookup (path <> ".tmp") w'.files ≡ some t)
      → Writes op r t w
      → Fine op (storing r t) w (after_save r t done) w'
  after_save-Fine op r t (ok _) w w' same saved h =
      kept_file op (storing r t) (renaming r t) w w' same refl refl
        (Writes-kept op r t w w' same h, saved refl)
  after_save-Fine op r t (err e) w w' same saved h =
      kept_file op (storing r t) (leaving (joined r (err e))) w w' same (loses r e) refl tt

  wins_ok : (r : Result Text) → won (leaving (joined r (ok tt))) ≡ true → (a : Text) × (r ≡ ok a)
  wins_ok (ok a) h = (a, refl)
  wins_ok (err e) h = cc

  pub after_rename-Fine :
      (op : Op) (r : Result Text) (t : Text) (done : Result Done) (w w' : World)
      → (done ≡ ok tt) × (lookup path w'.files ≡ some t)
        ⊎ (e : Error) × (done ≡ err e) × (lookup path w'.files ≡ lookup path w.files)
      → Writes op r t w
      → Fine op (renaming r t) w (leaving (joined r done)) w'
  after_rename-Fine op r t done w w' (inl (good, stored)) h =
      let text : (u : Text) → lookup path w'.files ≡ some u → t ≡ u =
        λ u e. some-injective t u (sym stored ∙ e) in
      rw good (record {
        known = tt;
        stays = λ absent u e. subst (λ (s : Text). Lacks s) (text u e) (h.0 absent);
        wins = λ win lost e.
            let (a, is_ok) = wins_ok r win in
            let (listed, gone) = h.1 e a is_ok in
            (listed, λ u e'. subst (λ (s : Text). Lacks s) (text u e') gone);
        alone = λ e. cc;
      })
  after_rename-Fine op r t done w w' (inr (e, bad, same)) h =
      rw bad
        (kept_file op (renaming r t) (leaving (joined r (err e))) w w' same (loses r e) refl tt)
