-- ===== src/Token/Sharing/Listed.antt =====
-- A token that the file lists, among callers that do not redeem it: what each of them relies on, and
-- what the outcome of an access means for it.
use remote_exec.Base.{ℕ, ◌≡◌, ◌≢◌, refl, sym, ap, ◌∙◌, ◌⊎◌, inl, inr, Text, ◌<>◌, true, false, some}
use remote_exec.Base.Int.{ℤ}
use remote_exec.Base.Dict.{lookup}
use remote_exec.Error.{Error}
use remote_exec.Io.{Result, ok, err, Done}
use remote_exec.Io.World.{World, Env, Fault}
use remote_exec.Token.{Tokens, Entry, Codec, IsFaithful, joined}
use remote_exec.Token.Sharing.{
  Op, consuming, issuing, Pc, outside, waiting, entered, loaded, storing, renaming, leaving,
  finished, after_mkdir, after_lock, after_read, after_encode, after_save,
}
use remote_exec.Token.Sharing.Local.{won, loses}

-- A call that fails has returned or left some data first: so no read of the file fails at its start,
-- which the code takes for an empty file.
abbrev pub FailsLate : Env → Type 0
FailsLate env =
    (n : ℕ) (f : Fault) → env.fault n ≡ some f → (t : Text) × (f.part ≡ some t) × (t ≢ "")

module _ (json : Codec) (path token role : Text) where
  abbrev pub IsListed : Tokens → Type 0
  IsListed m = (rec : Entry) × (lookup token m ≡ some rec) × (rec.role ≡ role)

  abbrev pub Shows : Text → Type 0
  Shows t = (n : Tokens) × (t ≢ "") × (json.decode t ≡ ok n) × IsListed n

  -- The file lists the token with that role.
  abbrev pub Lists : World → Type 0
  Lists w = (t : Text) × (lookup path w.files ≡ some t) × Shows t

  abbrev pub Issues : Op → Type 0
  Issues op = (ttl : ℤ) × (op ≡ issuing token role ttl)

  -- It does not redeem the token, nor issue it with another role.
  abbrev pub Keeps : Op → Type 0
  Keeps (consuming v) = v ≢ token
  Keeps (issuing v r ttl) = v ≡ token → r ≡ role

  -- The token is to be listed after the call.
  abbrev pub Due : Op → World → Type 0
  Due op w = Lists w ⊎ Issues op

  -- What a caller relies on in the critical section.
  abbrev pub Known : Op → Pc → World → Type 0
  Known op (loaded m) w = Lists w → IsListed m
  Known op (storing r t) w = Due op w → Shows t
  Known op (renaming r t) w = (Due op w → Shows t) × (lookup (path <> ".tmp") w.files ≡ some t)
  Known op _ w = Unit {0}

  pub record Fine (op : Op) (p : Pc) (w : World) (p' : Pc) (w' : World) : Type 0 where
    pub known : Known op p' w'
    pub stays : Lists w → Lists w'
    pub wins : won p' ≡ true → won p ≡ false → Issues op → Lists w'

  pub Lists-same : (w w' : World) → lookup path w'.files ≡ lookup path w.files → Lists w → Lists w'
  Lists-same w w' same (t, stored, shows) = (t, same ∙ stored, shows)

  pub Due-same :
      (op : Op) (w w' : World) → lookup path w'.files ≡ lookup path w.files → Due op w' → Due op w
  Due-same op w w' same (inl listed) = inl (Lists-same w' w (sym same) listed)
  Due-same op w w' same (inr issues) = inr issues

  pub kept :
      (op : Op) (p p' : Pc) (w w' : World)
      → lookup path w'.files ≡ lookup path w.files
      → won p' ≡ won p
      → Known op p' w'
      → Fine op p w p' w'
  kept op p p' w w' same as_before known = record {
    known = known;
    stays = Lists-same w w' same;
    wins = λ win lost e. cc;
  }

  pub after_mkdir-Fine :
      (op : Op) (r : Result Done) (w w' : World)
      → lookup path w'.files ≡ lookup path w.files
      → Fine op outside w (after_mkdir r) w'
  after_mkdir-Fine op (ok _) w w' same = kept op outside waiting w w' same refl tt
  after_mkdir-Fine op (err e) w w' same = kept op outside (finished (err e)) w w' same refl tt

  pub after_lock-Fine :
      (op : Op) (r : Result Done) (w w' : World)
      → lookup path w'.files ≡ lookup path w.files
      → Fine op waiting w (after_lock r) w'
  after_lock-Fine op (ok _) w w' same = kept op waiting entered w w' same refl tt
  after_lock-Fine op (err e) w w' same = kept op waiting (finished (err e)) w w' same refl tt

  pub after_read-Fine :
      (op : Op) (r : Result Tokens) (w w' : World)
      → lookup path w'.files ≡ lookup path w.files
      → ((m : Tokens) → r ≡ ok m → Lists w' → IsListed m)
      → Fine op entered w (after_read r) w'
  after_read-Fine op (ok m) w w' same seen = kept op entered (loaded m) w w' same refl (seen m refl)
  after_read-Fine op (err e) w w' same seen = kept op entered (leaving (err e)) w w' same refl tt

  pub after_encode-Fine :
      (op : Op) (m : Tokens) (r coded : Result Text) (w w' : World)
      → lookup path w'.files ≡ lookup path w.files
      → ((t : Text) → coded ≡ ok t → Due op w' → Shows t)
      → Fine op (loaded m) w (after_encode r coded) w'
  after_encode-Fine op m r (ok t) w w' same shows =
      kept op (loaded m) (storing r t) w w' same refl (shows t refl)
  after_encode-Fine op m r (err e) w w' same shows =
      kept op (loaded m) (leaving (joined r (err e))) w w' same (loses r e) tt

  pub after_save-Fine :
      (op : Op) (r : Result Text) (t : Text) (done : Result Done) (w w' : World)
      → lookup path w'.files ≡ lookup path w.files
      → (done ≡ ok tt → lookup (path <> ".tmp") w'.files ≡ some t)
      → (Due op w → Shows t)
      → Fine op (storing r t) w (after_save r t done) w'
  after_save-Fine op r t (ok _) w w' same saved h =
      kept op (storing r t) (renaming r t) w w' same refl
        ((λ due. h (Due-same op w w' same due)), saved refl)
  after_save-Fine op r t (err e) w w' same saved h =
      kept op (storing r t) (leaving (joined r (err e))) w w' same (loses r e) tt

  pub after_rename-Fine :
      (op : Op) (r : Result Text) (t : Text) (done : Result Done) (w w' : World)
      → (done ≡ ok tt) × (lookup path w'.files ≡ some t)
        ⊎ (e : Error) × (done ≡ err e) × (lookup path w'.files ≡ lookup path w.files)
      → (Due op w → Shows t)
      → Fine op (renaming r t) w (leaving (joined r done)) w'
  after_rename-Fine op r t done w w' (inl (good, stored)) h = record {
    known = tt;
    stays = λ listed. (t, stored, h (inl listed));
    wins = λ win lost issues. (t, stored, h (inr issues));
  }
  after_rename-Fine op r t done w w' (inr (e, bad, same)) h =
      rw bad (kept op (renaming r t) (leaving (joined r (err e))) w w' same (loses r e) tt)

  pub encode-Shows :
      (law : IsFaithful json) (m : Tokens) (t : Text) → json.encode m ≡ ok t → IsListed m → Shows t
  encode-Shows law m t coded (rec, found, same) =
      let (n, parsed, alike) = law.decode-encode m t coded in
      (
        n,
        (λ empty. law.encode-ne-empty m (coded ∙ ap (λ (s : Text). ok s) empty)),
        parsed,
        (rec, alike token ∙ found, same),
      )
