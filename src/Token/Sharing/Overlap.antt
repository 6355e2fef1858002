-- ===== src/Token/Sharing/Overlap.antt =====
-- Callers that share one lock object. The `Lock` of github.com/gofrs/flock returns at once on an
-- object that is locked, so two calls of `Consume` on one `FileStore` overlap.
use remote_exec.Base.{ℕ, ◌≡◌, ◌≢◌, refl, ap, sym, ◌∙◌, Text, ◌<>◌, false, none, some, arith}
use remote_exec.Base.Int.{after}
use remote_exec.Base.Dict.{lookup, insert, delete, lookup-insert_self}
use remote_exec.Io.{Result, ok}
use remote_exec.Io.World.{World, Env, step}
use remote_exec.Token.{Tokens, Entry, Codec}
use remote_exec.Token.Quiet.{listing}
use remote_exec.Token.Sharing.{
  Op, consuming, Pc, outside, waiting, entered, loaded, storing, renaming, leaving, finished,
  advance, Lock, System, Reach, here, next, started, moved, run, lock, unlock,
}
use remote_exec.Token.Sharing.Unfailing.{
  pair_path, advance-outside, advance-waiting, advance-entered, advance-loaded, advance-storing,
  advance-leaving, advance-renaming,
}
use remote_exec.Base.Family.{update, update_self}

-- What the library documents of one lock object, free or held by its process.
pub record IsOneObject (k : Lock) : Type 1 where
  pub free : k.State
  pub held : k.State
  pub first : (i : ℕ) → k.Take i free held
  pub again : (i : ℕ) → k.Take i held held
  pub unlocks : (i : ℕ) → k.Drop i held free
  pub unlocked : (i : ℕ) → k.Drop i free free

abbrev pub consumers : (ℕ → Text) → ℕ → Op
consumers value i = consuming (value i)

module _ (env : Env) (json : Codec) (path : Text) (quiet : (n : ℕ) → env.fault n ≡ none) (k : Lock)
    (object : IsOneObject k) (value : ℕ → Text)
    (s0 : System env json path k (consumers value)) where
  -- Since `s`, caller `i` went to `p` and left the world `w`; nobody else moved.
  record Went (s s' : System env json path k (consumers value)) (i : ℕ) (p : Pc) (w : World)
      : Type 0 where
    reached : Reach env json path k (consumers value) s0 s'
    arrives : s'.pc i ≡ p
    others : (j : ℕ) → j ≢ i → s'.pc j ≡ s.pc j
    leaves_world : s'.world ≡ w

  module _ (s a : System env json path k (consumers value)) (i : ℕ) (p p' : Pc) (w w' : World)
      (went : Went s a i p w)
      (does : advance env json path (consuming (value i)) p w ≡ (p', w')) where
    advances : advance env json path (consuming (value i)) (a.pc i) a.world ≡ (p', w')
    advances = rw (went.arrives, went.leaves_world) does

    others-update : (j : ℕ) (q : Pc) → j ≢ i → update a.pc i q j ≡ s.pc j
    others-update j q h = ground (arith, went.others j h)

    -- The next access, which leads to `b` but for the state of the lock.
    went_next :
        (l : k.State)
        → Reach env json path k
            (consumers value)
            s0
            (record (moved env json path k (consumers value) i a) { lock = l })
        → Went s (record (moved env json path k (consumers value) i a) { lock = l }) i p' w'
    went_next l reached = record {
      reached = reached;
      arrives = update_self a.pc i _ ∙ ap (λ (x : Pc × World). x.0) advances;
      others = λ j h. others-update j _ h;
      leaves_world = ap (λ (x : Pc × World). x.1) advances;
    }

    runs :
        p ≢ waiting
        → ((r : Result Text) → p ≢ leaving r)
        → Went s (moved env json path k (consumers value) i a) i p' w'
    runs free_of_lock no_unlock = went_next a.lock (
        next went.reached (
          run i (λ e. free_of_lock (sym went.arrives ∙ e))
            (λ r e. no_unlock r (sym went.arrives ∙ e))))

    locks :
        (l : k.State)
        → p ≡ waiting
        → p' ≡ entered
        → k.Take i a.lock l
        → Went s (record (moved env json path k (consumers value) i a) { lock = l }) i p' w'
    locks l waits enters_ takes = went_next l (
        next went.reached (
          lock i l (went.arrives ∙ waits)
            (update_self a.pc i _ ∙ ap (λ (x : Pc × World). x.0) advances ∙ enters_) takes))

    unlocks :
        (r : Result Text) (l : k.State)
        → p ≡ leaving r
        → k.Drop i a.lock l
        → Went s (record (moved env json path k (consumers value) i a) { lock = l }) i p' w'
    unlocks r l leaves drops =
        went_next l (next went.reached (unlock i r l (went.arrives ∙ leaves) drops))

  -- A caller that has not started gets the map that the file lists, whether another one is in the
  -- critical section or not.
  enters :
      (s : System env json path k (consumers value)) (i : ℕ) (m : Tokens)
      → Reach env json path k (consumers value) s0 s
      → s.pc i ≡ outside
      → k.Take i s.lock object.held
      → listing env json path quiet s.world ≡ ok m
      → (s' : System env json path k (consumers value)) × Went s s' i
          (loaded m)
          (step (step (step s.world)))
        × (s'.lock ≡ object.held)
  enters s i m r at takes listed =
      let v = value i in
      let w = s.world in
      let start : Went s s i outside w = record {
        reached = r;
        arrives = at;
        others = λ j h. refl;
        leaves_world = refl;
      } in
      let waits =
        runs s s i outside waiting w (step w) start (advance-outside env json path v quiet w)
          (λ e. cc) (λ q e. cc) in
      let inside =
        locks s _ i waiting entered (step w) (step (step w)) waits
          (advance-waiting env json path v quiet (step w)) object.held refl refl takes in
      (
        _,
        runs s _ i entered (loaded m) (step (step w)) (step (step (step w))) inside
            (advance-entered env json path v quiet m (step (step w)) listed) (λ e. cc) (λ q e. cc),
        refl,
      )

  -- A caller that has loaded a map with its token succeeds, whatever the file holds by then.
  finishes :
      (s : System env json path k (consumers value)) (i : ℕ) (m : Tokens) (rec : Entry) (t : Text)
      → Reach env json path k (consumers value) s0 s
      → s.pc i ≡ loaded m
      → lookup (value i) m ≡ some rec
      → ((n : ℕ) → after (env.now n) rec.expiry ≡ false)
      → json.encode (delete (value i) m) ≡ ok t
      → k.Drop i s.lock object.free
      → (s' : System env json path k (consumers value)) × (w : World) × Went s s' i
          (finished (ok rec.role))
          w
        × (s'.lock ≡ object.free)
  finishes s i m rec t r at found live coded drops =
      let v = value i in
      let w = s.world in
      let start : Went s s i (loaded m) w = record {
        reached = r;
        arrives = at;
        others = λ j h. refl;
        leaves_world = refl;
      } in
      let kept =
        runs s s i (loaded m) (storing (ok rec.role) t) w (step w) start
          (advance-loaded env json path v quiet m rec t w found (live w.calls) coded) (λ e. cc)
          (λ q e. cc) in
      let w2 : World = record (step (step w)) { files = insert (path <> ".tmp") t w.files } in
      let stored =
        runs s _ i (storing (ok rec.role) t) (renaming (ok rec.role) t) (step w) w2 kept
          (advance-storing env json path v quiet (ok rec.role) t (step w)) (λ e. cc) (λ q e. cc) in
      let w3 = (advance env json path (consuming v) (renaming (ok rec.role) t) w2).1 in
      let renamed =
        runs s _ i (renaming (ok rec.role) t) (leaving (ok rec.role)) w2 w3 stored
          (pair_path (
            advance-renaming env json path v quiet (ok rec.role) t w2
              (lookup-insert_self (path <> ".tmp") t w.files)))
          (λ e. cc) (λ q e. cc) in
      let w4 = (advance env json path (consuming v) (leaving (ok rec.role)) w3).1 in
      (
        _,
        w4,
        unlocks s _ i (leaving (ok rec.role)) (finished (ok rec.role)) w3 w4 renamed
            (pair_path (advance-leaving env json path v quiet (ok rec.role) w3)) (ok rec.role)
            object.free refl drops,
        refl,
      )

module _ (env : Env) (json : Codec) (path : Text) (quiet : (n : ℕ) → env.fault n ≡ none) (k : Lock)
    (object : IsOneObject k) where
  -- With no call failing and on one lock object, two callers of one listed token that does not
  -- expire meanwhile have an interleaving after which both got its role.
  pub consume_twice :
      (token t : Text) (m : Tokens) (rec : Entry) (w : World)
      → listing env json path quiet w ≡ ok m
      → lookup token m ≡ some rec
      → ((n : ℕ) → after (env.now n) rec.expiry ≡ false)
      → json.encode (delete token m) ≡ ok t
      → let value : ℕ → Text = λ i. token in
        (s : System env json path k (consumers value)) × Reach env json path k
          (consumers value)
          (started env json path k (consumers value) w object.free)
          s
        × (s.pc 0 ≡ finished (ok rec.role))
        × (s.pc 1 ≡ finished (ok rec.role))
  consume_twice token t m rec w listed found live coded =
      let value : ℕ → Text = λ i. token in
      let s0 = started env json path k (consumers value) w object.free in
      let enter = enters env json path quiet k object value s0 in
      let finish = finishes env json path quiet k object value s0 in
      let (a, at_a, locked) = enter s0 0 m here refl (object.first 0) listed in
      let (b, at_b, locked') =
        enter a 1 m at_a.reached (at_a.others 1 (λ e. cc)) (rw locked (object.again 1))
          (rw at_a.leaves_world listed) in
      let (c, w', at_c, opened) =
        finish b 0 m rec t at_b.reached (at_b.others 0 (λ e. cc) ∙ at_a.arrives) found live coded
          (rw locked' (object.unlocks 0)) in
      let (d, w'', at_d, opened') =
        finish c 1 m rec t at_c.reached (at_c.others 1 (λ e. cc) ∙ at_b.arrives) found live coded
          (rw opened (object.unlocked 1)) in
      (d, at_d.reached, at_d.others 0 (λ e. cc) ∙ at_c.arrives, at_d.arrives)
