-- ===== src/Token/Sharing/Exclusive.antt =====
-- Callers that exclude one another: a token is answered with its role once.
use remote_exec.Base.{
  ℕ, ◌≡◌, ◌≢◌, refl, ap, sym, ◌∙◌, inl, inr, Text, true, false, arith, Bool-cases,
}
use remote_exec.Base.Family.{update, update_self, update_cases}
use remote_exec.Error.{wrap}
use remote_exec.Io.Calls.{mkdir_all, attempt}
use remote_exec.Io.{Result, ok, Result-cases, on_error}
use remote_exec.Io.World.{World, Env}
use remote_exec.Token.{Codec, IsFaithful}
use remote_exec.Token.Sharing.{
  Op, consuming, Pc, outside, waiting, entered, loaded, storing, renaming, leaving, finished,
  critical, advance, Lock, System, Step, Reach, here, next, started, run, lock, lock_fails, unlock,
}
use remote_exec.Token.Sharing.Local.{won, Spares}
use remote_exec.Token.Sharing.Shared.{Shared, moved-Shared}
use remote_exec.Token.Sharing.Access.{advance-Fine}

-- One caller at a time holds the lock.
pub record IsExclusive (k : Lock) : Type 1 where
  pub Holds : ℕ → k.State → Type 0
  pub unique : (i j : ℕ) (s : k.State) → Holds i s → Holds j s → i ≡ j
  pub take : (i : ℕ) (s t : k.State) → k.Take i s t → Holds i t
  pub take_keeps : (i j : ℕ) (s t : k.State) → k.Take i s t → Holds j s → Holds j t
  pub drop_keeps : (i j : ℕ) (s t : k.State) → k.Drop i s t → j ≢ i → Holds j s → Holds j t

module _ (env : Env) (json : Codec) (path : Text) (op : Op) where
  -- Nobody but a caller that takes the lock enters the critical section.
  stays_inside :
      (p : Pc) (w : World)
      → p ≢ waiting
      → critical (advance env json path op p w).0 ≡ true
      → critical p ≡ true
  unfolding advance
  stays_inside outside w h e =
      elim (Result-cases (on_error (wrap "token: mkdir: ") (mkdir_all env) w).0) [
        | inl (_, q) ↦ absurd (cc)
        | inr (_, q) ↦ absurd (cc)
      ]
  stays_inside waiting w h e = absurd (h refl)
  stays_inside entered w h e = refl
  stays_inside (loaded m) w h e = refl
  stays_inside (storing r t) w h e = refl
  stays_inside (renaming r t) w h e = refl
  stays_inside (leaving r) w h e = refl
  stays_inside (finished r) w h e = e

  enters_waiting :
      (p : Pc) (w : World)
      → p ≡ waiting
      → critical (advance env json path op p w).0 ≡ true
      → (advance env json path op p w).0 ≡ entered
  unfolding advance
  enters_waiting p w h e = elim (Result-cases (on_error (wrap "token: lock: ") (attempt env) w).0) [
    | inl (_, q) ↦ ground (arith)
    | inr (_, q) ↦ ground arith
  ]

  leaves_inside :
      (r : Result Text) (p : Pc) (w : World)
      → p ≡ leaving r
      → critical (advance env json path op p w).0 ≢ true
  unfolding advance
  leaves_inside r p w h e = ground arith

module _ (env : Env) (json : Codec) (path : Text) (k : Lock) (op : ℕ → Op)
    (law_lock : IsExclusive k) where
  open k use {State}
  open law_lock use {Holds, unique, take, take_keeps, drop_keeps}

  -- Who is in the critical section holds the lock.
  abbrev IsHeld : System env json path k op → Type 0
  IsHeld s = (i : ℕ) → critical (s.pc i) ≡ true → Holds i s.lock

  apart_from :
      (s : System env json path k op) (i j : ℕ)
      → IsHeld s
      → j ≢ i
      → critical (s.pc i) ≡ true
      → critical (s.pc j) ≡ false
  apart_from s i j held h inside = elim (Bool-cases (critical (s.pc j))) [
    | inl both ↦ absurd (h (unique j i s.lock (held j both) (held i inside)))
    | inr out ↦ out
  ]

  held_after :
      (s : System env json path k op) (i : ℕ) (p : Pc) (l : State)
      → IsHeld s
      → (critical p ≡ true → Holds i l)
      → ((j : ℕ) → j ≢ i → Holds j s.lock → Holds j l)
      → (j : ℕ) → critical (update s.pc i p j) ≡ true
      → Holds j l
  held_after s i p l held own others j inside = elim (update_cases s.pc i j p) [
    | inl (e, same) ↦ rw e (own (ap critical (sym same) ∙ inside))
    | inr (h, same) ↦ others j h (held j (ap critical (sym same) ∙ inside))
  ]

  Step-IsHeld :
      {s t : System env json path k op} → Step env json path k op s t → IsHeld s → IsHeld t
  Step-IsHeld {s} (run i not_waiting not_leaving) held =
      held_after s i (advance env json path (op i) (s.pc i) s.world).0 s.lock held
        (λ e. held i (stays_inside env json path (op i) (s.pc i) s.world not_waiting e))
        (λ j h holds. holds)
  Step-IsHeld {s} (lock i l waits enters taken) held =
      held_after s i (advance env json path (op i) (s.pc i) s.world).0 l held
        (λ e. take i s.lock l taken) (λ j h holds. take_keeps i j s.lock l taken holds)
  Step-IsHeld {s} (lock_fails i waits enters) held =
      held_after s i (advance env json path (op i) (s.pc i) s.world).0 s.lock held
        (λ e. absurd (
          enters
            (update_self s.pc i _ ∙ enters_waiting env json path (op i) (s.pc i) s.world waits e)))
        (λ j h holds. holds)
  Step-IsHeld {s} (unlock i r l leaves dropped) held =
      held_after s i (advance env json path (op i) (s.pc i) s.world).0 l held
        (λ e. absurd (leaves_inside env json path (op i) r (s.pc i) s.world leaves e))
        (λ j h holds. drop_keeps i j s.lock l dropped h holds)

  module _ (w : World) (l : State) where
    Reach-IsHeld :
        {s : System env json path k op}
        → Reach env json path k op (started env json path k op w l) s
        → IsHeld s
    Reach-IsHeld here = λ i e. cc
    Reach-IsHeld (next r st) = Step-IsHeld st (Reach-IsHeld r)

    -- What holds at first and is kept by an access of a caller that is alone in the critical section,
    -- if it is in it, holds in every reachable state.
    module _ (P : World → (ℕ → Pc) → Type 0) (first : P w (λ i. outside))
        (keeps : (v : World) (pc : ℕ → Pc) (i : ℕ)
          → ((j : ℕ) → j ≢ i → critical (pc i) ≡ true → critical (pc j) ≡ false)
          → P v pc
          → let (p, v') = advance env json path (op i) (pc i) v in P v' (update pc i p)) where
      Step-kept :
          {s t : System env json path k op}
          → Step env json path k op s t
          → IsHeld s
          → P s.world s.pc
          → P t.world t.pc
      Step-kept {s} (run i _ _) held h = keeps s.world s.pc i (λ j ne. apart_from s i j held ne) h
      Step-kept {s} (lock i l _ _ _) held h =
          keeps s.world s.pc i (λ j ne. apart_from s i j held ne) h
      Step-kept {s} (lock_fails i _ _) held h =
          keeps s.world s.pc i (λ j ne. apart_from s i j held ne) h
      Step-kept {s} (unlock i r l _ _) held h =
          keeps s.world s.pc i (λ j ne. apart_from s i j held ne) h

      pub Reach-kept :
          {s : System env json path k op}
          → Reach env json path k op (started env json path k op w l) s
          → P s.world s.pc
      Reach-kept here = first
      Reach-kept (next r st) = Step-kept st (Reach-IsHeld r) (Reach-kept r)

module _ (env : Env) (json : Codec) (law : IsFaithful json) (path : Text) (k : Lock) (op : ℕ → Op)
    (token : Text) where
  -- Any number of callers of `Consume` and `Issue`, in any interleaving of their accesses and whatever
  -- fails: if the lock excludes them from one another, an encoded map reads back as the same map, and
  -- no `Issue` draws this token, two callers that both got a role for it are the same.
  pub consume-exclusive :
      (w : World) (l : k.State) (s : System env json path k op)
      → IsExclusive k
      → ((i : ℕ) → Spares token (op i))
      → Reach env json path k op (started env json path k op w l) s
      → (i j : ℕ) (a b : Text) → s.pc i ≡ finished (ok a)
      → s.pc j ≡ finished (ok b)
      → op i ≡ consuming token
      → op j ≡ consuming token
      → i ≡ j
  consume-exclusive w l s excludes spares r i j a b e e' about about' =
      let first : Shared env json law path k op token w (λ i. outside) = record {
        known = λ i. tt;
        spent = λ i e. cc;
        once = λ i j e. cc;
      } in
      let shared =
        Reach-kept env json path k op excludes w l (Shared env json law path k op token) first
          (λ v pc i apart inv.
            let (p, v') = advance env json path (op i) (pc i) v in
            moved-Shared env json law path k op token v v' pc i p
              (advance-Fine env json law path token (op i) (spares i) (pc i) v (inv.known i)) apart
              inv)
          r in
      shared.once i j (ap won e) (ap won e') about about'
