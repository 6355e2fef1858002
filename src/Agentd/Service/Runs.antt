-- ===== src/Agentd/Service/Runs.antt =====
-- What holds of the program and its runs whenever the manager keeps its order of calls.
use native.Mathlib.Decide.{ℕ_discrete}
use remote_exec.Base.{
  ℕ, zero, suc, ◌<◌, ◌≡◌, refl, sym, ap, ◌∙◌, inl, inr, Bool, true, false, Option, none, some,
  arith,
}
use remote_exec.Base.Family.{update, update_cases}
use remote_exec.Io.{Action}
use remote_exec.Io.World.{World}
use remote_exec.Agentd.Service.{
  Phase, returned, Run, fresh, Program, start, stop, cancel_run, is_closed, may_return, idle,
  active, stopping, Move, gets_ready, sees_cancel, serve_ends, call_begins, call_ends,
  stops_gracefully, closes, System, Step, starts, calls_stop, stop_returns, moves, Reach, here,
  next, installed, ran,
}

-- `serveAgent` has not returned.
abbrev pub live : Phase → Bool
live (returned e) = false
live _ = true

-- The latest of so many calls of `Start`.
abbrev pub latest : ℕ → Option ℕ
latest zero = none
latest (suc n) = some n

module _ {A : Type 0} (ready : Action World A) where
  pub record Inv (s : System ready) : Type 0 where
    pub names_cancel : s.program.cancel ≡ latest s.program.count
    pub names_done : s.program.done ≡ latest s.program.count
    pub older : (n : ℕ) → suc n < s.program.count → (s.program.runs n).closed ≡ true
    pub rests : s.manager ≡ idle → (n : ℕ) → n < s.program.count → (s.program.runs n).closed ≡ true
    pub asked :
        s.manager ≡ stopping
        → (n : ℕ) → suc n ≡ s.program.count
        → (s.program.runs n).cancelled ≡ true
    pub over : (n : ℕ) → (s.program.runs n).closed ≡ true → live (s.program.runs n).phase ≡ false

  Inv-installed : (w : World) → Inv (installed ready w)
  Inv-installed w = record {
    names_cancel = refl;
    names_done = refl;
    older = λ n h. absurd (omega arith);
    rests = λ e n h. absurd (omega arith);
    asked = λ e. cc;
    over = λ n e. cc;
  }

  -- A move is made before the channel is closed, and closes it only behind the end.
  abbrev pub Moved : Run → Run → Type 0
  Moved r r' =
      (r.closed ≡ false) × (r'.cancelled ≡ r.cancelled) × (r'.closed ≡ true → live r'.phase ≡ false)

  pub Move-Moved :
      {r : Run} {w : World} {r' : Run} {w' : World}
      → (r.closed ≡ true → live r.phase ≡ false)
      → Move ready r w r' w'
      → Moved r r'
  Move-Moved over (gets_ready at) = ground (arith)
  Move-Moved over (sees_cancel at e) = ground (arith)
  Move-Moved over (serve_ends e at) = ground (arith)
  Move-Moved over (call_begins at) = ground (arith)
  Move-Moved over (call_ends n (inl at) e) = ground (arith)
  Move-Moved over (call_ends n (inr at) e) = ground (arith)
  Move-Moved over (stops_gracefully at e) = ground (arith)
  Move-Moved over (closes e at shut) = ground (arith)

  starts-Inv :
      (s : System ready)
      → s.manager ≡ idle
      → Inv s
      → Inv (record s { program = start s.program; manager = active })
  unfolding start
  starts-Inv s rests inv =
      let p = s.program in
      record {
        names_cancel = refl;
        names_done = refl;
        older = λ n h. elim (update_cases p.runs p.count n fresh) [
          | inl (e, same) ↦ absurd (omega (arith, e))
          | inr (ne, same) ↦ ap (λ (r : Run). r.closed) same ∙ inv.rests rests n (omega arith)
        ];
        rests = λ e. cc;
        asked = λ e. cc;
        over = λ n e. elim (update_cases p.runs p.count n fresh) [
          | inl (is_last, same) ↦ ground (arith, same)
          | inr (ne, same) ↦
              ap (λ (r : Run). live r.phase) same
              ∙ inv.over n (ap (λ (r : Run). r.closed) (sym same) ∙ e)
        ];
      }

  -- `Stop` only cancels the latest run.
  abbrev Cancelled : (ℕ → Run) → (ℕ → Run) → ℕ → ℕ → Type 0
  Cancelled runs runs' count n =
      ((runs' n).closed ≡ (runs n).closed)
      × ((runs' n).phase ≡ (runs n).phase)
      × (suc n ≡ count → (runs' n).cancelled ≡ true)

  cancel_latest :
      (count : ℕ) (runs : ℕ → Run) (n : ℕ) → Cancelled runs (cancel_run (latest count) runs) count n
  cancel_latest zero runs n = (refl, refl, λ h. cc)
  cancel_latest (suc m) runs n =
      elim (update_cases runs m n (record (runs m) { cancelled = true })) [
        | inl (e, same) ↦
            (ground (arith, same, e), ground (arith, same, e), λ h. ground (arith, same))
        | inr (ne, same) ↦ (ground (arith, same), ground (arith, same), λ h. absurd (omega arith))
      ]

  stop_run :
      (p : Program) (n : ℕ) → p.cancel ≡ latest p.count → Cancelled p.runs (stop p).runs p.count n
  unfolding stop
  stop_run p n names = rw names (cancel_latest p.count p.runs n)

  stops-Inv :
      (s : System ready) → Inv s → Inv (record s { program = stop s.program; manager = stopping })
  unfolding stop
  stops-Inv s inv =
      let same = λ (n : ℕ). stop_run s.program n inv.names_cancel in
      record {
        names_cancel = inv.names_cancel;
        names_done = inv.names_done;
        older = λ n h. (same n).0 ∙ inv.older n h;
        rests = λ e. cc;
        asked = λ e n h. (same n).2 h;
        over = λ n e. ap live (same n).1 ∙ inv.over n (sym (same n).0 ∙ e);
      }

  latest_closed :
      (count n : ℕ) (runs : ℕ → Run)
      → ((k : ℕ) → suc k < count → (runs k).closed ≡ true)
      → is_closed (latest count) runs ≡ true
      → n < count
      → (runs n).closed ≡ true
  latest_closed zero n runs older shut h = absurd (omega arith)
  latest_closed (suc m) n runs older shut h = elim (ℕ_discrete n m) [
    | yes e ↦ rw e shut
    | no ne ↦ older n (omega arith)
  ]

  returns-Inv :
      (s : System ready) → may_return s.program ≡ true → Inv s → Inv (record s { manager = idle })
  returns-Inv s shut inv = record {
    names_cancel = inv.names_cancel;
    names_done = inv.names_done;
    older = inv.older;
    rests = λ e n h.
        latest_closed s.program.count n s.program.runs inv.older (rw inv.names_done at shut) h;
    asked = λ e. cc;
    over = inv.over;
  }

  ran-Inv :
      (s : System ready) (n : ℕ) (r : Run) (w : World)
      → Moved (s.program.runs n) r
      → Inv s
      → Inv (ran ready s n r w)
  ran-Inv s n r w (was_open, asks, ends) inv =
      let runs = s.program.runs in
      let shut : (k : ℕ) → (runs k).closed ≡ true → (update runs n r k).closed ≡ true = λ k h.
        elim (update_cases runs n k r) [
          | inl (e, same) ↦
              let shut_n : (runs n).closed ≡ true = ap (λ (i : ℕ). (runs i).closed) (sym e) ∙ h in
              cc
          | inr (ne, same) ↦ ap (λ (q : Run). q.closed) same ∙ h
        ] in
      record {
        names_cancel = inv.names_cancel;
        names_done = inv.names_done;
        older = λ k h. shut k (inv.older k h);
        rests = λ e k h. shut k (inv.rests e k h);
        asked = λ e k h. elim (update_cases runs n k r) [
          | inl (is_n, same) ↦
              ap (λ (q : Run). q.cancelled) same
              ∙ asks
              ∙ ap (λ (i : ℕ). (runs i).cancelled) (sym is_n)
              ∙ inv.asked e k h
          | inr (ne, same) ↦ ap (λ (q : Run). q.cancelled) same ∙ inv.asked e k h
        ];
        over = λ k h. elim (update_cases runs n k r) [
          | inl (is_n, same) ↦
              ap (λ (q : Run). live q.phase) same ∙ ends (ap (λ (q : Run). q.closed) (sym same) ∙ h)
          | inr (ne, same) ↦
              ap (λ (q : Run). live q.phase) same
              ∙ inv.over k (ap (λ (q : Run). q.closed) (sym same) ∙ h)
        ];
      }

  pub Step-Inv : {s t : System ready} → Step ready s t → Inv s → Inv t
  Step-Inv {s} (starts rests) inv = starts-Inv s rests inv
  Step-Inv {s} (calls_stop e) inv = stops-Inv s inv
  Step-Inv {s} (stop_returns e shut) inv = returns-Inv s shut inv
  Step-Inv {s} (moves n r w h m) inv = ran-Inv s n r w (Move-Moved (inv.over n) m) inv

  pub Reach-Inv : {w : World} {s : System ready} → Reach ready (installed ready w) s → Inv s
  Reach-Inv {w} here = Inv-installed w
  Reach-Inv (next r st) = Step-Inv st (Reach-Inv r)
