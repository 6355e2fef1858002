-- ===== src/Agentd/Service/Once.antt =====
-- At most one run of `serveAgent` at a time.
use native.Mathlib.Decide.{ℕ_discrete}
use remote_exec.Base.{ℕ, suc, ◌<◌, ◌≡◌, ◌≢◌, true, false, arith}
use remote_exec.Io.{Action}
use remote_exec.Io.World.{World}
use remote_exec.Agentd.Service.{Phase, idle, System, Reach, installed}
use remote_exec.Agentd.Service.Runs.{live, Inv, Reach-Inv}

absurd_live : (p : Phase) → live p ≡ true → live p ≢ false
absurd_live p alive over = cc

module _ {A : Type 0} (ready : Action World A) where
  only_latest :
      {s : System ready} (n : ℕ)
      → Inv ready s
      → n < s.program.count
      → live (s.program.runs n).phase ≡ true
      → suc n ≡ s.program.count
  only_latest {s} n inv h alive = elim (ℕ_discrete (suc n) s.program.count) [
    | yes e ↦ e
    | no ne ↦
        let over = inv.over n (inv.older n (omega arith)) in
        absurd (absurd_live (s.program.runs n).phase alive over)
  ]

  -- Under a manager that calls `Start` only at first or when `Stop` has returned, however the runs go:
  -- at most one call of `serveAgent` has not returned, and none when `Stop` has returned.
  pub serves_once :
      (w : World) (s : System ready)
      → Reach ready (installed ready w) s
      → (i : ℕ) → i < s.program.count
      → live (s.program.runs i).phase ≡ true
      → (s.manager ≢ idle)
        × ((j : ℕ) → j < s.program.count → live (s.program.runs j).phase ≡ true → i ≡ j)
  serves_once w s r i h alive =
      let inv = Reach-Inv ready r in
      (
        λ rests. absurd_live (s.program.runs i).phase alive (inv.over i (inv.rests rests i h)),
        λ j h' alive'.
            let e = only_latest i inv h alive in
            let e' = only_latest j inv h' alive' in omega (arith, e, e'),
      )
