-- ===== src/Agentd/Service/Stops.antt =====
-- A call of `Stop` returns.
use remote_exec.Base.{ℕ, ◌+◌, Bool, true, false, if◌then◌else◌}
use remote_exec.Io.{Action}
use remote_exec.Io.World.{World}
use remote_exec.Agentd.Service.{
  Phase, loading, serving, draining, returned, Run, System, Step, Reach,
}

-- `serveAgent` has left its `select`.
abbrev pub has_selected : Phase → Bool
has_selected loading = false
has_selected serving = false
has_selected _ = true

-- How many moves a run has left, at most, once no more calls begin.
abbrev left_phase : Phase → ℕ → ℕ
left_phase loading pending = 4 + pending
left_phase serving pending = 3 + pending
left_phase draining pending = 2 + pending
left_phase (returned e) pending = 1

left : Run → ℕ
left r = if r.closed then 0 else left_phase r.phase r.pending

module _ {A : Type 0} (ready : Action World A) where
  -- Whatever step comes next, and there is one, a state with the property comes.
  pub data Inevitable (P : System ready → Type 0) : System ready → Type 0 where
    now : {s : System ready} → P s → Inevitable P s
    later :
        {s : System ready} (t : System ready)
        → Step ready s t
        → ((u : System ready) → Step ready s u → Inevitable P u)
        → Inevitable P s

  -- Some steps lead to a state with the property.
  abbrev pub Possible : (System ready → Type 0) → System ready → Type 0
  Possible P s = (u : System ready) × Reach ready s u × P u
