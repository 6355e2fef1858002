-- ===== src/Agentd/Service.antt =====
-- cmd/rexec-agentd/servicecmds.go: the daemon under the service manager of the operating system, and
-- how `serveAgent` of cmd/rexec-agentd/agentcmds.go ends. A run of `serveAgent` is a goroutine
-- beside the manager's calls.
pub mod Runs
pub mod Once
pub mod Stops
use remote_exec.Base.{ℕ, suc, ◌<◌, ◌≡◌, ◌≢◌, ◌⊎◌, Text, Bool, true, false, Option, none, some}
use remote_exec.Base.Family.{update}
use remote_exec.Io.{Result, ok, err, Action, Done}
use remote_exec.Io.World.{World}

-- Where `serveAgent` stands: before its `select`, in it, in `GracefulStop`, or past its end.
pub data Phase : Type 0 where
  loading serving draining : Phase
  returned : Result Done → Phase

-- One call of `Start`: its context, its goroutine, how many calls of peers its gRPC server has begun
-- and not ended, and whether its channel `done` is closed.
pub record Run : Type 0 where
  pub cancelled : Bool
  pub phase : Phase
  pub pending : ℕ
  pub closed : Bool

abbrev pub fresh : Run
fresh = record { cancelled = false; phase = loading; pending = 0; closed = false }

-- The fields of `program` that change, each naming the call of `Start` that set it, and those calls.
pub record Program : Type 0 where
  pub cancel : Option ℕ
  pub done : Option ℕ
  pub runs : ℕ → Run
  pub count : ℕ

-- `Start`
unfoldable pub start : Program → Program
start p = record {
  cancel = some p.count;
  done = some p.count;
  runs = update p.runs p.count fresh;
  count = suc p.count;
}

-- `Stop`, up to where it waits for `done`.
abbrev cancel_run : Option ℕ → (ℕ → Run) → ℕ → Run
cancel_run none runs = runs
cancel_run (some n) runs = update runs n (record (runs n) { cancelled = true })

unfoldable pub stop : Program → Program
stop p = record p { runs = cancel_run p.cancel p.runs }

-- Whether `Stop` gets past `<-p.done`.
abbrev is_closed : Option ℕ → (ℕ → Run) → Bool
is_closed none runs = true
is_closed (some n) runs = (runs n).closed

abbrev pub may_return : Program → Bool
may_return p = is_closed p.done p.runs

-- The manager calls `Start` when the last `Stop` has returned, or before any.
pub data Manager : Type 0 where
  idle active stopping : Manager

module _ {A : Type 0} (ready : Action World A) where
  abbrev after_ready : Result A → Phase
  after_ready (ok agent) = serving
  after_ready (err e) = returned (err e)

  -- A step of the goroutine or of the server that it started. `ready` is `serveAgent` up to its
  -- `select`, which sees the cancelled context or the result of `Serve`. The server takes calls until
  -- `GracefulStop`, which blocks until the last of them has ended.
  pub data Move (r : Run) (w : World) : Run → World → Type 0 where
    gets_ready :
        r.phase ≡ loading → Move r w (record r { phase = after_ready (ready w).0 }) (ready w).1
    sees_cancel :
        r.phase ≡ serving → r.cancelled ≡ true → Move r w (record r { phase = draining }) w
    serve_ends :
        (e : Result Done) → r.phase ≡ serving → Move r w (record r { phase = returned e }) w
    call_begins : r.phase ≡ serving → Move r w (record r { pending = suc r.pending }) w
    call_ends :
        (n : ℕ)
        → (r.phase ≡ serving) ⊎ (r.phase ≡ draining)
        → r.pending ≡ suc n
        → Move r w (record r { pending = n }) w
    stops_gracefully :
        r.phase ≡ draining → r.pending ≡ 0 → Move r w (record r { phase = returned (ok tt) }) w
    closes :
        (e : Result Done)
        → r.phase ≡ returned e
        → r.closed ≡ false
        → Move r w (record r { closed = true }) w

  pub record System : Type 0 where
    pub world : World
    pub program : Program
    pub manager : Manager

  abbrev pub ran : System → ℕ → Run → World → System
  ran s n r w = record s {
    world = w;
    program = record s.program { runs = update s.program.runs n r };
  }

  pub data Step (s : System) : System → Type 0 where
    starts : s.manager ≡ idle → Step s (record s { program = start s.program; manager = active })
    calls_stop :
        s.manager ≢ stopping → Step s (record s { program = stop s.program; manager = stopping })
    stop_returns :
        s.manager ≡ stopping → may_return s.program ≡ true → Step s (record s { manager = idle })
    moves :
        (n : ℕ) (r : Run) (w : World)
        → n < s.program.count
        → Move (s.program.runs n) s.world r w
        → Step s (ran s n r w)

  pub data Reach (s : System) : System → Type 0 where
    here : Reach s s
    next : {t u : System} → Reach s t → Step t u → Reach s u

  -- The program before the first call.
  abbrev pub installed : World → System
  installed w = record {
    world = w;
    program = record { cancel = none; done = none; runs = λ n. fresh; count = 0 };
    manager = idle;
  }
