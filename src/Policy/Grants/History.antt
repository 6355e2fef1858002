-- ===== src/Policy/Grants/History.antt =====
-- The life of approvals over any sequence of calls. Each call holds the mutex while it touches the
-- map, so every interleaving of the daemon's requests is such a sequence.
use remote_exec.Base.{
  ℕ, suc, ◌+◌, ◌≤◌, ◌≡◌, ◌↔◌, Text, none, some, List, [], ◌∷◌, ◌==◌, arith, if◌then◌else◌,
}
use remote_exec.Base.Int.{ℤ, ◌≤ℤ◌, ◌+ℤ◌}
use remote_exec.Base.Dict.{lookup, insert, lookup-delete, lookup-insert, lookup-insert_self}
use remote_exec.Io.{Result, ok, err, Done}
use remote_exec.Io.World.{World, Env, step}
use remote_exec.Policy.Grants.{Grants, rand_id, issue, consume}
use remote_exec.Policy.Grants.OneTime.{Approves, consume_iff}

pub data Op : Type 0 where
  request : Text → ℤ → Op
  redeem : Text → Text → Op
  -- what other code does to the world in between
  elsewhere : World → Op

pub data Event : Type 0 where
  issued granted : Text → Event
  nothing : Event

abbrev issue_event : Result Text → Event
issue_event (ok id) = issued id
issue_event (err e) = nothing

abbrev consume_event : Text → Result Done → Event
consume_event id (ok _) = granted id
consume_event id (err e) = nothing

module _ (env : Env) where
  unfoldable pub perform : Op → Grants → Event × Grants
  perform (request command ttl) g = let (r, g') = issue env command ttl g in (issue_event r, g')
  perform (redeem id command) g = let (r, g') = consume env id command g in (consume_event id r, g')
  perform (elsewhere w) g = (nothing, record g { world = w })

  unfoldable pub run : List Op → Grants → List Event × Grants
  unfolding perform
  run [] g = ([], g)
  run (op ∷ ops) g = let (e, g') = perform op g in let (es, g'') = run ops g' in (e ∷ es, g'')

-- How often an id was issued, and how often a call was granted on it.
abbrev pub issues : Text → List Event → ℕ
issues id [] = 0
issues id (issued i ∷ es) = (if id == i then 1 else 0) + issues id es
issues id (granted _ ∷ es) = issues id es
issues id (nothing ∷ es) = issues id es

abbrev pub uses : Text → List Event → ℕ
uses id [] = 0
uses id (granted i ∷ es) = (if id == i then 1 else 0) + uses id es
uses id (issued _ ∷ es) = uses id es
uses id (nothing ∷ es) = uses id es

abbrev pub pending : Text → Grants → ℕ
pending id g = elim (lookup id g.m) [ none ↦ 0 | some rec ↦ 1 ]

-- What `Issue` leaves, by the id that was drawn.
abbrev issue_answer : Env → Text → ℤ → Grants → Result Text → Result Text × Grants
issue_answer env command ttl g (err e) = (err e, record g { world = step g.world })
issue_answer env command ttl g (ok id) = (
  ok id,
  record {
    m = insert id (record { command = command; expiry = env.now (suc g.world.calls) +ℤ ttl }) g.m;
    world = step (step g.world);
  },
)

pub world-rand_id : (env : Env) (w : World) → (rand_id env w).1 ≡ step w
unfolding rand_id
world-rand_id env w = ground arith

pub issue_lem :
    (env : Env) (command : Text) (ttl : ℤ) (g : Grants)
    → issue env command ttl g ≡ issue_answer env command ttl g (rand_id env g.world).0
unfolding issue
issue_lem env command ttl g = ground (arith, world-rand_id env g.world)

issue_pending :
    (env : Env) (id command : Text) (ttl : ℤ) (g : Grants) (r : Result Text)
    → let (out, g') = issue_answer env command ttl g r in
      uses id (issue_event out ∷ []) + pending id g'
      ≤ issues id (issue_event out ∷ []) + pending id g
issue_pending env id command ttl g (err e) = omega arith
issue_pending env id command ttl g (ok i) = ground (
  arith,
  lookup-insert id i (record { command = command; expiry = env.now (suc g.world.calls) +ℤ ttl })
      g.m,
)

module _ (env : Env) (id : Text) where
  pub perform_balance :
      (op : Op) (g : Grants)
      → let (e, g') = perform env op g in
        uses id (e ∷ []) + pending id g' ≤ issues id (e ∷ []) + pending id g
  unfolding perform consume
  perform_balance (request command ttl) g =
      rw (issue_lem env command ttl g) (issue_pending env id command ttl g (rand_id env g.world).0)
  perform_balance (redeem i command) g = ground (arith, lookup-delete id i g.m)
  perform_balance (elsewhere w) g = omega arith

  uses-cons : (e : Event) (es : List Event) → uses id (e ∷ es) ≡ uses id (e ∷ []) + uses id es
  uses-cons e es = ground arith

  issues-cons :
      (e : Event) (es : List Event) → issues id (e ∷ es) ≡ issues id (e ∷ []) + issues id es
  issues-cons e es = ground arith

  -- However many requests come, and in whatever order: the times that an id was accepted, and the
  -- grant under it that is left, are at most the times that it was issued, and the grant that was
  -- there at first.
  pub uses-le-issues :
      (ops : List Op) (g : Grants)
      → let (es, g') = run env ops g in uses id es + pending id g' ≤ issues id es + pending id g
  unfolding run
  uses-le-issues [] g = omega arith
  uses-le-issues (op ∷ ops) g = omega (
    arith,
    perform_balance op g,
    uses-le-issues ops (perform env op g).1,
    uses-cons (perform env op g).0 (run env ops (perform env op g).1).0,
    issues-cons (perform env op g).0 (run env ops (perform env op g).1).0,
  )

issued_grant :
    (env : Env) (command : Text) (ttl : ℤ) (g : Grants) (id : Text)
    → (issue env command ttl g).0 ≡ ok id
    → lookup id (issue env command ttl g).1.m
      ≡ some (record { command = command; expiry = env.now (suc g.world.calls) +ℤ ttl })
issued_grant env command ttl g id h = ground (
  arith,
  issue_lem env command ttl g,
  lookup-insert_self id (record { command = command; expiry = env.now (suc g.world.calls) +ℤ ttl })
      g.m,
)

-- What a grant that was just issued is good for: the same command, until its lifetime is over,
-- whatever happened to the world in between.
pub issue-consume :
    (env : Env) (command : Text) (ttl : ℤ) (g : Grants) (id : Text)
    → (issue env command ttl g).0 ≡ ok id
    → (later : World) (again : Text)
    → ((consume env id again (record (issue env command ttl g).1 { world = later })).0 ≡ ok tt)
      ↔ (env.now later.calls ≤ℤ env.now (suc g.world.calls) +ℤ ttl) × (command ≡ again)
issue-consume env command ttl g id h later again = (
  λ c. redeemed ((consume_iff env id _ again).0 c),
  λ c. (consume_iff env id _ again).1 (_, issued_grant env command ttl g id h, c.0, c.1),
)
  where
    redeemed :
        Approves env id (record (issue env command ttl g).1 { world = later }) again
        → (env.now later.calls ≤ℤ env.now (suc g.world.calls) +ℤ ttl) × (command ≡ again)
    redeemed (rec, stored, fresh, same) = ground (arith, issued_grant env command ttl g id h)
