-- ===== src/Identity/Stable.antt =====
-- An id, once returned, is returned again.
use remote_exec.Base.{ℕ, suc, inl, inr, ◌≡◌, ◌≢◌, ◌∙◌, Text, ◌<>◌, none, some, arith, Option-cases}
use remote_exec.Base.Dict.{lookup, lookup-insert_self}
use remote_exec.Base.Trim.{trim_space, IsSolid, trim_space-solid}
use remote_exec.Io.{ok}
use remote_exec.Io.World.{World, Env, step}
use remote_exec.Identity.{generate, agent_id}

module _ (env : Env) (uuid : ℕ → Text) (path : Text) where
  -- The file holds this id.
  abbrev pub Keeps : Text → World → Type 0
  Keeps id w = (t : Text) × (lookup path w.files ≡ some t) × (trim_space t ≡ id) × (id ≢ "")

  pub Keeps-agent_id :
      (id : Text) (w : World)
      → Keeps id w
      → env.fault w.calls ≡ none
      → agent_id env uuid path w ≡ (ok id, step w)
  unfolding agent_id
  Keeps-agent_id id w (t, stored, trimmed, ne) quiet = ground arith

  generate-Keeps :
      (id : Text) (w w' : World)
      → ((n : ℕ) → IsSolid (uuid n) × (uuid n ≢ ""))
      → generate env uuid path w ≡ (ok id, w')
      → Keeps id w'
  unfolding generate
  generate-Keeps id w w' solid h = elim (Option-cases (env.fault (suc w.calls))) [
    | inl quiet ↦ elim (Option-cases (env.fault (suc (suc w.calls)))) [
      | inl quiet' ↦ (
        uuid w.calls <> "\n",
        ground (arith, lookup-insert_self path (uuid w.calls <> "\n") w.files),
        ground (arith, trim_space-solid (uuid w.calls) (solid w.calls).0),
        ground (arith, (solid w.calls).1),
      )
      | inr (f, fails) ↦ absurd (ground arith)
    ]
    | inr (f, fails) ↦ absurd (ground arith)
  ]

  pub agent_id_Keeps :
      (id : Text) (w w' : World)
      → ((n : ℕ) → IsSolid (uuid n) × (uuid n ≢ ""))
      → agent_id env uuid path w ≡ (ok id, w')
      → Keeps id w'
  unfolding agent_id
  agent_id_Keeps id w w' solid h = elim (Option-cases (env.fault w.calls)) [
    | inl quiet ↦ elim (Option-cases (lookup path w.files)) [
      | inl missing ↦ generate-Keeps id (step w) w' solid (ground arith)
      | inr (t, stored) ↦ (t, ground arith, ground arith, ground arith)
    ]
    | inr (f, fails) ↦ absurd (ground arith)
  ]

  -- An id that was returned is returned by every later call whose read does not fail, if the file of
  -- the id is then as the first call left it, whatever became of the other files; that call writes
  -- nothing. The ids that are generated are taken to be texts that are not empty and hold no white
  -- space.
  pub agent_id_stable :
      (id : Text) (w w' later : World)
      → ((n : ℕ) → IsSolid (uuid n) × (uuid n ≢ ""))
      → agent_id env uuid path w ≡ (ok id, w')
      → lookup path later.files ≡ lookup path w'.files
      → env.fault later.calls ≡ none
      → agent_id env uuid path later ≡ (ok id, step later)
  agent_id_stable id w w' later solid h same quiet =
      let (t, stored, trimmed, ne) = agent_id_Keeps id w w' solid h in
      Keeps-agent_id id later (t, same ∙ stored, trimmed, ne) quiet
