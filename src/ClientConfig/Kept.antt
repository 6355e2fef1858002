-- ===== src/ClientConfig/Kept.antt =====
-- A credential that was saved loads again.
use remote_exec.Base.{◌≡◌, inl, inr, Text, none, some, arith}
use remote_exec.Base.Dict.{lookup, lookup-insert_self}
use remote_exec.Io.{ok, Result-cases}
use remote_exec.Io.World.{World, Env}
use remote_exec.ClientConfig.{Config, Yaml, load, save}

-- What was written as YAML reads back.
abbrev pub Reads : Yaml → Type 0
Reads yaml = (c : Config) (t : Text) → yaml.marshal c ≡ ok t → yaml.unmarshal t ≡ ok c

module _ (env : Env) (yaml : Yaml) where
  pub save_stores :
      (c : Config) (path : Text) (w w' : World)
      → save env yaml c path w ≡ (ok tt, w')
      → (t : Text) × (yaml.marshal c ≡ ok t) × (lookup path w'.files ≡ some t)
  unfolding save
  save_stores c path w w' h = elim (Result-cases (yaml.marshal c)) [
    | inr (e, bad) ↦ absurd (ground arith)
    | inl (t, coded) ↦ (t, coded, ground (arith, lookup-insert_self path t w.files))
  ]

  -- A `Load` after a successful `Save` returns the saved credential, if its read does not fail and
  -- nobody else wrote the file in between.
  load-save :
      (reads : Reads yaml) (c : Config) (path : Text) (w w' later : World)
      → save env yaml c path w ≡ (ok tt, w')
      → lookup path later.files ≡ lookup path w'.files
      → env.fault later.calls ≡ none
      → (load env yaml path later).0 ≡ ok c
  unfolding load
  load-save reads c path w w' later h same quiet =
      let (t, coded, stored) = save_stores c path w w' h in ground (arith, reads c t coded)
