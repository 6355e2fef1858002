-- ===== src/Agentd/Steps.antt =====
-- A successful `ca init`, step by step.
use remote_exec.Base.{ℕ, ◌≡◌, inl, inr, Text, ◌<>◌, Bool, List, [], ◌∷◌, arith}
use remote_exec.Base.Dict.{Dict}
use remote_exec.Io.{ok, Result-cases}
use remote_exec.Io.World.{World, Env}
use remote_exec.Io.Calls.{mkdir_all}
use remote_exec.Identity.{agent_id}
use remote_exec.Pki.{Ca, default_ca_validity, new_ca, cert_pem, key_pem, fingerprint_pem}
use remote_exec.Pki.Primitives.{Crypto}
use remote_exec.Agentd.{
  ca_cert_path, ca_key_path, server_cert_path, server_key_path, agent_id_path, stat, write_files,
  mint_server_cert, report, ca_init, finish_init,
}

module _ (env : Env) (x : Crypto) (range : Dict Text → List (Text × Text)) (dir : Text) where
  -- The steps of `ca init` that follow the storing of the CA.
  pub finish_ok :
      (id : Text) (ca : Ca x) (m w' : World) (text : Text)
      → finish_init env x range dir id ca m ≡ (ok text, w')
      → (fp : Text) × (sc : Text) × (sk : Text) × (n : World) × (mint_server_cert env x ca m
          ≡ (ok (sc, sk), n))
        × (write_files env (range ((server_cert_path dir, sc) ∷ (server_key_path dir, sk) ∷ [])) n
            ≡ (ok tt, w'))
        × (fingerprint_pem x sc ≡ ok fp)
        × (text ≡ report env x dir id fp)
  finish_ok id ca m w' text h = elim (Result-cases (mint_server_cert env x ca m).0) [
    | inr (e, bad) ↦ absurd (ground arith)
    | inl (pair, served) ↦
        let n = (mint_server_cert env x ca m).1 in
        let entries = range ((server_cert_path dir, pair.0) ∷ (server_key_path dir, pair.1) ∷ []) in
        elim (Result-cases (write_files env entries n).0) [
          | inr (e, bad) ↦ absurd (ground arith)
          | inl (stored, wrote) ↦ elim (Result-cases (fingerprint_pem x pair.0)) [
            | inr (e, bad) ↦ absurd (ground arith)
            | inl (fp, pinned) ↦
                (fp, pair.0, pair.1, n, ground arith, ground arith, pinned, ground arith)
          ]
        ]
  ]

module _ (env : Env) (x : Crypto) (range : Dict Text → List (Text × Text)) (uuid : ℕ → Text)
    (dir : Text) where
  -- The steps of `ca init` that follow the making of the directory.
  pub made_ok :
      (force : Bool) (w w' : World) (text : Text)
      → ca_init env x uuid range dir force w ≡ (ok text, w')
      → (id : Text) × (ca : Ca x) × (key : Text) × (u : World) × (v : World) × (c : World)
        × (m : World) × (agent_id env uuid (agent_id_path dir) u ≡ (ok id, v))
        × (new_ca env x ("rexec-agentd CA " <> id) default_ca_validity v ≡ (ok ca, c))
        × (key_pem x ca ≡ ok key)
        × (write_files env
              (range ((ca_cert_path dir, cert_pem x ca) ∷ (ca_key_path dir, key) ∷ []))
              c
            ≡ (ok tt, m))
        × (finish_init env x range dir id ca m ≡ (ok text, w'))
  unfolding ca_init stat
  made_ok force w w' text h = elim (Result-cases (stat env (ca_key_path dir) w).0) [
    | inr (e, bad) ↦ absurd (ground arith)
    | inl (there, looked) ↦
        let s1 = (stat env (ca_key_path dir) w).1 in
        elim (Result-cases (mkdir_all env s1).0) [
          | inr (e, bad) ↦ absurd (ground arith)
          | inl (made, kept) ↦
              let u = (mkdir_all env s1).1 in
              elim (Result-cases (agent_id env uuid (agent_id_path dir) u).0) [
                | inr (e, bad) ↦ absurd (ground arith)
                | inl (id, identified) ↦
                    let v = (agent_id env uuid (agent_id_path dir) u).1 in
                    let minting = new_ca env x ("rexec-agentd CA " <> id) default_ca_validity v in
                    elim (Result-cases minting.0) [
                      | inr (e, bad) ↦ absurd (ground arith)
                      | inl (ca, minted) ↦
                          let c = minting.1 in
                          elim (Result-cases (key_pem x ca)) [
                            | inr (e, bad) ↦ absurd (ground arith)
                            | inl (key, printed) ↦
                                let entries = range (
                                  (ca_cert_path dir, cert_pem x ca)
                                  ∷ (ca_key_path dir, key)
                                  ∷ []) in
                                elim (Result-cases (write_files env entries c).0) [
                                  | inr (e, bad) ↦ absurd (ground arith)
                                  | inl (stored, wrote) ↦ (
                                    id,
                                    ca,
                                    key,
                                    u,
                                    v,
                                    c,
                                    (write_files env entries c).1,
                                    ground arith,
                                    ground arith,
                                    printed,
                                    ground arith,
                                    ground arith,
                                  )
                                ]
                          ]
                    ]
              ]
        ]
  ]
