-- ===== src/Controller/Agent/Pinned.antt =====
-- The pin: `agent enroll` stores the agent's fingerprint, and `agent identity` compares it.
use remote_exec.Base.{◌≡◌, ◌⊎◌, inl, inr, Text, some, [], ◌∷◌, arith}
use remote_exec.Base.Dict.{lookup}
use remote_exec.Io.{Result, ok, Action, Result-cases}
use remote_exec.Io.World.{World, Env}
use remote_exec.Pki.{new_csr}
use remote_exec.Pki.Primitives.{Crypto}
use remote_exec.ClientConfig.{Config, Yaml, Tls, TlsConfig, load, save}
use remote_exec.ClientConfig.Kept.{save_stores}
use remote_exec.Proto.{EnrollRequest, EnrollResponse, IdentityResponse}
use remote_exec.Transport.{enroll}
use remote_exec.Controller.Agent.{
  Flags, credential_of, dial_agent, check_pin, identity_text, named, agent_identity, agent_enroll,
}

check_pin_ok :
    (cfg : Config) (resp : IdentityResponse) (text : Text)
    → check_pin cfg resp ≡ ok text
    → ((cfg.fingerprint ≡ "") ⊎ (resp.fingerprint ≡ cfg.fingerprint)) × (text ≡ identity_text resp)
unfolding check_pin
check_pin_ok cfg resp text h = (ground arith, ground arith)

pub check_pin-same :
    (cfg : Config) (resp : IdentityResponse)
    → resp.fingerprint ≡ cfg.fingerprint
    → check_pin cfg resp ≡ ok (identity_text resp)
unfolding check_pin
check_pin-same cfg resp h = ground arith

module _ (env : Env) (yaml : Yaml) (tls : Tls) {Conn : Type 0} where
  -- `agent identity` succeeds only on an answer to its call over the dialled connection whose
  -- fingerprint is the pinned one, if the loaded credential pins one.
  pub agent_identity_pinned :
      (new_client : Text → TlsConfig → Result Conn) (rpc : Conn → Action World IdentityResponse)
      (f : Flags) (w w' : World) (text : Text)
      → agent_identity env yaml tls new_client rpc f w ≡ (ok text, w')
      → (cfg : Config) × (v : World) × (conn : Conn) × (u : World) × (resp : IdentityResponse)
        × (load env yaml (credential_of f) w ≡ (ok cfg, v))
        × (dial_agent env yaml tls new_client f v ≡ (ok conn, u))
        × (rpc conn u ≡ (ok resp, w'))
        × ((cfg.fingerprint ≡ "") ⊎ (resp.fingerprint ≡ cfg.fingerprint))
        × (text ≡ identity_text resp)
  unfolding agent_identity
  agent_identity_pinned new_client rpc f w w' text h =
      elim (Result-cases (load env yaml (credential_of f) w).0) [
        | inr (e, bad) ↦ absurd (ground arith)
        | inl (cfg, loaded) ↦
            let v = (load env yaml (credential_of f) w).1 in
            elim (Result-cases (dial_agent env yaml tls new_client f v).0) [
              | inr (e, bad) ↦ absurd (ground arith)
              | inl (conn, dialled) ↦
                  let u = (dial_agent env yaml tls new_client f v).1 in
                  elim (Result-cases (rpc conn u).0) [
                    | inr (e, bad) ↦ absurd (ground arith)
                    | inl (resp, answered) ↦
                        let (pin, printed) = check_pin_ok cfg resp text (ground arith) in
                        (
                          cfg,
                          v,
                          conn,
                          u,
                          resp,
                          ground arith,
                          ground arith,
                          ground arith,
                          pin,
                          printed,
                        )
                  ]
            ]
      ]

module _ (env : Env) (x : Crypto) {Conn : Type 0} where
  -- What the client's `Enroll` makes of the agent's answer.
  pub enroll_answered :
      (connect : Text → Action World Conn)
      (rpc : Conn → EnrollRequest → Action World EnrollResponse) (endpoint token cn : Text)
      (w w' : World) (cfg : Config)
      → enroll env x connect rpc endpoint token cn w ≡ (ok cfg, w')
      → (csr_pem : Text) × (conn : Conn) × (v : World) × (resp : EnrollResponse) × (rpc conn
            (record { token = token; csr_pem = csr_pem })
            v
          ≡ (ok resp, w'))
        × (cfg.ca ≡ resp.ca_pem)
        × (cfg.client_cert ≡ resp.client_cert_pem)
        × (cfg.endpoints ≡ endpoint ∷ [])
        × (cfg.agent_id ≡ resp.agent_id)
        × (cfg.fingerprint ≡ resp.fingerprint)
  unfolding enroll
  enroll_answered connect rpc endpoint token cn w w' cfg h =
      elim (Result-cases (new_csr env x cn w).0) [
        | inr (e, bad) ↦ absurd (ground arith)
        | inl (pair, made) ↦
            let v = (new_csr env x cn w).1 in
            elim (Result-cases (connect endpoint v).0) [
              | inr (e, bad) ↦ absurd (ground arith)
              | inl (conn, dialled) ↦
                  let u = (connect endpoint v).1 in
                  let req : EnrollRequest = record { token = token; csr_pem = pair.0 } in
                  elim (Result-cases (rpc conn req u).0) [
                    | inr (e, bad) ↦ absurd (ground arith)
                    | inl (resp, answered) ↦ (
                      pair.0,
                      conn,
                      u,
                      resp,
                      ground arith,
                      ground arith,
                      ground arith,
                      ground arith,
                      ground arith,
                      ground arith,
                    )
                  ]
            ]
      ]

  -- A successful `agent enroll` has enrolled over the endpoint of its flag and saved the credential.
  pub agent_enroll_ok :
      (yaml : Yaml) (connect : Text → Action World Conn)
      (rpc : Conn → EnrollRequest → Action World EnrollResponse) (token cn : Text) (f : Flags)
      (w w' : World) (text : Text)
      → agent_enroll env x yaml connect rpc token cn f w ≡ (ok text, w')
      → (cfg : Config) × (name : Text) × (v : World) × (u : World) × (t : Text) × (enroll env x
            connect rpc f.endpoint token name v
          ≡ (ok cfg, u))
        × (yaml.marshal cfg ≡ ok t)
        × (lookup (credential_of f) w'.files ≡ some t)
  unfolding agent_enroll
  agent_enroll_ok yaml connect rpc token cn f w w' text h = elim (Result-cases (named env cn w).0) [
    | inr (e, bad) ↦ absurd (ground arith)
    | inl (name, got) ↦
        let v = (named env cn w).1 in
        elim (Result-cases (enroll env x connect rpc f.endpoint token name v).0) [
          | inr (e, bad) ↦ absurd (ground arith)
          | inl (cfg, enrolled) ↦
              let u = (enroll env x connect rpc f.endpoint token name v).1 in
              elim (Result-cases (save env yaml cfg (credential_of f) u).0) [
                | inr (e, bad) ↦ absurd (ground arith)
                | inl (done, saved) ↦
                    let (t, coded, stored) =
                      save_stores env yaml cfg (credential_of f) u w' (ground arith) in
                    (cfg, name, v, u, t, ground arith, coded, stored)
              ]
        ]
  ]
