-- ===== src/Agentd/Serve/Starts.antt =====
-- What `ca init` wrote, `serve` loads.
use remote_exec.Base.{
  ℕ, ◌≡◌, ◌≢◌, refl, ap, ◌∙◌, Text, Bool, true, false, none, some, List, [], ◌∷◌, arith,
}
use remote_exec.Base.Dict.{Dict, lookup}
use remote_exec.Base.Trim.{IsSolid}
use remote_exec.Io.{Result, ok}
use remote_exec.Io.World.{World, Env, step}
use remote_exec.Io.Calls.{read_file_stored, hostname}
use remote_exec.Identity.Stable.{Keeps-agent_id}
use remote_exec.Pki.Cert.{Certificate}
use remote_exec.Pki.{Ca, block_cert, cert_pem, default_leaf_validity}
use remote_exec.Pki.Primitives.{Crypto, IsLawful, LoadsKeys}
use remote_exec.Pki.Kept.{IsParsed, load_ca-IsParsed}
use remote_exec.Pki.Pairs.{CarriesKey, IsPair}
use remote_exec.Policy.{Policy, denied, default, evaluate}
use remote_exec.Policy.Loading.{load-default, evaluate-default}
use remote_exec.Token.{Codec, consume}
use remote_exec.ClientConfig.{Tls, verify_if_given}
use remote_exec.Transport.{server_creds}
use remote_exec.Agentd.{
  ca_cert_path, ca_key_path, server_cert_path, server_key_path, agent_id_path, policy_path,
  tokens_path, report, ca_init,
}
use remote_exec.Agentd.Initialised.{
  VisitsPairs, IsInitialised, IsInitialised-files, ca_init-IsInitialised,
}
use remote_exec.Agentd.Serve.{Agent, load_agent}

-- crypto/tls and crypto/x509 in PEM: `X509KeyPair` accepts a certificate with the key whose public
-- part it was created for, and a pool takes a certificate that parses.
pub record Accepts (x : Crypto) (tls : Tls) : Type 0 where
  pub pairs : (cert key : Text) → IsPair x cert key → tls.key_pair cert key ≡ none
  pub pools :
      (cert : Certificate) (der : Text)
      → x.parse_certificate der ≡ ok cert
      → (roots : List Text) × (tls.roots_of
            (x.pem_encode (record { kind = block_cert; bytes = der }))
          ≡ some roots)

module _ (env : Env) (x : Crypto) (tls : Tls) (json : Codec) (policy : Text → Result Policy)
    (uuid : ℕ → Text) (dir version : Text) where
  -- The agent that is loaded from these texts.
  abbrev loaded : Ca x → Text → Text → Text → Text → Text → List Text → World → Agent x
  loaded ca ca_cert server_cert server_key id fp roots w = record {
    server = record {
      enroller = record {
        ca = ca;
        server_cert_pem = server_cert;
        agent_id = id;
        tokens = record { consume = consume env json (tokens_path dir) };
        leaf_validity = default_leaf_validity;
      };
      agent_id = id;
      fingerprint = fp;
      hostname = env.hostname w.calls;
      version = version;
      policy = default;
    };
    creds = record {
      certificates = (server_cert, server_key) ∷ [];
      root_cas = none;
      client_cas = some roots;
      client_auth = verify_if_given;
      server_name = "";
      insecure_skip_verify = false;
      tls13_only = true;
    };
  }

  pool_of :
      (accepts : Accepts x tls) (ca : Ca x)
      → IsParsed x ca
      → (roots : List Text) × (tls.roots_of (cert_pem x ca) ≡ some roots)
  unfolding cert_pem
  pool_of accepts ca parsed = accepts.pools ca.cert ca.cert.raw parsed

  load_agent-IsInitialised :
      (law : IsLawful x) (keys : LoadsKeys x) (accepts : Accepts x tls) (id fp : Text) (ca : Ca x)
      (w : World)
      → ((n : ℕ) → env.fault n ≡ none)
      → IsInitialised env x uuid dir id fp ca w
      → lookup (policy_path dir) w.files ≡ none
      → (agent : Agent x) × (u : World) × (load_agent env x tls json policy uuid dir version w
          ≡ (ok agent, u))
        × (agent.server.agent_id ≡ id)
        × (agent.server.fingerprint ≡ fp)
        × (agent.server.policy ≡ default)
        × (agent.server.enroller.ca ≡ ca)
  unfolding load_agent server_creds hostname
  load_agent-IsInitialised law keys accepts id fp ca w quiet i no_policy =
      let w1 = step w in
      let w2 = step w1 in
      let w3 = step w2 in
      let w4 = step w3 in
      let w5 = step w4 in
      let w6 = step w5 in
      let (roots, pool) = pool_of accepts ca i.parsed in
      (
        loaded ca (cert_pem x ca) i.server_cert i.server_key id fp roots w6,
        step w6,
        ground (
          arith,
          read_file_stored env (ca_cert_path dir) (cert_pem x ca) w (quiet w.calls)
              i.ca_cert_stored,
          read_file_stored env (ca_key_path dir) i.key w1 (quiet w1.calls) i.ca_key_stored,
          load_ca-IsParsed x law keys ca i.key i.parsed i.printed,
          read_file_stored env (server_cert_path dir) i.server_cert w2 (quiet w2.calls)
              i.server_cert_stored,
          read_file_stored env (server_key_path dir) i.server_key w3 (quiet w3.calls)
              i.server_key_stored,
          Keeps-agent_id env uuid (agent_id_path dir) id w4 i.named (quiet w4.calls),
          load-default env policy (policy_path dir) w5 (quiet w5.calls) no_policy,
          accepts.pairs i.server_cert i.server_key i.paired,
          pool,
        ),
        refl,
        refl,
        refl,
        refl,
      )

  -- What a successful `ca init` wrote, `serve` loads: with no call failing, the files as they were
  -- left and no policy file, the daemon comes up with the id and the fingerprint that `ca init`
  -- printed, and it denies every destructive command. TLS is taken to accept a certificate with the
  -- key that it was created for, and a CSR to carry the public part of its key.
  pub load_agent-ca_init :
      (law : IsLawful x) (keys : LoadsKeys x) (carries : CarriesKey x) (accepts : Accepts x tls)
      → ((n : ℕ) → IsSolid (uuid n) × (uuid n ≢ ""))
      → (range : Dict Text → List (Text × Text)) → VisitsPairs range
      → (there : Env) (force : Bool) (w w' later : World) (text : Text)
      → ca_init there x uuid range dir force w ≡ (ok text, w')
      → later.files ≡ w'.files
      → ((n : ℕ) → env.fault n ≡ none)
      → lookup (policy_path dir) later.files ≡ none
      → (agent : Agent x) × (u : World) × (load_agent env x tls json policy uuid dir version later
          ≡ (ok agent, u))
        × (text ≡ report there x dir agent.server.agent_id agent.server.fingerprint)
        × ((c : Text) → evaluate agent.server.policy c ≡ denied)
  load_agent-ca_init law keys carries accepts solid range visits there force w w' later text h same
        quiet no_policy =
      let (id, fp, ca, i, e) =
        ca_init-IsInitialised there range visits x uuid dir law carries solid force w w' text h in
      let (agent, u, started, its_id, its_fp, its_policy, its_ca) =
        load_agent-IsInitialised law keys accepts id fp ca later quiet
          (IsInitialised-files there env x uuid dir id fp ca w' later same i) no_policy in
      (
        agent,
        u,
        started,
        ground (arith, its_id, its_fp),
        λ c. ap (λ (p : Policy). evaluate p c) its_policy ∙ evaluate-default c,
      )
