-- ===== src/Agentd/Initialised.antt =====
-- The data directory after a successful `ca init`.
use remote_exec.Base.{
  ℕ, ◌≡◌, ◌≢◌, refl, sym, ap, ◌∙◌, ◌⊎◌, inl, inr, Text, ◌<>◌, Bool, some, List, [], ◌∷◌, arith,
  ne_literal,
}
use remote_exec.Base.Dict.{Dict, lookup}
use remote_exec.Base.Trim.{IsSolid}
use remote_exec.Io.{ok}
use remote_exec.Io.World.{World, Env}
use remote_exec.Identity.Stable.{Keeps, agent_id_Keeps}
use remote_exec.Pki.{Ca, default_ca_validity, cert_pem, key_pem, fingerprint_pem}
use remote_exec.Pki.Primitives.{Crypto, IsLawful}
use remote_exec.Pki.Kept.{IsParsed, new_ca-IsParsed, files-new_ca}
use remote_exec.Agentd.{
  ca_cert_path, ca_key_path, server_cert_path, server_key_path, agent_id_path, write_files, report,
  ca_init,
}
use remote_exec.Pki.Pairs.{CarriesKey, IsPair}
use remote_exec.Agentd.Minting.{mint_server_cert-IsPair}
use remote_exec.Agentd.Steps.{finish_ok, made_ok}
use remote_exec.Agentd.Stored.{in_dir-ne, write_files_two, files-mint_server_cert}

-- A map of two entries is visited in one of two orders.
abbrev pub VisitsPairs : (Dict Text → List (Text × Text)) → Type 0
VisitsPairs range =
    (a b : Text × Text) → (range (a ∷ b ∷ []) ≡ a ∷ b ∷ []) ⊎ (range (a ∷ b ∷ []) ≡ b ∷ a ∷ [])

-- The files of an agent with this CA, id and fingerprint.
pub record IsInitialised (env : Env) (x : Crypto) (uuid : ℕ → Text) (dir id fp : Text) (ca : Ca x)
    (w : World) : Type 0 where
  pub key : Text
  pub server_cert : Text
  pub server_key : Text
  pub parsed : IsParsed x ca
  pub paired : IsPair x server_cert server_key
  pub printed : key_pem x ca ≡ ok key
  pub ca_cert_stored : lookup (ca_cert_path dir) w.files ≡ some (cert_pem x ca)
  pub ca_key_stored : lookup (ca_key_path dir) w.files ≡ some key
  pub server_cert_stored : lookup (server_cert_path dir) w.files ≡ some server_cert
  pub server_key_stored : lookup (server_key_path dir) w.files ≡ some server_key
  pub pinned : fingerprint_pem x server_cert ≡ ok fp
  pub named : Keeps env uuid (agent_id_path dir) id w

-- It is a fact about the files alone.
pub IsInitialised-files :
    (env env' : Env) (x : Crypto) (uuid : ℕ → Text) (dir id fp : Text) (ca : Ca x) (w later : World)
    → later.files ≡ w.files
    → IsInitialised env x uuid dir id fp ca w
    → IsInitialised env' x uuid dir id fp ca later
IsInitialised-files env env' x uuid dir id fp ca w later same i = record {
  key = i.key;
  server_cert = i.server_cert;
  server_key = i.server_key;
  parsed = i.parsed;
  paired = i.paired;
  printed = i.printed;
  ca_cert_stored = at (ca_cert_path dir) ∙ i.ca_cert_stored;
  ca_key_stored = at (ca_key_path dir) ∙ i.ca_key_stored;
  server_cert_stored = at (server_cert_path dir) ∙ i.server_cert_stored;
  server_key_stored = at (server_key_path dir) ∙ i.server_key_stored;
  pinned = i.pinned;
  named = (i.named.0, at (agent_id_path dir) ∙ i.named.1, i.named.2, i.named.3);
}
  where
    at : (p : Text) → lookup p later.files ≡ lookup p w.files
    at p = ap (λ (f : Dict Text). lookup p f) same

module _ (env : Env) (range : Dict Text → List (Text × Text)) (visits : VisitsPairs range) where
  -- Both orders of a map of two files.
  stored_pair :
      (a b s t : Text) (w w' : World)
      → a ≢ b
      → write_files env (range ((a, s) ∷ (b, t) ∷ [])) w ≡ (ok tt, w')
      → (lookup a w'.files ≡ some s)
        × (lookup b w'.files ≡ some t)
        × ((p : Text) → p ≢ a → p ≢ b → lookup p w'.files ≡ lookup p w.files)
  stored_pair a b s t w w' ne h = elim (visits (a, s) (b, t)) [
    | inl e ↦ write_files_two env a b s t w w' ne (ground (arith, e))
    | inr e ↦
        let (second, first, others) =
          write_files_two env b a t s w w' (λ q. ne (sym q)) (ground (arith, e)) in
        (first, second, λ p na nb. others p nb na)
  ]

  module _ (x : Crypto) (uuid : ℕ → Text) (dir : Text) where
    -- After a successful `ca init` the data directory holds a CA with its key, a server certificate
    -- with the key that it was created for and an id, and what was printed names this id and the certificate's fingerprint.
    pub ca_init-IsInitialised :
        (law : IsLawful x) (carries : CarriesKey x)
        → ((n : ℕ) → IsSolid (uuid n) × (uuid n ≢ ""))
        → (force : Bool) (w w' : World) (text : Text)
        → ca_init env x uuid range dir force w ≡ (ok text, w')
        → (id : Text) × (fp : Text) × (ca : Ca x) × IsInitialised env x uuid dir id fp ca w'
          × (text ≡ report env x dir id fp)
    ca_init-IsInitialised law carries solid force w w' text h =
        let (id, ca, key, u, v, c, m, identified, minted, printed, wrote, finished_) =
          made_ok env x range uuid dir force w w' text h in
        let (fp, sc, sk, n, served, wrote', pinned, e) =
          finish_ok env x range dir id ca m w' text finished_ in
        let (cert_at, key_at, others) =
          stored_pair (ca_cert_path dir) (ca_key_path dir) (cert_pem x ca) key c m
            (distinct "ca.crt" "ca.key" (ne_literal "/ca.crt" "/ca.key" refl)) wrote in
        let (sc_at, sk_at, others') =
          stored_pair (server_cert_path dir) (server_key_path dir) sc sk n w'
            (distinct "server.crt" "server.key" (ne_literal "/server.crt" "/server.key" refl))
            wrote' in
        let (t, id_at, trimmed, id_ne) =
          agent_id_Keeps env uuid (agent_id_path dir) id u v solid identified in
        let made : c.files ≡ v.files =
          ground (arith, files-new_ca env x ("rexec-agentd CA " <> id) default_ca_validity v) in
        let minted_files : n.files ≡ m.files = ground (arith, files-mint_server_cert env x ca m) in
        (
          id,
          fp,
          ca,
          record {
            key = key;
            server_cert = sc;
            server_key = sk;
            parsed =
                new_ca-IsParsed env x law ("rexec-agentd CA " <> id) default_ca_validity v c ca
                  minted;
            paired = mint_server_cert-IsPair env x law carries ca m n sc sk served;
            printed = printed;
            ca_cert_stored =
                others' (ca_cert_path dir)
                  (distinct "ca.crt" "server.crt" (ne_literal "/ca.crt" "/server.crt" refl))
                  (distinct "ca.crt" "server.key" (ne_literal "/ca.crt" "/server.key" refl))
                ∙ same (ca_cert_path dir) minted_files
                ∙ cert_at;
            ca_key_stored =
                others' (ca_key_path dir)
                  (distinct "ca.key" "server.crt" (ne_literal "/ca.key" "/server.crt" refl))
                  (distinct "ca.key" "server.key" (ne_literal "/ca.key" "/server.key" refl))
                ∙ same (ca_key_path dir) minted_files
                ∙ key_at;
            server_cert_stored = sc_at;
            server_key_stored = sk_at;
            pinned = pinned;
            named = (
              t,
              others' (agent_id_path dir)
                    (distinct "agent.id" "server.crt" (ne_literal "/agent.id" "/server.crt" refl))
                    (distinct "agent.id" "server.key" (ne_literal "/agent.id" "/server.key" refl))
                  ∙ same (agent_id_path dir) minted_files
                  ∙ others (agent_id_path dir)
                      (distinct "agent.id" "ca.crt" (ne_literal "/agent.id" "/ca.crt" refl))
                      (distinct "agent.id" "ca.key" (ne_literal "/agent.id" "/ca.key" refl))
                  ∙ same (agent_id_path dir) made
                  ∙ id_at,
              trimmed,
              id_ne,
            );
          },
          e,
        )
      where
        distinct : (a b : Text) → "/" <> a ≢ "/" <> b → dir <> "/" <> a ≢ dir <> "/" <> b
        distinct a b ne = in_dir-ne dir a b ne

        same : (p : Text) {a b : Dict Text} → a ≡ b → lookup p a ≡ lookup p b
        same p e = ap (λ (f : Dict Text). lookup p f) e
