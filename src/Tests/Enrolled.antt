-- ===== src/Tests/Enrolled.antt =====
-- `agent enroll` and `agent identity` against a daemon.
use remote_exec.Base.{◌≡◌, refl, ◌⊎◌, Text, text_dec, some, [], ◌∷◌}
use remote_exec.Base.Dict.{lookup, insert, delete}
use remote_exec.Base.Trim.{trim_space, trim_left, trim_right, is_space}
use remote_exec.Error.{is_not_exist}
use remote_exec.Io.{Result, ok, err, Action}
use remote_exec.Io.World.{World}
use remote_exec.Io.Calls.{hostname, read_file, write_file, rename, mkdir_all, attempt, now}
use remote_exec.Pki.Cert.{Certificate}
use remote_exec.Pki.{
  new_csr, sign, parse_cert, load_ca, fingerprint, fingerprint_pem, cert_pem, serial_number,
}
use remote_exec.Identity.{agent_id}
use remote_exec.Policy.{load, default}
use remote_exec.Token.{interpret, read, store, write, persist, mutate, take_token, consume}
use remote_exec.Enroll.{enroll}
use remote_exec.ClientConfig.{Config, TlsConfig, save, client_tls}
use remote_exec.ClientConfig
use remote_exec.Proto.{EnrollRequest, EnrollResponse, IdentityResponse}
use remote_exec.Transport
use remote_exec.Transport.{server_creds, dial}
use remote_exec.AgentServer.{enroll_rpc, identity_rpc}
use remote_exec.Agentd.{tokens_path}
use remote_exec.Agentd.Serve.{load_agent}
use remote_exec.Controller.Agent.{
  Flags, credential_of, check_pin, identity_text, credential_flag, endpoint_of, dial_agent,
  agent_identity, agent_enroll,
}
use remote_exec.Controller.Agent.Pinned.{agent_identity_pinned}
use remote_exec.Controller.Agent.Enrolled.{Serves, agent_enroll-load_agent}
use remote_exec.Tests.Coding.{join_all, code_text, split}
use remote_exec.Tests.Formats.{json, yaml, fields, entries, unary, size, sign_and_size, signed}
use remote_exec.Tests.Forge.{
  crypto, crypto-IsLawful, der_of, cert_from, block_of, usage_text, key_usage_text, bool_text,
}
use remote_exec.Tests.Restart.{tls, no_policy, one_id, installed, agent, loading, loads}
use remote_exec.Base.{none, ne_literal}
use remote_exec.Base.Int.{pos}
use remote_exec.Policy.Grants.{Grants}
use remote_exec.Authz.{Peer, agent_table}
use remote_exec.Transport.{run_call}
use remote_exec.Controller.{Remote, exec_run}
use remote_exec.Controller.Relay.{opened, stream_of}
use remote_exec.Controller.Admitted.{RelaysRun, RunsFor}
use remote_exec.Controller.Agent.Running.{enrolled_run}
use remote_exec.Tests.Remote.{client, options, no_vars}
use remote_exec.Tests.Data.{calm, start, box, output, ending}

abbrev flags : Flags
flags = record { home = ok "/home/a"; credential = "cred.yaml"; endpoint = "box:50000" }

-- The client's calls reach the agent, which has a world of its own.
abbrev calls_enroll : Text → EnrollRequest → Action World EnrollResponse
calls_enroll conn req v = ((enroll_rpc calm crypto agent.server req loading.1).0, v)

abbrev connects : Text → Action World Text
connects endpoint v = (ok endpoint, v)

serves : Serves calls_enroll calm crypto agent.server
serves conn req v v' resp h = (
  loading.1,
  (enroll_rpc calm crypto agent.server req loading.1).1,
  λ i. ((h i).0, (enroll_rpc calm crypto agent.server req loading.1).1),
)

abbrev text_of : Result Text → Text
text_of (ok t) = t
text_of (err e) = ""

abbrev enrolling : Result Text × World
enrolling = agent_enroll calm crypto yaml connects calls_enroll "t" "laptop" flags start

enrols : enrolling ≡ (ok (text_of enrolling.0), enrolling.1)
unfolding agent_enroll credential_flag Transport.enroll new_csr enroll_rpc save load_agent read_file
    lookup text_dec load_ca parse_cert block_of split join_all code_text der_of cert_from usage_text
    key_usage_text bool_text agent_id is_not_exist trim_space trim_left trim_right is_space
    fingerprint_pem fingerprint load default hostname server_creds enroll sign now serial_number
    cert_pem consume mutate mkdir_all attempt read interpret fields sign_and_size unary entries size
    signed take_token delete persist write store write_file rename insert
enrols = refl

agent_enroll-load_agent_example :
    (cfg : Config) × (t : Text) × (role : Text) × (cert : Certificate) × (u : World) × (u' : World)
    × (yaml.marshal cfg ≡ ok t)
    × (lookup (credential_of flags) enrolling.1.files ≡ some t)
    × (cfg.endpoints ≡ "box:50000" ∷ [])
    × (check_pin cfg (identity_rpc calm crypto agent.server)
        ≡ ok (identity_text (identity_rpc calm crypto agent.server)))
    × (parse_cert crypto cfg.client_cert ≡ ok cert)
    × (cert.organization ≡ role ∷ [])
    × (consume calm json (tokens_path "d") "t" u ≡ (ok role, u'))
agent_enroll-load_agent_example =
    agent_enroll-load_agent calm crypto tls json no_policy one_id "d" "1" crypto-IsLawful agent
      installed loading.1 loads calm yaml connects calls_enroll serves "t" "laptop" flags start
      enrolling.1 (text_of enrolling.0) enrols

abbrev clients : Text → TlsConfig → Result Text
clients endpoint creds = ok endpoint

abbrev calls_identity : Text → Action World IdentityResponse
calls_identity conn v = (ok (identity_rpc calm crypto agent.server), v)

abbrev identifying : Result Text × World
identifying = agent_identity calm yaml tls clients calls_identity flags enrolling.1

identifies : identifying ≡ (ok (text_of identifying.0), identifying.1)
unfolding agent_identity identity_rpc check_pin dial_agent endpoint_of dial client_tls
    ClientConfig.load agent_enroll credential_flag Transport.enroll new_csr enroll_rpc save
    load_agent read_file lookup text_dec load_ca parse_cert block_of split join_all code_text der_of
    cert_from usage_text key_usage_text bool_text agent_id is_not_exist trim_space trim_left
    trim_right is_space fingerprint_pem fingerprint load default hostname server_creds enroll sign
    now serial_number cert_pem consume mutate mkdir_all attempt read interpret fields sign_and_size
    unary entries size signed take_token delete persist write store write_file rename insert
identifies = refl

agent_identity_pinned_example :
    (cfg : Config) × (v : World) × (conn : Text) × (u : World) × (resp : IdentityResponse)
    × (ClientConfig.load calm yaml (credential_of flags) enrolling.1 ≡ (ok cfg, v))
    × (dial_agent calm yaml tls clients flags v ≡ (ok conn, u))
    × (calls_identity conn u ≡ (ok resp, identifying.1))
    × ((cfg.fingerprint ≡ "") ⊎ (resp.fingerprint ≡ cfg.fingerprint))
    × (text_of identifying.0 ≡ identity_text resp)
agent_identity_pinned_example =
    agent_identity_pinned calm yaml tls clients calls_identity flags enrolling.1 identifying.1
      (text_of identifying.0) identifies

-- The agent's service over a connection on which it sees that peer.
abbrev link : Peer → Remote Grants
link peer = record {
  dial = λ g. (ok tt, g);
  run = λ req g.
      let out = run_call agent_table calm crypto agent.server box peer req (opened g) in
      (ok (stream_of out), out.1.grants);
  deploy = λ req g. (ok (record { incoming = []; ends = none }), g);
}

link-RelaysRun : (peer : Peer) → RelaysRun calm crypto agent.server box peer (link peer)
link-RelaysRun peer = record {
  unbroken = λ sent. refl;
  dials = λ g. refl;
  runs = λ req g.
      (g, (run_call agent_table calm crypto agent.server box peer req (opened g)).1.grants, refl);
}

enrolled_run_example :
    (cfg : Config) × (t : Text) × (role : Text) × (cert : Certificate) × (u : World) × (u' : World)
    × (yaml.marshal cfg ≡ ok t)
    × (lookup (credential_of flags) enrolling.1.files ≡ some t)
    × (parse_cert crypto cfg.client_cert ≡ ok cert)
    × (consume calm json (tokens_path "d") "t" u ≡ (ok role, u'))
    × (let remote = link (Peer.tls (cert ∷ [])) in
        RunsFor role remote output (pos 3) client (exec_run remote options client))
enrolled_run_example =
    enrolled_run calm crypto tls json no_policy one_id "d" "1" crypto-IsLawful agent installed
      loading.1 loads calm yaml connects calls_enroll serves "t" "laptop" flags start enrolling.1
      (text_of enrolling.0) enrols box link link-RelaysRun options [] output ending (pos 3) client
      no_vars (ne_literal "reboot" "" refl) (λ peer. refl) refl
