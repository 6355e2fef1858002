-- ===== src/Tests/Remote.antt =====
-- The controller and the agent over one connection.
use remote_exec.Base.{
  ◌+◌, ◌%◌, ◌^◌, ◌≡◌, refl, Text, text_dec, contains, true, [], ◌∷◌, ◌++◌, arith, ne_literal,
}
use remote_exec.Base.Int.{ℤ, pos, ◌≤ℤ◌, ◌+ℤ◌, pos_part, neg_part}
use remote_exec.Io.{Result, ok}
use remote_exec.Io.Calls.{random}
use remote_exec.Policy.{asked, evaluate}
use remote_exec.Policy.Grants.{Grants, rand_id, issue}
use remote_exec.AgentServer.{int32, run_stream, deploy, approval_ttl}
use remote_exec.AgentServer.ExitCode.{IsInt32}
use remote_exec.Controller.{
  Remote, Client, Options, parse_env, request, check_exit, exec_run, exec_deploy,
}
use remote_exec.Proto.{exit_code}
use remote_exec.Controller.Reading.{messages, shows}
use remote_exec.Controller.Relay.{Relays, opened, stream_of, run_stream_exit_code, exec_run_relayed}
use remote_exec.Controller.Approved.{RelaysDeploy, asks_for, noted, exec_deploy_approved}
use remote_exec.Tests.Data.{calm, asking, box, granted, output, ending}

-- A client of the agent in the box, whose approvals it carries along.
abbrev link : Remote Grants
link = record {
  dial = λ g. (ok tt, g);
  run = λ req g. let out = run_stream box req (opened g) in (ok (stream_of out), out.1.grants);
  deploy = λ req g.
      let out = deploy calm box asking req (opened g) in (ok (stream_of out), out.1.grants);
}

abbrev pub client : Client Grants
client = record { remote = granted; terminal = record { out = ""; errors = "" } }

abbrev pub options : Options
options = record {
  work_dir = "";
  env_kv = [];
  approval_id = "";
  auto_yes = true;
  command = "reboot";
  args = "now" ∷ [];
}

pub no_vars : parse_env [] ≡ ok []
unfolding parse_env
no_vars = refl

link-Relays : Relays box link
link-Relays = record {
  unbroken = λ sent. refl;
  dials = λ g. refl;
  runs = λ req g. (g, (run_stream box req (opened g)).1.grants, refl);
}

exec_run_relayed_example :
    let (r, c) = exec_run link options client in
    (r ≡ check_exit link (int32 (pos 3))) × (c.terminal ≡ shows client.terminal output)
exec_run_relayed_example =
    exec_run_relayed box link link-Relays options [] output ending (pos 3) client no_vars
      (ne_literal "reboot" "" refl) refl refl

link-RelaysDeploy : RelaysDeploy calm asking box link (λ g. g)
link-RelaysDeploy = record {
  unbroken = λ sent. refl;
  dials = λ g. refl;
  deploys = λ req g. ((deploy calm box asking req (opened g)).1.grants, refl, refl);
}

asks : evaluate asking "reboot" ≡ asked
unfolding evaluate contains text_dec
asks = refl

abbrev id_of : Result Text → Text
id_of (ok t) = t
id_of _ = ""

abbrev id : Text
id = id_of (issue calm "reboot" approval_ttl granted).0

issues : (issue calm "reboot" approval_ttl granted).0 ≡ ok id
unfolding issue rand_id random
issues = refl

-- The grant is a nanosecond old when it is used.
in_time : pos 2 ≤ℤ pos 1 +ℤ approval_ttl
unfolding ◌+ℤ◌
in_time = omega arith

exec_deploy_approved_example :
    let (r, c) = exec_deploy link options client in
    (r ≡ check_exit link (int32 (pos 3)))
    × (c.terminal
        ≡ shows (noted link (asks_for (request link options [] "") id) client.terminal) output)
unfolding issue rand_id random
exec_deploy_approved_example =
    exec_deploy_approved calm asking box link (λ g. g) link-RelaysDeploy options [] output ending
      (pos 3) id client no_vars (ne_literal "reboot" "" refl) refl refl asks issues in_time refl
      refl

run_stream_exit_code_example :
    let c = opened granted in
    (n : ℤ) × (run_stream box (request link options [] "") c
      ≡ (ok tt, record c { sent = (c.sent ++ messages output) ++ exit_code n ∷ [] }))
    × IsInt32 n
    × ((3 + neg_part n) % 2 ^ 32 ≡ (pos_part n + 0) % 2 ^ 32)
    × (IsInt32 (pos 3) → n ≡ pos 3)
run_stream_exit_code_example =
    run_stream_exit_code box (λ sent. refl) (request link options [] "")
      (ne_literal "reboot" "" refl) output ending (pos 3) refl refl (opened granted)
