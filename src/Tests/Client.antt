-- ===== src/Tests/Client.antt =====
-- The controller, its credential, the agent's id and its calls.
use remote_exec.Base.{
  ℕ, suc, ◌≡◌, refl, Text, text_dec, Bool, true, none, List, [], ◌∷◌, ne_literal,
}
use remote_exec.Base.Int.{pos}
use remote_exec.Base.Dict.{lookup}
use remote_exec.Base.Trim.{IsSolid, is_space}
use remote_exec.Io.{ok}
use remote_exec.Io.World.{World, step}
use remote_exec.Identity.{generate, agent_id}
use remote_exec.Identity.Stable.{agent_id_stable}
use remote_exec.ClientConfig.{Config}
use remote_exec.Proto.{ExecRequest, ApprovalRequest, stdout, exit_code, needs_approval}
use remote_exec.Controller.{
  Terminal, Stream, Remote, Client, Options, parse_env, consume_loop, consume_stream, send,
  exec_deploy,
}
use remote_exec.Controller.EnvFlags.{IsKey, assign, flags, parse_env-flags}
use remote_exec.Tests.Data.{calm, start}

abbrev one_id : ℕ → Text
one_id n = "a1-b2"

abbrev made : World
made = (agent_id calm one_id "agent.id" start).1

agent_id_runs : agent_id calm one_id "agent.id" start ≡ (ok "a1-b2", made)
unfolding agent_id lookup generate
agent_id_runs = refl

solid : IsSolid "a1-b2"
unfolding is_space
solid = (refl, (refl, (refl, (refl, (refl, tt)))))

agent_id_stable_example : agent_id calm one_id "agent.id" made ≡ (ok "a1-b2", step made)
agent_id_stable_example =
    agent_id_stable calm one_id "agent.id" "a1-b2" start made made
      (λ n. (solid, ne_literal "a1-b2" "" refl)) agent_id_runs refl refl

abbrev config : Config
config = record {
  ca = "ca";
  client_cert = "cert";
  client_key = "key";
  endpoints = "box:50000" ∷ [];
  agent_id = "a1-b2";
  fingerprint = "ff";
}

abbrev terminal : Terminal
terminal = record { out = ""; errors = "" }

abbrev vars : List (Text × Text)
vars = ("PATH", "/bin=/usr/bin") ∷ ("PATH", "/bin") ∷ []

path-IsKey : IsKey "PATH"
path-IsKey = (refl, (refl, (refl, (refl, tt))))

parse_env-flags_example : parse_env (flags vars) ≡ ok (assign vars [])
parse_env-flags_example =
    parse_env-flags vars
      (path-IsKey, ne_literal "PATH" "" refl, (path-IsKey, ne_literal "PATH" "" refl, tt))

abbrev asked_for : ApprovalRequest
asked_for = record { operation = "reboot now"; reason = "policy"; approval_id = "id1" }

-- An agent that asks for an approval, and runs the command once it comes.
abbrev answer : ExecRequest → Stream
answer req = record {
  incoming = elim (text_dec req.approval_id "id1") [
    | yes e ↦ stdout "done" ∷ exit_code (pos 0) ∷ []
    | no n ↦ needs_approval asked_for ∷ []
  ];
  ends = none;
}

abbrev agent : Remote ℕ
agent = record {
  dial = λ n. (ok tt, suc n);
  run = λ req n. (ok (answer req), suc n);
  deploy = λ req n. (ok (answer req), suc n);
}

abbrev options : Bool → Options
options yes_ = record {
  work_dir = "";
  env_kv = [];
  approval_id = "";
  auto_yes = yes_;
  command = "reboot";
  args = "now" ∷ [];
}

abbrev client : Client ℕ
client = record { remote = 0; terminal = terminal }

exec_deploy_runs : (exec_deploy agent (options true) client).0 ≡ ok tt
unfolding exec_deploy parse_env send consume_stream consume_loop text_dec
exec_deploy_runs = refl

no_flags : parse_env [] ≡ ok []
unfolding parse_env
no_flags = refl
