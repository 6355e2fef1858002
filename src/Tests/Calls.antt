-- ===== src/Tests/Calls.antt =====
-- Calls of the agent's service, past the gate and at it.
use remote_exec.Base.{◌≡◌}
use remote_exec.Authz.{agent_table}
use remote_exec.AgentServer.{Server, run_stream}
use remote_exec.AgentServer.Gate.{spent}
use remote_exec.Transport.{deploy_call}
use remote_exec.Transport.Served.{deploy_call_runs}
use remote_exec.Tests.Data.{calm, admin, asking, box, session, request_with}
use remote_exec.Tests.Gate.{admin_names}
use remote_exec.Tests.Server.{approved}
use remote_exec.Tests.Forge.{crypto}
use remote_exec.Tests.Certificates.{service}

abbrev pub server : Server crypto
server = record {
  enroller = service;
  agent_id = "a1";
  fingerprint = "ff";
  hostname = "box";
  version = "1";
  policy = asking;
}

deploy_call_runs_example :
    let req = request_with "reboot" "id1" in
    deploy_call agent_table calm crypto server box admin req session
    ≡ run_stream box req (spent calm asking session req)
deploy_call_runs_example =
    deploy_call_runs calm crypto server box admin (request_with "reboot" "id1") session admin_names
      approved
