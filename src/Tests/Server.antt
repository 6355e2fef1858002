-- ===== src/Tests/Server.antt =====
-- Deploy and the execution of commands, on the agent.
use remote_exec.Base.{
  ◌≡◌, refl, ◌↔◌, inl, inr, text_dec, contains, some, [], ◌∷◌, ◌++◌, ne_literal, arith,
}
use remote_exec.Base.Int.{pos, ◌≤ℤ◌, ◌+ℤ◌}
use remote_exec.Base.Dict.{lookup}
use remote_exec.Error.{Sentinel, Code, sentinel}
use remote_exec.Io.{ok, err}
use remote_exec.Io.World.{World}
use remote_exec.Io.Calls.{random}
use remote_exec.Policy.{asked, evaluate}
use remote_exec.Policy.Grants.{rand_id, issue}
use remote_exec.Policy.Grants.OneTime.{Approves}
use remote_exec.Execute.{started}
use remote_exec.Proto.{ExecRequest, ApprovalRequest, needs_approval}
use remote_exec.AgentServer.{Session, send, approval_error, deploy, operation_of, approval_ttl}
use remote_exec.AgentServer.Gate.{Authorized, OnlyAsks, other_launch, deploy_unauthorized}
use remote_exec.AgentServer.Approval.{ask_and_approve, deploy_twice}
use remote_exec.Tests.Data.{calm, asking, box, grant, granted, session, request_with, ending}

lookup-id1 : lookup "id1" granted.m ≡ some grant
unfolding lookup text_dec
lookup-id1 = refl

pub approved : Authorized calm asking session (request_with "reboot" "id1")
approved = inl (ne_literal "id1" "" refl, (grant, lookup-id1, omega arith, refl))

grant_of :
    (c : Session) → lookup "id1" c.grants.m ≡ some grant → ¬ Approves calm "id1" c.grants "rm"
grant_of c stored (rec, found, fresh, same) = ne_literal "reboot" "rm" refl (ground (arith, stored))

mismatched : ¬ Authorized calm asking session (request_with "rm" "id1")
mismatched (inl (carries, approves)) = grant_of session lookup-id1 approves
mismatched (inr (bare, allows)) = ne_literal "id1" "" refl bare

deploy_unauthorized_example :
    let req = request_with "rm" "id1" in
    OnlyAsks calm asking session req (deploy calm box asking req session).1.sent
    × (deploy calm (other_launch calm asking box (λ command. started [] ending)) asking req session
        ≡ deploy calm box asking req session)
deploy_unauthorized_example =
    deploy_unauthorized calm asking box (λ command. started [] ending) session
      (request_with "rm" "id1") mismatched

abbrev bare_request : ExecRequest
bare_request = request_with "reboot" ""

abbrev bare_answer : Session
bare_answer = (deploy calm box asking bare_request session).1

asks : evaluate asking "reboot" ≡ asked
unfolding evaluate contains text_dec
asks = refl

bare_runs : deploy calm box asking bare_request session ≡ (ok tt, bare_answer)
unfolding deploy evaluate contains text_dec issue rand_id random send
bare_runs = refl

ask_and_approve_example :
    (a : ApprovalRequest) × (bare_answer.sent ≡ session.sent ++ needs_approval a ∷ [])
    × (a.operation ≡ operation_of bare_request)
    × ((later : World) (sent : _) (again : ExecRequest)
        → again.approval_id ≡ a.approval_id
        → Authorized calm asking
            (record { grants = record bare_answer.grants { world = later }; sent = sent })
            again
          ↔ (pos later.calls ≤ℤ pos 1 +ℤ approval_ttl) × ("reboot" ≡ again.command))
ask_and_approve_example =
    ask_and_approve calm box asking bare_request session bare_answer refl asks bare_runs

deploy_twice_example :
    (deploy calm box asking
      (request_with "rm" "id1")
      (record (deploy calm box asking (request_with "reboot" "id1") session).1 { sent = [] })).0
    ≡ err (approval_error Code.permission_denied (sentinel Sentinel.no_grant))
deploy_twice_example =
    deploy_twice calm box asking (request_with "reboot" "id1") (request_with "rm" "id1") session []
      (ne_literal "id1" "" refl) refl
