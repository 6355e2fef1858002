-- ===== src/AgentServer.antt =====
-- internal/agentserver/agentserver.go: the handlers of the Agent service.
pub mod Gate
pub mod Approval
pub mod ExitCode
use remote_exec.Base.{
  ℕ, suc, ◌+◌, ◌-◌, ◌*◌, ◌%◌, ◌^◌, Text, ◌<>◌, Bool, true, false, Option, none, some, List, [], ◌∷◌,
  ◌++◌, ◌==◌, ltb, if◌then◌else◌,
}
use remote_exec.Base.Int.{ℤ, pos, negsuc}
use remote_exec.Base.Dict.{Dict}
use remote_exec.Base.Quote.{quote}
use remote_exec.Base.Trim.{trim_space}
use remote_exec.Error.{Code, Error, status, message}
use remote_exec.Io.{Result, ok, err, Action, Done, with_error, pure, raise, on_error, ◌>>=◌, ◌>>◌}
use remote_exec.Io.World.{World, Env}
use remote_exec.Pki.Primitives.{Crypto}
use remote_exec.Enroll.{Service, Enrollment, enroll}
use remote_exec.Policy.{Policy, Decision, denied, allowed, asked, evaluate}
use remote_exec.Policy.Grants.{Grants, issue, consume}
use remote_exec.Execute.{Spec, Chunk, Command, Process, run}
use remote_exec.Proto.{
  EnrollRequest, EnrollResponse, IdentityResponse, InfoResponse, ExecRequest, ApprovalRequest,
  ExecChunk, stdout, stderr, exit_code, needs_approval,
}

-- Five minutes.
abbrev pub approval_ttl : ℤ
approval_ttl = pos (300 * 1000000000)

-- `Server`, without the grants, which are state.
pub record Server (x : Crypto) : Type 0 where
  pub enroller : Service x
  pub agent_id : Text
  pub fingerprint : Text
  pub hostname : Text
  pub version : Text
  pub policy : Policy

-- What the machine and the connection add: `os.Environ()`, the order of a map, the processes,
-- `runtime.GOOS` and `GOARCH`, and whether a `Send` fails after what was sent before.
pub record Host : Type 0 where
  pub environ : List Text
  pub range : Dict Text → List (Text × Text)
  pub launch : Command → Process
  pub goos : Text
  pub goarch : Text
  pub broken : List ExecChunk → Option Error

-- The state of a streaming call: the daemon's grants, and the chunks that were sent.
pub record Session : Type 0 where
  pub grants : Grants
  pub sent : List ExecChunk

-- `int32(code)`: the low 32 bits, read as a signed number.
unfoldable pub int32 : ℤ → ℤ
int32 (pos n) =
    let low = n % 2 ^ 32 in if ltb low (2 ^ 31) then pos low else negsuc (2 ^ 32 - low - 1)
int32 (negsuc n) =
    let low = n % 2 ^ 32 in if ltb low (2 ^ 31) then negsuc low else pos (2 ^ 32 - low - 1)

-- `strings.Join(args, " ")`
unfoldable pub join_spaces : List Text → Text
join_spaces [] = ""
join_spaces (a ∷ []) = a
join_spaces (a ∷ b ∷ rest) = a <> " " <> join_spaces (b ∷ rest)

module _ (env : Env) (x : Crypto) (s : Server x) where
  -- `Enroll`
  unfoldable pub enroll_rpc : EnrollRequest → Action World EnrollResponse
  enroll_rpc req = do
    res ←
        on_error (λ e. status Code.permission_denied (message e))
          (enroll env x s.enroller req.csr_pem req.token)
    pure (record {
      client_cert_pem = res.client_cert_pem;
      ca_pem = res.ca_pem;
      agent_id = res.agent_id;
      fingerprint = res.fingerprint;
    })

  -- `Identity`
  unfoldable pub identity_rpc : IdentityResponse
  identity_rpc = record { agent_id = s.agent_id; fingerprint = s.fingerprint }

  -- `Info`
  unfoldable pub info_rpc : Host → InfoResponse
  info_rpc host = record {
    os = host.goos;
    arch = host.goarch;
    hostname = s.hostname;
    version = s.version;
  }

abbrev as_text : Option Text → Text
as_text none = ""
as_text (some t) = t

-- The `emit` of `runStream`: stderr if it is set, else stdout.
abbrev pub chunk_message : Chunk → ExecChunk
chunk_message c = elim c.stderr [ some e ↦ stderr e | none ↦ stdout (as_text c.stdout) ]

module _ (host : Host) where
  abbrev send_answer : Option Error → ExecChunk → Session → Result Done × Session
  send_answer none chunk c = (ok tt, record c { sent = c.sent ++ chunk ∷ [] })
  send_answer (some e) chunk c = (err e, c)

  -- `stream.Send`
  unfoldable pub send : ExecChunk → Action Session Done
  send chunk c = send_answer (host.broken c.sent) chunk c

  unfoldable pub emit : Chunk → Action Session Done
  emit c = send (chunk_message c)

  abbrev pub spec_of : ExecRequest → Spec
  spec_of req = record {
    command = req.command;
    args = req.args;
    working_dir = req.working_dir;
    env = req.env;
  }

  -- `runStream`, and `Run`
  unfoldable pub run_stream : ExecRequest → Action Session Done
  unfolding emit
  run_stream req = do
    code ←
        on_error (λ e. status Code.internal ("exec: " <> message e))
          (run host.environ host.range host.launch emit (spec_of req))
    send (exit_code (int32 code))

abbrev pub on_grants : {A : Type 0} → Action Grants A → Action Session A
on_grants call c = let (r, g) = call c.grants in (r, record c { grants = g })

abbrev pub approval_error : Code → Error → Error
approval_error code e = status code ("approval: " <> message e)

abbrev pub operation_of : ExecRequest → Text
operation_of req = trim_space (req.command <> " " <> join_spaces req.args)

module _ (env : Env) (host : Host) (policy : Policy) where
  abbrev ask_approval : ExecRequest → Action Session Done
  ask_approval req = do
    id ← on_error (approval_error Code.internal) (on_grants (issue env req.command approval_ttl))
    send host (
        needs_approval (record {
          operation = operation_of req;
          reason = "agent policy requires approval for destructive operations";
          approval_id = id;
        }))

  abbrev pub decide : Decision → ExecRequest → Action Session Done
  decide allowed req = run_stream host req
  decide asked req = ask_approval req
  decide denied req = raise (
      status Code.permission_denied
        ("agent policy denies destructive command " <> quote req.command))

  abbrev redeem : ExecRequest → Action Session Done
  redeem req = do
    on_error (approval_error Code.permission_denied)
        (on_grants (consume env req.approval_id req.command))
    run_stream host req

  -- `Deploy`
  unfoldable pub deploy : ExecRequest → Action Session Done
  deploy req =
      if req.approval_id == "" then decide (evaluate policy req.command) req else redeem req
