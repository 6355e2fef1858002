-- ===== src/Proto.antt =====
-- proto/rexec/v1/agent.proto and its generated internal/proto/rexec/v1/agent.pb.go: the messages.
-- A getter on a message that is there is its field.
use remote_exec.Base.{Text, List}
use remote_exec.Base.Int.{ℤ}
use remote_exec.Base.Dict.{Dict}

pub record EnrollRequest : Type 0 where
  pub token : Text
  pub csr_pem : Text

pub record EnrollResponse : Type 0 where
  pub client_cert_pem : Text
  pub ca_pem : Text
  pub agent_id : Text
  pub fingerprint : Text

pub record IdentityResponse : Type 0 where
  pub agent_id : Text
  pub fingerprint : Text

pub record InfoResponse : Type 0 where
  pub os : Text
  pub arch : Text
  pub hostname : Text
  pub version : Text

pub record ExecRequest : Type 0 where
  pub command : Text
  pub args : List Text
  pub working_dir : Text
  pub env : Dict Text
  pub approval_id : Text

pub record ApprovalRequest : Type 0 where
  pub operation : Text
  pub reason : Text
  pub approval_id : Text

-- The oneof `msg`; a chunk with none set is `empty`.
pub data ExecChunk : Type 0 where
  empty : ExecChunk
  stdout stderr : Text → ExecChunk
  exit_code : ℤ → ExecChunk
  needs_approval : ApprovalRequest → ExecChunk
