-- ===== src/Lib.antt =====
-- rexec lets a controller run commands on an agent over gRPC with mutual TLS. The agent owns a
-- certificate authority. A join token, issued on the agent, buys a controller a client certificate
-- whose organization is a role (enrolment). Every call then passes an interceptor that compares the
-- certificate's role with a table. Run executes a command and streams its output; Deploy, for
-- destructive commands, asks a policy first, which allows, denies or wants a one-time approval.
--
-- Which module models which file, from the repository's root:
--   Token         internal/token/token.go: the file store; Token.consume is FileStore.Consume.
--                 Token.Abstract is the set of tokens that it promises; Token.Sharing has several
--                 callers of Consume and Issue at once, a system call at a time
--   Policy        internal/policy/policy.go: load, evaluate
--   Policy.Grants internal/policy/grants.go: issue, consume
--   Authz         internal/authz/authz.go: role_from_cert, is_allowed, the interceptors, agent_table
--   Pki           internal/pki/pki.go: new_ca, load_ca, sign, new_csr, parse_cert, fingerprint
--   Enroll        internal/enroll/enroll.go: enroll is Service.Enroll
--   Identity      internal/identity/identity.go: agent_id, generate
--   Execute       internal/execute/execute.go: run, merge_env, write is chunkWriter.Write
--   Proto         internal/proto/rexec/v1/agent.pb.go: the messages
--   AgentServer   internal/agentserver/agentserver.go: the handlers of the service
--   ClientConfig  internal/clientconfig/clientconfig.go: load, save, client_tls
--   Controller    cmd/rexec/controllercmds.go: parse_env, consume_stream, exec_run, exec_deploy; in
--                 Controller.Agent dial_agent and the commands of the group agent
--   Agentd        cmd/rexec-agentd/agentcmds.go: ca_init, mint_server_cert, token_new; in Agentd.Serve
--                 what serveAgent assembles
--   Agentd.Service  cmd/rexec-agentd/servicecmds.go: start and stop of the service, beside the runs of
--                 serveAgent; Agentd.Manage has the service's settings and subcommands
--   Agentd.Platform  cmd/rexec-agentd/main.go (core), and cmd/rexec-agentd/internal/platform/platform.go
--                 and cmd/rexec-agentd/internal/db/db.go
--   Transport     internal/transport/transport.go: TLS settings, each method behind its interceptor
--   Daemon        the assembled service over time: serve is one call of a peer through Transport,
--                 history any list of calls, each served to its end before the next, with
--                 what other processes do in between
--   Cli           the commands of both programs as they are declared: Cli.Client for
--                 cmd/rexec/controllercmds.go and cmd/rexec/main.go, Cli.Daemon for
--                 cmd/rexec-agentd/agentcmds.go, servicecmds.go and main.go. Cli.find is the command that
--                 a path of names leads to
-- Base, Error and Io hold what they share: texts, maps, integers, Go's errors and system calls. The
-- modules below a component are named for what they prove. Tests holds concrete runs.
--
-- How the code is modelled. A Go function that returns an error is an Action: from a state to a
-- Result and a state, so that what was done before a failure stays done. The state of the packages
-- that use files is a World: whole files by path, and the number of system calls made so far. An
-- Env says for each call whether it fails, and what it leaves if it does: a failed read may have
-- returned some data, a failed write may leave any text, a rename is one step or none. It also gives
-- the clock and the random bytes by call, and the clock may go back. Theorems quantify over all of
-- these. Directories and permissions are not kept: that a call fails for want of one is a failing
-- call. Times and durations are integers of nanoseconds without Go's 64-bit limits; the one narrowing
-- conversion, int32 of an exit code, is written out. A string or byte slice is a text with one
-- character for a byte; a character of a literal that is not ASCII counts as one. %q and TrimSpace
-- are modelled for ASCII.
--
-- What is not in the repository is a parameter: encoding/json and yaml.v3 as encoders and decoders,
-- crypto/x509, ed25519 and PEM as a record of operations (Pki.Primitives), uuid, os/exec with the
-- process it runs (Execute.Process), grpc.NewClient, database/sql, kardianos/service and pflag, and
-- the lock of gofrs/flock: as a call that succeeds or fails, and in Token.Sharing as an interface of
-- states in which Lock and Unlock return. Laws on them are hypotheses: what was encoded decodes to
-- the same map and is not empty, a created certificate parses to the names and usages of its
-- template, a CSR carries the public part of its key, X509KeyPair accepts a certificate with the key
-- that it was created for, PEM decodes what it encoded, an id of uuid is a text without white space.
-- Tests instantiates each.
--
-- Recursion is structural throughout. The one use of fuel is in fmt's %d, with which an exit code is
-- printed: twenty digits, enough for an int of 64 bits (Controller.Decimal).
--
-- Several parties. The calls of a controller and of an agent each run in a world of their own, and a
-- connection between them, where a theorem needs one that works, is a named hypothesis (Relays,
-- RelaysRun, RelaysDeploy, Serves). A history in Daemon has its calls one after the other, while
-- gRPC runs handlers side by side. What that changes is modelled for the token file alone: its callers
-- interleave in Token.Sharing, any number of them and at every system call. The service manager calls
-- Start first or when Stop has returned; a run of serveAgent takes its steps beside it, and its server
-- begins and ends calls of peers. GracefulStop returns when the last of these has ended.
--
-- Not modelled: the generated gRPC code and the wire format; how cobra parses a command line,
-- and the bootstrap library that starts both programs; the line that token new prints on stderr;
-- closing a connection; TLS itself, so a peer's certificates are those that a handshake verified; the
-- time limits on calls, so that no call is given up; logging. The approvals' mutex makes their calls
-- a sequence. An Issue in Token.Sharing has drawn its token before it starts; theorems on the token
-- file outside Token.Sharing say what others may not write.
pub mod Base
pub mod Tests
pub mod Error
pub mod Io
pub mod Pki
pub mod Token
pub mod Identity
pub mod Enroll
pub mod Execute
pub mod Proto
pub mod AgentServer
pub mod ClientConfig
pub mod Daemon
pub mod Cli
pub mod Controller
pub mod Transport
pub mod Agentd
pub mod Authz
pub mod Policy
