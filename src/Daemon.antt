-- ===== src/Daemon.antt =====
-- The agent as it serves: internal/transport/transport.go, NewServer, over the table of
-- internal/authz/authz.go, one call after the other.
pub mod Counting
pub mod Approvals
pub mod Strangers
mod Files
pub mod Tokens
use remote_exec.Base.{Text, List, [], ◌∷◌}
use remote_exec.Io.{Result, Action, Done}
use remote_exec.Io.World.{World, Env}
use remote_exec.Pki.Primitives.{Crypto}
use remote_exec.Policy.Grants.{Grants}
use remote_exec.Authz.{Peer, agent_table}
use remote_exec.Proto.{
  EnrollRequest, EnrollResponse, IdentityResponse, InfoResponse, ExecRequest, ExecChunk,
}
use remote_exec.AgentServer.{Server, Host, Session}
use remote_exec.Transport.{enroll_call, identity_call, info_call, run_call, deploy_call}

-- The methods of the service, with their requests.
pub data Call : Type 0 where
  enrolling : EnrollRequest → Call
  identifying informing : Call
  running deploying : ExecRequest → Call

-- What the client of a call gets: a response or an error, of a stream also the chunks before it.
pub data Answer : Type 0 where
  enrolled : Result EnrollResponse → Answer
  identified : Result IdentityResponse → Answer
  informed : Result InfoResponse → Answer
  streamed : Result Done → List ExecChunk → Answer

-- What happens to the daemon: a call of a peer, or what other processes do to the world.
pub data Visit : Type 0 where
  calls : Peer → Call → Visit
  elsewhere : World → Visit

pub record Served : Type 0 where
  pub peer : Peer
  pub call : Call
  pub answer : Answer

-- A call that looks at the world only.
abbrev pub on_daemon :
    {A : Type 0} → (Result A → Answer) → Action World A → Grants → Answer × Grants
on_daemon answer call g = let (r, w) = call g.world in (answer r, record g { world = w })

-- A stream begins with nothing sent.
abbrev pub on_stream : Action Session Done → Grants → Answer × Grants
on_stream call g =
    let (r, c) = call (record { grants = g; sent = [] }) in (streamed r c.sent, c.grants)

-- The approvals and the world are the daemon's state; the rest it loads before it serves. A call runs
-- to its end before the next one begins.
module _ (env : Env) (x : Crypto) (s : Server x) (host : Host) where
  unfoldable pub serve : Peer → Call → Grants → Answer × Grants
  serve peer (enrolling req) g =
      on_daemon enrolled (enroll_call agent_table env x s host peer req) g
  serve peer identifying g = on_daemon identified (identity_call agent_table env x s host peer) g
  serve peer informing g = on_daemon informed (info_call agent_table env x s host peer) g
  serve peer (running req) g = on_stream (run_call agent_table env x s host peer req) g
  serve peer (deploying req) g = on_stream (deploy_call agent_table env x s host peer req) g

  unfoldable pub history : List Visit → Grants → List Served × Grants
  unfolding serve
  history [] g = ([], g)
  history (elsewhere w ∷ visits) g = history visits (record g { world = w })
  history (calls peer call ∷ visits) g =
      let (answer, g') = serve peer call g in
      let (log, g'') = history visits g' in
      (record { peer = peer; call = call; answer = answer } ∷ log, g'')
