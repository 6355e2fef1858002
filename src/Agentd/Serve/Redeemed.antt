-- ===== src/Agentd/Serve/Redeemed.antt =====
-- The token file of a daemon that was assembled from its data directory.
use remote_exec.Base.{◌≡◌, Text, ℕ, arith}
use remote_exec.Io.{Result, ok}
use remote_exec.Io.World.{World, Env}
use remote_exec.Pki.Primitives.{Crypto}
use remote_exec.Token.{Codec}
use remote_exec.Policy.{Policy}
use remote_exec.ClientConfig.{Tls}
use remote_exec.Enroll.Once.{file_store}
use remote_exec.Agentd.{tokens_path}
use remote_exec.Agentd.Serve.{Agent, load_agent}

module _ (env : Env) (x : Crypto) (tls : Tls) (json : Codec) (yaml : Text → Result Policy)
    (uuid : ℕ → Text) (dir version : Text) where
  pub tokens_of_agent :
      (w w' : World) (agent : Agent x)
      → load_agent env x tls json yaml uuid dir version w ≡ (ok agent, w')
      → agent.server.enroller.tokens ≡ file_store env json (tokens_path dir)
  unfolding load_agent
  tokens_of_agent w w' agent h = ground arith
