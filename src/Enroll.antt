-- ===== src/Enroll.antt =====
-- internal/enroll/enroll.go: a join token buys a client certificate.
pub mod Roles
pub mod Once
use remote_exec.Base.{Text, true, List, [], ◌∷◌}
use remote_exec.Base.Int.{ℤ}
use remote_exec.Error.{wrap}
use remote_exec.Io.{Action, with_error, pure, lift, on_error, ◌>>=◌}
use remote_exec.Io.World.{World, Env}
use remote_exec.Pki.Primitives.{Crypto}
use remote_exec.Pki.{Ca, cert_pem, sign, fingerprint_pem}

-- The interface that token.FileStore implements.
pub record TokenConsumer : Type 0 where
  pub consume : Text → Action World Text

pub record Enrollment : Type 0 where
  pub client_cert_pem : Text
  pub ca_pem : Text
  pub agent_id : Text
  pub fingerprint : Text

-- The fields of a `Service`; `NewService` fills them.
pub record Service (x : Crypto) : Type 0 where
  pub ca : Ca x
  pub server_cert_pem : Text
  pub agent_id : Text
  pub tokens : TokenConsumer
  pub leaf_validity : ℤ

module _ (env : Env) (x : Crypto) where
  -- `Service.Enroll`
  unfoldable pub enroll : Service x → Text → Text → Action World Enrollment
  enroll s csr_pem token_value = do
    role ← on_error (wrap "enroll: token: ") (s.tokens.consume token_value)
    client_cert ← on_error (wrap "enroll: sign client cert: ") (
        sign env x s.ca (record {
          csr_pem = csr_pem;
          roles = role ∷ [];
          validity = s.leaf_validity;
          client = true;
          dns_names = [];
          ips = [];
        }))
    fingerprint ←
        lift (with_error (wrap "enroll: fingerprint: ") (fingerprint_pem x s.server_cert_pem))
    pure (record {
      client_cert_pem = client_cert;
      ca_pem = cert_pem x s.ca;
      agent_id = s.agent_id;
      fingerprint = fingerprint;
    })
