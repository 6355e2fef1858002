-- ===== src/ClientConfig.antt =====
-- internal/clientconfig/clientconfig.go: the controller's credential, in ~/.rexec/config.yaml.
pub mod Kept
use remote_exec.Base.{
  Text, Bool, true, false, ◌||◌, Option, none, some, List, [], ◌∷◌, ◌==◌, if◌then◌else◌,
}
use remote_exec.Error.{Sentinel, Error, sentinel, plain, wrap}
use remote_exec.Io.{
  Result, ok, err, Action, Done, with_error, bind, pure, lift, on_error, ◌>>=◌, ◌>>◌,
}
use remote_exec.Io.World.{World, Env}
use remote_exec.Io.Calls.{Read, read_file, write_file, mkdir_all}

pub record Config : Type 0 where
  pub ca : Text
  pub client_cert : Text
  pub client_key : Text
  pub endpoints : List Text
  pub agent_id : Text
  pub fingerprint : Text

-- gopkg.in/yaml.v3 at `Config`.
pub record Yaml : Type 0 where
  pub marshal : Config → Result Text
  pub unmarshal : Text → Result Config

-- crypto/tls and crypto/x509, as far as TLS settings need them: `X509KeyPair`, whose certificate is
-- the pair of texts, and the roots of a pool that PEM text is appended to (`none`: no certificate).
pub record Tls : Type 0 where
  pub key_pair : Text → Text → Option Error
  pub roots_of : Text → Option (List Text)

pub data ClientAuth : Type 0 where
  no_client_cert verify_if_given : ClientAuth

-- `tls.Config`; a pool that is not set is `none`. The version is 0x0304 for TLS 1.3.
pub record TlsConfig : Type 0 where
  pub certificates : List (Text × Text)
  pub root_cas : Option (List Text)
  pub client_cas : Option (List Text)
  pub client_auth : ClientAuth
  pub server_name : Text
  pub insecure_skip_verify : Bool
  pub tls13_only : Bool

module _ (env : Env) (yaml : Yaml) where
  abbrev of_read : Option Error → Text → Result Config
  of_read (some e) contents = err (wrap "clientconfig: read: " e)
  of_read none contents = with_error (wrap "clientconfig: decode: ") (yaml.unmarshal contents)

  -- `Load`
  unfoldable pub load : Text → Action World Config
  unfolding read_file
  load path w = let (r, w') = read_file env path w in (of_read r.failure r.contents, w')

  -- `Save`
  unfoldable pub save : Config → Text → Action World Done
  unfolding mkdir_all write_file
  save c path = do
    contents ← lift (with_error (wrap "clientconfig: encode: ") (yaml.marshal c))
    on_error (wrap "clientconfig: mkdir: ") (mkdir_all env)
    on_error (wrap "clientconfig: write: ") (write_file env path contents)

module _ (tls : Tls) where
  abbrev paired : Option Error → Result Done
  paired none = ok tt
  paired (some e) = err (wrap "clientconfig: key pair: " e)

  abbrev trusted : Option (List Text) → Result (List Text)
  trusted none = err (plain "clientconfig: invalid CA PEM")
  trusted (some roots) = ok roots

  -- `ClientTLS`
  unfoldable pub client_tls : Config → Result TlsConfig
  client_tls c =
      if c.ca == "" || c.client_cert == "" || c.client_key == ""
      then err (sentinel Sentinel.incomplete)
      else bind (paired (tls.key_pair c.client_cert c.client_key)) λ done.
        bind (trusted (tls.roots_of c.ca)) λ roots. ok (record {
          certificates = (c.client_cert, c.client_key) ∷ [];
          root_cas = some roots;
          client_cas = none;
          client_auth = no_client_cert;
          server_name = "";
          insecure_skip_verify = false;
          tls13_only = true;
        })
