-- ===== src/Tests/Data.antt =====
-- The values that the examples share.
use remote_exec.Base.{Text, Bool, none, List, [], ◌∷◌}
use remote_exec.Base.Int.{pos}
use remote_exec.Base.Dict.{Dict}
use remote_exec.Io.World.{World, Env}
use remote_exec.Pki.Cert.{Certificate, client_auth, digital_signature}
use remote_exec.Authz.{Peer, tls}
use remote_exec.Policy.{Policy, mode_ask}
use remote_exec.Policy.Grants.{Grant, Grants}
use remote_exec.Execute.{Command, Exit, exited, Process, started}
use remote_exec.Proto.{ExecRequest}
use remote_exec.AgentServer.{Host, Session}

-- No call fails, and each takes a nanosecond.
abbrev pub calm : Env
calm = record { fault = λ n. none; now = λ n. pos n; byte = λ call i. i; hostname = λ n. "box" }

abbrev pub start : World
start = record { files = []; calls = 0 }

abbrev pub cert_of : List Text → Certificate
cert_of roles = record {
  raw = "der";
  common_name = "laptop";
  organization = roles;
  not_before = pos 0;
  not_after = pos 100;
  key_usage = digital_signature ∷ [];
  basic_constraints_valid = Bool.false;
  is_ca = Bool.false;
  max_path_len_zero = Bool.false;
  usages = client_auth ∷ [];
  dns_names = [];
  ips = [];
}

abbrev pub reader : Peer
reader = tls (cert_of ("rex:reader" ∷ []) ∷ [])

abbrev pub admin : Peer
admin = tls (cert_of ("rex:reader" ∷ "rex:admin" ∷ []) ∷ [])

abbrev pub asking : Policy
asking = record { destructive = mode_ask; allow = "ls" ∷ []; deny = "dd" ∷ [] }

-- Three pieces of output, and exit code 3.
abbrev pub output : List (Bool × Text)
output = (Bool.false, "one\n") ∷ (Bool.true, "oops\n") ∷ (Bool.false, "two\n") ∷ []

abbrev pub ending : Bool → Exit
ending closed = exited (pos 3)

abbrev pub launch : Command → Process
launch command = started output ending

abbrev pub in_order : Dict Text → List (Text × Text)
in_order m = m

abbrev pub box : Host
box = record {
  environ = "HOME=/root" ∷ [];
  range = in_order;
  launch = launch;
  goos = "linux";
  goarch = "amd64";
  broken = λ sent. none;
}

abbrev pub grant : Grant
grant = record { command = "reboot"; expiry = pos 50 }

abbrev pub granted : Grants
granted = record { m = ("id1", grant) ∷ []; world = start }

abbrev pub session : Session
session = record { grants = granted; sent = [] }

abbrev pub request_with : Text → Text → ExecRequest
request_with command id = record {
  command = command;
  args = "now" ∷ [];
  working_dir = "";
  env = [];
  approval_id = id;
}
