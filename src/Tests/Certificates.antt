-- ===== src/Tests/Certificates.antt =====
-- Certificates and enrolment.
use remote_exec.Base.{◌≡◌, ◌≢◌, refl, ◌⊎◌, Text, text_dec, true, [], ◌∷◌}
use remote_exec.Base.Int.{pos}
use remote_exec.Base.Dict.{lookup, insert, delete}
use remote_exec.Error.{status, Code, is_not_exist}
use remote_exec.Io.{Result, ok, err}
use remote_exec.Io.World.{World}
use remote_exec.Io.Calls.{read_file, write_file, rename, mkdir_all, attempt, now}
use remote_exec.Pki.Cert.{Certificate}
use remote_exec.Pki.Primitives.{Request}
use remote_exec.Pki.{
  Ca, SignRequest, sign, parse_cert, fingerprint, fingerprint_pem, cert_pem, serial_number,
}
use remote_exec.Pki.Leaves.{IsLeafFor, Verified, sign-IsLeafFor}
use remote_exec.Authz.{tls, role_admin, agent_table}
use remote_exec.Proto.{ExecRequest}
use remote_exec.AgentServer.{Server, Session, deploy}
use remote_exec.Transport.{deploy_call}
use remote_exec.Transport.Served.{enroll-deploy_call}
use remote_exec.Token.{interpret, read, store, write, persist, mutate, take_token, consume}
use remote_exec.Enroll.{Service, Enrollment, enroll}
use remote_exec.Enroll.Once.{file_store, enroll_once}
use remote_exec.Tests.Coding.{join_all, code_text, split}
use remote_exec.Tests.Formats.{
  json, json-IsFaithful, fields, entries, unary, size, sign_and_size, signed,
}
use remote_exec.Tests.Data.{calm, start, cert_of, asking, box}
use remote_exec.Tests.Tokens.{path, stocked}
use remote_exec.Tests.Forge.{
  crypto, crypto-IsLawful, der_of, cert_from, block_of, usage_text, key_usage_text, bool_text,
}

abbrev pub ca : Ca crypto
ca = record { cert = cert_of []; key = tt }

abbrev pub csr : Text
csr = crypto.pem_encode (record { kind = "CERTIFICATE REQUEST"; bytes = "laptop" })

abbrev sign_request : SignRequest
sign_request = record {
  csr_pem = csr;
  roles = "a" ∷ [];
  validity = pos 5;
  client = true;
  dns_names = [];
  ips = [];
}

abbrev value_of : Result Text → Text
value_of (ok t) = t
value_of (err e) = ""

abbrev signed_cert : Text
signed_cert = value_of (sign calm crypto ca sign_request start).0

sign_runs :
    sign calm crypto ca sign_request start
    ≡ (ok signed_cert, (sign calm crypto ca sign_request start).1)
unfolding sign now serial_number block_of split join_all code_text
sign_runs = refl

sign-IsLeafFor_example :
    (cert : Certificate) × (r : Request) × (parse_cert crypto signed_cert ≡ ok cert)
    × IsLeafFor sign_request cert
    × Verified calm crypto csr r
    × (cert.common_name ≡ r.common_name)
sign-IsLeafFor_example =
    sign-IsLeafFor calm crypto crypto-IsLawful ca sign_request start
      (sign calm crypto ca sign_request start).1 signed_cert sign_runs

abbrev pub server_cert : Text
server_cert = crypto.pem_encode (record { kind = "CERTIFICATE"; bytes = der_of (cert_of []) })

abbrev pub service : Service crypto
service = record {
  ca = ca;
  server_cert_pem = server_cert;
  agent_id = "a1";
  tokens = file_store calm json path;
  leaf_validity = pos 5;
}

abbrev no_enrollment : Enrollment
no_enrollment = record { client_cert_pem = ""; ca_pem = ""; agent_id = ""; fingerprint = "" }

abbrev pub enrollment_of : Result Enrollment → Enrollment
enrollment_of (ok e) = e
enrollment_of (err e) = no_enrollment

abbrev enrolled : Enrollment
enrolled = enrollment_of (enroll calm crypto service csr "t" stocked).0

abbrev after_enroll : World
after_enroll = (enroll calm crypto service csr "t" stocked).1

enroll_runs : enroll calm crypto service csr "t" stocked ≡ (ok enrolled, after_enroll)
unfolding enroll sign now serial_number block_of split join_all code_text der_of cert_from
    fingerprint_pem parse_cert fingerprint cert_pem consume mutate mkdir_all attempt read read_file
    interpret lookup text_dec fields sign_and_size unary entries size signed take_token delete
    persist write store write_file rename insert is_not_exist usage_text bool_text key_usage_text
enroll_runs = refl

abbrev server : Server crypto
server = record {
  enroller = service;
  agent_id = "a1";
  fingerprint = "ff";
  hostname = "box";
  version = "1";
  policy = asking;
}

enroll-deploy_call_example :
    (role : Text) × (cert : Certificate) × (v : World) × (consume calm json path "t" stocked
      ≡ (ok role, v))
    × (parse_cert crypto enrolled.client_cert_pem ≡ ok cert)
    × ((req : ExecRequest) (c : Session)
        → let answer = deploy_call agent_table calm crypto server box (tls (cert ∷ [])) req c in
          (role ≡ role_admin → answer ≡ deploy calm box asking req c)
          × (role ≢ role_admin
              → (code : Code) × (text : Text) × (answer ≡ (err (status code text), c))
                × ((code ≡ Code.permission_denied) ⊎ (code ≡ Code.unauthenticated))))
enroll-deploy_call_example =
    enroll-deploy_call calm crypto server box crypto-IsLawful csr "t" stocked after_enroll enrolled
      enroll_runs

enroll_once_example : enroll calm crypto service csr "t" after_enroll ≢ (ok enrolled, after_enroll)
enroll_once_example =
    enroll_once calm crypto crypto-IsLawful json json-IsFaithful path service service refl refl csr
      csr "t" stocked after_enroll after_enroll after_enroll enrolled enrolled enroll_runs
      (λ gone. gone)
