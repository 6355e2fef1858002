-- ===== src/Enroll/Once.antt =====
-- Enrolment over the file store: a token enrols one controller.
use remote_exec.Base.{◌≡◌, ◌≢◌, ap, sym, ◌∙◌, Text}
use remote_exec.Base.Dict.{Dict, lookup}
use remote_exec.Io.{Result, ok}
use remote_exec.Io.World.{World, Env}
use remote_exec.Token.{Codec, IsFaithful, consume}
use remote_exec.Token.Single.{consume_absent}
use remote_exec.Token.Gone.{Lacks, consume_Lacks}
use remote_exec.Pki.Primitives.{Crypto, IsLawful}
use remote_exec.Enroll.{Service, Enrollment, TokenConsumer, enroll}
use remote_exec.Enroll.Roles.{enroll_ok, enroll_leaf}

-- token.FileStore as the `TokenConsumer`.
abbrev pub file_store : Env → Codec → Text → TokenConsumer
file_store env json path = record { consume = consume env json path }

module _ (env : Env) (x : Crypto) (law : IsLawful x) (json : Codec) (faithful : IsFaithful json)
    (path : Text) (s s' : Service x) (uses_file : s.tokens ≡ file_store env json path)
    (uses_file' : s'.tokens ≡ file_store env json path) where
  -- Once an Enroll call has returned a certificate for a token, no Enroll call that starts after it
  -- returns one for the same token, at the same or another service over the same token file, with
  -- whatever CSR, as long as nobody brings the token back into the file; tokens may be issued and
  -- redeemed between the two, and any access may fail on the way. `Lacks` says that no reading of the
  -- file lists the token.
  pub enroll_once :
      (csr_pem csr_pem' value : Text) (w w' later w'' : World) (out out' : Enrollment)
      → enroll env x s csr_pem value w ≡ (ok out, w')
      → (Lacks json path value w' → Lacks json path value later)
      → enroll env x s' csr_pem' value later ≢ (ok out', w'')
  enroll_once csr_pem csr_pem' value w w' later w'' out out' h stays again =
      let (role, cert, v, consumed, parsed, no_ca, orgs, usage, id, files) =
        enroll_leaf env x s law csr_pem value w w' out h in
      let (role', u, u', consumed', signed', printed', id', same') =
        enroll_ok env x s' csr_pem' value later w'' out' again in
      let first : consume env json path value w ≡ (ok role, v) =
        ap (λ (c : TokenConsumer). c.consume value w) (sym uses_file) ∙ consumed in
      let second : consume env json path value later ≡ (ok role', u) =
        ap (λ (c : TokenConsumer). c.consume value later) (sym uses_file') ∙ consumed' in
      let gone =
        consume_Lacks env json faithful path value role w
          (ap (λ (p : Result Text × World). p.0) first) in
      let same_files : (consume env json path value w).1.files ≡ w'.files =
        ap (λ (p : Result Text × World). p.1.files) first ∙ sym files in
      consume_absent env json path value role' later
        (stays (λ t n stored. gone t n (ap (λ (f : Dict Text). lookup path f) same_files ∙ stored)))
        (ap (λ (p : Result Text × World). p.0) second)
