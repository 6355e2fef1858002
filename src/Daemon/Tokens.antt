-- ===== src/Daemon/Tokens.antt =====
-- Over a history of calls, one after the other, a join token enrols one controller.
use remote_exec.Base.{
  ℕ, ◌+◌, ◌≡◌, refl, sym, ap, ◌∙◌, subst, ◌⊎◌, inl, inr, Text, List, [], ◌∷◌, ◌==◌, arith,
  if◌then◌else◌, text_dec,
}
use remote_exec.Base.Dict.{Dict, lookup}
use remote_exec.Io.{Result, ok, Result-cases}
use remote_exec.Io.World.{World, Env}
use remote_exec.Pki.Primitives.{Crypto}
use remote_exec.Policy.Grants.{Grants}
use remote_exec.Token.{Codec, IsFaithful, consume}
use remote_exec.Token.Single.{consume_absent}
use remote_exec.Token.Gone.{Lacks, consume_Lacks, consume-Lacks}
use remote_exec.Enroll.{TokenConsumer}
use remote_exec.Enroll.Once.{file_store}
use remote_exec.Proto.{EnrollRequest, EnrollResponse}
use remote_exec.AgentServer.{Server, Host, enroll_rpc}
use remote_exec.Authz.{Peer}
use remote_exec.Daemon.Files.{
  IsEnrolling, files-serve, files-enroll_rpc, enroll_call_open, enroll_rpc_refused,
}
use remote_exec.Daemon.{
  Call, enrolling, identifying, informing, running, deploying, Visit, calls, elsewhere, Answer,
  enrolled, Served, serve, history,
}

-- 1 for an enrolment with the token that succeeded.
abbrev pub enrols : Text → Call → Answer → ℕ
enrols value (enrolling req) (enrolled (ok resp)) = if value == req.token then 1 else 0
enrols value call answer = 0

unfoldable pub enrolments : Text → List Served → ℕ
enrolments value [] = 0
enrolments value (e ∷ log) = enrols value e.call e.answer + enrolments value log

-- What a call did about the token: nothing, or the one enrolment that it is good for.
abbrev Counts : Codec → Text → Text → World → World → ℕ → Type 0
Counts json path value w w' n =
    (n ≡ 0) × (Lacks json path value w → Lacks json path value w')
    ⊎ (n ≡ 1) × ¬ Lacks json path value w × Lacks json path value w'

Counts-add :
    (json : Codec) (path value : Text) (u v w : World) (n m : ℕ)
    → Counts json path value u v n
    → Counts json path value v w m
    → Counts json path value u w (n + m)
Counts-add json path value u v w n m (inl (none_yet, keeps)) (inl (none_then, keeps')) =
    inl (omega arith, λ gone. keeps' (keeps gone))
Counts-add json path value u v w n m (inl (none_yet, keeps)) (inr (one, had, lost)) =
    inr (omega arith, λ gone. had (keeps gone), lost)
Counts-add json path value u v w n m (inr (one, had, lost)) (inl (none_then, keeps)) =
    inr (omega arith, had, keeps lost)
Counts-add json path value u v w n m (inr (one, had, lost)) (inr (again, had', lost')) =
    absurd (had' lost)

Counts-after :
    (json : Codec) (path value : Text) (u v w : World) (n : ℕ)
    → (Lacks json path value u → Lacks json path value v)
    → Counts json path value v w n
    → Counts json path value u w n
Counts-after json path value u v w n leaves (inl (none_, keeps)) =
    inl (none_, λ gone. keeps (leaves gone))
Counts-after json path value u v w n leaves (inr (one, had, lost)) =
    inr (one, λ gone. had (leaves gone), lost)

Lacks-of_files :
    (json : Codec) (path value : Text) (w w' : World)
    → w.files ≡ w'.files
    → Lacks json path value w
    → Lacks json path value w'
Lacks-of_files json path value w w' e gone t n stored parsed =
    gone t n (ap (λ (f : Dict Text). lookup path f) e ∙ stored) parsed

enrols_other :
    (value : Text) (call : Call) (answer : Answer)
    → ¬ IsEnrolling call
    → enrols value call answer ≡ 0
enrols_other value (enrolling req) answer n = absurd (n tt)
enrols_other value identifying answer n = refl
enrols_other value informing answer n = refl
enrols_other value (running req) answer n = refl
enrols_other value (deploying req) answer n = refl

module _ (env : Env) (x : Crypto) (s : Server x) (host : Host) (json : Codec)
    (faithful : IsFaithful json) (path : Text)
    (uses_file : s.enroller.tokens ≡ file_store env json path) (value : Text) where
  rpc_counts :
      (req : EnrollRequest) (w : World)
      → let (r, w') = enroll_rpc env x s req w in
        Counts json path value w w' (enrols value (enrolling req) (enrolled r))
  rpc_counts req w =
      let eaten_world = (consume env json path req.token w).1 in
      let eaten : s.enroller.tokens.consume req.token w ≡ consume env json path req.token w =
        ap (λ (c : TokenConsumer). c.consume req.token w) uses_file in
      let files : (consume env json path req.token w).1.files ≡ (enroll_rpc env x s req w).1.files =
        sym (files-enroll_rpc env x s req w ∙ ap (λ (p : Result Text × World). p.1.files) eaten) in
      let kept : Lacks json path value w → Lacks json path value (enroll_rpc env x s req w).1 =
        λ gone.
          Lacks-of_files json path value eaten_world (enroll_rpc env x s req w).1 files
            (consume-Lacks env json faithful path value req.token w gone) in
      elim (Result-cases (enroll_rpc env x s req w).0) [
        | inr (e, failed) ↦ inl (rw failed refl, kept)
        | inl (resp, done) ↦ elim (text_dec value req.token) [
          | no other ↦ inl (ground arith, kept)
          | yes same ↦ elim (Result-cases (consume env json path req.token w).0) [
            | inr (e, refused) ↦
                let (f, bad) =
                  enroll_rpc_refused env x s req w e
                    (ap (λ (p : Result Text × World). p.0) eaten ∙ refused) in
                absurd (cc)
            | inl (role, granted) ↦ inr (
              ground arith,
              λ gone. consume_absent env json path value role w gone (rw same granted),
              Lacks-of_files json path value eaten_world (enroll_rpc env x s req w).1 files (
                  subst (λ t. Lacks json path value (consume env json path t w).1) same
                    (consume_Lacks env json faithful path value role w (rw same granted))),
            )
          ]
        ]
      ]

  serve_enroll :
      (peer : Peer) (req : EnrollRequest) (g : Grants)
      → let (answer, g') = serve env x s host peer (enrolling req) g in
        Counts json path value g.world g'.world (enrols value (enrolling req) answer)
  unfolding serve
  serve_enroll peer req g =
      subst
        (λ (p : Result EnrollResponse × World).
          Counts json path value g.world p.1 (enrols value (enrolling req) (enrolled p.0)))
        (sym (enroll_call_open env x s host peer req g.world)) (rpc_counts req g.world)

  serve_other :
      (peer : Peer) (call : Call) (g : Grants)
      → ¬ IsEnrolling call
      → let (answer, g') = serve env x s host peer call g in
        Counts json path value g.world g'.world (enrols value call answer)
  serve_other peer call g n = inl (
    enrols_other value call (serve env x s host peer call g).0 n,
    Lacks-of_files json path value g.world (serve env x s host peer call g).1.world
        (sym (files-serve env x s host peer call g n)),
  )

  serve_counts :
      (peer : Peer) (call : Call) (g : Grants)
      → let (answer, g') = serve env x s host peer call g in
        Counts json path value g.world g'.world (enrols value call answer)
  serve_counts peer (enrolling req) g = serve_enroll peer req g
  serve_counts peer identifying g = serve_other peer identifying g (λ h. h)
  serve_counts peer informing g = serve_other peer informing g (λ h. h)
  serve_counts peer (running req) g = serve_other peer (running req) g (λ h. h)
  serve_counts peer (deploying req) g = serve_other peer (deploying req) g (λ h. h)

  -- What other processes do may add other tokens, but does not bring this one back.
  abbrev pub Leaves : List Visit → Grants → Type 0
  Leaves [] g = Unit
  Leaves (elsewhere w ∷ visits) g =
      (Lacks json path value g.world → Lacks json path value w)
      × Leaves visits (record g { world = w })
  Leaves (calls peer call ∷ visits) g = Leaves visits (serve env x s host peer call g).1

  enrolments_counts :
      (visits : List Visit) (g : Grants)
      → Leaves visits g
      → let (log, g') = history env x s host visits g in
        Counts json path value g.world g'.world (enrolments value log)
  unfolding history enrolments
  enrolments_counts [] g leaves = inl (refl, λ gone. gone)
  enrolments_counts (elsewhere w ∷ visits) g leaves =
      Counts-after json path value g.world w
        (history env x s host visits (record g { world = w })).1.world
        (enrolments value (history env x s host visits (record g { world = w })).0) leaves.0
        (enrolments_counts visits (record g { world = w }) leaves.1)
  enrolments_counts (calls peer call ∷ visits) g leaves =
      let (answer, g') = serve env x s host peer call g in
      Counts-add json path value g.world g'.world (history env x s host visits g').1.world
        (enrols value call answer) (enrolments value (history env x s host visits g').0)
        (serve_counts peer call g) (enrolments_counts visits g' leaves)

  -- A server whose enroller uses the file store, where an encoded map reads back as the same map, and
  -- calls that are served one after the other, each to its end: however many come, of whatever peers
  -- and with whatever failures, at most one of them is answered with a certificate for the token; that
  -- takes a token which the file listed before, and the file lists it no more after. Other processes
  -- may write the file between two calls, as long as they do not bring this token into it (`Leaves`).
  -- Enroll calls that overlap are not covered.
  pub token_enrols_once :
      (visits : List Visit) (g : Grants)
      → Leaves visits g
      → let (log, g') = history env x s host visits g in
        (enrolments value log ≡ 0)
        ⊎ (enrolments value log ≡ 1)
          × ¬ Lacks json path value g.world
          × Lacks json path value g'.world
  token_enrols_once visits g leaves = elim (enrolments_counts visits g leaves) [
    | inl (never, keeps) ↦ inl never
    | inr once ↦ inr once
  ]
