-- ===== src/AgentServer/Gate.antt =====
-- The gate of Deploy: what runs, what is asked, and how often an approval counts.
use mathlib.Core.Logic.{if_pos}
use remote_exec.Base.{
  ◌≡◌, ◌≢◌, refl, ◌⊎◌, inl, inr, Text, List, [], ◌∷◌, ◌++◌, ◌==◌, arith, text_dec, Option-cases,
  if◌then◌else◌,
}
use remote_exec.Error.{Code, Error}
use remote_exec.Io.{ok, err, Result-cases}
use remote_exec.Io.World.{Env}
use remote_exec.Policy.{Policy, Decision, denied, allowed, asked, evaluate}
use remote_exec.Policy.Grants.{issue, consume}
use remote_exec.Policy.Grants.OneTime.{Approves, consume_iff}
use remote_exec.Execute.{Command, Process}
use remote_exec.Proto.{ExecRequest, ExecChunk, needs_approval}
use remote_exec.AgentServer.{
  Host, Session, send, run_stream, approval_error, operation_of, approval_ttl, decide, redeem,
  deploy,
}

module _ (env : Env) (policy : Policy) where
  -- A request that carries an approval which is stored, fresh and for its command, or that carries
  -- none and whose command the policy allows outright.
  abbrev pub Authorized : Session → ExecRequest → Type 0
  Authorized c req =
      (req.approval_id ≢ "") × Approves env req.approval_id c.grants req.command
      ⊎ (req.approval_id ≡ "") × (evaluate policy req.command ≡ allowed)

  -- The grants when the command starts: an approval is used up first.
  abbrev pub spent : Session → ExecRequest → Session
  spent c req =
      if req.approval_id == ""
      then c
      else record c { grants = (consume env req.approval_id req.command c.grants).1 }

  -- An authorized Deploy runs its command, with its approval used up.
  pub deploy-Authorized :
      (host : Host) (c : Session) (req : ExecRequest)
      → Authorized c req
      → deploy env host policy req c ≡ run_stream host req (spent c req)
  unfolding deploy
  deploy-Authorized host c req (inl (carries, approved)) =
      ground (arith, (consume_iff env req.approval_id c.grants req.command).1 approved)
  deploy-Authorized host c req (inr (bare, allows)) = ground arith

  -- What a Deploy that is not authorized may send: nothing, or one request for approval.
  abbrev pub OnlyAsks : Session → ExecRequest → List ExecChunk → Type 0
  OnlyAsks c req sent =
      (sent ≡ c.sent)
      ⊎ ((id : Text) × (evaluate policy req.command ≡ asked)
          × (sent
              ≡ c.sent
                ++ needs_approval (record {
                  operation = operation_of req;
                  reason = "agent policy requires approval for destructive operations";
                  approval_id = id;
                })
                  ∷ []))

  redeem_unauthorized :
      (c : Session) (req : ExecRequest)
      → ((consume env req.approval_id req.command c.grants).0 ≡ ok tt → ⊥)
      → (e : Error) × ((host : Host)
          → redeem env host policy req c ≡ (
            err (approval_error Code.permission_denied e),
            record c { grants = (consume env req.approval_id req.command c.grants).1 },
          ))
  redeem_unauthorized c req n =
      elim (Result-cases (consume env req.approval_id req.command c.grants).0) [
        | inl (tt_, granted) ↦ absurd (n granted)
        | inr (e, refused) ↦ (e, λ host. ground arith)
      ]

  abbrev pub other_launch : Host → (Command → Process) → Host
  other_launch host l = record host { launch = l }

  -- Without an approval, a command that is not allowed outright is asked about or refused.
  decide_unauthorized :
      (host : Host) (l : Command → Process) (c : Session) (req : ExecRequest) (d : Decision)
      → evaluate policy req.command ≡ d
      → d ≢ allowed
      → OnlyAsks c req (decide env host policy d req c).1.sent
        × (decide env (other_launch host l) policy d req c ≡ decide env host policy d req c)
  unfolding send
  decide_unauthorized host l c req denied e ne = (inl refl, refl)
  decide_unauthorized host l c req allowed e ne = absurd (ne refl)
  decide_unauthorized host l c req asked e ne =
      elim (Result-cases (issue env req.command approval_ttl c.grants).0) [
        | inr (bad, failed) ↦ (inl (ground arith), ground arith)
        | inl (id, issued) ↦ elim (Option-cases (host.broken c.sent)) [
          | inl fine ↦ (inr (id, e, ground arith), ground arith)
          | inr (bad, broken) ↦ (inl (ground arith), ground arith)
        ]
      ]

  -- A Deploy that is not authorized sends no output and no exit code: at most one request for
  -- approval, and that only if the policy asks. What any process would have done has no part in
  -- its answer or in the state that it leaves.
  pub deploy_unauthorized :
      (host : Host) (l : Command → Process) (c : Session) (req : ExecRequest)
      → ¬ Authorized c req
      → OnlyAsks c req (deploy env host policy req c).1.sent
        × (deploy env (other_launch host l) policy req c ≡ deploy env host policy req c)
  unfolding deploy
  deploy_unauthorized host l c req n = elim (text_dec req.approval_id "") [
    | yes bare ↦
        let (sent, blind) =
          decide_unauthorized host l c req (evaluate policy req.command) refl
            (λ a. n (inr (bare, a))) in
        (rw (if_pos _ bare) sent, ground arith)
    | no carries ↦
        let refused = λ (granted : (consume env req.approval_id req.command c.grants).0 ≡ ok tt).
          n (inl (carries, (consume_iff env req.approval_id c.grants req.command).0 granted)) in
        let (e, r) = redeem_unauthorized c req refused in
        (inl (ground (arith, r host)), ground (arith, r host, r (other_launch host l)))
  ]
