-- ===== src/Daemon/Approvals.antt =====
-- Over any history of calls, an approval counts as often as it was asked for.
use remote_exec.Base.{
  ◌+◌, ◌≤◌, ◌≡◌, ◌≢◌, sym, ◌∙◌, subst, ◌⊎◌, inl, inr, Text, none, List, [], ◌∷◌, arith, text_dec,
}
use remote_exec.Error.{Code, status}
use remote_exec.Io.{Result, Done, ok, err, Result-cases}
use remote_exec.Io.World.{Env}
use remote_exec.Pki.Primitives.{Crypto}
use remote_exec.Policy.{Policy, Decision, denied, allowed, asked, evaluate}
use remote_exec.Policy.Grants.{Grants, issue, consume}
use remote_exec.Policy.Grants.History.{request, redeem, perform, pending, perform_balance}
use remote_exec.Proto.{ExecRequest, ExecChunk}
use remote_exec.AgentServer.{Server, Host, Session, send, run_stream, approval_ttl, decide, deploy}
use remote_exec.AgentServer.Approval.{grants-run_stream, grants-deploy, deploy_refused}
use remote_exec.Authz.{Peer, agent_table}
use remote_exec.Authz.Gate.{stream_cases}
use remote_exec.Authz.Production.{run_method, deploy_method}
use remote_exec.Transport.{run_call, deploy_call}
use remote_exec.Daemon.{
  Call, enrolling, identifying, informing, running, deploying, Visit, calls, elsewhere, streamed,
  serve, history,
}
use remote_exec.Daemon.Counting.{accepted, asked_in, used_in, handed_in, deploys, requests}

-- What a Deploy from `g` leaves: the id is used and pending no more often than it was and was asked
-- for.
abbrev IsBalanced : Text → ExecRequest → Grants → Result Done × Session → Type 0
IsBalanced id req g (r, c) =
    used_in id (deploying req) (streamed r c.sent) + pending id c.grants
    ≤ asked_in id c.sent + pending id g

refused-IsBalanced :
    (id : Text) (req : ExecRequest) (g : Grants) (code : Code) (text : Text)
    → (code ≡ Code.permission_denied) ⊎ (code ≡ Code.unauthenticated)
    → IsBalanced id req g (err (status code text), record { grants = g; sent = [] })
refused-IsBalanced id req g code text which = ground arith

accepted-le_one : (r : Result Done) → accepted r ≤ 1
accepted-le_one (ok _) = omega arith
accepted-le_one (err e) = ground arith

module _ (env : Env) (host : Host) (policy : Policy)
    (unbroken : (sent : List ExecChunk) → host.broken sent ≡ none) (id : Text) (ne : id ≢ "") where
  decide_balance :
      (d : Decision) (req : ExecRequest) (g : Grants)
      → let (r, c) = decide env host policy d req (record { grants = g; sent = [] }) in
        pending id c.grants ≤ asked_in id c.sent + pending id g
  unfolding send perform asked_in
  decide_balance denied req g = omega arith
  decide_balance allowed req g =
      rw (grants-run_stream host req (record { grants = g; sent = [] })) (omega arith)
  decide_balance asked req g =
      let balance = perform_balance env id (request req.command approval_ttl) g in
      elim (Result-cases (issue env req.command approval_ttl g).0) [
        | inl (i, issued) ↦ ground (arith, balance, unbroken [])
        | inr (e, failed) ↦ ground (arith, balance)
      ]

  redeem_balance :
      (req : ExecRequest) (g : Grants)
      → id ≡ req.approval_id
      → let (r, c) = deploy env host policy req (record { grants = g; sent = [] }) in
        accepted r + pending id c.grants ≤ pending id g
  unfolding perform
  redeem_balance req g same =
      let balance = perform_balance env id (redeem req.approval_id req.command) g in
      let carries : req.approval_id ≢ "" = λ e. ne (same ∙ e) in
      let left = grants-deploy env host policy req (record { grants = g; sent = [] }) carries in
      elim (Result-cases (consume env req.approval_id req.command g).0) [
        | inl (done, granted) ↦ ground (
          arith,
          balance,
          left,
          accepted-le_one (deploy env host policy req (record { grants = g; sent = [] })).0,
        )
        | inr (e, refused) ↦ ground (
          arith,
          balance,
          left,
          deploy_refused env host policy req (record { grants = g; sent = [] }) e carries refused,
        )
      ]

  pub deploy_balance :
      (req : ExecRequest) (g : Grants)
      → IsBalanced id req g (deploy env host policy req (record { grants = g; sent = [] }))
  unfolding deploy perform
  deploy_balance req g = elim (text_dec req.approval_id "") [
    | yes bare ↦ ground (arith, ne, decide_balance (evaluate policy req.command) req g)
    | no carries ↦ elim (text_dec id req.approval_id) [
      | yes same ↦ ground (arith, redeem_balance req g same)
      | no other ↦ ground (
        arith,
        perform_balance env id (redeem req.approval_id req.command) g,
        grants-deploy env host policy req (record { grants = g; sent = [] }) carries,
      )
    ]
  ]

module _ (env : Env) (x : Crypto) (s : Server x) (host : Host)
    (unbroken : (sent : List ExecChunk) → host.broken sent ≡ none) (id : Text) (ne : id ≢ "") where
  serve_balance :
      (peer : Peer) (call : Call) (g : Grants)
      → let (answer, g') = serve env x s host peer call g in
        used_in id call answer + pending id g' ≤ handed_in id answer + pending id g
  unfolding serve run_call deploy_call
  serve_balance peer (enrolling req) g = omega arith
  serve_balance peer identifying g = omega arith
  serve_balance peer informing g = omega arith
  serve_balance peer (running req) g =
      let c : Session = record { grants = g; sent = [] } in
      elim (stream_cases agent_table peer run_method (run_stream host req) c) [
        | inl runs ↦ ground (arith, runs, grants-run_stream host req c)
        | inr (code, text, e, which) ↦ ground (arith, e)
      ]
  serve_balance peer (deploying req) g =
      let c : Session = record { grants = g; sent = [] } in
      elim (stream_cases agent_table peer deploy_method (deploy env host s.policy req) c) [
        | inl runs ↦
            subst (IsBalanced id req g) (sym runs)
              (deploy_balance env host s.policy unbroken id ne req g)
        | inr (code, text, e, which) ↦
            subst (IsBalanced id req g) (sym e) (refused-IsBalanced id req g code text which)
      ]

  -- Over connections that do not fail, whatever calls come, of whatever peers, and whatever else
  -- happens to the daemon's world: the Deploy calls that carried an approval id, which is not empty, and
  -- were not refused, and the grant under it that is left, are at most as many as the answers that asked for approval
  -- under that id, and the grant that was there at first.
  pub deploys-le-requests :
      (visits : List Visit) (g : Grants)
      → let (log, g') = history env x s host visits g in
        deploys id log + pending id g' ≤ requests id log + pending id g
  unfolding history deploys requests
  deploys-le-requests [] g = omega arith
  deploys-le-requests (elsewhere w ∷ visits) g = deploys-le-requests visits (record g { world = w })
  deploys-le-requests (calls peer call ∷ visits) g =
      let (answer, g') = serve env x s host peer call g in
      omega (arith, serve_balance peer call g, deploys-le-requests visits g')
