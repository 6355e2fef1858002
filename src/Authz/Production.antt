-- ===== src/Authz/Production.antt =====
-- `AgentTable`, method by method: which certificates reach which handlers.
use mathlib.Core.List.{Mem}
use remote_exec.Base.{
  ◌≤◌, ◌≡◌, refl, ◌↔◌, ◌⊎◌, inl, inr, Text, some, List, ◌∷◌, arith, text_dec, ne_literal,
}
use remote_exec.Base.Dict.{lookup}
use remote_exec.Pki.Cert.{Certificate}
use remote_exec.Authz.{
  Peer, tls, role_public, role_reader, role_operator, role_admin, rank, rank_of, agent_table,
}
use remote_exec.Authz.Gate.{Permits}

abbrev pub enroll_method : Text
enroll_method = "/rexec.v1.Agent/Enroll"

abbrev pub run_method : Text
run_method = "/rexec.v1.Agent/Run"

abbrev pub deploy_method : Text
deploy_method = "/rexec.v1.Agent/Deploy"

rank_of-reader : rank_of role_reader ≡ 1
unfolding rank_of rank lookup text_dec
rank_of-reader = refl

rank_of-operator : rank_of role_operator ≡ 2
unfolding rank_of rank lookup text_dec
rank_of-operator = refl

rank_of-admin : rank_of role_admin ≡ 3
unfolding rank_of rank lookup text_dec
rank_of-admin = refl

admin_of_rank : (role : Text) → 3 ≤ rank_of role → role ≡ role_admin
unfolding rank_of rank lookup
admin_of_rank role h = ground arith

operator_of_rank : (role : Text) → 2 ≤ rank_of role → (role ≡ role_operator) ⊎ (role ≡ role_admin)
unfolding rank_of rank lookup
operator_of_rank role h = ground arith

-- The peer is a TLS peer whose first certificate names one of the organizations.
abbrev pub Names : Peer → (Text → Type 0) → Type 0
Names peer P =
    (cert : Certificate) × (rest : List Certificate) × (org : Text) × (peer ≡ tls (cert ∷ rest))
    × Mem org cert.organization
    × P org

lookup-deploy : lookup deploy_method agent_table ≡ some role_admin
unfolding lookup agent_table text_dec
lookup-deploy = refl

lookup-run : lookup run_method agent_table ≡ some role_operator
unfolding lookup agent_table text_dec
lookup-run = refl

pub lookup-enroll : lookup enroll_method agent_table ≡ some role_public
unfolding lookup agent_table text_dec
lookup-enroll = refl

-- Deploy is open exactly to peers whose first certificate names "rex:admin".
pub deploy_iff :
    (peer : Peer) → Permits agent_table peer deploy_method ↔ Names peer (λ org. org ≡ role_admin)
deploy_iff peer = (to, from)
  where
    to : Permits agent_table peer deploy_method → Names peer (λ org. org ≡ role_admin)
    to (need, listed, inl public) =
        absurd (ne_literal role_admin role_public refl (ground (arith, lookup-deploy)))
    to (need, listed, inr (cert, rest, org, e, m, le, pos)) =
        (cert, rest, org, e, m, admin_of_rank org (ground (arith, lookup-deploy, rank_of-admin)))

    from : Names peer (λ org. org ≡ role_admin) → Permits agent_table peer deploy_method
    from (cert, rest, org, e, m, same) = (
      role_admin,
      lookup-deploy,
      inr (cert, rest, org, e, m, ground arith, ground (arith, rank_of-admin)),
    )

-- Run is open exactly to peers whose first certificate names "rex:operator" or "rex:admin".
pub run_iff :
    (peer : Peer)
    → Permits agent_table peer run_method
      ↔ Names peer (λ org. (org ≡ role_operator) ⊎ (org ≡ role_admin))
run_iff peer = (to, from)
  where
    to :
        Permits agent_table peer run_method
        → Names peer (λ org. (org ≡ role_operator) ⊎ (org ≡ role_admin))
    to (need, listed, inl public) =
        absurd (ne_literal role_operator role_public refl (ground (arith, lookup-run)))
    to (need, listed, inr (cert, rest, org, e, m, le, pos)) =
        (cert, rest, org, e, m, operator_of_rank org (ground (arith, lookup-run, rank_of-operator)))

    from :
        Names peer (λ org. (org ≡ role_operator) ⊎ (org ≡ role_admin))
        → Permits agent_table peer run_method
    from (cert, rest, org, e, m, inl same) = (
      role_operator,
      lookup-run,
      inr (cert, rest, org, e, m, ground arith, ground (arith, rank_of-operator)),
    )
    from (cert, rest, org, e, m, inr same) = (
      role_operator,
      lookup-run,
      inr (
        cert,
        rest,
        org,
        e,
        m,
        ground (arith, rank_of-operator, rank_of-admin),
        ground (arith, rank_of-admin),
      ),
    )

-- The one method that needs no certificate is Enroll.
public_method :
    (method : Text) → lookup method agent_table ≡ some role_public → method ≡ enroll_method
unfolding lookup agent_table
public_method method h = ground (
  arith,
  ne_literal role_reader role_public refl,
  ne_literal role_operator role_public refl,
  ne_literal role_admin role_public refl,
)
