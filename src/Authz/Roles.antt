-- ===== src/Authz/Roles.antt =====
-- `RoleFromCert` picks a role of the highest rank among those that the certificate names.
use mathlib.Core.List.{Mem, mem-cons, not-mem-nil}
use mathlib.Core.Logic.Or
use native.Mathlib.Bridge.{le_prop}
use remote_exec.Base.{
  ℕ, ◌≤◌, ◌≡◌, refl, sym, ◌∙◌, ◌⊎◌, inl, inr, Text, List, [], ◌∷◌, arith, text_dec,
}
use remote_exec.Base.Dict.{lookup}
use remote_exec.Pki.Cert.{Certificate}
use remote_exec.Authz.{role_public, rank, rank_of, better, best_role, role_from_cert}

best_role-ge : (orgs : List Text) (best : Text × ℕ) → best.1 ≤ (best_role orgs best).1
unfolding best_role
best_role-ge [] best = omega arith
best_role-ge (org ∷ orgs) best =
    ground (arith, best_role-ge orgs (better (lookup org rank) org best))

rank_of-le-better :
    (org : Text) (best : Text × ℕ) → rank_of org ≤ (better (lookup org rank) org best).1
unfolding rank_of
rank_of-le-better org best = ground arith

-- No named role ranks above the result.
rank_of-le-best_role :
    (orgs : List Text) (best : Text × ℕ) (org : Text)
    → Mem org orgs
    → rank_of org ≤ (best_role orgs best).1
unfolding best_role
rank_of-le-best_role [] best org m = absurd (not-mem-nil m)
rank_of-le-best_role (o ∷ orgs) best org m =
    let next = better (lookup o rank) o best in
    Or.elim le_prop (mem-cons.0 m)
      (λ e. rw e (omega (arith, rank_of-le-better o best, best_role-ge orgs next)))
      (rank_of-le-best_role orgs next org)

-- The second part of the loop's state is the rank of the first.
abbrev IsRanked : Text × ℕ → Type 0
IsRanked best = best.1 ≡ rank_of best.0

better-IsRanked :
    (org : Text) (best : Text × ℕ) → IsRanked best → IsRanked (better (lookup org rank) org best)
unfolding rank_of
better-IsRanked org best h = ground arith

best_role-IsRanked :
    (orgs : List Text) (best : Text × ℕ) → IsRanked best → IsRanked (best_role orgs best)
unfolding best_role
best_role-IsRanked [] best h = h
best_role-IsRanked (org ∷ orgs) best h =
    best_role-IsRanked orgs (better (lookup org rank) org best) (better-IsRanked org best h)

pub rank_of-public : rank_of role_public ≡ 0
unfolding rank_of rank lookup text_dec
rank_of-public = refl

better_origin :
    (org : Text) (best : Text × ℕ)
    → ((better (lookup org rank) org best).0 ≡ best.0)
      ⊎ ((better (lookup org rank) org best).0 ≡ org)
better_origin org best = ground arith

best_role_origin :
    (orgs : List Text) (best : Text × ℕ)
    → ((best_role orgs best).0 ≡ best.0) ⊎ Mem (best_role orgs best).0 orgs
unfolding best_role
best_role_origin [] best = inl refl
best_role_origin (org ∷ orgs) best =
    let next = better (lookup org rank) org best in
    elim (best_role_origin orgs next) [
      | inl kept ↦ elim (better_origin org best) [
        | inl e ↦ inl (kept ∙ e)
        | inr e ↦ inr (mem-cons.1 (Or.inl (kept ∙ e)))
      ]
      | inr m ↦ inr (mem-cons.1 (Or.inr m))
    ]

-- The role of a certificate is public or one that it names, and none that it names ranks higher.
pub role_from_cert_lem :
    (cert : Certificate)
    → ((role_from_cert cert ≡ role_public) ⊎ Mem (role_from_cert cert) cert.organization)
      × ((org : Text) → Mem org cert.organization → rank_of org ≤ rank_of (role_from_cert cert))
unfolding role_from_cert
role_from_cert_lem cert = (
  best_role_origin cert.organization (role_public, 0),
  λ org m.
      rw (← best_role-IsRanked cert.organization (role_public, 0) (sym rank_of-public))
        (rank_of-le-best_role cert.organization (role_public, 0) org m),
)
