-- ===== src/Tests/Approvals.antt =====
-- Approvals: issued, redeemed and gone.
use remote_exec.Base.{◌+◌, ◌≤◌, ◌≡◌, refl, Text, List, [], ◌∷◌}
use remote_exec.Base.Int.{pos}
use remote_exec.Base.Base64.{encode_to_string}
use remote_exec.Io.{ok}
use remote_exec.Io.Calls.{random}
use remote_exec.Policy.Grants.{new_grants, rand_id, issue}
use remote_exec.Policy.Grants.History.{
  Op, request, redeem, run, issues, uses, pending, uses-le-issues,
}
use remote_exec.Tests.Data.{calm, start, granted}

abbrev history : List Op
history =
    redeem "id1" "reboot"
    ∷ redeem "id1" "reboot"
    ∷ request "reboot" (pos 50)
    ∷ redeem "id1" "dd"
    ∷ []

uses-le-issues_example :
    let (es, g) = run calm history granted in
    uses "id1" es + pending "id1" g ≤ issues "id1" es + pending "id1" granted
uses-le-issues_example = uses-le-issues calm "id1" history granted

abbrev drawn : Text
drawn = "AAECAwQFBgcICQoLDA0ODxAR"

issued : (issue calm "reboot" (pos 50) (new_grants start)).0 ≡ ok drawn
unfolding issue rand_id random encode_to_string
issued = refl
