-- ===== src/Tests/Histories.antt =====
-- Histories of calls at one daemon.
use remote_exec.Base.{◌+◌, ◌≤◌, ◌≡◌, refl, ◌⊎◌, true, List, [], ◌∷◌, ◌++◌, ne_literal}
use remote_exec.Authz.Production.{deploy_iff}
use remote_exec.Policy.Grants.{Grants}
use remote_exec.Policy.Grants.History.{pending}
use remote_exec.Token.Gone.{Lacks}
use remote_exec.Daemon.{Visit, calls, elsewhere, enrolling, informing, deploying, Answer, history}
use remote_exec.Daemon.Counting.{deploys, requests}
use remote_exec.Daemon.Approvals.{deploys-le-requests}
use remote_exec.Daemon.Strangers.{is_refused, stranger_unnoticed}
use remote_exec.Daemon.Tokens.{enrolments, token_enrols_once}
use remote_exec.Tests.Data.{calm, reader, admin, box, granted, request_with}
use remote_exec.Tests.Forge.{crypto}
use remote_exec.Tests.Formats.{json, json-IsFaithful}
use remote_exec.Tests.Tokens.{path, stocked}
use remote_exec.Tests.Certificates.{csr}
use remote_exec.Tests.Calls.{server}
use remote_exec.Tests.Gate.{reader_is_no_admin}

-- An approval that is there is used, asked for again by its command, and tried once more.
abbrev visits : List Visit
visits =
    calls admin (deploying (request_with "reboot" "id1"))
    ∷ calls admin (deploying (request_with "reboot" ""))
    ∷ calls reader informing
    ∷ calls admin (deploying (request_with "reboot" "id1"))
    ∷ []

deploys-le-requests_example :
    let (log, g) = history calm crypto server box visits granted in
    deploys "id1" log + pending "id1" g ≤ requests "id1" log + pending "id1" granted
deploys-le-requests_example =
    deploys-le-requests calm crypto server box (λ sent. refl) "id1" (ne_literal "id1" "" refl)
      visits granted

abbrev enrols_twice : List Visit
enrols_twice =
    elsewhere (record stocked { calls = 7 })
    ∷ calls reader (enrolling (record { token = "t"; csr_pem = csr }))
    ∷ calls admin (enrolling (record { token = "t"; csr_pem = csr }))
    ∷ []

abbrev outset : Grants
outset = record { m = []; world = stocked }

token_enrols_once_example :
    let (log, g) = history calm crypto server box enrols_twice outset in
    (enrolments "t" log ≡ 0)
    ⊎ (enrolments "t" log ≡ 1) × ¬ Lacks json path "t" stocked × Lacks json path "t" g.world
token_enrols_once_example =
    token_enrols_once calm crypto server box json json-IsFaithful path refl "t" enrols_twice outset
      (λ gone. gone, tt)

stranger_unnoticed_example :
    let (log, g) = history calm crypto server box visits granted in
    let (log', g') = history calm crypto server box visits g in
    (answer : Answer) × (is_refused answer ≡ true)
    × (history calm crypto server box
          (visits ++ calls reader (deploying (request_with "ls" "")) ∷ visits)
          granted
        ≡ (
          log
              ++ record { peer = reader; call = deploying (request_with "ls" ""); answer = answer }
                ∷ log',
          g',
        ))
    × (history calm crypto server box (visits ++ visits) granted ≡ (log ++ log', g'))
stranger_unnoticed_example =
    stranger_unnoticed calm crypto server box visits visits reader
      (deploying (request_with "ls" "")) granted
      (λ permitted. reader_is_no_admin ((deploy_iff reader).0 permitted))
