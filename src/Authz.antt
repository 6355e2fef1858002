-- ===== src/Authz.antt =====
-- internal/authz/authz.go: the gate in front of every gRPC method.
pub mod Roles
pub mod Gate
pub mod Production
use remote_exec.Base.{
  ℕ, zero, Text, ◌<>◌, Bool, true, not, ◌&&◌, Option, none, some, List, [], ◌∷◌, ◌==◌, ltb, leb,
  if◌then◌else◌,
}
use remote_exec.Base.Dict.{Dict, lookup}
use remote_exec.Base.Quote.{quote}
use remote_exec.Error.{Sentinel, Code, Error, sentinel, status, message}
use remote_exec.Io.{Result, ok, err, Action, Done, raise}
use remote_exec.Pki.Cert.{Certificate}

abbrev pub role_public : Text
role_public = ""

abbrev pub role_reader : Text
role_reader = "rex:reader"

abbrev pub role_operator : Text
role_operator = "rex:operator"

abbrev pub role_admin : Text
role_admin = "rex:admin"

unfoldable pub rank : Dict ℕ
rank = (role_reader, 1) ∷ (role_operator, 2) ∷ (role_admin, 3) ∷ []

abbrev or_zero : Option ℕ → ℕ
or_zero none = 0
or_zero (some n) = n

-- `rank[role]`: a missing key reads as zero.
unfoldable pub rank_of : Text → ℕ
rank_of role = or_zero (lookup role rank)

abbrev pub Table : Type 0
Table = Dict Text

-- One round of the loop: `if r, ok := rank[org]; ok && r > bestRank`.
abbrev better : Option ℕ → Text → Text × ℕ → Text × ℕ
better none org best = best
better (some r) org best = if ltb best.1 r then (org, r) else best

unfoldable pub best_role : List Text → Text × ℕ → Text × ℕ
best_role [] best = best
best_role (org ∷ orgs) best = best_role orgs (better (lookup org rank) org best)

-- `RoleFromCert`
unfoldable pub role_from_cert : Certificate → Text
role_from_cert cert = (best_role cert.organization (role_public, 0)).0

-- `Allowed`
unfoldable pub is_allowed : Text → Text → Bool
is_allowed have need =
    if need == role_public then true else leb (rank_of need) (rank_of have) && ltb 0 (rank_of have)

-- What the context of a call holds of its peer.
pub data Peer : Type 0 where
  -- no peer in the context
  absent : Peer
  -- a peer whose `AuthInfo` is not `credentials.TLSInfo`
  not_tls : Peer
  -- `State.PeerCertificates` of a TLS connection
  tls : List Certificate → Peer

unfoldable pub role_from_context : Peer → Result Text
role_from_context absent = err (sentinel Sentinel.no_client_cert)
role_from_context not_tls = err (sentinel Sentinel.no_client_cert)
role_from_context (tls []) = err (sentinel Sentinel.no_client_cert)
role_from_context (tls (cert ∷ _)) = ok (role_from_cert cert)

abbrev not_permitted : Text → Error
not_permitted method = status Code.permission_denied ("method " <> method <> " not permitted")

abbrev insufficient_text : Text → Text → Text
insufficient_text role need = "role " <> quote role <> " insufficient, need " <> quote need

abbrev insufficient : Text → Text → Error
insufficient role need = status Code.permission_denied (insufficient_text role need)

module _ {S A : Type 0} where
  -- The part of `UnaryInterceptor` that follows `roleFromContext`.
  abbrev admit_unary : Result Text → Text → Action S A → Action S A
  admit_unary (err e) need handler = raise (status Code.unauthenticated (message e))
  admit_unary (ok role) need handler =
      if not (is_allowed role need) then raise (insufficient role need) else handler

  abbrev check_unary : Option Text → Peer → Text → Action S A → Action S A
  check_unary none peer method handler = raise (not_permitted method)
  check_unary (some need) peer method handler =
      if need == role_public then handler else admit_unary (role_from_context peer) need handler

  -- `UnaryInterceptor`; the handler already holds its request.
  unfoldable pub unary_interceptor : Table → Peer → Text → Action S A → Action S A
  unary_interceptor table peer method = check_unary (lookup method table) peer method

module _ {S : Type 0} where
  abbrev admit_stream : Result Text → Text → Action S Done → Action S Done
  admit_stream (err e) need handler = raise (status Code.unauthenticated (message e))
  admit_stream (ok role) need handler =
      if not (is_allowed role need) then raise (insufficient role need) else handler

  abbrev check_stream : Option Text → Peer → Text → Action S Done → Action S Done
  check_stream none peer method handler = raise (not_permitted method)
  check_stream (some need) peer method handler =
      if need == role_public then handler else admit_stream (role_from_context peer) need handler

  -- `StreamInterceptor`
  unfoldable pub stream_interceptor : Table → Peer → Text → Action S Done → Action S Done
  stream_interceptor table peer method = check_stream (lookup method table) peer method

unfoldable pub agent_table : Table
agent_table =
    ("/rexec.v1.Agent/Enroll", role_public)
    ∷ ("/rexec.v1.Agent/Identity", role_reader)
    ∷ ("/rexec.v1.Agent/Info", role_reader)
    ∷ ("/rexec.v1.Agent/Run", role_operator)
    ∷ ("/rexec.v1.Agent/Deploy", role_admin)
    ∷ []
