-- ===== src/Authz/Gate.antt =====
-- What the interceptors let through: a public method, or a certificate that names a role of the
-- rank that the table asks for.
use mathlib.Core.List.{Mem}
use mathlib.Core.Logic.{if_neg}
use remote_exec.Base.{
  ◌≤◌, ◌<◌, ◌≡◌, refl, ◌≢◌, ◌⊎◌, inl, inr, Text, ◌<>◌, true, none, some, List, [], ◌∷◌, arith,
  Bool-cases, Option-cases, Option, text_dec,
}
use remote_exec.Base.Dict.{lookup}
use remote_exec.Error.{Code, status, message}
use remote_exec.Io.{Result, ok, err, Action, Done, Result-cases}
use remote_exec.Pki.Cert.{Certificate}
use remote_exec.Authz.{
  Peer, absent, not_tls, tls, Table, role_public, rank_of, role_from_cert, is_allowed,
  role_from_context, admit_unary, insufficient_text, check_unary, unary_interceptor,
  stream_interceptor,
}
use remote_exec.Authz.Roles.{role_from_cert_lem, rank_of-public}

-- The first certificate of the peer names a known role that ranks at least as high as `need`.
abbrev pub Presents : Peer → Text → Type 0
Presents peer need =
    (cert : Certificate) × (rest : List Certificate) × (org : Text) × (peer ≡ tls (cert ∷ rest))
    × Mem org cert.organization
    × (rank_of need ≤ rank_of org)
    × (0 < rank_of org)

-- The table holds the method, which is public or for which the peer presents a role.
abbrev pub Permits : Table → Peer → Text → Type 0
Permits table peer method =
    (need : Text) × (lookup method table ≡ some need) × ((need ≡ role_public) ⊎ Presents peer need)

is_allowed_of_ranks :
    (have need : Text)
    → rank_of need ≤ rank_of have
    → 0 < rank_of have
    → is_allowed have need ≡ true
unfolding is_allowed
is_allowed_of_ranks have need le pos = ground arith

ranks_of_is_allowed :
    (have need : Text)
    → is_allowed have need ≡ true
    → need ≢ role_public
    → (rank_of need ≤ rank_of have) × (0 < rank_of have)
unfolding is_allowed
ranks_of_is_allowed have need h ne = ground arith

-- What `roleFromContext` and `Allowed` make of a peer that presents a role.
Presents-is_allowed :
    (peer : Peer) (need : Text)
    → Presents peer need
    → (role : Text) × (role_from_context peer ≡ ok role) × (is_allowed role need ≡ true)
unfolding role_from_context
Presents-is_allowed peer need (cert, rest, org, e, m, le, pos) =
    let top = (role_from_cert_lem cert).1 org m in
    (role_from_cert cert, rw e refl, is_allowed_of_ranks _ need (omega arith) (omega arith))

named :
    (cert : Certificate)
    → 0 < rank_of (role_from_cert cert)
    → Mem (role_from_cert cert) cert.organization
named cert pos = elim (role_from_cert_lem cert).0 [
  | inl public ↦ absurd (ground (arith, rank_of-public))
  | inr m ↦ m
]

is_allowed-Presents :
    (peer : Peer) (need role : Text)
    → role_from_context peer ≡ ok role
    → is_allowed role need ≡ true
    → need ≢ role_public
    → Presents peer need
unfolding role_from_context
is_allowed-Presents absent need role h a ne = cc
is_allowed-Presents not_tls need role h a ne = cc
is_allowed-Presents (tls []) need role h a ne = cc
is_allowed-Presents (tls (cert ∷ rest)) need role h a ne =
    let same : role_from_cert cert ≡ role = cc in
    let ranks = ranks_of_is_allowed (role_from_cert cert) need (rw same a) ne in
    (cert, rest, role_from_cert cert, refl, named cert ranks.1, ranks.0, ranks.1)

module _ {S A : Type 0} (table : Table) (peer : Peer) (method : Text) (handler : Action S A) where
  admitted_role :
      (role : Result Text) (need : Text) (s : S) (have : Text)
      → role ≡ ok have
      → is_allowed have need ≡ true
      → admit_unary role need handler s ≡ handler s
  admitted_role role need s have e a = ground arith

  -- A call that the table permits reaches its handler, and nothing else happens.
  pub unary_permitted :
      Permits table peer method
      → (s : S) → unary_interceptor table peer method handler s ≡ handler s
  unfolding unary_interceptor
  unary_permitted (need, listed, inl public) s = ground arith
  unary_permitted (need, listed, inr presents) s =
      let (role, e, a) = Presents-is_allowed peer need presents in
      ground (arith, admitted_role (role_from_context peer) need s role e a)

-- A refusal: the state is as before, and the answer is a status of one of two codes.
abbrev pub IsRefusal : {S A : Type 0} → S → Result A × S → Type 0
IsRefusal s out =
    (c : Code) × (text : Text) × (out ≡ (err (status c text), s))
    × ((c ≡ Code.permission_denied) ⊎ (c ≡ Code.unauthenticated))

module _ {S A : Type 0} (peer : Peer) (method : Text) (handler : Action S A) (s : S) where
  admit_refused :
      (role : Result Text) (need : Text)
      → ((have : Text) → role ≡ ok have → is_allowed have need ≡ true → ⊥)
      → IsRefusal s (admit_unary role need handler s)
  admit_refused (err e) need n = (Code.unauthenticated, _, refl, inr refl)
  admit_refused (ok have) need n = elim (Bool-cases (is_allowed have need)) [
    | inl passes ↦ absurd (n have refl passes)
    | inr fails ↦ (Code.permission_denied, insufficient_text have need, rw fails refl, inl refl)
  ]

  check_refused :
      (entry : Option Text)
      → ((need : Text) → entry ≡ some need → (need ≡ role_public) ⊎ Presents peer need → ⊥)
      → IsRefusal s (check_unary entry peer method handler s)
  check_refused none n = (Code.permission_denied, _, refl, inl refl)
  check_refused (some need) n = elim (text_dec need role_public) [
    | yes public ↦ absurd (n need refl (inl public))
    | no private ↦ rw (if_neg _ private) (
        admit_refused (role_from_context peer) need
          λ have e a. n need refl (inr (is_allowed-Presents peer need have e a private)))
  ]

  -- A call that the table does not permit never reaches its handler: nothing changes, and the
  -- caller gets the status PermissionDenied or Unauthenticated.
  pub unary_refused :
      (table : Table)
      → ¬ Permits table peer method
      → IsRefusal s (unary_interceptor table peer method handler s)
  unfolding unary_interceptor
  unary_refused table n =
      check_refused (lookup method table) λ need listed granted. n (need, listed, granted)

-- The streaming interceptor decides and answers as the unary one does.
pub stream_eq_unary :
    {S : Type 0} (table : Table) (peer : Peer) (method : Text) (handler : Action S Done) (s : S)
    → stream_interceptor table peer method handler s ≡ unary_interceptor table peer method handler s
unfolding stream_interceptor unary_interceptor
stream_eq_unary table peer method handler s = ground arith

-- A call reaches its handler or is refused.
pub stream_cases :
    {S : Type 0} (table : Table) (peer : Peer) (method : Text) (handler : Action S Done) (s : S)
    → (stream_interceptor table peer method handler s ≡ handler s)
      ⊎ IsRefusal s (stream_interceptor table peer method handler s)
unfolding stream_interceptor
stream_cases table peer method handler s = elim (Option-cases (lookup method table)) [
  | inl unlisted ↦
      inr (Code.permission_denied, "method " <> method <> " not permitted", ground arith, inl refl)
  | inr (need, listed) ↦ elim (text_dec need role_public) [
    | yes public ↦ inl (ground arith)
    | no private ↦ elim (Result-cases (role_from_context peer)) [
      | inr (e, nobody) ↦ inr (Code.unauthenticated, message e, ground arith, inr refl)
      | inl (have, named_) ↦ elim (Bool-cases (is_allowed have need)) [
        | inl passes ↦ inl (ground arith)
        | inr fails ↦
            inr (Code.permission_denied, insufficient_text have need, ground arith, inl refl)
      ]
    ]
  ]
]
