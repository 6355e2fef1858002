-- ===== src/Tests/Gate.antt =====
-- Authorization and policy on small values.
use mathlib.Core.List.{Mem, mem-cons}
use mathlib.Core.Logic.Or
use remote_exec.Base.{ℕ, ◌≡◌, refl, ◌↔◌, ◌⊎◌, Text, [], ◌∷◌, ne_literal}
use remote_exec.Io.{ok, Action, Done}
use remote_exec.Authz.{role_admin, agent_table, unary_interceptor}
use remote_exec.Authz.Gate.{Permits, IsRefusal, unary_refused}
use remote_exec.Authz.Production.{Names, deploy_method, deploy_iff}
use remote_exec.Enroll.Roles.{deploy_of_role}
use remote_exec.Policy.{allowed, mode_allow, mode_ask, evaluate}
use remote_exec.Policy.Decide.{evaluate-allowed_iff}
use remote_exec.Tests.Data.{cert_of, reader, admin, asking}

abbrev count : Action ℕ ℕ
count n = (ok n, Prim.Native.Nat.suc n)

abbrev quiet_handler : Action ℕ Done
quiet_handler n = (ok tt, Prim.Native.Nat.suc n)

reader_cannot_deploy : ¬ Permits agent_table reader deploy_method
reader_cannot_deploy permitted =
    ne_literal "rex:reader" role_admin refl
      ((deploy_of_role (cert_of ("rex:reader" ∷ [])) [] "rex:reader" refl).0 permitted)

pub reader_is_no_admin : ¬ Names reader (λ org. org ≡ role_admin)
reader_is_no_admin names = reader_cannot_deploy ((deploy_iff reader).1 names)

pub admin_names : Names admin (λ org. org ≡ role_admin)
admin_names = (
  cert_of ("rex:reader" ∷ "rex:admin" ∷ []),
  [],
  role_admin,
  refl,
  mem-cons.1 (Or.inr (mem-cons.1 (Or.inl refl))),
  refl,
)

unary_refused_example : IsRefusal 5 (unary_interceptor agent_table reader deploy_method count 5)
unary_refused_example = unary_refused reader deploy_method count 5 agent_table reader_cannot_deploy

deploy_iff_example : Permits agent_table admin deploy_method ↔ Names admin (λ org. org ≡ role_admin)
deploy_iff_example = deploy_iff admin

evaluate-allowed_iff_example :
    (evaluate asking "ls" ≡ allowed)
    ↔ (¬ Mem {A = Text} "ls" asking.deny)
      × ((asking.destructive ≡ mode_allow)
            × ((asking.allow ≡ []) ⊎ Mem {A = Text} "ls" asking.allow)
          ⊎ (asking.destructive ≡ mode_ask) × Mem {A = Text} "ls" asking.allow)
evaluate-allowed_iff_example = evaluate-allowed_iff asking "ls"
