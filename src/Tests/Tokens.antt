-- ===== src/Tests/Tokens.antt =====
-- Join tokens: issued, consumed, and lost.
use remote_exec.Base.{
  ℕ, suc, ◌≡◌, ◌≢◌, refl, ◌⊎◌, Text, text_dec, none, some, [], ◌∷◌, eqb, arith, if◌then◌else◌,
}
use remote_exec.Base.Int.{pos, ◌+ℤ◌}
use remote_exec.Base.Dict.{lookup, insert, delete}
use remote_exec.Base.Base64.{encode_to_string}
use remote_exec.Error.{is_not_exist}
use remote_exec.Io.{ok}
use remote_exec.Io.World.{World, Env, Fault, step}
use remote_exec.Io.Calls.{read_file, write_file, rename, mkdir_all, attempt, random}
use remote_exec.Token.{
  Tokens, Entry, interpret, read, store, write, persist, mutate, rand_token, add_token, issue,
  take_token, consume,
}
use remote_exec.Token.Storage.{Seen, mutate_atomic}
use remote_exec.Token.Single.{consume_once}
use remote_exec.Token.Quiet.{listing, outcome, issued, issued_token}
use remote_exec.Token.Lost.{OnlyReadFails, issue_loses_tokens}
use remote_exec.Tests.Coding.{join_all, code_text, split}
use remote_exec.Tests.Formats.{
  json, json-IsFaithful, fields, entries, unary, size, sign_and_size, signed,
}
use remote_exec.Tests.Data.{calm, start}

abbrev pub path : Text
path = "tokens.json"

abbrev pub rec : Entry
rec = record { role = "a"; expiry = pos 5 }

abbrev pub tokens : Tokens
tokens = ("t", rec) ∷ []

abbrev pub encoded : Tokens → Text
encoded m = join_all ("" ∷ fields m)

-- One token is outstanding.
abbrev pub stocked : World
stocked = record { files = (path, encoded tokens) ∷ []; calls = 0 }

pub never_fails : (n : ℕ) → calm.fault n ≡ none
never_fails n = refl

pub total : (m : Tokens) → (t : Text) × (json.encode m ≡ ok t)
total m = (encoded m, refl)

pub listed : listing calm json path never_fails stocked ≡ ok tokens
unfolding interpret lookup text_dec join_all code_text fields sign_and_size unary split entries size
    signed is_not_exist
listed = refl

abbrev after_consume : World
after_consume = (consume calm json path "t" stocked).1

consume_runs : (consume calm json path "t" stocked).0 ≡ ok "a"
unfolding consume mutate mkdir_all attempt read read_file interpret lookup text_dec join_all
    code_text fields sign_and_size unary split entries size signed take_token delete persist write
    store write_file rename insert is_not_exist
consume_runs = refl

consume_once_example : (consume calm json path "t" after_consume).0 ≢ ok "a"
consume_once_example =
    consume_once calm json json-IsFaithful path "t" "a" "a" stocked after_consume consume_runs refl

nothing_listed : listing calm json path never_fails start ≡ ok []
unfolding interpret lookup is_not_exist
nothing_listed = refl

abbrev drawn : Text
drawn = "AAECAwQFBgcICQoLDA0ODxAREhMUFRYX"

abbrev after_issue : World
after_issue = (issue calm json path "a" (pos 9) start).1

issue_runs : (issue calm json path "a" (pos 9) start).0 ≡ ok drawn
unfolding issue rand_token random encode_to_string mutate mkdir_all attempt read read_file interpret
    lookup text_dec add_token persist write store write_file rename insert delete is_not_exist
issue_runs = refl

issued_token_example :
    (consume calm json path drawn after_issue).0
    ≡ outcome calm json path never_fails
        (issued calm json path never_fails "a" (pos 9) start)
        (calm.now (suc (suc (suc after_issue.calls))))
issued_token_example =
    issued_token calm json path never_fails json-IsFaithful total "a" drawn (pos 9) [] start
      after_issue nothing_listed issue_runs refl

no_files :
    (m : Tokens) (v : World) → (add_token calm json path "new" "a" (pos 9) m v).1.files ≡ v.files
unfolding add_token
no_files m v = refl

mutate_atomic_example :
    let fn = add_token calm json path "new" "a" (pos 9) in
    let left = lookup path (mutate calm json path fn stocked).1.files in
    (left ≡ lookup path stocked.files)
    ⊎ ((m : Tokens) × (t : Text) × Seen calm json path stocked m
        × (json.encode (fn m (step (step (step stocked)))).0.1 ≡ ok t)
        × (left ≡ some t))
mutate_atomic_example =
    mutate_atomic calm json path (add_token calm json path "new" "a" (pos 9)) stocked no_files

-- The fourth call fails: too many files are open.
abbrev unreadable : Fault
unreadable = record { reason = "too many open files"; part = none }

abbrev crowded : Env
crowded = record calm { fault = λ n. if eqb n 3 then some unreadable else none }

others_fine : (n : ℕ) → n ≢ 3 → crowded.fault n ≡ none
others_fine n ne = ground arith

only_read : OnlyReadFails crowded stocked
only_read = (unreadable, refl, refl, others_fine)

crowded_runs : (issue crowded json path "a" (pos 9) stocked).0 ≡ ok drawn
unfolding issue rand_token random encode_to_string mutate mkdir_all attempt read read_file interpret
    lookup text_dec add_token persist write store write_file rename insert delete is_not_exist
crowded_runs = refl

issue_loses_tokens_example :
    let alone = insert {V = Entry} drawn (record { role = "a"; expiry = pos 4 +ℤ pos 9 }) [] in
    (n : Tokens) × (lookup path (issue crowded json path "a" (pos 9) stocked).1.files
      ≡ some (encoded alone))
    × (json.decode (encoded alone) ≡ ok n)
    × ((other : Text) → other ≢ drawn → lookup other n ≡ none)
issue_loses_tokens_example =
    issue_loses_tokens crowded json path json-IsFaithful "a" drawn (pos 9) stocked only_read
      crowded_runs
      (encoded (insert {V = Entry} drawn (record { role = "a"; expiry = pos 4 +ℤ pos 9 }) [])) refl
