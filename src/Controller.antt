-- ===== src/Controller.antt =====
-- cmd/rexec/controllercmds.go: the controller's commands.
pub mod Reading
pub mod EnvFlags
pub mod Commands
pub mod Agent
pub mod Relay
pub mod Admitted
pub mod Approved
pub mod Decimal
use Prim.Native.Char.{Char, code}
use Prim.Native.String.{String}
use remote_exec.Base.{
  ℕ, zero, suc, ◌/◌, ◌%◌, ltb, Text, ◌<>◌, Bool, true, false, not, ◌||◌, ◌&&◌, Option, none, some,
  List, [], ◌∷◌, ◌++◌, ◌==◌, eqb, if◌then◌else◌,
}
use remote_exec.Base.Int.{ℤ, pos, negsuc}
use remote_exec.Base.Dict.{Dict, insert}
use remote_exec.Base.Quote.{quote}
use remote_exec.Error.{Error, plain}
use remote_exec.Io.{Result, ok, err, Action, Done, pure, raise, lift, bind, ◌>>=◌, ◌>>◌}
use remote_exec.Proto.{
  ExecRequest, ApprovalRequest, ExecChunk, empty, stdout, stderr, exit_code, needs_approval,
}

-- `strings.Cut(pair, "=")`: what stands before and behind the first sign, if there is one.
abbrev prepend : Char → Option (Text × Text) → Option (Text × Text)
prepend c none = none
prepend c (some (k, v)) = some (String.◌∷◌ c k, v)

unfoldable pub cut : Text → Option (Text × Text)
cut String.[] = none
cut (String.◌∷◌ c s) =
    let rest = cut s in if eqb (code c) b'=' then some ("", s) else prepend c rest

abbrev invalid_env : Text → Error
invalid_env pair = plain ("invalid --set-env " <> quote pair <> ", want KEY=VALUE")

-- One round of the loop of `parseEnv`.
abbrev keep : Option (Text × Text) → Text → Dict Text → Result (Dict Text)
keep none pair env = err (invalid_env pair)
keep (some (k, v)) pair env = if k == "" then err (invalid_env pair) else ok (insert k v env)

parse_loop : List Text → Dict Text → Result (Dict Text)
unfolding cut
parse_loop [] env = ok env
parse_loop (pair ∷ kv) env = bind (keep (cut pair) pair env) (λ env'. parse_loop kv env')

-- `parseEnv`; a nil map reads as an empty one.
unfoldable pub parse_env : List Text → Result (Dict Text)
unfolding parse_loop
parse_env kv = parse_loop kv []

-- What the terminal shows.
pub record Terminal : Type 0 where
  pub out : Text
  pub errors : Text

-- What a stream yields: chunks, then its end or an error.
pub record Stream : Type 0 where
  pub incoming : List ExecChunk
  pub ends : Option Error

abbrev pub Consumed : Type 0
Consumed = Result (ℤ × Option ApprovalRequest) × Terminal

-- The loop of `consumeStream`, from the exit code so far.
unfoldable pub consume_loop : List ExecChunk → Option Error → ℤ → Terminal → Consumed
consume_loop [] none exit t = (ok (exit, none), t)
consume_loop [] (some e) exit t = (err e, t)
consume_loop (empty ∷ rest) e exit t = consume_loop rest e exit t
consume_loop (stdout b ∷ rest) e exit t = consume_loop rest e exit (record t { out = t.out <> b })
consume_loop (stderr b ∷ rest) e exit t =
    consume_loop rest e exit (record t { errors = t.errors <> b })
consume_loop (exit_code n ∷ rest) e exit t = consume_loop rest e n t
consume_loop (needs_approval a ∷ rest) e exit t = (ok (exit, some a), t)

-- `consumeStream`
unfoldable pub consume_stream : Stream → Terminal → Consumed
unfolding consume_loop
consume_stream s t = consume_loop s.incoming s.ends (pos 0) t

-- `%d` of an `int`: twenty digits are enough for 64 bits.
digit : ℕ → Text
digit n =
    if eqb n 0
    then "0"
    else if eqb n 1
    then "1"
    else if eqb n 2
    then "2"
    else if eqb n 3
    then "3"
    else if eqb n 4
    then "4"
    else if eqb n 5
    then "5"
    else if eqb n 6
    then "6"
    else if eqb n 7
    then "7"
    else if eqb n 8
    then "8"
    else "9"

decimal : ℕ → ℕ → Text
unfolding digit
decimal zero n = ""
decimal (suc fuel) n =
    let front = decimal fuel (n / 10) in if ltb n 10 then digit n else front <> digit (n % 10)

unfoldable pub format_int : ℤ → Text
unfolding decimal
format_int (pos n) = decimal 20 n
format_int (negsuc n) = "-" <> decimal 20 (suc n)

-- The client's side of a connection: dialling it, and opening a call's stream.
pub record Remote (S : Type 0) : Type 0 where
  pub dial : Action S Done
  pub run : ExecRequest → Action S Stream
  pub deploy : ExecRequest → Action S Stream

pub record Client (S : Type 0) : Type 0 where
  pub remote : S
  pub terminal : Terminal

-- The flags and arguments of `exec run` and `exec deploy`: cobra's `MinimumNArgs(1)` has seen to
-- the command.
pub record Options : Type 0 where
  pub work_dir : Text
  pub env_kv : List Text
  pub approval_id : Text
  pub auto_yes : Bool
  pub command : Text
  pub args : List Text

module _ {S : Type 0} (remote : Remote S) where
  abbrev on_remote : {A : Type 0} → Action S A → Action (Client S) A
  on_remote call c = let (r, s) = call c.remote in (r, record c { remote = s })

  abbrev on_terminal : {A : Type 0} → (Terminal → Result A × Terminal) → Action (Client S) A
  on_terminal call c = let (r, t) = call c.terminal in (r, record c { terminal = t })

  -- `fmt.Fprintf(os.Stdout, ...)` and `cmd.PrintErrf`
  abbrev print : Text → Action (Client S) Done
  print line = on_terminal (λ t. (ok tt, record t { out = t.out <> line }))

  abbrev print_err : Text → Action (Client S) Done
  print_err line = on_terminal (λ t. (ok tt, record t { errors = t.errors <> line }))

  abbrev pub request : Options → Dict Text → Text → ExecRequest
  request o env id = record {
    command = o.command;
    args = o.args;
    working_dir = o.work_dir;
    env = env;
    approval_id = id;
  }

  abbrev pub check_exit : ℤ → Result Done
  check_exit (pos zero) = ok tt
  check_exit n = err (plain ("remote command exited with code " <> format_int n))

  -- The `send` of `execDeployCmd`.
  unfoldable pub send : Options → Dict Text → Text → Action (Client S) (ℤ × Option ApprovalRequest)
  send o env id = do
    stream ← on_remote (remote.deploy (request o env id))
    on_terminal (consume_stream stream)

  abbrev required : ApprovalRequest → Text
  required a =
      "APPROVAL_REQUIRED approval_id="
      <> a.approval_id
      <> " operation="
      <> quote a.operation
      <> " reason="
      <> quote a.reason
      <> "\n"

  abbrev pub needs : ApprovalRequest → Error
  needs a = plain (
      "destructive operation needs approval; re-run with --approval " <> a.approval_id
      <> " (or --yes)")

  -- The answer to the call that was made with `--yes`.
  abbrev second : ℤ × Option ApprovalRequest → Action (Client S) Done
  second (code, none) = lift (check_exit code)
  second (code, some a) = raise (plain "agent still requests approval after --yes; aborting")

  abbrev pub auto_approving : ApprovalRequest → Text
  auto_approving a =
      "policy requires approval for " <> quote a.operation <> " — auto-approving (--yes)\n"

  abbrev first : Options → Dict Text → ℤ × Option ApprovalRequest → Action (Client S) Done
  first o env (code, none) = lift (check_exit code)
  first o env (code, some a) =
      if not o.auto_yes
      then print (required a) >>= (λ done. raise (needs a))
      else print_err (auto_approving a) >>= (λ done. send o env a.approval_id >>= second)

  -- `execDeployCmd`
  unfoldable pub exec_deploy : Options → Action (Client S) Done
  exec_deploy o = do
    env ← lift (parse_env o.env_kv)
    on_remote remote.dial >>= λ done. send o env o.approval_id >>= first o env

  -- `execRunCmd`, which drops an approval request.
  unfoldable pub exec_run : Options → Action (Client S) Done
  exec_run o = do
    env ← lift (parse_env o.env_kv)
    on_remote remote.dial >>= λ done. do
      stream ← on_remote (remote.run (request o env ""))
      (code, approval) ← on_terminal (consume_stream stream)
      lift (check_exit code)
