-- ===== src/Controller/Relay.antt =====
-- `exec run` against the agent's `Run`: the connection between them hands over what one side sends.
use mathlib.Core.List.{append_assoc, append-nil}
use remote_exec.Base.{
  ◌+◌, ◌%◌, ◌^◌, ◌≡◌, ◌≢◌, refl, ◌∙◌, Text, Bool, true, false, Option, none, some, List, [], ◌∷◌,
  ◌++◌, arith,
}
use remote_exec.Base.Int.{ℤ, pos_part, neg_part}
use remote_exec.Base.Dict.{Dict}
use remote_exec.Error.{Error}
use remote_exec.Io.{Result, ok, err, Done}
use remote_exec.Execute.{Exit, exited, started, none_yet, copy, write, chunk_of, command_of, run}
use remote_exec.Policy.Grants.{Grants}
use remote_exec.Proto.{ExecRequest, ExecChunk, exit_code}
use remote_exec.AgentServer.{Host, Session, int32, emit, send, chunk_message, spec_of, run_stream}
use remote_exec.AgentServer.ExitCode.{IsInt32, int32-IsInt32}
use remote_exec.Controller.{
  Stream, Client, Remote, Options, parse_env, request, check_exit, exec_run,
}
use remote_exec.Controller.Reading.{messages, shows, consume_run}

-- How a call ends at the client: at the error that the handler returned, if it returned one.
abbrev pub ending_of : Result Done → Option Error
ending_of (ok _) = none
ending_of (err e) = some e

-- The stream that the client of a handler's call reads.
abbrev pub stream_of : Result Done × Session → Stream
stream_of (r, c) = record { incoming = c.sent; ends = ending_of r }

-- Nothing was sent on a call that begins.
abbrev pub opened : Grants → Session
opened g = record { grants = g; sent = [] }

-- A connection that does not fail, to an agent on that host.
pub record Relays {S : Type 0} (host : Host) (remote : Remote S) : Type 0 where
  pub unbroken : (sent : List ExecChunk) → host.broken sent ≡ none
  pub dials : (s : S) → remote.dial s ≡ (ok tt, s)
  pub runs :
      (req : ExecRequest) (s : S)
      → (g : Grants) × (s' : S) × (remote.run req s
          ≡ (ok (stream_of (run_stream host req (opened g))), s'))

module _ (host : Host) (unbroken : (sent : List ExecChunk) → host.broken sent ≡ none) where
  emit_one :
      (side : Bool) (p : Text) (c : Session)
      → write (emit host) side p c
        ≡ (ok tt, record c { sent = c.sent ++ chunk_message (chunk_of side p) ∷ [] })
  unfolding write emit send
  emit_one side p c = ground (arith, unbroken c.sent)

  copy-emit :
      (output : List (Bool × Text)) (c : Session)
      → copy (emit host) output none_yet c
        ≡ (none_yet, record c { sent = c.sent ++ messages output })
  unfolding copy
  copy-emit [] c = rw append-nil refl
  copy-emit ((false, p) ∷ rest) c = rw (emit_one false p c) (
      copy-emit rest (record c { sent = c.sent ++ chunk_message (chunk_of false p) ∷ [] })
      ∙ rw append_assoc refl)
  copy-emit ((true, p) ∷ rest) c = rw (emit_one true p c) (
      copy-emit rest (record c { sent = c.sent ++ chunk_message (chunk_of true p) ∷ [] })
      ∙ rw append_assoc refl)

  module _ (req : ExecRequest) (named : req.command ≢ "") (output : List (Bool × Text))
      (ending : Bool → Exit) (code : ℤ)
      (starts : host.launch
          (command_of host.environ host.range host.launch (emit host) (spec_of host req))
        ≡ started output ending)
      (ends : ending false ≡ exited code) where
    pub run_stream_relayed :
        (c : Session)
        → run_stream host req c
          ≡ (ok tt, record c { sent = (c.sent ++ messages output) ++ exit_code (int32 code) ∷ [] })
    unfolding run_stream run send
    run_stream_relayed c = ground (arith, copy-emit output c, unbroken (c.sent ++ messages output))

    -- Over a connection that does not fail, the chunks of a `Run` of a named command, whose process
    -- starts and exits with a code, end with one exit code. It is an int32 and differs from the
    -- process's code by a multiple of 2^32; a code that fits is sent as it is.
    pub run_stream_exit_code :
        (c : Session)
        → (n : ℤ) × (run_stream host req c
            ≡ (ok tt, record c { sent = (c.sent ++ messages output) ++ exit_code n ∷ [] }))
          × IsInt32 n
          × ((pos_part code + neg_part n) % 2 ^ 32 ≡ (pos_part n + neg_part code) % 2 ^ 32)
          × (IsInt32 code → n ≡ code)
    run_stream_exit_code c =
        let (fits, congruent, same) = int32-IsInt32 code in
        (int32 code, run_stream_relayed c, fits, congruent, same)

-- Over a connection that does not fail, `exec run` shows what the command wrote to stdout and to
-- stderr, each whole and in order, and succeeds if the exit code, in 32 bits, is 0; else its error
-- names the code. The command is not empty, its variables are well-formed, and its process starts and
-- exits with a code.
pub exec_run_relayed :
    {S : Type 0} (host : Host) (remote : Remote S)
    → Relays host remote
    → (o : Options) (env : Dict Text) (output : List (Bool × Text)) (ending : Bool → Exit)
      (code : ℤ) (c : Client S)
    → parse_env o.env_kv ≡ ok env
    → o.command ≢ ""
    → host.launch (
        command_of host.environ host.range host.launch
          (emit host)
          (spec_of host (request remote o env "")))
      ≡ started output ending
    → ending false ≡ exited code
    → let (r, c') = exec_run remote o c in
      (r ≡ check_exit remote (int32 code)) × (c'.terminal ≡ shows c.terminal output)
unfolding exec_run
exec_run_relayed host remote relays o env output ending code c parsed named starts ends =
    let (g, s', runs) = relays.runs (request remote o env "") c.remote in
    ground (
      arith,
      relays.dials c.remote,
      run_stream_relayed host relays.unbroken (request remote o env "") named output ending code
          starts ends (opened g),
      consume_run output (int32 code) c.terminal,
    )
