-- ===== src/Controller/Reading.antt =====
-- The reader of a stream against its writer on the agent: every piece of output reaches its side of
-- the terminal, in order, and the exit code its caller.
use text.Mathlib.TextLemmas.{append_assoc, append-nil}
use remote_exec.Base.{
  ◌≡◌, sym, ap, ◌∙◌, Text, ◌<>◌, Bool, true, false, Option, none, some, List, [], ◌∷◌, ◌++◌, map,
}
use remote_exec.Base.Int.{ℤ, pos}
use remote_exec.Error.{Error}
use remote_exec.Io.{ok}
use remote_exec.Execute.Order.{chunks}
use remote_exec.AgentServer.{chunk_message}
use remote_exec.Proto.{ExecChunk, ApprovalRequest, exit_code, needs_approval}
use remote_exec.Controller.{Terminal, Consumed, consume_loop, consume_stream}

-- What a process wrote to one of its streams, in one piece.
abbrev pub written : Bool → List (Bool × Text) → Text
written side [] = ""
written true ((true, p) ∷ rest) = p <> written true rest
written true ((false, p) ∷ rest) = written true rest
written false ((false, p) ∷ rest) = p <> written false rest
written false ((true, p) ∷ rest) = written false rest

-- The messages that the agent makes of a process's output.
abbrev pub messages : List (Bool × Text) → List ExecChunk
messages output = map chunk_message (chunks output)

abbrev pub shows : Terminal → List (Bool × Text) → Terminal
shows t output = record {
  out = t.out <> written false output;
  errors = t.errors <> written true output;
}

shows_nil : (t : Terminal) → shows t [] ≡ t
shows_nil t = λ i. record { out = append-nil t.out i; errors = append-nil t.errors i }

consume_messages :
    (output : List (Bool × Text)) (tail_ : List ExecChunk) (ends : Option Error) (exit : ℤ)
    (t : Terminal)
    → consume_loop (messages output ++ tail_) ends exit t
      ≡ consume_loop tail_ ends exit (shows t output)
unfolding consume_loop
consume_messages [] tail_ ends exit t =
    ap (λ (u : Terminal). consume_loop tail_ ends exit u) (sym (shows_nil t))
consume_messages ((false, p) ∷ rest) tail_ ends exit t =
    consume_messages rest tail_ ends exit (record t { out = t.out <> p })
    ∙ ap
        (λ (s : Text).
          consume_loop tail_ ends exit (record { out = s; errors = t.errors <> written true rest }))
        (append_assoc t.out p (written false rest))
consume_messages ((true, p) ∷ rest) tail_ ends exit t =
    consume_messages rest tail_ ends exit (record t { errors = t.errors <> p })
    ∙ ap
        (λ (s : Text).
          consume_loop tail_ ends exit (record { out = t.out <> written false rest; errors = s }))
        (append_assoc t.errors p (written true rest))

-- The stream of a finished command: the controller returns its exit code, and its terminal shows
-- what the process wrote to stdout and to stderr, each whole and in order.
pub consume_run :
    (output : List (Bool × Text)) (code : ℤ) (t : Terminal)
    → consume_stream (record { incoming = messages output ++ exit_code code ∷ []; ends = none }) t
      ≡ (
        ok (code, none),
        record { out = t.out <> written false output; errors = t.errors <> written true output },
      )
unfolding consume_stream
consume_run output code t = consume_messages output (exit_code code ∷ []) none (pos 0) t

-- A request for approval ends the reading: what the agent might send behind it is not read.
pub consume_ask :
    (output : List (Bool × Text)) (a : ApprovalRequest) (behind : List ExecChunk)
    (ends : Option Error) (t : Terminal)
    → (consume_stream
        (record { incoming = messages output ++ needs_approval a ∷ behind; ends = ends })
        t).0
      ≡ ok (pos 0, some a)
unfolding consume_stream
consume_ask output a behind ends t =
    ap (λ (r : Consumed). r.0) (consume_messages output (needs_approval a ∷ behind) ends (pos 0) t)
