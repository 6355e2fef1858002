-- ===== src/Identity.antt =====
-- internal/identity/identity.go: the agent's id, made once and kept in a file.
pub mod Stable
use remote_exec.Base.{ℕ, Text, ◌<>◌, Bool, Option, none, some, ◌==◌, if◌then◌else◌}
use remote_exec.Base.Quote.{quote}
use remote_exec.Base.Trim.{trim_space}
use remote_exec.Error.{Error, plain, wrap, is_not_exist}
use remote_exec.Io.{Result, ok, err, Action, pure, raise, on_error, ◌>>=◌, ◌>>◌}
use remote_exec.Io.World.{World, Env, step}
use remote_exec.Io.Calls.{Read, read_file, write_file, mkdir_all}

-- `uuid` is github.com/google/uuid's `NewString`, at the n-th call of the process.
module _ (env : Env) (uuid : ℕ → Text) (path : Text) where
  unfoldable pub generate : Action World Text
  unfolding mkdir_all write_file
  generate w =
      let id = uuid w.calls in
      (do
        on_error (wrap "identity: mkdir: ") (mkdir_all env)
        on_error (wrap "identity: write id: ") (write_file env path (id <> "\n"))
        pure id)
        (step w)

  abbrev checked : Text → Action World Text
  checked id =
      if id == "" then raise (plain ("identity: empty id file " <> quote path)) else pure id

  abbrev after_read : Option Error → Text → Action World Text
  after_read none contents = checked (trim_space contents)
  after_read (some e) contents =
      if is_not_exist e then generate else raise (wrap "identity: read id: " e)

  -- `AgentID`
  unfoldable pub agent_id : Action World Text
  unfolding read_file is_not_exist
  agent_id w = let (r, w') = read_file env path w in after_read r.failure r.contents w'
