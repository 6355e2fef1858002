-- ===== src/Daemon/Counting.antt =====
-- How often an approval was handed out and used, as the answers show it.
use remote_exec.Base.{ℕ, ◌+◌, Text, Bool, true, false, List, [], ◌∷◌, ◌==◌, if◌then◌else◌}
use remote_exec.Error.{Code, Error, status}
use remote_exec.Io.{Result, ok, err, Done}
use remote_exec.Proto.{ExecChunk, needs_approval}
use remote_exec.Daemon.{Call, deploying, Answer, streamed, Served}

-- An error with one of the two codes of a refusal.
abbrev pub refuses : Error → Bool
refuses (status Code.permission_denied text) = true
refuses (status Code.unauthenticated text) = true
refuses e = false

abbrev pub accepted : Result Done → ℕ
accepted (ok _) = 1
accepted (err e) = if refuses e then 0 else 1

-- The requests for approval in a stream that name the id.
unfoldable pub asked_in : Text → List ExecChunk → ℕ
asked_in id [] = 0
asked_in id (needs_approval a ∷ rest) = (if id == a.approval_id then 1 else 0) + asked_in id rest
asked_in id (_ ∷ rest) = asked_in id rest

-- 1 for a Deploy that carried the id and was not refused.
abbrev pub used_in : Text → Call → Answer → ℕ
used_in id (deploying req) (streamed r sent) = if id == req.approval_id then accepted r else 0
used_in id call answer = 0

abbrev pub handed_in : Text → Answer → ℕ
handed_in id (streamed r sent) = asked_in id sent
handed_in id answer = 0

unfoldable pub deploys : Text → List Served → ℕ
deploys id [] = 0
deploys id (e ∷ log) = used_in id e.call e.answer + deploys id log

unfoldable pub requests : Text → List Served → ℕ
requests id [] = 0
requests id (e ∷ log) = handed_in id e.answer + requests id log
