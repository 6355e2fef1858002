-- ===== src/Error.antt =====
-- Go's `error` values: the sentinels of the program, what `fmt.Errorf("...: %w", err)`,
-- `errors.Join` and gRPC's `status.Error` build, and the text that `Error()` returns.
-- An error of the standard library or of another module is the text that it prints.
use remote_exec.Base.{Text, ◌<>◌, Bool, true, false, ◌||◌}

-- The `errors.New` variables that callers compare with.
pub data Sentinel : Type 0 where
  unknown_token token_expired no_grant grant_expired : Sentinel
  command_mismatch no_client_cert invalid_pem incomplete : Sentinel

-- google.golang.org/grpc/codes, as far as the program uses them.
pub data Code : Type 0 where
  permission_denied unauthenticated internal : Code

pub data Error : Type 0 where
  sentinel : Sentinel → Error
  -- a failed system call other than `os.ErrNotExist`, or an error of a library
  plain : Text → Error
  not_exist : Error
  -- `fmt.Errorf` with a `%w` at its end
  wrap : Text → Error → Error
  -- `errors.Join` of two errors
  join : Error → Error → Error
  status : Code → Text → Error

abbrev sentinel_text : Sentinel → Text
sentinel_text Sentinel.unknown_token = "token: unknown token"
sentinel_text Sentinel.token_expired = "token: expired"
sentinel_text Sentinel.no_grant = "policy: unknown approval id"
sentinel_text Sentinel.grant_expired = "policy: approval expired"
sentinel_text Sentinel.command_mismatch = "policy: approval does not match command"
sentinel_text Sentinel.no_client_cert = "authz: no verified client certificate"
sentinel_text Sentinel.invalid_pem = "pki: invalid or empty PEM data"
sentinel_text Sentinel.incomplete = "clientconfig: incomplete credential"

abbrev code_text : Code → Text
code_text Code.permission_denied = "PermissionDenied"
code_text Code.unauthenticated = "Unauthenticated"
code_text Code.internal = "Internal"

-- `err.Error()`
unfoldable pub message : Error → Text
message (sentinel s) = sentinel_text s
message (plain t) = t
message not_exist = "file does not exist"
message (wrap prefix e) = prefix <> message e
message (join a b) = message a <> "\n" <> message b
message (status c t) = "rpc error: code = " <> code_text c <> " desc = " <> t

-- `errors.Is(err, os.ErrNotExist)`
unfoldable pub is_not_exist : Error → Bool
is_not_exist not_exist = true
is_not_exist (wrap _ e) = is_not_exist e
is_not_exist (join a b) = is_not_exist a || is_not_exist b
is_not_exist _ = false
