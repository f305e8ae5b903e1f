-- ===== src/Server/Reply.antt =====
-- What an HTTP handler answers: internal/server/handlers/response.go, and the errors of kv.go.
use cluster_db.Prelude.{ℕ, Bool, Option, none, some, ◌++◌, if◌then◌else◌}
use cluster_db.Prelude.Bytes.{Bytes, text, bytes_eq}
use cluster_db.Storage.Types.{Error, key_not_found, engine_closed, invalid_key, nil_value}
use cluster_db.Storage.Manager.{ManagerError, wrapped}

-- A status with a body, or WriteJSON of a status with an object that has an error text.
pub data Reply : Type 0 where
  answered : ℕ → Bytes → Reply
  refused : ℕ → Bytes → Reply

-- An error of a call to a peer: whether `errors.Is` finds the two errors of the package context in
-- it, and its text.
pub record RpcError : Type 0 where
  pub canceled : Bool
  pub deadline : Bool
  pub message : Bytes

-- The errors that kv.go hands to writeStorageError: those of the storage manager, the sentinels
-- that mapRemoteError gives, and a text.
pub data StorageFailure : Type 0 where
  of_manager : ManagerError → StorageFailure
  of_sentinel : Error → StorageFailure
  engine_not_open : StorageFailure
  of_text : Bytes → StorageFailure

-- The sentinel of internal/storage that `errors.Is` finds.
unfoldable pub sentinel_of : StorageFailure → Option Error
sentinel_of (of_manager (wrapped prefix e)) = some e
sentinel_of (of_manager _) = none
sentinel_of (of_sentinel e) = some e
sentinel_of engine_not_open = none
sentinel_of (of_text s) = none

abbrev reply_to : Option Error → Reply
reply_to (some key_not_found) = refused 404 (text "key not found")
reply_to (some invalid_key) = refused 400 (text "invalid key")
reply_to (some nil_value) = refused 400 (text "invalid value")
reply_to _ = refused 500 (text "storage error")

-- writeStorageError. The engine heeds no context, and mapRemoteError gives none of its errors, so
-- the two cases for those do not arise.
unfoldable pub write_storage_error : StorageFailure → Reply
unfolding sentinel_of
write_storage_error e = reply_to (sentinel_of e)

-- writeGatewayError
unfoldable pub write_gateway_error : RpcError → Reply
write_gateway_error e =
    if e.canceled
    then refused 408 (text "request canceled")
    else if e.deadline
    then refused 504 (text "request timed out")
    else refused 502 (text "routing request to owner failed: " ++ e.message)

-- mapRemoteError
unfoldable pub map_remote_error : Bytes → StorageFailure
map_remote_error s =
    if bytes_eq s (text "storage: key not found")
    then of_sentinel key_not_found
    else if bytes_eq s (text "storage: invalid key")
    then of_sentinel invalid_key
    else if bytes_eq s (text "storage: nil value")
    then of_sentinel nil_value
    else if bytes_eq s (text "storage: engine is closed")
    then of_sentinel engine_closed
    else if bytes_eq s (text "storage: engine is not open")
    then engine_not_open
    else of_text s
