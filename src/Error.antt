-- ===== src/Error.antt =====
-- src/error.rs: the error of a JSON-RPC response, and the statuses that a guest sees.
use spinfoam.Prelude.{Result, ltb, if◌then◌else◌, length, take}
use spinfoam.Prelude.Int.{ℤ, neg}
use spinfoam.Text.{Text, text, boundary}
use spinfoam.Json.{Value, string, object, number, field, end}

pub record RpcError (N : Type 0) : Type 0 where
  pub code : ℤ
  pub message : Text
  pub details : Value N

-- `RpcError::new`; the field `data` is `details` here.
unfoldable pub rpc_error : {N : Type 0} → ℤ → Text → Text → RpcError N
rpc_error code kind message = record {
  code = code;
  message = if ltb 4096 (length message) then take (boundary message 4096) message else message;
  details = object (field (text "kind") (string kind) end);
}

abbrev pub RpcResult : Type 0 → Type 0
RpcResult N = Result (RpcError N) (Value N)

module _ {N : Type 0} where
  unfoldable pub params_error : Text → RpcError N
  unfolding rpc_error
  params_error message = rpc_error (neg 32602) (text "INVALID_PARAMS") message

  unfoldable pub missing_error : RpcError N
  unfolding rpc_error
  missing_error = rpc_error (neg 32004) (text "OBJECT_NOT_FOUND") (text "object does not exist")

  unfoldable pub busy_error : Text → RpcError N
  unfolding rpc_error
  busy_error message = rpc_error (neg 32001) (text "BUSY") message

  -- The derived `Serialize`: one field for each of the record's.
  abbrev pub to_json : (ℤ → N) → RpcError N → Value N
  to_json from_i64 e = object (
      field (text "code") (number (from_i64 e.code))
        (field (text "message") (string e.message) (field (text "data") e.details end)))

abbrev pub invalid : ℤ
invalid = neg 1

abbrev pub limit : ℤ
limit = neg 2

abbrev pub timeout : ℤ
timeout = neg 3

abbrev pub denied : ℤ
denied = neg 4

abbrev pub host_error : ℤ
host_error = neg 5

abbrev pub closed : ℤ
closed = neg 6
