-- ===== src/Protocol/Serve.antt =====
-- The loop of `serve_with_config` in src/protocol.rs: what an incoming frame is, which requests are
-- admitted, and their tasks up to their ends.
use spinfoam.Prelude.{
  ℕ, ◌+◌, ◌-◌, Bool, true, false, not, ◌&&◌, ◌||◌, List, [], ◌∷◌, Option, none, some, Result, ok,
  err, ltb, leb, if◌then◌else◌, ite, length, insert, remove, without, count,
}
use spinfoam.Prelude.Int.{neg}
use spinfoam.Text.{Text, text, text_discrete}
use spinfoam.Json.{Value, null, string, object, end, get, get_str, as_str}
use spinfoam.Error.{RpcError, RpcResult, rpc_error, busy_error}
use spinfoam.Outbox.Queues.{Bytes, Outbox, Poll, pending, SendError}
use spinfoam.Outbox.Frames.{control_frame, poll_control, try_control}
use spinfoam.Host.Calls as Calls
use spinfoam.Runtime.Table.{Runtime, System}
use spinfoam.Protocol.Methods.{
  Codec, Service, Handled, replied, loads, stops, compiles, fails_here, Method, method_of,
  shutdown_now, build_compile, handle, response,
}

-- How far the task of a request is: not polled yet, in `handle`, or with a result that it sends.
pub data Stage (N : Type 0) : Type 0 where
  unhandled handling : Stage N
  answering : RpcResult N → Stage N

pub record Request (N : Type 0) : Type 0 where
  pub method : Text
  pub params : Value N
  pub permit : Bool
  pub stage : Stage N

-- `ids` is the set of the outstanding IDs, `used` counts the slots that are taken, `tasks` are those
-- of the `JoinSet` under their requests' IDs, and `left` tells whether the loop was left.
pub record Serving (N : Type 0) : Type 0 where
  pub service : Service N
  pub ids : List Text
  pub used : ℕ
  pub tasks : List (Text × Request N)
  pub left : Bool

pub data Incoming (N : Type 0) : Type 0 where
  rejects : RpcError N → Incoming N
  answers ignores : Incoming N
  requests : Text → Value N → Text → Incoming N

abbrev pub slots : ℕ
slots = 48

abbrev pub contains : Text → List Text → Bool
contains id ids = ltb 0 (count text_discrete id ids)

abbrev pub add_id : Text → List Text → List Text
add_id id ids = if contains id ids then ids else id ∷ ids

abbrev pub is_version : Option Text → Bool
is_version none = false
is_version (some s) = ite (text_discrete s (text "2.0")) true false

module _ {N : Type 0} where
  abbrev pub invalid_request : Text → RpcError N
  invalid_request message = rpc_error (neg 32600) (text "INVALID_REQUEST") message

  abbrev pub is_object : Value N → Bool
  is_object (object fs) = true
  is_object _ = false

  abbrev pub is_there : Option (Value N) → Bool
  is_there none = false
  is_there (some v) = true

  abbrev pub params_of : Option (Value N) → Value N
  params_of none = object end
  params_of (some v) = v

  -- An ID, where there is one, is a string of at most 128 bytes.
  abbrev pub with_id : Text → Value N → Option (Value N) → Incoming N
  with_id method params none = ignores
  with_id method params (some id) = elim (as_str id) [
    | none ↦ rejects (invalid_request (text "IDs must be strings up to 128 bytes"))
    | some s ↦
        if ltb 128 (length s)
        then rejects (invalid_request (text "IDs must be strings up to 128 bytes"))
        else requests method params s
  ]

  -- What a frame is, by the fields that it has.
  unfoldable pub classify : Value N → Incoming N
  unfolding text_discrete
  classify v =
      if not (is_object v) || not (is_version (get_str v (text "jsonrpc")))
      then rejects (invalid_request (text "expected JSON-RPC 2.0 object"))
      else if not (is_there (get v (text "method")))
          && is_there (get v (text "id"))
          && (is_there (get v (text "result")) || is_there (get v (text "error")))
      then answers
      else elim (get_str v (text "method")) [
        | none ↦ rejects (invalid_request (text "method must be a string"))
        | some method ↦ with_id method (params_of (get v (text "params"))) (get v (text "id"))
      ]

  abbrev pub put_runtime : Runtime N → Serving N → Serving N
  put_runtime rt s = record s { service = record s.service { runtime = rt } }

  abbrev pub put_out : Outbox → Runtime N → Runtime N
  put_out o rt = record rt { host = record rt.host { out = o } }

  -- `tasks.spawn_local`, with the ID and the slot of the request.
  abbrev pub spawn : Text → Value N → Bool → Text → Serving N → Serving N
  spawn method params permit id s = record s {
    ids = add_id id s.ids;
    used = if permit then s.used + 1 else s.used;
    tasks =
        (id, record { method = method; params = params; permit = permit; stage = unhandled })
        ∷ s.tasks;
  }

  abbrev pub set_stage : Text → Request N → Stage N → Serving N → Serving N
  set_stage id r stage s = record s {
    tasks = insert text_discrete id (record r { stage = stage }) s.tasks;
  }

  -- The end of a request's task: its slot and its ID are free again.
  abbrev pub free : Text → Request N → Serving N → Serving N
  free id r s = record s {
    ids = without text_discrete id s.ids;
    used = if r.permit then s.used - 1 else s.used;
    tasks = remove text_discrete id s.tasks;
  }

  -- `tasks.abort_all()`, behind the loop.
  abbrev pub abort_all : Serving N → Serving N
  abort_all s = record s { ids = []; used = 0; tasks = []; left = true }

  abbrev pub is_shutdown : Method → RpcResult N → Bool
  is_shutdown shutdown_now (ok v) = true
  is_shutdown _ _ = false

  -- `handle` up to its await. A task that fails ends, and the loop is left.
  abbrev pub handled : Text → Request N → Handled N → Serving N → Serving N
  handled id r (replied x) s = set_stage id r (answering x) s
  handled id r fails_here s = record (free id r s) { left = true }
  handled id r (loads serial l bytes) s = set_stage id r handling s
  handled id r (stops k unload) s = set_stage id r handling s
  handled id r (compiles params) s = set_stage id r handling s

  -- The task's end, with its result.
  abbrev pub task_ends : Text → Request N → RpcResult N → Serving N → Serving N
  task_ends id r x s = record (free id r s) {
    service = record s.service {
      shutdown = s.service.shutdown || is_shutdown (method_of r.method) x;
    };
  }

  -- A poll of `out.control(response(id, result))`, and the task's end where it is done.
  abbrev pub answer_polled :
      Text → Request N → RpcResult N → Serving N → Poll (Result SendError (Unit {0})) → Serving N
  answer_polled id r x s pending = s
  answer_polled id r x s _ = task_ends id r x s

module _ {N : Type 0} (y : System N) (codec : Codec N) where
  -- `out.try_control(response(id, Err(e)))`: where it fails, the loop is left.
  unfoldable pub answer_now : Value N → RpcError N → Serving N → Serving N
  unfolding try_control
  answer_now id e s =
      let (out, sent) =
        try_control y.to_vec (response y codec id (err e)) s.service.runtime.host.out in
      record (put_runtime (put_out out s.service.runtime) s) { left = s.left || not sent }

  unfoldable pub admit : Text → Value N → Text → Serving N → Serving N
  unfolding answer_now method_of
  admit method params id s =
      if contains id s.ids
      then answer_now (string id)
          (rpc_error (neg 32600) (text "DUPLICATE_ID") (text "request ID already outstanding")) s
      else elim (method_of method) [
        | build_compile ↦ spawn method params false id s
        | _ ↦
            if leb slots s.used
            then answer_now (string id) (busy_error (text "too many requests")) s
            else spawn method params true id s
      ]

  abbrev pub take_in : Value N → Incoming N → Serving N → Serving N
  take_in v (rejects e) s = answer_now null e s
  take_in v answers s =
      put_runtime
        (record s.service.runtime { host = Calls.response y.to_vec v s.service.runtime.host }) s
  take_in v ignores s = s
  take_in v (requests method params id) s = admit method params id s

  -- A whole frame, as `serde_json::from_slice` reads it. Which bytes are a frame is for the calls of
  -- `frame`: one that the loop drops in mid-line loses the bytes it read (`frame_dropped` of Framing),
  -- and the next frame is then the rest of that line.
  unfoldable pub incoming : (Bytes → Result Text (Value N)) → Bytes → Serving N → Serving N
  unfolding admit classify Calls.response
  incoming parse bytes s = elim (parse bytes) [
    | err e ↦ answer_now null (rpc_error (neg 32700) (text "PARSE_ERROR") e) s
    | ok v ↦ take_in v (classify v) s
  ]

  unfoldable pub task_handles : ℕ → Text → Request N → Serving N → Serving N
  unfolding handle
  task_handles uptime id r s =
      let (service, h) = handle y codec uptime (method_of r.method) r.params s.service in
      handled id r h (record s { service = service })

  unfoldable pub task_answers : Text → Request N → RpcResult N → Serving N → Serving N
  unfolding poll_control control_frame method_of
  task_answers id r x s =
      elim (control_frame y.to_vec y.from_i64 (response y codec (string id) x)) [
        | err e ↦ task_ends id r x s
        | ok bytes ↦
            let (out, p) = poll_control bytes s.service.runtime.host.out in
            answer_polled id r x (put_runtime (put_out out s.service.runtime) s) p
      ]
