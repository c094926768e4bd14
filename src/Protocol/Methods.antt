-- ===== src/Protocol/Methods.antt =====
-- `Service` of src/protocol.rs: `handle` with its methods, each up to its await.
use spinfoam.Prelude.{
  ℕ, Bool, true, false, not, ◌||◌, List, Option, Result, ok, err, ltb, ◌==◌, if◌then◌else◌, ite,
  length,
}
use spinfoam.Prelude.Int.{pos, neg}
use spinfoam.Text.{Text, text, text_discrete}
use spinfoam.Json.{Value, boolean, number, string, object, field, end}
use spinfoam.Error.{RpcError, RpcResult, rpc_error, params_error, busy_error, to_json}
use spinfoam.Outbox.Queues.{Bytes, max_frame}
use spinfoam.Outbox.Frames as Frames
use spinfoam.Host.Calls as Calls
use spinfoam.Mailbox as Mailbox
use spinfoam.Mailbox.{max_value_bytes}
use spinfoam.Helpers.Values.{valid_value}
use spinfoam.Helpers.Table.{Capability}
use spinfoam.Build.Requests.{Builds, info}
use spinfoam.Runtime.Table.{
  Runtime, System, Outcome, replies, waits, panics_here, status, get, load_begin, start_object,
  deliver_to,
}
use spinfoam.Runtime.Stop.{stop_begin}
use spinfoam.Protocol.Listing.{listed_only, object_list}

-- `Event` of `sf.event.deliver`
pub record Event (N : Type 0) : Type 0 where
  pub object_id : Text
  pub event_id : Text
  pub topic : Text
  pub payload : Value N

-- `Load` of `sf.object.load`
pub record Load (N : Type 0) : Type 0 where
  pub elf : Text
  pub config : Value N
  pub capabilities : List (Capability N)

-- `List` of `sf.object.list`
pub record Range : Type 0 where
  pub after : Option Text
  pub limit : ℕ

abbrev pub page_size : ℕ
page_size = 100

-- What the methods call of other crates: the derived decoders, base64, and the names of the target.
-- `decode_range` takes the default of `limit`.
pub record Codec (N : Type 0) : Type 0 where
  pub decode_version : Value N → Result Text ℕ
  pub decode_load : Value N → Result Text (Load N)
  pub decode_id : Value N → Result Text Text
  pub decode_range : ℕ → Value N → Result Text Range
  pub decode_event : Value N → Result Text (Event N)
  pub base64 : Text → Result Text Bytes
  pub target : Text

pub record Service (N : Type 0) : Type 0 where
  pub runtime : Runtime N
  pub builds : Builds N
  pub initialized : Bool
  pub shutdown : Bool

-- What `handle` comes to: a reply, the failed `expect` of `start`, or one of its awaits: of a load
-- with its serial number, of a `stop`, or of a compilation.
pub data Handled (N : Type 0) : Type 0 where
  replied : RpcResult N → Handled N
  loads : ℕ → Load N → Bytes → Handled N
  stops : Text → Bool → Handled N
  compiles : Value N → Handled N
  fails_here : Handled N

pub data Method : Type 0 where
  initialize object_load object_start object_stop object_unload object_get list_objects : Method
  event_deliver stats_of shutdown_now build_compile unknown : Method

abbrev is : Text → Text → Bool
is a b = ite (text_discrete a b) true false

-- The strings of the two `match`es.
unfoldable pub method_of : Text → Method
unfolding text_discrete
method_of m =
    if is m (text "sf.initialize")
    then initialize
    else if is m (text "sf.object.load")
    then object_load
    else if is m (text "sf.object.start")
    then object_start
    else if is m (text "sf.object.stop")
    then object_stop
    else if is m (text "sf.object.unload")
    then object_unload
    else if is m (text "sf.object.get")
    then object_get
    else if is m (text "sf.object.list")
    then list_objects
    else if is m (text "sf.event.deliver")
    then event_deliver
    else if is m (text "sf.stats")
    then stats_of
    else if is m (text "sf.shutdown")
    then shutdown_now
    else if is m (text "sf.build.compile")
    then build_compile
    else unknown

module _ {N : Type 0} where
  abbrev pub is_empty_object : Value N → Bool
  is_empty_object (object end) = true
  is_empty_object _ = false

  -- `empty`
  abbrev pub empty_or : Value N → RpcResult N → RpcResult N
  empty_or params r =
      if is_empty_object params then r else err (params_error (text "expected empty parameters"))

  -- `decode` with what the method does with the parameters.
  abbrev pub with_params {ℓ} :
      {A : Type 0} {B : Type ℓ} → Result Text A → (RpcError N → B) → (A → B) → B
  with_params (ok a) e f = f a
  with_params (err m) e f = e (params_error m)

  abbrev pub outcome_handled : Text → Bool → Outcome N → Handled N
  outcome_handled id unload (replies r) = replied r
  outcome_handled id unload waits = stops id unload
  outcome_handled id unload panics_here = fails_here

module _ {N : Type 0} (y : System N) (codec : Codec N) where
  -- `response`
  abbrev pub response : Value N → RpcResult N → Value N
  response id (ok v) = object (
      field (text "jsonrpc") (string (text "2.0"))
        (field (text "id") id (field (text "result") v end)))
  response id (err e) = object (
      field (text "jsonrpc") (string (text "2.0"))
        (field (text "id") id (field (text "error") (to_json y.from_i64 e) end)))

  -- The answer to `sf.initialize`.
  abbrev pub greeting : Service N → Value N
  greeting s = object (
      field (text "protocol_version") (number (y.from_i64 (pos 1))) (
        field (text "sdk_version") (number (y.from_i64 (pos 1))) (
          field (text "session_id") (string s.runtime.host.session) (
            field (text "target") (string codec.target) (
              field (text "async_ebpf_revision")
                (string (text "7e8a7cbce195d68a1d579608b7a28b55f6fce7fd"))
                (field (text "compiler") (info s.builds) (
                  field (text "limits")
                    (object (
                      field (text "frame_bytes") (number (y.from_u64 max_frame)) (
                        field (text "value_bytes") (number (y.from_u64 max_value_bytes)) (
                          field (text "mailbox_entries") (number (y.from_i64 (pos 32))) (
                            field (text "mailbox_bytes") (number (y.from_i64 (pos 32768)))
                              (field (text "handles") (number (y.from_i64 (pos 128))) end))))))
                    (field (text "memory_target_bytes") (number (y.from_i64 (pos 1000000)))
                      (field (text "memory_target_enforced") (boolean false) end)))))))))

  abbrev pub event_value : Event N → Value N
  event_value e = object (
      field (text "event_id") (string e.event_id)
        (field (text "topic") (string e.topic) (field (text "payload") e.payload end)))

  -- `uptime` is the time since the start, in milliseconds.
  abbrev pub stats_value : ℕ → Runtime N → Value N
  stats_value uptime rt = object (
      field (text "objects") (number (y.from_u64 (length (listed_only rt.entries)))) (
        field (text "host") (Calls.stats y.from_u64 rt.host) (
          field (text "output") (Frames.stats y.from_u64 rt.host.out) (
            field (text "uptime_ms") (number (y.from_u64 uptime))
              (field (text "execution_threads") (number (y.from_i64 (pos 1))) end)))))

  abbrev pub start_session : ℕ → Service N → Service N × Handled N
  start_session version s =
      if not (version == 1)
      then (s, replied (err (params_error (text "supported protocol_version is 1"))))
      else if s.initialized
      then (s, replied (err (busy_error (text "already initialized"))))
      else (record s { initialized = true }, replied (ok (greeting s)))

  abbrev pub load_answer :
      Load N → Bytes → Service N → Runtime N × Result (RpcError N) ℕ → Service N × Handled N
  load_answer l bytes s (rt, ok serial) = (record s { runtime = rt }, loads serial l bytes)
  load_answer l bytes s (rt, err e) = (record s { runtime = rt }, replied (err e))

  unfoldable pub load_object : Load N → Service N → Service N × Handled N
  unfolding load_begin
  load_object l s = elim (codec.base64 l.elf) [
    | err e ↦ (s, replied (err (params_error e)))
    | ok bytes ↦ load_answer l bytes s (load_begin y l.config l.capabilities s.runtime)
  ]

  abbrev pub with_outcome : Text → Bool → Service N → Runtime N × Outcome N → Service N × Handled N
  with_outcome id unload s (rt, o) = (record s { runtime = rt }, outcome_handled id unload o)

  abbrev pub with_reply : Service N → Runtime N × RpcResult N → Service N × Handled N
  with_reply s (rt, r) = (record s { runtime = rt }, replied r)

  unfoldable pub deliver_event : Event N → Service N → Service N × Handled N
  unfolding valid_value deliver_to Mailbox.deliver
  deliver_event e s =
      if ltb 128 (length e.topic) || not (valid_value y.to_vec e.payload)
      then (s, replied (err (params_error (text "event exceeds limits"))))
      else with_reply s
          (deliver_to (Mailbox.deliver y.to_vec (event_value e)) e.object_id s.runtime)

  abbrev pub not_initialized : RpcError N
  not_initialized = rpc_error (neg 32000) (text "NOT_INITIALIZED") (text "call sf.initialize first")

  -- `runtime.get(id)?.status()`
  unfoldable pub get_status : Text → Runtime N → RpcResult N
  unfolding get
  get_status id rt = elim (get id rt) [ err e ↦ err e | ok e ↦ ok (status y.from_u64 id e) ]

  -- The methods behind the test of `initialized`; `sf.initialize` does not come here.
  unfoldable pub dispatch : ℕ → Method → Value N → Service N → Service N × Handled N
  unfolding load_object start_object stop_begin get_status object_list deliver_event
  dispatch uptime initialize params s = (s, replied (err not_initialized))
  dispatch uptime object_load params s =
      with_params (codec.decode_load params) (λ e. (s, replied (err e))) (λ l. load_object l s)
  dispatch uptime object_start params s =
      with_params (codec.decode_id params) (λ e. (s, replied (err e)))
        (λ id. with_outcome id false s (start_object y id s.runtime))
  dispatch uptime object_stop params s =
      with_params (codec.decode_id params) (λ e. (s, replied (err e)))
        (λ id. with_outcome id false s (stop_begin y id false s.runtime))
  dispatch uptime object_unload params s =
      with_params (codec.decode_id params) (λ e. (s, replied (err e)))
        (λ id. with_outcome id true s (stop_begin y id true s.runtime))
  dispatch uptime object_get params s =
      with_params (codec.decode_id params) (λ e. (s, replied (err e)))
        (λ id. (s, replied (get_status id s.runtime)))
  dispatch uptime list_objects params s =
      with_params (codec.decode_range page_size params) (λ e. (s, replied (err e)))
        (λ r. (s, replied (object_list y.from_u64 r.after r.limit s.runtime)))
  dispatch uptime event_deliver params s =
      with_params (codec.decode_event params) (λ e. (s, replied (err e))) (λ e. deliver_event e s)
  dispatch uptime stats_of params s =
      (s, replied (empty_or params (ok (stats_value uptime s.runtime))))
  dispatch uptime shutdown_now params s =
      (s, replied (empty_or params (ok (object (field (text "shutdown") (boolean true) end)))))
  dispatch uptime build_compile params s = (s, compiles params)
  dispatch uptime unknown params s =
      (s, replied (err (rpc_error (neg 32601) (text "METHOD_NOT_FOUND") (text "unknown method"))))

  abbrev pub guarded : ℕ → Method → Value N → Service N → Service N × Handled N
  guarded uptime m params s =
      if s.initialized then dispatch uptime m params s else (s, replied (err not_initialized))

  unfoldable pub handle : ℕ → Method → Value N → Service N → Service N × Handled N
  unfolding dispatch
  handle uptime m params s = elim m [
    | initialize ↦
        with_params (codec.decode_version params) (λ e. (s, replied (err e)))
          (λ v. start_session v s)
    | n ↦ guarded uptime n params s
  ]
