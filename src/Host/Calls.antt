-- ===== src/Host/Calls.antt =====
-- `Host` and `CallGuard` of src/host.rs. `call` is cut at its awaits: what it does at once, the
-- polls of its operation, and the drop of its guard, which ends it however it ends.
use spinfoam.Prelude.{
  ℕ, ◌+◌, ◌-◌, ◌^◌, min, Bool, List, [], ◌∷◌, ◌++◌, Option, none, some, Result, ok, err, leb,
  if◌then◌else◌, ite, length, lookup, insert, remove,
}
use spinfoam.Prelude.Int.{ℤ}
use spinfoam.Text.{Text, text, text_discrete}
use spinfoam.Text.Decimal.{decimal}
use spinfoam.Json.{Value, number, string, field, end, get, get_str}
use spinfoam.Error.{limit, host_error, closed}
use spinfoam.Outbox.Queues.{Bytes, Outbox, SendError, Poll, done, pending, panicked, remove_request}
use spinfoam.Outbox.Frames.{data_frame, poll_data, try_control}
use spinfoam.Helpers.Values.{valid_value}

-- A pending call is its object, under its ID. `replies` lists what was sent over the calls'
-- channels, the latest first.
pub record Host (N : Type 0) : Type 0 where
  pub calls : List (Text × Text)
  pub next : ℕ
  pub session : Text
  pub out : Outbox
  pub ignored : ℕ
  pub replies : List (Text × Result ℤ (Value N))

-- `format!("sf:{}:{serial}", self.session)`
abbrev pub call_id : Text → ℕ → Text
call_id session serial = text "sf:" ++ (session ++ b':' ∷ decimal serial)

-- Where the operation of a call stands: its request is not queued yet, or it waits for the reply.
-- `sent` of its guard is true in the second.
pub data Stage : Type 0 where
  sending : Bytes → Stage
  waiting : Stage

pub data Polled (N : Type 0) : Type 0 where
  still : Stage → Polled N
  ended : Result ℤ (Value N) → Polled N

module _ {N : Type 0} where
  -- `call` up to its request: the new call's ID, or a status.
  unfoldable pub begin_call : Text → Host N → Host N × Result ℤ Text
  unfolding decimal
  begin_call object h =
      if leb 16384 (length h.calls)
      then (h, err limit)
      else if leb (2 ^ 64 - 1) h.next
      then (h, err limit)
      else (
        record h {
          next = h.next + 1;
          calls = insert text_discrete (call_id h.session (h.next + 1)) object h.calls;
        },
        ok (call_id h.session (h.next + 1)),
      )

  -- The request; `from_u64` is serde_json's conversion, `now` the clock in milliseconds.
  abbrev pub request : (ℕ → N) → Text → Text → Text → Value N → ℕ → ℕ → Value N
  request from_u64 id object_id capability arguments timeout_ms now = Value.object (
      field (text "jsonrpc") (string (text "2.0")) (
        field (text "id") (string id) (
          field (text "method") (string (text "host.call")) (
            field (text "params")
              (Value.object (
                field (text "object_id") (string object_id) (
                  field (text "capability") (string capability) (
                    field (text "arguments") arguments (
                      field (text "timeout_ms") (number (from_u64 timeout_ms)) (
                        field (text "deadline_unix_ms") (number (from_u64 (now + timeout_ms)))
                          (field (text "max_result_bytes") (number (from_u64 16384)) end)))))))
              end))))

  -- `json!({"jsonrpc":"2.0","method":"host.cancel","params":{"id":id}})`
  abbrev pub cancel_frame : Text → Value N
  cancel_frame id = Value.object (
      field (text "jsonrpc") (string (text "2.0")) (
        field (text "method") (string (text "host.cancel"))
          (field (text "params") (Value.object (field (text "id") (string id) end)) end)))

  -- The request's poll: its frame is queued, the outbox is closed, or there is no room yet.
  abbrev sent_stage : Bytes → Poll (Result SendError (Unit {0})) → Polled N
  sent_stage bytes (done (ok u)) = still waiting
  sent_stage bytes (done (err e)) = ended (err closed)
  sent_stage bytes pending = still (sending bytes)
  sent_stage bytes panicked = still (sending bytes)

  -- `rx.await`: a channel without a reply is closed once the call is not pending.
  abbrev received : Option (Result ℤ (Value N)) → Option Text → Polled N
  received (some r) o = ended r
  received none (some o) = still waiting
  received none none = ended (err closed)

  unfoldable pub poll_call : Text → Text → Stage → Host N → Host N × Polled N
  unfolding poll_data
  poll_call object id (sending bytes) h =
      let (out, p) = poll_data object bytes (some id) h.out in
      (record h { out = out }, sent_stage bytes p)
  poll_call object id waiting h =
      (h, received (lookup text_discrete id h.replies) (lookup text_discrete id h.calls))

  -- `ignore`
  abbrev pub ignore : Host N → Host N
  ignore h = record h { ignored = min (h.ignored + 1) (2 ^ 64 - 1) }

module _ {N : Type 0} (from_u64 : ℕ → N) where
  -- `stats`
  abbrev pub stats : Host N → Value N
  stats h = Value.object (
      field (text "pending_host_calls") (number (from_u64 (length h.calls)))
        (field (text "ignored_host_responses") (number (from_u64 h.ignored)) end))

module _ {N : Type 0} (to_vec : Value N → Result Text Bytes) where
  -- The result that a response carries.
  abbrev pub answer : Option (Value N) → Option (Value N) → Result ℤ (Value N)
  answer (some v) none = if valid_value to_vec v then ok v else err limit
  answer _ _ = err host_error

  -- The first stage of a call: a request that cannot be a frame ends it.
  unfoldable pub first_stage : Value N → Polled N
  unfolding data_frame
  first_stage v = elim (data_frame to_vec v) [
    | err e ↦ ended (err closed)
    | ok bytes ↦ still (sending bytes)
  ]

  -- A reply to a pending call: it is not pending any more.
  abbrev pub settle : Text → Result ℤ (Value N) → Host N → Host N
  settle id r h = record h {
    calls = remove text_discrete id h.calls;
    replies = (id, r) ∷ h.replies;
  }

  unfoldable pub response : Value N → Host N → Host N
  unfolding valid_value
  response frame h = elim (get_str frame (text "id")) [
    | none ↦ ignore h
    | some id ↦ elim (lookup text_discrete id h.calls) [
      | none ↦ ignore h
      | some object ↦ settle id (answer (get frame (text "result")) (get frame (text "error"))) h
    ]
  ]

  -- The drop of a call's guard.
  unfoldable pub drop_guard : Bool → Text → Text → Host N → Host N
  unfolding remove_request try_control
  drop_guard sent object id h =
      let out = remove_request object id h.out in
      elim (lookup text_discrete id h.calls) [
        | none ↦ record h { out = out }
        | some o ↦ record h {
          calls = remove text_discrete id h.calls;
          out = if sent then (try_control to_vec (cancel_frame id) out).0 else out;
        }
      ]

  -- The IDs that `cancel_object` collects.
  abbrev pub ids_of : Text → List (Text × Text) → List Text
  ids_of object [] = []
  ids_of object ((id, o) ∷ calls) =
      ite (text_discrete o object) (id ∷ ids_of object calls) (ids_of object calls)

  unfoldable pub cancel_call : Text → Host N → Host N
  unfolding try_control
  cancel_call id h = elim (lookup text_discrete id h.calls) [
    | none ↦ h
    | some o ↦
        settle id (err closed) (record h { out = (try_control to_vec (cancel_frame id) h.out).0 })
  ]

  unfoldable pub cancel_calls : List Text → Host N → Host N
  unfolding cancel_call
  cancel_calls [] h = h
  cancel_calls (id ∷ ids) h = cancel_calls ids (cancel_call id h)

  unfoldable pub cancel_object : Text → Host N → Host N
  unfolding cancel_calls
  cancel_object object h = cancel_calls (ids_of object h.calls) h
