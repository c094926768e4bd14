-- ===== src/Outbox/Frames.antt =====
-- The methods of src/outbox.rs that take a JSON value: they encode it and push the frame. The
-- `async` ones are a first part, which runs once, and a poll, which runs until it is done.
use spinfoam.Prelude.{
  ℕ, ◌+◌, ◌-◌, ◌^◌, Bool, true, false, ◌||◌, [], ◌∷◌, ◌++◌, Option, none, some, Result, ok, err,
  ltb, leb, if◌then◌else◌, length, min,
}
use spinfoam.Prelude.Int.{ℤ, neg}
use spinfoam.Text.{Text, text}
use spinfoam.Json.{Value, string, number, field, end, get, get_str}
use spinfoam.Outbox.Queues.{
  Bytes, Outbox, Poll, done, pending, SendError, closed_error, frame_too_large, max_frame,
  control_slots, object_bytes, push_data, push_control,
}

-- `json!({"jsonrpc":"2.0","id":id,"error":{…}})` of `control`.
abbrev pub too_large : {N : Type 0} → (ℤ → N) → Value N → Value N
too_large from_i64 id = Value.object (
    field (text "jsonrpc") (string (text "2.0")) (
      field (text "id") id (
        field (text "error")
          (Value.object (
            field (text "code") (number (from_i64 (neg 32003))) (
              field (text "message") (string (text "response exceeds frame limit")) (
                field (text "data")
                  (Value.object (field (text "kind") (string (text "RESPONSE_TOO_LARGE")) end))
                  end))))
          end)))

-- `Option::map_err(|_| …)` on the encoder's result.
abbrev or_send_error : Result (Unit {0}) Bytes → Result SendError Bytes
or_send_error (ok b) = ok b
or_send_error (err e) = err frame_too_large

-- `let accepted = ….is_ok(); if !accepted { … }` of `try_data`. The count saturates.
unfoldable pub count_dropped : Outbox × Result Bytes (Unit {0}) → Outbox × Bool
count_dropped (o, ok u) = (o, true)
count_dropped (o, err b) = (record o { dropped = min (o.dropped + 1) (2 ^ 64 - 1) }, false)

module _ {N : Type 0} (to_vec : Value N → Result Text Bytes) where
  -- A frame is the encoding and a newline, and the encoding is shorter than `max_frame`.
  unfoldable pub encode : Value N → Result (Unit {0}) Bytes
  encode value = elim (to_vec value) [
    | err e ↦ err tt
    | ok bytes ↦ if leb max_frame (length bytes) then err tt else ok (bytes ++ b'\n' ∷ [])
  ]

  -- `control` up to its loop: the frame, or that of an error in its place.
  unfoldable pub control_frame : (ℤ → N) → Value N → Result SendError Bytes
  control_frame from_i64 value = elim (encode value) [
    | ok bytes ↦ ok bytes
    | err e ↦ elim (get value (text "id")) [
      | none ↦ err frame_too_large
      | some id ↦ or_send_error (encode (too_large from_i64 id))
    ]
  ]

  unfoldable pub try_control : Value N → Outbox → Outbox × Bool
  try_control value o = elim (encode value) [
    | err e ↦ (o, false)
    | ok bytes ↦
        if o.closed || leb control_slots (length o.control)
        then (o, false)
        else (push_control bytes o, true)
  ]

  unfoldable pub try_data : Text → Value N → Outbox → Outbox × Bool
  try_data object value o = elim (encode value) [
    | err e ↦ (o, false)
    | ok bytes ↦ count_dropped (push_data object bytes (get_str value (text "id")) o)
  ]

  -- `data` up to its loop.
  unfoldable pub data_frame : Value N → Result SendError Bytes
  data_frame value = elim (encode value) [
    | err e ↦ err frame_too_large
    | ok bytes ↦ if ltb object_bytes (length bytes) then err frame_too_large else ok bytes
  ]

-- One round of the loop of `control`.
unfoldable pub poll_control : Bytes → Outbox → Outbox × Poll (Result SendError (Unit {0}))
poll_control bytes o =
    if o.closed
    then (o, done (err closed_error))
    else if ltb (length o.control) control_slots
    then (push_control bytes o, done (ok tt))
    else (o, pending)

-- One round of the loop of `data`. A frame that finds no room is tried again.
unfoldable pub poll_data :
    Text → Bytes → Option Text → Outbox → Outbox × Poll (Result SendError (Unit {0}))
poll_data object bytes request_id o =
    if o.closed
    then (o, done (err closed_error))
    else let (o', r) = push_data object bytes request_id o in
      (o', elim r [ ok u ↦ done (ok tt) | err b ↦ pending ])

module _ {N : Type 0} (from_u64 : ℕ → N) where
  -- `stats`
  abbrev pub stats : Outbox → Value N
  stats o = Value.object (
      field (text "queued_control_frames") (number (from_u64 (length o.control))) (
        field (text "queued_object_bytes") (number (from_u64 o.bytes))
          (field (text "dropped_data_notifications") (number (from_u64 o.dropped)) end)))
