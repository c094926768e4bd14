-- ===== src/Mailbox.antt =====
-- `Mailbox` of src/runtime.rs: the bounded queue of an object's events. `receive` is cut into polls.
-- `to_vec` is `serde_json::to_vec`, a parameter; its error is given by its message.
pub mod Bounds
pub mod History
pub mod Deliveries
pub mod Window
use spinfoam.Prelude.{
  ℕ, suc, ◌+◌, ◌*◌, Bool, true, false, ◌||◌, List, [], ◌∷◌, ◌++◌, Option, none, some, Result, ok,
  err, ltb, leb, ◌==◌, if◌then◌else◌, ite, length,
}
use spinfoam.Prelude.Int.{ℤ, neg}
use spinfoam.Text.{Text, text, text_discrete}
use spinfoam.Json.{Value, null, boolean, field, end, get_str}
use spinfoam.Error.{RpcError, RpcResult, rpc_error, params_error}
use spinfoam.Outbox.Queues.{Bytes, Poll, done, pending, sub_usize}

abbrev pub max_value_bytes : ℕ
max_value_bytes = 16 * 1024

-- `changed` counts the calls of `changed.notify_one()`.
pub record Mailbox (N : Type 0) : Type 0 where
  pub entries : List (Value N × ℕ)
  pub bytes : ℕ
  pub recent : List Text
  pub changed : ℕ

-- `self.recent.borrow().iter().any(|x| x == event_id)`
abbrev pub seen : Text → List Text → Bool
seen id [] = false
seen id (x ∷ xs) = ite (text_discrete x id) true (seen id xs)

abbrev pub pop_front {ℓ} : {A : Type ℓ} → List A → List A
pop_front [] = []
pop_front (x ∷ xs) = xs

-- `if recent.len() == 128 { recent.pop_front(); } recent.push_back(…)`
unfoldable pub push_recent : Text → List Text → List Text
push_recent id recent = (if length recent == 128 then pop_front recent else recent) ++ id ∷ []

module _ {N : Type 0} where
  abbrev pub empty : Mailbox N
  empty = record { entries = []; bytes = 0; recent = []; changed = 0 }

  -- `json!({"accepted":true,"duplicate":duplicate})`
  abbrev pub accepted : Bool → Value N
  accepted duplicate =
      Value.object
        (field (text "accepted") (boolean true) (field (text "duplicate") (boolean duplicate) end))

  -- `deliver` from the encoded length on.
  unfoldable pub admit : Value N → Text → ℕ → Mailbox N → Mailbox N × RpcResult N
  admit event event_id bytes m =
      if ltb max_value_bytes bytes
      then (m, err (params_error (text "event exceeds 16 KiB")))
      else if leb 32 (length m.entries) || ltb (32 * 1024) (m.bytes + bytes)
      then (m, err (rpc_error (neg 32002) (text "MAILBOX_FULL") (text "mailbox is full")))
      else (
        record m {
          entries = m.entries ++ (event, bytes) ∷ [];
          bytes = m.bytes + bytes;
          recent = push_recent event_id m.recent;
          changed = m.changed + 1;
        },
        ok (accepted false),
      )

  -- One round of the loop of `receive`.
  unfoldable pub receive : Mailbox N → Mailbox N × Poll (Value N)
  receive m = elim m.entries [
    | [] ↦ (m, pending)
    | (value, size) ∷ rest ↦
        (record m { entries = rest; bytes = sub_usize m.bytes size }, done value)
  ]

  unfoldable pub clear : Mailbox N → Mailbox N
  clear m = record m { entries = []; bytes = 0; recent = [] }

  module _ (to_vec : Value N → Result Text Bytes) where
    -- `deliver` behind the reading of the event's ID.
    unfoldable pub deliver_named : Value N → Text → Mailbox N → Mailbox N × RpcResult N
    deliver_named event event_id m =
        if ltb 128 (length event_id)
        then (m, err (params_error (text "event_id too long")))
        else if seen event_id m.recent
        then (m, ok (accepted true))
        else elim (to_vec event) [
          | err e ↦ (m, err (params_error e))
          | ok raw ↦ admit event event_id (length raw) m
        ]

    unfoldable pub deliver : Value N → Mailbox N → Mailbox N × RpcResult N
    deliver event m = elim (get_str event (text "event_id")) [
      | none ↦ (m, err (params_error (text "event_id must be a string")))
      | some event_id ↦ deliver_named event event_id m
    ]
