-- ===== src/Helpers/Table.antt =====
-- The state of `GuestContext` in src/helpers.rs, its table of handles, and what helpers come to.
use spinfoam.Prelude.{
  ℕ, suc, ◌+◌, ◌-◌, ◌*◌, ◌^◌, ◌%◌, ◌/◌, Bool, List, [], ◌∷◌, Option, none, some, Result, ltb, leb,
  if◌then◌else◌, length, lookup, insert, ℕ_discrete, zero,
}
use spinfoam.Prelude.Int.{ℤ, pos, negsuc}
use spinfoam.Text.{Text}
use spinfoam.Json.{Value}
use spinfoam.Error.{limit}
use spinfoam.Outbox.Queues.{Bytes}

abbrev pub max_handles : ℕ
max_handles = 128

-- `Json` and `Bytes`.
pub data Handle (N : Type 0) : Type 0 where
  json_handle : Value N → Handle N
  bytes_handle : Bytes → Handle N

pub record Capability (N : Type 0) : Type 0 where
  pub name : Text
  pub arguments : List (Text × Value N)

-- The guest's own fields of `GuestContext`, and `NEXT_HANDLE`, which all guests share. Times are
-- nanoseconds of the monotonic clock.
pub record Guest (N : Type 0) : Type 0 where
  pub id : Text
  pub config : Value N
  pub capabilities : List (Capability N)
  pub handles : List (ℕ × Handle N)
  pub next_handle : ℕ
  pub wait : Text
  pub log_window : ℕ
  pub logs : ℕ

-- What a helper comes to: the guest's register and the bytes put into its buffer, or a fault.
pub data Reply : Type 0 where
  returns : ℕ → Bytes → Reply
  faults : Reply

-- What the code calls of serde_json and of the standard library's UTF-8 test.
pub record External (N : Type 0) : Type 0 where
  pub to_vec : Value N → Result Text Bytes
  pub from_str : Text → Option (Value N)
  pub equal : Value N → Value N → Bool
  pub as_i64 : N → Option ℤ
  pub from_i64 : ℤ → N
  pub is_utf8 : Bytes → Bool

-- `value as u64`
abbrev pub status : ℤ → ℕ
status (pos n) = n
status (negsuc n) = 2 ^ 64 - 1 - n

-- `n as i64` of a `u64`
abbrev pub as_signed : ℕ → ℤ
as_signed n = if ltb n (2 ^ 63) then pos n else negsuc (2 ^ 64 - 1 - n)

-- `to_le_bytes` of a word: its `k` low bytes.
abbrev pub le_bytes : ℕ → ℕ → Bytes
le_bytes zero n = []
le_bytes (suc k) n = n % 256 ∷ le_bytes k (n / 256)

-- `u64` of a register as the helper's result.
abbrev pub plain : ℕ → Reply
plain n = returns n []

module _ {N : Type 0} where
  -- `insert`: an identifier that no guest has had, or a status.
  unfoldable pub insert_handle : Handle N → Guest N → Guest N × ℕ
  insert_handle handle g =
      if leb max_handles (length g.handles)
      then (g, status limit)
      else if ltb g.next_handle (2 ^ 63 - 1)
      then (
        record g {
          next_handle = g.next_handle + 1;
          handles = insert ℕ_discrete g.next_handle handle g.handles;
        },
        g.next_handle,
      )
      else (g, status limit)

  abbrev pub as_json : Option (Handle N) → Option (Value N)
  as_json none = none
  as_json (some (json_handle v)) = some v
  as_json (some (bytes_handle b)) = none

  -- `json`
  abbrev pub json : ℕ → Guest N → Option (Value N)
  json h g = as_json (lookup ℕ_discrete h g.handles)

  -- The end of a helper that makes a handle.
  abbrev pub give : Handle N → Guest N → Guest N × Reply
  give handle g = let (g', n) = insert_handle handle g in (g', plain n)

  -- `text`: the memory that `user_memory` gives, checked to be short and UTF-8.
  unfoldable pub read_text : External N → Option Bytes → ℕ → Option Text
  read_text x memory n =
      if ltb (16 * 1024) n
      then none
      else elim memory [ none ↦ none | some bytes ↦ if x.is_utf8 bytes then some bytes else none ]
