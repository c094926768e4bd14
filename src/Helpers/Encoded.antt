-- ===== src/Helpers/Encoded.antt =====
-- The helpers of src/helpers.rs that take text from the guest, or that need serde_json's encoder,
-- parser or numbers.
use spinfoam.Prelude.{
  ℕ, ◌*◌, Bool, not, Option, none, some, ok, err, ltb, if◌then◌else◌, ite, insert, ℕ_discrete,
}
use spinfoam.Prelude.Int.{ℤ}
use spinfoam.Text.{Text, text_discrete}
use spinfoam.Json.{Value, number, string, array, object, get, get_str}
use spinfoam.Error.{invalid, limit}
use spinfoam.Outbox.Queues.{Bytes}
use spinfoam.Helpers.Values.{valid_value}
use spinfoam.Helpers.Table.{
  json_handle, bytes_handle, Guest, Reply, returns, faults, External, status, as_signed, le_bytes,
  plain, insert_handle, json, give, read_text,
}
use spinfoam.Helpers.Operations.{set_field, push_item, give_or_invalid, and_then}

module _ {N : Type 0} (x : External N) where
  unfoldable pub h_parse : Option Bytes → ℕ → Guest N → Guest N × Reply
  unfolding insert_handle read_text valid_value
  h_parse memory n g =
      if ltb (16 * 1024) n then (g, plain (status limit)) else elim (read_text x memory n) [
        | none ↦ (g, faults)
        | some input ↦ elim (x.from_str input) [
          | none ↦ (g, plain (status invalid))
          | some value ↦
              if not (valid_value x.to_vec value)
              then (g, plain (status limit))
              else give (json_handle value) g
        ]
      ]

  unfoldable pub h_get : ℕ → Option Bytes → ℕ → Guest N → Guest N × Reply
  unfolding insert_handle read_text
  h_get h memory n g = elim (read_text x memory n) [
    | none ↦ (g, faults)
    | some key ↦ give_or_invalid (and_then (json h g) (λ v. get v key)) g
  ]

  abbrev pub number_of : Option (Value N) → Option ℤ
  number_of (some (number n)) = x.as_i64 n
  number_of _ = none

  -- `writable` tells whether `user_memory_mut` gives the eight bytes.
  unfoldable pub h_i64 : ℕ → Bool → Guest N → Guest N × Reply
  h_i64 h writable g = elim (number_of (json h g)) [
    | none ↦ (g, plain (status invalid))
    | some value ↦ if writable then (g, returns 0 (le_bytes 8 (status value))) else (g, faults)
  ]

  -- `.and_then(Value::as_str).map(|v| (v == value) as u64).unwrap_or(status(INVALID))`
  abbrev compared : Text → Option Text → ℕ
  compared value none = status invalid
  compared value (some v) = ite (text_discrete v value) 1 0

  abbrev field_str : Text → Option (Value N) → Option Text
  field_str key none = none
  field_str key (some v) = get_str v key

  unfoldable pub h_equals : ℕ → Option Bytes → ℕ → Option Bytes → ℕ → Guest N → Guest N × Reply
  unfolding read_text
  h_equals h key_memory kn value_memory vn g = elim (read_text x key_memory kn) [
    | none ↦ (g, faults)
    | some key ↦ elim (read_text x value_memory vn) [
      | none ↦ (g, faults)
      | some value ↦ (g, plain (compared value (field_str key (json h g))))
    ]
  ]

  unfoldable pub h_string : Option Bytes → ℕ → Guest N → Guest N × Reply
  unfolding insert_handle read_text valid_value
  h_string memory n g = elim (read_text x memory n) [
    | none ↦ (g, faults)
    | some s ↦
        if not (valid_value x.to_vec (string s))
        then (g, plain (status limit))
        else give (json_handle (string s)) g
  ]

  unfoldable pub h_number : ℕ → Guest N → Guest N × Reply
  unfolding insert_handle
  h_number n g = give (json_handle (number (x.from_i64 (as_signed n)))) g

  -- The end of `h_set` and `h_push`: the changed copy takes the handle's place if it is valid.
  unfoldable pub store : ℕ → Value N → Guest N → Guest N × Reply
  unfolding valid_value
  store h target g =
      if not (valid_value x.to_vec target)
      then (g, plain (status limit))
      else (record g { handles = insert ℕ_discrete h (json_handle target) g.handles }, plain 0)

  unfoldable pub set_in : ℕ → Text → Value N → Option (Value N) → Guest N → Guest N × Reply
  unfolding store
  set_in h key value (some (object fs)) g = store h (object (set_field key value fs)) g
  set_in h key value _ g = (g, plain (status invalid))

  unfoldable pub h_set : ℕ → Option Bytes → ℕ → ℕ → Guest N → Guest N × Reply
  unfolding read_text set_in
  h_set h memory n value g = elim (read_text x memory n) [
    | none ↦ (g, faults)
    | some key ↦ elim (json value g) [
      | none ↦ (g, plain (status invalid))
      | some v ↦ set_in h key v (json h g) g
    ]
  ]

  unfoldable pub push_in : ℕ → Value N → Option (Value N) → Guest N → Guest N × Reply
  unfolding store
  push_in h value (some (array xs)) g = store h (array (push_item value xs)) g
  push_in h value _ g = (g, plain (status invalid))

  unfoldable pub h_push : ℕ → ℕ → Guest N → Guest N × Reply
  unfolding push_in
  h_push h value g = elim (json value g) [
    | none ↦ (g, plain (status invalid))
    | some v ↦ push_in h v (json h g) g
  ]

  abbrev pub encoded : Option (Value N) → Option Bytes
  encoded none = none
  encoded (some v) = elim (x.to_vec v) [ ok bytes ↦ some bytes | err e ↦ none ]

  unfoldable pub h_dump : ℕ → Guest N → Guest N × Reply
  unfolding insert_handle
  h_dump h g = elim (encoded (json h g)) [
    | none ↦ (g, plain (status invalid))
    | some bytes ↦ give (bytes_handle bytes) g
  ]
