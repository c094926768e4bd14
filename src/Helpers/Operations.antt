-- ===== src/Helpers/Operations.antt =====
-- The helpers of src/helpers.rs on values and bytes. What `user_memory` and `user_memory_mut` give
-- is an argument: the bytes, the buffer's length, or nothing where they fail.
use spinfoam.Prelude.{
  ℕ, zero, suc, ◌-◌, ◌*◌, min, Bool, true, false, not, Option, none, some, ltb, ◌==◌, if◌then◌else◌,
  ite, length, take, drop, lookup, remove, ℕ_discrete,
}
use spinfoam.Text.{Text, text_discrete}
use spinfoam.Json.{
  Value, null, boolean, number, string, array, object, Items, nil, cons, Fields, end, field,
}
use spinfoam.Error.{invalid, limit}
use spinfoam.Outbox.Queues.{Bytes}
use spinfoam.Helpers.Table.{
  Handle, json_handle, bytes_handle, Guest, Reply, returns, faults, status, plain, insert_handle,
  json, give,
}

module _ {N : Type 0} where
  -- `map.insert(key, value)`
  abbrev pub set_field : Text → Value N → Fields N → Fields N
  set_field k v end = field k v end
  set_field k v (field j w fs) =
      ite (text_discrete j k) (field j v fs) (field j w (set_field k v fs))

  -- `array.push(value)`
  abbrev pub push_item : Value N → Items N → Items N
  push_item v nil = cons v nil
  push_item v (cons w xs) = cons w (push_item v xs)

  abbrev pub item_at : Items N → ℕ → Option (Value N)
  item_at nil i = none
  item_at (cons v xs) zero = some v
  item_at (cons v xs) (suc i) = item_at xs i

  -- `Value::get` with an index
  abbrev pub get_at : Value N → ℕ → Option (Value N)
  get_at (array xs) i = item_at xs i
  get_at (object fs) i = none
  get_at null i = none
  get_at (boolean b) i = none
  get_at (number n) i = none
  get_at (string s) i = none

  abbrev pub items_len : Items N → ℕ
  items_len nil = 0
  items_len (cons v xs) = suc (items_len xs)

  abbrev pub fields_len : Fields N → ℕ
  fields_len end = 0
  fields_len (field k v fs) = suc (fields_len fs)

  -- A helper that copies a value out of another one.
  abbrev pub give_or_invalid : Option (Value N) → Guest N → Guest N × Reply
  give_or_invalid none g = (g, plain (status invalid))
  give_or_invalid (some v) g = give (json_handle v) g

  abbrev pub and_then : Option (Value N) → (Value N → Option (Value N)) → Option (Value N)
  and_then none f = none
  and_then (some v) f = f v

  unfoldable pub h_config : Guest N → Guest N × Reply
  unfolding insert_handle
  h_config g = give (json_handle g.config) g

  unfoldable pub h_drop : ℕ → Guest N → Guest N × Reply
  h_drop h g = elim (lookup ℕ_discrete h g.handles) [
    | none ↦ (g, plain (status invalid))
    | some handle ↦ (record g { handles = remove ℕ_discrete h g.handles }, plain 0)
  ]

  unfoldable pub h_at : ℕ → ℕ → Guest N → Guest N × Reply
  unfolding insert_handle
  h_at h i g = give_or_invalid (and_then (json h g) (λ v. get_at v i)) g

  abbrev kind_of : Option (Value N) → ℕ
  kind_of (some null) = 0
  kind_of (some (boolean b)) = 1
  kind_of (some (number n)) = 2
  kind_of (some (string s)) = 3
  kind_of (some (array xs)) = 4
  kind_of (some (object fs)) = 5
  kind_of none = status invalid

  unfoldable pub h_kind : ℕ → Guest N → Guest N × Reply
  h_kind h g = (g, plain (kind_of (json h g)))

  abbrev bool_of : Option (Value N) → ℕ
  bool_of (some (boolean true)) = 1
  bool_of (some (boolean false)) = 0
  bool_of _ = status invalid

  unfoldable pub h_bool : ℕ → Guest N → Guest N × Reply
  h_bool h g = (g, plain (bool_of (json h g)))

  abbrev string_of : Option (Value N) → Option Text
  string_of (some (string s)) = some s
  string_of _ = none

  unfoldable pub h_string_read : ℕ → Option ℕ → ℕ → Guest N → Guest N × Reply
  h_string_read h dst n g = elim (string_of (json h g)) [
    | none ↦ (g, plain (status invalid))
    | some value ↦ if ltb (16 * 1024) n then (g, plain (status limit)) else elim dst [
      | none ↦ (g, faults)
      | some len ↦ (g, returns (length value) (take (min len (length value)) value))
    ]
  ]

  unfoldable pub h_object : Guest N → Guest N × Reply
  unfolding insert_handle
  h_object g = give (json_handle (object end)) g

  unfoldable pub h_array : Guest N → Guest N × Reply
  unfolding insert_handle
  h_array g = give (json_handle (array nil)) g

  unfoldable pub h_null : Guest N → Guest N × Reply
  unfolding insert_handle
  h_null g = give (json_handle null) g

  unfoldable pub h_boolean : ℕ → Guest N → Guest N × Reply
  unfolding insert_handle
  h_boolean n g = give (json_handle (boolean (not (n == 0)))) g

  unfoldable pub h_bytes : Option Bytes → ℕ → Guest N → Guest N × Reply
  unfolding insert_handle
  h_bytes memory n g =
      if ltb (16 * 1024) n
      then (g, plain (status limit))
      else elim memory [ none ↦ (g, faults) | some bytes ↦ give (bytes_handle bytes) g ]

  abbrev len_of : Option (Handle N) → ℕ
  len_of (some (bytes_handle b)) = length b
  len_of (some (json_handle (string s))) = length s
  len_of (some (json_handle (array xs))) = items_len xs
  len_of (some (json_handle (object fs))) = fields_len fs
  len_of _ = status invalid

  unfoldable pub h_len : ℕ → Guest N → Guest N × Reply
  h_len h g = (g, plain (len_of (lookup ℕ_discrete h g.handles)))

  abbrev pub bytes_of : Option (Handle N) → Option Bytes
  bytes_of (some (bytes_handle b)) = some b
  bytes_of _ = none

  -- `writable` tells whether `user_memory_mut` gives the bytes asked for.
  unfoldable pub h_read : ℕ → ℕ → (ℕ → Bool) → ℕ → Guest N → Guest N × Reply
  h_read h offset writable n g =
      if ltb (16 * 1024) n
      then (g, plain (status limit))
      else elim (bytes_of (lookup ℕ_discrete h g.handles)) [
        | none ↦ (g, plain (status invalid))
        | some bytes ↦
            if ltb (length bytes) offset
            then (g, plain (status invalid))
            else let len = min n (length bytes - offset) in
              if writable len then (g, returns len (take len (drop offset bytes))) else (g, faults)
      ]
