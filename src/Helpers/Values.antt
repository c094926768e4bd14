-- ===== src/Helpers/Values.antt =====
-- `valid_value` of src/helpers.rs: the depth, the number of nodes and the encoded size of a value.
pub mod Limits
use spinfoam.Prelude.{
  ℕ, ◌+◌, ◌*◌, Bool, true, false, ◌&&◌, ◌||◌, Option, none, some, Result, ok, err, ltb, leb,
  if◌then◌else◌, length,
}
use spinfoam.Text.{Text}
use spinfoam.Json.{
  Value, null, boolean, number, string, array, object, Items, nil, cons, Fields, end, field,
}
use spinfoam.Outbox.Queues.{Bytes}

module _ {N : Type 0} where
  -- `visit` at a depth, with the count of nodes so far: nothing where it gives `false`, which ends
  -- the whole visit, and else the count behind it. The loops are those of `all`.
  unfoldable mutual
    pub visit : Value N → ℕ → ℕ → Option ℕ
    visit (array xs) depth count =
        let rest = visit_items xs (depth + 1) (count + 1) in
        if ltb 32 depth || ltb 4096 (count + 1) then none else rest
    visit (object fs) depth count =
        let rest = visit_fields fs (depth + 1) (count + 1) in
        if ltb 32 depth || ltb 4096 (count + 1) then none else rest
    visit null depth count = if ltb 32 depth || ltb 4096 (count + 1) then none else some (count + 1)
    visit (boolean b) depth count =
        if ltb 32 depth || ltb 4096 (count + 1) then none else some (count + 1)
    visit (number n) depth count =
        if ltb 32 depth || ltb 4096 (count + 1) then none else some (count + 1)
    visit (string s) depth count =
        if ltb 32 depth || ltb 4096 (count + 1) then none else some (count + 1)

    visit_items : Items N → ℕ → ℕ → Option ℕ
    visit_items nil depth count = some count
    visit_items (cons v xs) depth count = elim (visit v depth count) [
      | none ↦ none
      | some n ↦ visit_items xs depth n
    ]

    visit_fields : Fields N → ℕ → ℕ → Option ℕ
    visit_fields end depth count = some count
    visit_fields (field k v fs) depth count = elim (visit v depth count) [
      | none ↦ none
      | some n ↦ visit_fields fs depth n
    ]

abbrev pub is_some : Option ℕ → Bool
is_some none = false
is_some (some n) = true

-- `is_ok_and(|s| s.len() <= MAX_VALUE_BYTES)`
abbrev pub short : Result Text Bytes → Bool
short (ok s) = leb (length s) (16 * 1024)
short (err e) = false

unfoldable pub valid_value : {N : Type 0} → (Value N → Result Text Bytes) → Value N → Bool
unfolding visit
valid_value to_vec v = is_some (visit v 0 0) && short (to_vec v)
