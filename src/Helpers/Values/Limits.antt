-- ===== src/Helpers/Values/Limits.antt =====
-- What `valid_value` of src/helpers.rs lets in.
use spinfoam.Prelude.{
  ℕ, ◌+◌, ◌≤◌, ◌≡◌, ◌∙◌, ◌↔◌, Bool, true, ◌&&◌, ◌||◌, Option, none, some, Result, ltb, leb,
  if◌then◌else◌, arith, Bool-cases, inl, inr,
}
use spinfoam.Text.{Text}
use spinfoam.Json.{
  Value, null, boolean, number, string, array, object, Items, nil, cons, Fields, end, field,
}
use spinfoam.Outbox.Queues.{Bytes}
use spinfoam.Helpers.Values.{visit, valid_value, short, is_some, visit_items, visit_fields}

abbrev max : ℕ → ℕ → ℕ
max a b = if leb a b then b else a

module _ {N : Type 0} where
  unfoldable mutual
    -- How deep values are nested: 0 for one that holds no other.
    pub height : Value N → ℕ
    height (array xs) = heights xs
    height (object fs) = field_heights fs
    height null = 0
    height (boolean b) = 0
    height (number n) = 0
    height (string s) = 0

    heights : Items N → ℕ
    heights nil = 0
    heights (cons v xs) = max (height v + 1) (heights xs)

    field_heights : Fields N → ℕ
    field_heights end = 0
    field_heights (field k v fs) = max (height v + 1) (field_heights fs)

  unfoldable mutual
    -- The values that a value is made of, itself included.
    pub size : Value N → ℕ
    size (array xs) = sizes xs + 1
    size (object fs) = field_sizes fs + 1
    size null = 1
    size (boolean b) = 1
    size (number n) = 1
    size (string s) = 1

    sizes : Items N → ℕ
    sizes nil = 0
    sizes (cons v xs) = size v + sizes xs

    field_sizes : Fields N → ℕ
    field_sizes end = 0
    field_sizes (field k v fs) = size v + field_sizes fs

-- What a visit of so deep and so many values comes to.
abbrev outcome : ℕ → ℕ → Option ℕ
outcome depth count = if leb depth 32 && leb count 4096 then some count else none

leaf :
    (depth count : ℕ)
    → (if ltb 32 depth || ltb 4096 (count + 1) then none else some (count + 1))
      ≡ outcome (depth + 0) (count + 1)
leaf depth count = ground arith

-- A node whose children's visit is known.
node :
    (depth count h n : ℕ) (rest : Option ℕ)
    → (depth ≤ 32 → count + 1 ≤ 4096 → rest ≡ outcome (depth + h) (count + 1 + n))
    → (if ltb 32 depth || ltb 4096 (count + 1) then none else rest)
      ≡ outcome (depth + h) (count + (n + 1))
node depth count h n rest e = elim (Bool-cases (ltb 32 depth || ltb 4096 (count + 1))) [
  | inl b ↦ rw b (ground arith)
  | inr b ↦ rw b (e (ground arith) (ground arith) ∙ ground arith)
]

-- A child and then its siblings.
chain :
    (depth count h n h2 n2 : ℕ) (first : Option ℕ) (rest : ℕ → Option ℕ)
    → depth ≤ 32
    → count ≤ 4096
    → first ≡ outcome (depth + 1 + h) (count + n)
    → ((m : ℕ) → m ≤ 4096 → rest m ≡ outcome (depth + h2) (m + n2))
    → (let r : Option ℕ = elim first [ none ↦ none | some m ↦ rest m ] in r)
      ≡ outcome (depth + max (h + 1) h2) (count + (n + n2))
chain depth count h n h2 n2 first rest d c e f =
    elim (Bool-cases (leb (depth + 1 + h) 32 && leb (count + n) 4096)) [
      | inl b ↦ rw (e, b) (f (count + n) (ground arith) ∙ ground arith)
      | inr b ↦ rw (e, b) (ground arith)
    ]

module _ {N : Type 0} where
  mutual
    unfolding visit height size

    visit_lem :
        (v : Value N) (depth count : ℕ)
        → visit v depth count ≡ outcome (depth + height v) (count + size v)
    visit_lem (array xs) depth count = node depth count _ _ _ (visit_items_lem xs depth (count + 1))
    visit_lem (object fs) depth count =
        node depth count _ _ _ (visit_fields_lem fs depth (count + 1))
    visit_lem null depth count = leaf depth count
    visit_lem (boolean b) depth count = leaf depth count
    visit_lem (number n) depth count = leaf depth count
    visit_lem (string s) depth count = leaf depth count

    visit_items_lem :
        (xs : Items N) (depth count : ℕ)
        → depth ≤ 32
        → count ≤ 4096
        → visit_items xs (depth + 1) count ≡ outcome (depth + heights xs) (count + sizes xs)
    visit_items_lem nil depth count h k = ground arith
    visit_items_lem (cons v xs) depth count h k =
        chain depth count _ _ _ _ _ _ h k (visit_lem v (depth + 1) count)
          (λ n. visit_items_lem xs depth n h)

    visit_fields_lem :
        (fs : Fields N) (depth count : ℕ)
        → depth ≤ 32
        → count ≤ 4096
        → visit_fields fs (depth + 1) count
          ≡ outcome (depth + field_heights fs) (count + field_sizes fs)
    visit_fields_lem end depth count h k = ground arith
    visit_fields_lem (field j v fs) depth count h k =
        chain depth count _ _ _ _ _ _ h k (visit_lem v (depth + 1) count)
          (λ n. visit_fields_lem fs depth n h)

-- The tests of `valid_value`, given what its visit comes to.
tested :
    (h n : ℕ) (v : Option ℕ) (b : Bool)
    → v ≡ outcome (0 + h) (0 + n)
    → ((is_some v && b) ≡ true) ↔ ((h ≤ 32) × (n ≤ 4096) × (b ≡ true))
tested h n v b e = elim (Bool-cases (leb (0 + h) 32 && leb (0 + n) 4096)) [
  | inl t ↦ rw (e, t) (λ x. (ground arith, ground arith, x), λ x. x.2)
  | inr t ↦ rw (e, t) (λ x. cc, λ x. absurd (let f : ¬ Unit {0} = ground arith in f tt))
]

module _ {N : Type 0} where
  -- `valid_value` lets a value in exactly if it is nested at most 32 deep, is made of at most 4096
  -- values, and is encoded in at most 16 KiB.
  pub valid_value_iff :
      (to_vec : Value N → Result Text Bytes) (v : Value N)
      → (valid_value to_vec v ≡ true)
        ↔ ((height v ≤ 32) × (size v ≤ 4096) × (short (to_vec v) ≡ true))
  unfolding valid_value
  valid_value_iff to_vec v = tested (height v) (size v) _ _ (visit_lem v 0 0)
