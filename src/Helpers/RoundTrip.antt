-- ===== src/Helpers/RoundTrip.antt =====
-- What a guest puts into a value through the helpers of src/helpers.rs it reads back.
use spinfoam.Prelude.{
  ℕ, zero, suc, ◌<◌, ◌≡◌, refl, ap, ◌∙◌, true, not, ◌⊎◌, inl, inr, Option, none, some, ite,
  if_cases, lookup-insert_self, Option-cases, ℕ_discrete, arith,
}
use spinfoam.Text.{Text, text_discrete}
use spinfoam.Json.{
  Value, null, boolean, number, string, array, object, Items, nil, cons, Fields, end, field, get,
  get_field,
}
use spinfoam.Outbox.Queues.{Bytes}
use spinfoam.Helpers.Values.{valid_value}
use spinfoam.Helpers.Table.{json_handle, Guest, Reply, External, json, as_json, plain, read_text}
use spinfoam.Helpers.Operations.{set_field, push_item, item_at, items_len, get_at, and_then}
use spinfoam.Helpers.Encoded.{store, set_in, h_set, push_in, h_push}

module _ {N : Type 0} where
  get_field-set_field :
      (k j : Text) (v : Value N) (fs : Fields N)
      → get_field j (set_field k v fs) ≡ ite (text_discrete k j) (some v) (get_field j fs)
  get_field-set_field k j v end = refl
  get_field-set_field k j v (field i w fs) = ground (arith, get_field-set_field k j v fs)

  item_at-push_item :
      (v : Value N) (xs : Items N) → item_at (push_item v xs) (items_len xs) ≡ some v
  item_at-push_item v nil = refl
  item_at-push_item v (cons w xs) = item_at-push_item v xs

  item_at_before :
      (v : Value N) (xs : Items N) (i : ℕ)
      → i < items_len xs
      → item_at (push_item v xs) i ≡ item_at xs i
  item_at_before v nil i h = absurd (omega arith)
  item_at_before v (cons w xs) zero h = refl
  item_at_before v (cons w xs) (suc i) h = item_at_before v xs i (omega arith)

module _ {N : Type 0} (x : External N) where
  store_valid :
      (h : ℕ) (target : Value N) (g : Guest N)
      → valid_value x.to_vec target ≡ true
      → ((store x h target g).1 ≡ plain 0) × (json h (store x h target g).0 ≡ some target)
  unfolding store
  store_valid h target g e =
      rw e (refl, ap as_json (lookup-insert_self ℕ_discrete h (json_handle target) g.handles))

  store_or_unchanged :
      (h : ℕ) (target : Value N) (g : Guest N)
      → ((store x h target g).1 ≡ plain 0) ⊎ ((store x h target g).0 ≡ g)
  unfolding store
  store_or_unchanged h target g =
      if_cases {A = Guest N × Reply} (λ r. (r.1 ≡ plain 0) ⊎ (r.0 ≡ g))
        (not (valid_value x.to_vec target)) _ _ (λ _. inr refl) λ _. inl refl

  set_in_or_unchanged :
      (h : ℕ) (key : Text) (v : Value N) (o : Option (Value N)) (g : Guest N)
      → ((set_in x h key v o g).1 ≡ plain 0) ⊎ ((set_in x h key v o g).0 ≡ g)
  unfolding set_in
  set_in_or_unchanged h key v (some (object fs)) g =
      store_or_unchanged h (object (set_field key v fs)) g
  set_in_or_unchanged h key v (some (array xs)) g = inr refl
  set_in_or_unchanged h key v (some null) g = inr refl
  set_in_or_unchanged h key v (some (boolean b)) g = inr refl
  set_in_or_unchanged h key v (some (number n)) g = inr refl
  set_in_or_unchanged h key v (some (string s)) g = inr refl
  set_in_or_unchanged h key v none g = inr refl

  -- A guest's `set` either gives 0 or leaves the guest as it was.
  pub h_set_or_unchanged :
      (h : ℕ) (memory : Option Bytes) (n value : ℕ) (g : Guest N)
      → ((h_set x h memory n value g).1 ≡ plain 0) ⊎ ((h_set x h memory n value g).0 ≡ g)
  unfolding h_set
  h_set_or_unchanged h memory n value g = elim (Option-cases (read_text x memory n)) [
    | inl e ↦ rw (e, h_set) (inr refl)
    | inr (key, e) ↦ elim (Option-cases (json value g)) [
      | inl f ↦ rw (e, f, h_set) (inr refl)
      | inr (v, f) ↦ rw (e, f, h_set) (set_in_or_unchanged h key v (json h g) g)
    ]
  ]

  -- A field that a guest sets in an object, where the result is a value that `valid_value` lets in,
  -- is set: the helper gives 0, the handle then has the value in that field, and every other field
  -- is what it was.
  pub h_set_reads_back :
      (h : ℕ) (memory : Option Bytes) (n value : ℕ) (g : Guest N) (key : Text) (v : Value N)
      (fs : Fields N)
      → read_text x memory n ≡ some key
      → json value g ≡ some v
      → json h g ≡ some (object fs)
      → valid_value x.to_vec (object (set_field key v fs)) ≡ true
      → ((h_set x h memory n value g).1 ≡ plain 0)
        × ((j : Text)
            → and_then (json h (h_set x h memory n value g).0) (λ w. get w j)
              ≡ ite (text_discrete key j) (some v) (get_field j fs))
  unfolding h_set set_in
  h_set_reads_back h memory n value g key v fs e f t valid =
      let (ok, held) = store_valid h (object (set_field key v fs)) g valid in
      rw (e, f, t, h_set)
        (ok, λ j. ap (λ o. and_then o (λ w. get w j)) held ∙ get_field-set_field key j v fs)

  -- A value that a guest pushes to an array, where the result is a value that `valid_value` lets
  -- in, stands at its end: the helper gives 0, and every earlier item is what it was.
  pub h_push_reads_back :
      (h value : ℕ) (g : Guest N) (v : Value N) (xs : Items N)
      → json value g ≡ some v
      → json h g ≡ some (array xs)
      → valid_value x.to_vec (array (push_item v xs)) ≡ true
      → ((h_push x h value g).1 ≡ plain 0)
        × (and_then (json h (h_push x h value g).0) (λ w. get_at w (items_len xs)) ≡ some v)
        × ((i : ℕ)
            → i < items_len xs
            → and_then (json h (h_push x h value g).0) (λ w. get_at w i) ≡ item_at xs i)
  unfolding h_push push_in
  h_push_reads_back h value g v xs f t valid =
      let (ok, held) = store_valid h (array (push_item v xs)) g valid in
      rw (f, t, h_push)
        (
          ok,
          ap (λ o. and_then o (λ w. get_at w (items_len xs))) held ∙ item_at-push_item v xs,
          λ i k. ap (λ o. and_then o (λ w. get_at w i)) held ∙ item_at_before v xs i k,
        )
