-- ===== src/Text/Truncate.antt =====
-- What `truncate` of src/build/mod.rs keeps of a text: the longest prefix of whole characters.
use spinfoam.Prelude.{
  ℕ, zero, suc, ◌≤◌, ◌≡◌, refl, true, ◌⊎◌, inl, inr, [], ◌∷◌, ◌++◌, none, min, length, get_elem?,
  take, drop, take-append-drop, length-take, arith, Bool-cases, subst,
}
use spinfoam.Text.{Text, is_char_boundary, boundary, truncate}

boundary-le : (s : Text) (n : ℕ) → boundary s n ≤ n
unfolding boundary
boundary-le s zero = omega arith
boundary-le s (suc n) = ground (arith, boundary-le s n)

boundary_ends : (s : Text) (n : ℕ) → is_char_boundary s (boundary s n) ≡ true
unfolding boundary
boundary_ends s zero = unfold is_char_boundary in refl
boundary_ends s (suc n) = elim (Bool-cases (is_char_boundary s (suc n))) [
  | inl e ↦ rw e e
  | inr e ↦ rw e (boundary_ends s n)
]

boundary_longest : (s : Text) (n j : ℕ) → j ≤ n → is_char_boundary s j ≡ true → j ≤ boundary s n
unfolding boundary
boundary_longest s zero j h e = h
boundary_longest s (suc n) j h e = elim (Bool-cases (is_char_boundary s (suc n))) [
  | inl f ↦ rw f h
  | inr f ↦ rw f (
      boundary_longest s n j
        (elim (below j n h) [
          | inl k ↦ k
          | inr k ↦ absurd (
              let g : is_char_boundary s (suc n) ≡ true =
                subst (λ i. is_char_boundary s i ≡ true) k e in
              cc)
        ])
        e)
]
  where
    below : (j n : ℕ) → j ≤ suc n → (j ≤ n) ⊎ (j ≡ suc n)
    below j n h = omega arith

length-truncate : (s : Text) (max : ℕ) → length (truncate s max) ≡ boundary s (min max (length s))
unfolding truncate
length-truncate s max =
    omega
      (arith, length-take (boundary s (min max (length s))) s, boundary-le s (min max (length s)))

get_elem?-length : (s : Text) → get_elem? s (length s) ≡ none
get_elem?-length [] = refl
get_elem?-length (b ∷ s) = get_elem?-length s

end_is_boundary : (s : Text) → is_char_boundary s (length s) ≡ true
unfolding is_char_boundary
end_is_boundary [] = refl
end_is_boundary (b ∷ s) = rw (get_elem?-length s, is_char_boundary) (ground arith)

take-length : (s : Text) → take (length s) s ≡ s
take-length [] = refl
take-length (b ∷ s) = rw (take-length s)

-- The result is a prefix of the text of at most `max` bytes, and it ends between two characters.
pub truncate_lem :
    (s : Text) (max : ℕ)
    → (length (truncate s max) ≤ max)
      × ((rest : Text) × (truncate s max ++ rest ≡ s))
      × (is_char_boundary s (length (truncate s max)) ≡ true)
truncate_lem s max = (
  omega (arith, length-truncate s max, boundary-le s (min max (length s))),
  (drop (boundary s (min max (length s))) s, unfold truncate in take-append-drop _ s),
  rw (length-truncate s max) (boundary_ends s _),
)

-- No longer prefix would do: every boundary within the limit lies within the result.
pub truncate_longest :
    (s : Text) (max j : ℕ)
    → j ≤ max
    → j ≤ length s
    → is_char_boundary s j ≡ true
    → j ≤ length (truncate s max)
truncate_longest s max j h k e =
    rw (length-truncate s max) (boundary_longest s (min max (length s)) j (omega arith) e)

-- A text within the limit is left as it is.
pub truncate_short : (s : Text) (max : ℕ) → length s ≤ max → truncate s max ≡ s
unfolding truncate
truncate_short s max h =
    rw
      (let whole : boundary s (min max (length s)) ≡ length s = omega (
        arith,
        boundary-le s (min max (length s)),
        boundary_longest s (min max (length s)) (length s) (omega arith) (end_is_boundary s),
      ) in
        whole)
      (take-length s)
