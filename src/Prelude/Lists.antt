-- ===== src/Prelude/Lists.antt =====
-- Lists measured and indexed by native numbers, under the library's names.
use Prim.Native.Nat.{ℕ, zero, suc, ◌+◌, min}
use mathlib.Core.Path.{◌≡◌, refl, sym, ap, ◌∙◌}
use mathlib.Core.Logic.{ite, if_pos, if_neg}
use mathlib.Core.List.{List, [], ◌∷◌, ◌++◌}
use mathlib.Core.Option.{Option, none, some}
use native.Mathlib.Omega.{arith}

module _ {ℓ} {A : Type ℓ} where
  abbrev pub length : List A → ℕ
  length [] = 0
  length (x ∷ xs) = suc (length xs)

  abbrev pub get_elem? : List A → ℕ → Option A
  get_elem? [] i = none
  get_elem? (x ∷ xs) zero = some x
  get_elem? (x ∷ xs) (suc i) = get_elem? xs i

  abbrev pub take : ℕ → List A → List A
  take zero xs = []
  take (suc n) [] = []
  take (suc n) (x ∷ xs) = x ∷ take n xs

  abbrev pub drop : ℕ → List A → List A
  drop zero xs = xs
  drop (suc n) [] = []
  drop (suc n) (x ∷ xs) = drop n xs

  pub length-append : (xs ys : List A) → length (xs ++ ys) ≡ length xs + length ys
  length-append [] ys = omega arith
  length-append (x ∷ xs) ys = omega (arith, length-append xs ys)

  pub take-append-drop : (n : ℕ) (xs : List A) → take n xs ++ drop n xs ≡ xs
  take-append-drop zero xs = refl
  take-append-drop (suc n) [] = refl
  take-append-drop (suc n) (x ∷ xs) = rw (take-append-drop n xs)

  pub length-take : (n : ℕ) (xs : List A) → length (take n xs) ≡ min n (length xs)
  length-take zero xs = omega arith
  length-take (suc n) [] = omega arith
  length-take (suc n) (x ∷ xs) = omega (arith, length-take n xs)

-- How often a value occurs, by a decision of equality.
abbrev pub count {ℓ} : {A : Type ℓ} → Discrete A → A → List A → ℕ
count dec a [] = 0
count dec a (x ∷ xs) = ite (dec x a) (suc (count dec a xs)) (count dec a xs)

-- The list without the occurrences of a value: `VecDeque::retain(|x| x != a)`.
abbrev pub without {ℓ} : {A : Type ℓ} → Discrete A → A → List A → List A
without dec a [] = []
without dec a (x ∷ xs) = ite (dec x a) (without dec a xs) (x ∷ without dec a xs)

module _ {ℓ} {A : Type ℓ} (dec : Discrete A) where
  pub count-append :
      (a : A) (xs ys : List A) → count dec a (xs ++ ys) ≡ count dec a xs + count dec a ys
  count-append a [] ys = omega arith
  count-append a (x ∷ xs) ys = ground (arith, count-append a xs ys)

  pub count-without_self : (a : A) (xs : List A) → count dec a (without dec a xs) ≡ 0
  count-without_self a [] = refl
  count-without_self a (x ∷ xs) = elim (dec x a) [
    | yes p ↦ rw (if_pos _ p) (count-without_self a xs)
    | no p ↦ rw (if_neg _ p) (rw (if_neg _ p) (count-without_self a xs))
  ]

  pub count-without_ne :
      (a b : A) (xs : List A) → ¬ (b ≡ a) → count dec b (without dec a xs) ≡ count dec b xs
  count-without_ne a b [] h = refl
  count-without_ne a b (x ∷ xs) h = elim (dec x a) [
    | yes p ↦
        rw (if_pos _ p)
          (count-without_ne a b xs h ∙ sym (if_neg (dec x b) (λ e. h (sym e ∙ p)) _ _))
    | no p ↦ rw (if_neg _ p) (elim (dec x b) [
      | yes q ↦ rw (if_pos _ q) (rw (if_pos _ q) (ap suc (count-without_ne a b xs h)))
      | no q ↦ rw (if_neg _ q) (rw (if_neg _ q) (count-without_ne a b xs h))
    ])
  ]
