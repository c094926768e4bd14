-- ===== src/Prelude/Maps.antt =====
-- Maps (`BTreeMap`, `HashMap`) as association lists over keys with a decidable equality.
use Prim.Native.Nat.{ℕ, suc, ◌+◌, ◌≤◌}
use mathlib.Core.Path.{◌≡◌, refl, ap, sym, ◌∙◌}
use mathlib.Core.Logic.{ite, if_pos, if_neg}
use mathlib.Core.List.{List, [], ◌∷◌}
use mathlib.Core.Option.{Option, none, some}
use native.Mathlib.Omega.{arith}
use spinfoam.Prelude.Lists.{length}

module _ {ℓ} {K V : Type ℓ} (dec : Discrete K) where
  abbrev pub lookup : K → List (K × V) → Option V
  lookup k [] = none
  lookup k ((j, v) ∷ m) = ite (dec j k) (some v) (lookup k m)

  abbrev pub insert : K → V → List (K × V) → List (K × V)
  insert k v [] = (k, v) ∷ []
  insert k v ((j, w) ∷ m) = ite (dec j k) ((k, v) ∷ m) ((j, w) ∷ insert k v m)

  abbrev pub remove : K → List (K × V) → List (K × V)
  remove k [] = []
  remove k ((j, v) ∷ m) = ite (dec j k) m ((j, v) ∷ remove k m)

  -- No key stands twice.
  abbrev pub Distinct : List (K × V) → Type ℓ
  Distinct [] = Unit
  Distinct ((k, v) ∷ m) = (lookup k m ≡ none) × Distinct m

  pub lookup-insert :
      (k j : K) (v : V) (m : List (K × V))
      → lookup j (insert k v m) ≡ ite (dec k j) (some v) (lookup j m)
  lookup-insert k j v [] = refl
  lookup-insert k j v ((i, w) ∷ m) = ground (arith, lookup-insert k j v m)

  pub lookup-remove_ne :
      (k j : K) (m : List (K × V)) → ¬ (j ≡ k) → lookup j (remove k m) ≡ lookup j m
  lookup-remove_ne k j [] h = refl
  lookup-remove_ne k j ((i, w) ∷ m) h = ground (arith, lookup-remove_ne k j m h)

  pub lookup-remove_self : (k : K) (m : List (K × V)) → Distinct m → lookup k (remove k m) ≡ none
  lookup-remove_self k [] d = refl
  lookup-remove_self k ((i, w) ∷ m) d = ground (arith, lookup-remove_self k m d.1)

  pub remove_absent : (k : K) (m : List (K × V)) → lookup k m ≡ none → remove k m ≡ m
  remove_absent k [] h = refl
  remove_absent k ((i, w) ∷ m) h = ground (arith, remove_absent k m)

  pub insert-Distinct : (k : K) (v : V) (m : List (K × V)) → Distinct m → Distinct (insert k v m)
  insert-Distinct k v [] d = (refl, tt)
  insert-Distinct k v ((i, w) ∷ m) d =
      ground (arith, insert-Distinct k v m d.1, lookup-insert k i v m)

  pub remove-Distinct : (k : K) (m : List (K × V)) → Distinct m → Distinct (remove k m)
  remove-Distinct k [] d = tt
  remove-Distinct k ((i, w) ∷ m) d = ground (arith, remove-Distinct k m d.1, lookup-remove_ne k i m)

module _ {ℓ} {K V : Type ℓ} (dec : Discrete K) where
  pub length-insert : (k : K) (v : V) (m : List (K × V)) → length (insert dec k v m) ≤ length m + 1
  length-insert k v [] = omega arith
  length-insert k v ((j, w) ∷ m) = elim (dec j k) [
    | yes p ↦ rw (if_pos (dec j k) p) (omega arith)
    | no p ↦ rw (if_neg (dec j k) p) (omega (arith, length-insert k v m))
  ]

  pub length-insert_present :
      (k : K) (v w : V) (m : List (K × V))
      → lookup dec k m ≡ some w
      → length (insert dec k v m) ≡ length m
  length-insert_present k v w [] e = cc
  length-insert_present k v w ((j, u) ∷ m) e = elim (dec j k) [
    | yes p ↦ rw (if_pos (dec j k) p) refl
    | no p ↦
        rw (if_neg (dec j k) p)
          (ap suc (length-insert_present k v w m (sym (if_neg (dec j k) p _ _) ∙ e)))
  ]

  pub length-remove : (k : K) (m : List (K × V)) → length (remove dec k m) ≤ length m
  length-remove k [] = omega arith
  length-remove k ((j, w) ∷ m) = elim (dec j k) [
    | yes p ↦ rw (if_pos (dec j k) p) (omega arith)
    | no p ↦ rw (if_neg (dec j k) p) (omega (arith, length-remove k m))
  ]

  pub lookup-insert_self :
      (k : K) (v : V) (m : List (K × V)) → lookup dec k (insert dec k v m) ≡ some v
  lookup-insert_self k v m = lookup-insert dec k k v m ∙ if_pos (dec k k) refl _ _

  pub lookup-insert_ne :
      (k j : K) (v : V) (m : List (K × V))
      → ¬ (k ≡ j)
      → lookup dec j (insert dec k v m) ≡ lookup dec j m
  lookup-insert_ne k j v m h = lookup-insert dec k j v m ∙ if_neg (dec k j) h _ _

  -- What is not in a map is not in it with an entry less.
  pub lookup-remove_absent :
      (k j : K) (m : List (K × V)) → lookup dec j m ≡ none → lookup dec j (remove dec k m) ≡ none
  lookup-remove_absent k j [] h = refl
  lookup-remove_absent k j ((i, w) ∷ m) h = ground (arith, lookup-remove_absent k j m)

-- A weight summed over the entries.
abbrev pub total {ℓ} : {K V : Type ℓ} → (V → ℕ) → List (K × V) → ℕ
total w [] = 0
total w ((k, v) ∷ m) = w v + total w m

-- The weight of the entry under a key, 0 if there is none.
abbrev pub weight {ℓ} : {V : Type ℓ} → (V → ℕ) → Option V → ℕ
weight w none = 0
weight w (some v) = w v

module _ {ℓ} {K V : Type ℓ} (dec : Discrete K) (w : V → ℕ) where
  pub total-insert :
      (k : K) (v : V) (m : List (K × V))
      → total w (insert dec k v m) + weight w (lookup dec k m) ≡ total w m + w v
  total-insert k v [] = omega arith
  total-insert k v ((i, u) ∷ m) = elim (dec i k) [
    | yes p ↦ rw (if_pos _ p, if_pos _ p) (omega arith)
    | no p ↦ rw (if_neg _ p, if_neg _ p) (omega (arith, total-insert k v m))
  ]

  pub total-remove :
      (k : K) (m : List (K × V)) → total w (remove dec k m) + weight w (lookup dec k m) ≡ total w m
  total-remove k [] = omega arith
  total-remove k ((i, u) ∷ m) = elim (dec i k) [
    | yes p ↦ rw (if_pos _ p, if_pos _ p) (omega arith)
    | no p ↦ rw (if_neg _ p, if_neg _ p) (omega (arith, total-remove k m))
  ]
