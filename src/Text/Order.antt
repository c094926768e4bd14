-- ===== src/Text/Order.antt =====
-- The order of `String`s, which is that of their bytes, and maps with their keys in that order, as
-- `BTreeMap` iterates over them.
use spinfoam.Prelude.{
  ◌≡◌, ◌≢◌, refl, sym, ap, ◌∙◌, Bool, true, false, ◌&&◌, ◌||◌, List, [], ◌∷◌, none, some, ltb, ◌==◌,
  if_pos, if_neg, suc, length, if◌then◌else◌, if_cases, lookup, Distinct, arith,
}
use spinfoam.Text.{Text, text_discrete}

-- `a < b`
unfoldable pub less : Text → Text → Bool
less [] [] = false
less [] (b ∷ ys) = true
less (a ∷ xs) [] = false
less (a ∷ xs) (b ∷ ys) = ltb a b || (a == b) && less xs ys

pub less_irreflexive : (a : Text) → less a a ≡ false
unfolding less
less_irreflexive [] = refl
less_irreflexive (a ∷ xs) = ground (arith, less_irreflexive xs)

pub less_trans : (a b c : Text) → less a b ≡ true → less b c ≡ true → less a c ≡ true
unfolding less
less_trans [] [] c h k = cc
less_trans [] (b ∷ ys) [] h k = cc
less_trans [] (b ∷ ys) (c ∷ zs) h k = refl
less_trans (a ∷ xs) [] c h k = cc
less_trans (a ∷ xs) (b ∷ ys) [] h k = cc
less_trans (a ∷ xs) (b ∷ ys) (c ∷ zs) h k = ground (arith, less_trans xs ys zs, h, k)

pub less_total : (a b : Text) → less a b ≡ false → a ≢ b → less b a ≡ true
unfolding less
less_total [] [] h n = absurd (n refl)
less_total [] (b ∷ ys) h n = cc
less_total (a ∷ xs) [] h n = refl
less_total (a ∷ xs) (b ∷ ys) h n = elim (text_discrete xs ys) [
  | yes p ↦ ground (arith, h, λ (q : a ≡ b). n (cc))
  | no p ↦ ground (arith, h, λ (k : less xs ys ≡ false). less_total xs ys k p)
]

module _ {V : Type 0} where
  -- An entry comes in at its place.
  abbrev pub place : Text → V → List (Text × V) → List (Text × V)
  place k v [] = (k, v) ∷ []
  place k v ((j, w) ∷ m) =
      let rest = place k v m in if less k j then (k, v) ∷ (j, w) ∷ m else (j, w) ∷ rest

  -- The entries of a map, by their keys.
  unfoldable pub ordered : List (Text × V) → List (Text × V)
  unfolding less
  ordered [] = []
  ordered ((k, v) ∷ m) = place k v (ordered m)

  -- Every key is greater.
  abbrev pub Above : Text → List (Text × V) → Type 0
  Above k [] = Unit
  Above k ((j, v) ∷ m) = (less k j ≡ true) × Above k m

  abbrev pub Ascending : List (Text × V) → Type 0
  Ascending [] = Unit
  Ascending ((k, v) ∷ m) = Above k m × Ascending m

  pub Above-less : (k j : Text) (m : List (Text × V)) → less k j ≡ true → Above j m → Above k m
  Above-less k j [] h a = tt
  Above-less k j ((i, v) ∷ m) h a = (less_trans k j i h a.0, Above-less k j m h a.1)

  place-Above :
      (i k : Text) (v : V) (m : List (Text × V))
      → less i k ≡ true
      → Above i m
      → Above i (place k v m)
  place-Above i k v [] h a = (h, tt)
  place-Above i k v ((j, w) ∷ m) h a =
      if_cases (Above i) (less k j) _ _ (λ _. (h, (a.0, a.1)))
        (λ _. (a.0, place-Above i k v m h a.1))

  place-Ascending :
      (k : Text) (v : V) (m : List (Text × V))
      → lookup text_discrete k m ≡ none
      → Ascending m
      → Ascending (place k v m)
  place-Ascending k v [] n a = (tt, tt)
  place-Ascending k v ((j, w) ∷ m) n a = elim (text_discrete j k) [
    | yes p ↦ absurd (let x : some w ≡ none = sym (if_pos (text_discrete j k) p _ _) ∙ n in cc)
    | no p ↦
        if_cases Ascending (less k j) _ _ (λ h. ((h, Above-less k j m h a.0), (a.0, a.1)))
          (λ h. (
            place-Above j k v m (less_total k j h (λ q. p (sym q))) a.0,
            place-Ascending k v m (sym (if_neg (text_discrete j k) p _ _) ∙ n) a.1,
          ))
  ]

  lookup-place :
      (k i : Text) (v : V) (m : List (Text × V))
      → lookup text_discrete k m ≡ none
      → lookup text_discrete i (place k v m) ≡ lookup text_discrete i ((k, v) ∷ m)
  lookup-place k i v [] n = refl
  lookup-place k i v ((j, w) ∷ m) n = elim (text_discrete j k) [
    | yes p ↦ absurd (let x : some w ≡ none = sym (if_pos (text_discrete j k) p _ _) ∙ n in cc)
    | no p ↦
        let ih = lookup-place k i v m (sym (if_neg (text_discrete j k) p _ _) ∙ n) in
        if_cases (λ r. lookup text_discrete i r ≡ lookup text_discrete i ((k, v) ∷ (j, w) ∷ m))
          (less k j) _ _ (λ h. refl) (λ h. ground (arith, ih, p))
  ]

  pub lookup-ordered :
      (i : Text) (m : List (Text × V))
      → Distinct text_discrete m
      → lookup text_discrete i (ordered m) ≡ lookup text_discrete i m
  unfolding ordered
  lookup-ordered i [] d = refl
  lookup-ordered i ((k, v) ∷ m) d =
      lookup-place k i v (ordered m) (lookup-ordered k m d.1 ∙ d.0)
      ∙ ground (arith, lookup-ordered i m d.1)

  pub ordered-Ascending : (m : List (Text × V)) → Distinct text_discrete m → Ascending (ordered m)
  unfolding ordered
  ordered-Ascending [] d = tt
  ordered-Ascending ((k, v) ∷ m) d =
      place-Ascending k v (ordered m) (lookup-ordered k m d.1 ∙ d.0) (ordered-Ascending m d.1)

  length-place : (k : Text) (v : V) (m : List (Text × V)) → length (place k v m) ≡ suc (length m)
  length-place k v [] = refl
  length-place k v ((j, w) ∷ m) =
      if_cases (λ r. length r ≡ suc (suc (length m))) (less k j) _ _ (λ _. refl)
        (λ _. ap suc (length-place k v m))

  pub length-ordered : (m : List (Text × V)) → length (ordered m) ≡ length m
  unfolding ordered
  length-ordered [] = refl
  length-ordered ((k, v) ∷ m) = length-place k v (ordered m) ∙ ap suc (length-ordered m)
