-- ===== src/Build/Paths/Split.antt =====
-- `split` and `join` at slashes undo one another.
use spinfoam.Prelude.{ℕ, ◌≡◌, refl, ap, ◌∙◌, false, List, [], ◌∷◌, ◌++◌, ◌==◌, if_cases, arith}
use spinfoam.Text.{Text}
use spinfoam.Build.Paths.{split, join, cons_head}

abbrev pub NoSlash : Text → Type 0
NoSlash [] = Unit
NoSlash (c ∷ s) = ((c == b'/') ≡ false) × NoSlash s

abbrev pub All {ℓ} : {A : Type ℓ} → (A → Type 0) → List A → Type 0
All P [] = Unit
All P (x ∷ xs) = P x × All P xs

abbrev pub NonEmpty : List Text → Type 0
NonEmpty [] = ⊥
NonEmpty (p ∷ ps) = Unit

cons_head-NoSlash :
    (c : ℕ) (ps : List Text) → (c == b'/') ≡ false → All NoSlash ps → All NoSlash (cons_head c ps)
cons_head-NoSlash c [] e h = ((e, tt), tt)
cons_head-NoSlash c (p ∷ ps) e h = ((e, h.0), h.1)

pub split-NoSlash : (s : Text) → All NoSlash (split s)
unfolding split
split-NoSlash [] = (tt, tt)
split-NoSlash (c ∷ s) =
    if_cases (All NoSlash) (c == b'/') _ _ (λ _. (tt, split-NoSlash s))
      λ e. cons_head-NoSlash c (split s) e (split-NoSlash s)

cons_head-NonEmpty : (c : ℕ) (ps : List Text) → NonEmpty (cons_head c ps)
cons_head-NonEmpty c [] = tt
cons_head-NonEmpty c (p ∷ ps) = tt

pub split-NonEmpty : (s : Text) → NonEmpty (split s)
unfolding split
split-NonEmpty [] = tt
split-NonEmpty (c ∷ s) =
    if_cases NonEmpty (c == b'/') _ _ (λ _. tt) λ _. cons_head-NonEmpty c (split s)

join-cons_head : (c : ℕ) (ps : List Text) → join (cons_head c ps) ≡ c ∷ join ps
unfolding join
join-cons_head c [] = refl
join-cons_head c (p ∷ []) = refl
join-cons_head c (p ∷ q ∷ ps) = refl

join-nil : (ps : List Text) → NonEmpty ps → join ([] ∷ ps) ≡ b'/' ∷ join ps
unfolding join
join-nil [] h = absurd h
join-nil (p ∷ ps) h = refl

pub join-split : (s : Text) → join (split s) ≡ s
unfolding split
join-split [] = unfold join in refl
join-split (c ∷ s) =
    if_cases (λ ps. join ps ≡ c ∷ s) (c == b'/') _ _
      (λ e. join-nil (split s) (split-NonEmpty s) ∙ ap (◌∷◌ b'/') (join-split s) ∙ ground arith)
      λ _. join-cons_head c (split s) ∙ ap (◌∷◌ c) (join-split s)

split_last : (p : Text) → NoSlash p → split p ≡ p ∷ []
unfolding split
split_last [] h = refl
split_last (c ∷ p) h = rw h.0 (ap (cons_head c) (split_last p h.1))

split_part : (p s : Text) → NoSlash p → split (p ++ b'/' ∷ s) ≡ p ∷ split s
unfolding split
split_part [] s h = refl
split_part (c ∷ p) s h = rw h.0 (ap (cons_head c) (split_part p s h.1))

pub split-join : (p : Text) (ps : List Text) → All NoSlash (p ∷ ps) → split (join (p ∷ ps)) ≡ p ∷ ps
unfolding join
split-join p [] h = split_last p h.0
split-join p (q ∷ ps) h = split_part p (join (q ∷ ps)) h.0 ∙ ap (◌∷◌ p) (split-join q ps h.1)
