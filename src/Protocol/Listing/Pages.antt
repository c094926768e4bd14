-- ===== src/Protocol/Listing/Pages.antt =====
-- A client that follows `next` from page to page of `sf.object.list` (src/protocol.rs).
use spinfoam.Prelude.{
  if◌then◌else◌, ℕ, zero, suc, ◌≤◌, ◌<◌, ◌≡◌, refl, sym, ap, subst, ◌∙◌, true, List, [], ◌∷◌, ◌++◌,
  Option, none, some, take, drop, length, take-append-drop, lookup, Distinct, append-nil, ◌⊎◌, inl,
  inr, if_pos, if_neg, if_cases, arith,
}
use spinfoam.Text.{Text, text_discrete}
use spinfoam.Text.Order.{length-ordered, ordered, Ascending, lookup-ordered, ordered-Ascending}
use spinfoam.Protocol.Listing.{following, last_key, next_after, page, walk, listed_only}
use spinfoam.Runtime.Table.{Entry, Runtime, System, find, if_listed}
use spinfoam.Runtime.Steps.{Reach}
use spinfoam.Runtime.Whole.{runtime-IsValid}
use spinfoam.Protocol.Listing.Following.{behind}

module _ {V : Type 0} where
  length-drop : (n : ℕ) (xs : List (Text × V)) → length (drop n xs) ≤ length xs
  length-drop zero xs = omega arith
  length-drop (suc n) [] = omega arith
  length-drop (suc n) (x ∷ xs) = omega (arith, length-drop n xs)

  last_key_there : (e : Text × V) (m : List (Text × V)) → (k : Text) × (last_key (e ∷ m) ≡ some k)
  last_key_there (id, v) [] = (id, refl)
  last_key_there (id, v) (f ∷ m) = last_key_there f m

  -- A page is the last and has all that is left, or names its last ID and has an entry at least.
  page_cases :
      (limit : ℕ) (items : List (Text × V))
      → 1 ≤ limit
      → ((next_after (take limit items) (drop limit items) ≡ none) × (take limit items ≡ items))
        ⊎ ((k : Text) × (next_after (take limit items) (drop limit items) ≡ some k)
            × (last_key (take limit items) ≡ some k)
            × (length (drop limit items) < length items))
  page_cases zero items l = absurd (omega (arith, l))
  page_cases (suc n) [] l = inl (refl, refl)
  page_cases (suc n) (x ∷ xs) l = by_rest (drop n xs) refl
    where
      by_rest :
          (ys : List (Text × V))
          → drop n xs ≡ ys
          → ((next_after (x ∷ take n xs) (drop n xs) ≡ none) × (x ∷ take n xs ≡ x ∷ xs))
            ⊎ ((k : Text) × (next_after (x ∷ take n xs) (drop n xs) ≡ some k)
                × (last_key (x ∷ take n xs) ≡ some k)
                × (length (drop n xs) < length (x ∷ xs)))
      by_rest [] e = inl (
        rw e refl,
        ap (λ t. x ∷ t)
            (sym (append-nil (take n xs))
              ∙ ap (λ t. take n xs ++ t) (sym e)
              ∙ take-append-drop n xs),
      )
      by_rest (y ∷ ys) e =
          let (k, last) = last_key_there x (take n xs) in
          inr (k, rw e last, last, omega (arith, length-drop n xs))

  -- From an ID on, the walk gives what follows it, given a page more than there are entries.
  walk_rest :
      (n : ℕ) (after : Option Text) (limit : ℕ) (m : List (Text × V))
      → Ascending m
      → 1 ≤ limit
      → length (following after m) < n
      → walk n after limit m ≡ (following after m, true)
  unfolding walk page
  walk_rest zero after limit m a l h = absurd (omega (arith, h))
  walk_rest (suc n) after limit m a l h = elim (page_cases limit (following after m) l) [
    | inl (e, all) ↦ rw (e, walk, page) (ap (λ r. (r, true)) all)
    | inr (k, e, last, less_left) ↦
        let rest = behind after limit k m a last in
        rw (e, walk, page)
          (rw (walk_rest n (some k) limit m a l (omega (arith, ap length rest, h, less_left))) (
            ap (λ r. (r, true))
              (ap (λ r. take limit (following after m) ++ r) rest
                ∙ take-append-drop limit (following after m))))
  ]

  following-none : (m : List (Text × V)) → following none m ≡ m
  following-none [] = refl
  following-none ((id, v) ∷ m) = ap (λ r. (id, v) ∷ r) (following-none m)

module _ {N : Type 0} where
  lookup-listed_only :
      (id : Text) (m : List (Text × Entry N))
      → Distinct text_discrete m
      → lookup text_discrete id (listed_only m) ≡ if_listed (lookup text_discrete id m)
  lookup-listed_only id [] d = refl
  lookup-listed_only id ((j, e) ∷ m) d = elim (text_discrete j id) [
    | yes p ↦
        let gone = ap (λ i. lookup text_discrete i m) (sym p) ∙ d.0 in
        rw (if_pos (text_discrete j id) p) (
          if_cases
            (λ (r : List (Text × Entry N)).
              lookup text_discrete id r ≡ (if e.listed then some e else none))
            e.listed _ _ (λ b. if_pos (text_discrete j id) p _ _ ∙ sym (rw b refl))
            (λ b. lookup-listed_only id m d.1 ∙ ap if_listed gone ∙ sym (rw b refl)))
    | no p ↦ rw (if_neg (text_discrete j id) p) (
        if_cases
          (λ (r : List (Text × Entry N)).
            lookup text_discrete id r ≡ if_listed (lookup text_discrete id m))
          e.listed _ _ (λ b. if_neg (text_discrete j id) p _ _ ∙ lookup-listed_only id m d.1)
          (λ b. lookup-listed_only id m d.1))
  ]

  listed_only-Distinct :
      (m : List (Text × Entry N))
      → Distinct text_discrete m
      → Distinct text_discrete (listed_only m)
  listed_only-Distinct [] d = tt
  listed_only-Distinct ((j, e) ∷ m) d =
      if_cases (Distinct text_discrete) e.listed _ _
        (λ _. (lookup-listed_only j m d.1 ∙ ap if_listed d.0, listed_only-Distinct m d.1))
        (λ _. listed_only-Distinct m d.1)

  length-listed_only : (m : List (Text × Entry N)) → length (listed_only m) ≤ length m
  length-listed_only [] = omega arith
  length-listed_only ((j, e) ∷ m) =
      if_cases (λ r. length r ≤ suc (length m)) e.listed _ _
        (λ _. omega (arith, length-listed_only m)) (λ _. omega (arith, length-listed_only m))

  -- In every runtime that can be reached and that does not change, with pages of at least one object
  -- and more pages than there are objects: a client that asks for page after page, each time after
  -- the ID that the page before named, comes to a last page; the IDs that it gets ascend, so that
  -- none comes twice; and it gets just the objects that `get` finds.
  pub walk_finds_all :
      (y : System N) (rt : Runtime N) (n limit : ℕ)
      → Reach y rt
      → 1 ≤ limit
      → length rt.entries < n
      → ((walk n none limit (ordered (listed_only rt.entries))).1 ≡ true)
        × Ascending (walk n none limit (ordered (listed_only rt.entries))).0
        × ((id : Text)
            → lookup text_discrete id (walk n none limit (ordered (listed_only rt.entries))).0
              ≡ find id rt)
  walk_finds_all y rt n limit r l h =
      let distinct = listed_only-Distinct rt.entries (runtime-IsValid y r).table.distinct in
      let m = ordered (listed_only rt.entries) in
      let few : length (following none m) < n = omega (
        arith,
        ap length (following-none m),
        length-ordered (listed_only rt.entries),
        length-listed_only rt.entries,
        h,
      ) in
      let all : walk n none limit m ≡ (m, true) =
        walk_rest n none limit m (ordered-Ascending (listed_only rt.entries) distinct) l few
        ∙ ap (λ t. (t, true)) (following-none m) in
      (
        ap (λ t. t.1) all,
        subst (λ t. Ascending t.0) (sym all) (ordered-Ascending (listed_only rt.entries) distinct),
        λ id.
            ap (λ t. lookup text_discrete id t.0) all
            ∙ lookup-ordered id (listed_only rt.entries) distinct
            ∙ lookup-listed_only id rt.entries (runtime-IsValid y r).table.distinct,
      )
