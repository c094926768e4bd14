-- ===== src/Protocol/Listing/Following.antt =====
-- What follows an ID in a map that is in order (`sf.object.list` of src/protocol.rs).
use spinfoam.Prelude.{
  ℕ, zero, suc, ◌≡◌, refl, sym, ap, subst, ◌∙◌, true, false, List, [], ◌∷◌, ◌++◌, Option, none,
  some, take, drop, take-append-drop, inl, inr, Bool-cases, if_cases,
}
use spinfoam.Text.{Text}
use spinfoam.Text.Order.{less, less_irreflexive, less_trans, Above, Ascending}
use spinfoam.Protocol.Listing.{follows, following, last_key}

less_not_back : (j k : Text) → less j k ≡ true → less k j ≡ false
less_not_back j k h = elim (Bool-cases (less k j)) [
  | inl b ↦ absurd (let x : true ≡ false = sym (less_trans j k j h b) ∙ less_irreflexive j in cc)
  | inr b ↦ b
]

follows_trans :
    (after : Option Text) (k id : Text)
    → follows after k ≡ true
    → less k id ≡ true
    → follows after id ≡ true
follows_trans none k id h g = refl
follows_trans (some after) k id h g = less_trans after k id h g

module _ {V : Type 0} where
  following_all :
      (after : Text) (m : List (Text × V)) → Above after m → following (some after) m ≡ m
  following_all after [] a = refl
  following_all after ((id, v) ∷ m) a = rw (a.0, following_all after m a.1) refl

  Above-following :
      (k : Text) (after : Option Text) (m : List (Text × V))
      → Above k m
      → Above k (following after m)
  Above-following k after [] a = tt
  Above-following k after ((id, v) ∷ m) a =
      if_cases (Above k) (follows after id) _ _ (λ _. (a.0, Above-following k after m a.1))
        (λ _. Above-following k after m a.1)

  following-Ascending :
      (after : Option Text) (m : List (Text × V)) → Ascending m → Ascending (following after m)
  following-Ascending after [] a = tt
  following-Ascending after ((id, v) ∷ m) a =
      if_cases Ascending (follows after id) _ _
        (λ _. (Above-following id after m a.0, following-Ascending after m a.1))
        (λ _. following-Ascending after m a.1)

  following-Above : (k : Text) (m : List (Text × V)) → Above k (following (some k) m)
  following-Above k [] = tt
  following-Above k ((id, v) ∷ m) =
      if_cases (Above k) (less k id) _ _ (λ h. (h, following-Above k m)) (λ _. following-Above k m)

  Above-take : (k : Text) (n : ℕ) (m : List (Text × V)) → Above k m → Above k (take n m)
  Above-take k zero m a = tt
  Above-take k (suc n) [] a = tt
  Above-take k (suc n) ((j, v) ∷ m) a = (a.0, Above-take k n m a.1)

  Above-last_key :
      (j k : Text) (m : List (Text × V)) → Above j m → last_key m ≡ some k → less j k ≡ true
  Above-last_key j k [] a e = absurd (let x : none ≡ some k = e in cc)
  Above-last_key j k ((i, v) ∷ []) a e =
      let same : some i ≡ some k = e in let named : i ≡ k = cc in ap (less j) (sym named) ∙ a.0
  Above-last_key j k ((i, v) ∷ (i', w) ∷ m) a e = Above-last_key j k ((i', w) ∷ m) a.1 e

  Above-append : (k : Text) (xs ys : List (Text × V)) → Above k (xs ++ ys) → Above k xs × Above k ys
  Above-append k [] ys a = (tt, a)
  Above-append k ((j, v) ∷ xs) ys a =
      let (front, back) = Above-append k xs ys a.1 in ((a.0, front), back)

  -- What follows the last of a page's IDs is what stands behind the page.
  following_last :
      (xs ys : List (Text × V)) (k : Text)
      → Ascending (xs ++ ys)
      → last_key xs ≡ some k
      → following (some k) (xs ++ ys) ≡ ys
  following_last [] ys k a e = absurd (let x : none ≡ some k = e in cc)
  following_last ((j, v) ∷ []) ys k a e =
      let same : some j ≡ some k = e in
      let named : j ≡ k = cc in
      subst (λ i. following (some i) ((j, v) ∷ ys) ≡ ys) named
        (rw (less_irreflexive j) (following_all j ys a.0))
  following_last ((j, v) ∷ (i, w) ∷ xs) ys k a e =
      rw
        (less_not_back j k
          (Above-last_key j k ((i, w) ∷ xs) (Above-append j ((i, w) ∷ xs) ys a.0).0 e))
        (following_last ((i, w) ∷ xs) ys k a.1 e)

  -- The last ID of a page follows the one that the page was asked for after.
  last_key-follows :
      (after : Option Text) (n : ℕ) (k : Text) (m : List (Text × V))
      → last_key (take n (following after m)) ≡ some k
      → follows after k ≡ true
  last_key-follows none n k m e = refl
  last_key-follows (some after) n k m e =
      Above-last_key after k (take n (following (some after) m))
        (Above-take after n (following (some after) m) (following-Above after m)) e

  following_twice :
      (after : Option Text) (k : Text) (m : List (Text × V))
      → follows after k ≡ true
      → following (some k) (following after m) ≡ following (some k) m
  following_twice after k [] h = refl
  following_twice after k ((id, v) ∷ m) h = elim (Bool-cases (less k id)) [
    | inl g ↦ rw (follows_trans after k id h g, g, following_twice after k m h) refl
    | inr g ↦ elim (Bool-cases (follows after id)) [
      | inl f ↦ rw (f, g) (following_twice after k m h)
      | inr f ↦ rw (f, g) (following_twice after k m h)
    ]
  ]

  -- The rest of the map behind a page.
  pub behind :
      (after : Option Text) (n : ℕ) (k : Text) (m : List (Text × V))
      → Ascending m
      → last_key (take n (following after m)) ≡ some k
      → following (some k) m ≡ drop n (following after m)
  behind after n k m a e =
      let items = following after m in
      sym (following_twice after k m (last_key-follows after n k m e))
      ∙ ap (following (some k)) (sym (take-append-drop n items))
      ∙ following_last (take n items) (drop n items) k
          (subst Ascending (sym (take-append-drop n items)) (following-Ascending after m a)) e
