-- ===== src/Build/Paths/Resolve.antt =====
-- Where `virtual_path` of src/build/compiler.rs leads, and that the paths which src/build/mod.rs
-- lets in lead to themselves.
use spinfoam.Prelude.{
  ◌≡◌, ◌≢◌, refl, ap, ◌∙◌, sym, subst, true, false, List, [], ◌∷◌, ◌++◌, append_assoc, append-nil,
  none, some, leb, if_pos, if_neg, Bool-cases, Option-cases, inl, inr, length, arith,
}
use spinfoam.Text.{Text, text, text_discrete}
use spinfoam.Build.Paths.{
  split, join, is, all, starts_with, valid_part, valid_path, Kind, skipped, parent, ordinary, kind,
  pop, walk, under_src, virtual_path,
}
use spinfoam.Build.Paths.Split.{
  All, NoSlash, NonEmpty, split-NoSlash, split-NonEmpty, join-split, split-join,
}

-- A plain component: not empty, `.` or `..`, and with no slash.
pub record IsPlain (p : Text) : Type 0 where
  pub nonempty : p ≢ []
  pub not_here : p ≢ text "."
  pub not_parent : p ≢ text ".."
  pub no_slash : NoSlash p

is_eq : (p q : Text) → is p q ≡ true → p ≡ q
is_eq p q e = elim (text_discrete p q) [
  | yes h ↦ h
  | no h ↦ absurd (let f : is p q ≡ false = if_neg (text_discrete p q) h _ _ in cc)
]

is_ne : (p q : Text) → p ≢ q → is p q ≡ false
is_ne p q h = if_neg (text_discrete p q) h _ _

is_refl : (p : Text) → is p p ≡ true
is_refl p = if_pos (text_discrete p p) refl _ _

ne_of_is : (p q : Text) → is p q ≡ false → p ≢ q
ne_of_is p q e h = let f : is p q ≡ true = if_pos (text_discrete p q) h _ _ in cc

kind_plain : (p : Text) → IsPlain p → kind p ≡ ordinary
unfolding kind
kind_plain p h =
    rw (is_ne p [] h.nonempty, is_ne p (text ".") h.not_here, is_ne p (text "..") h.not_parent) refl

IsPlain-of_kind : (p : Text) → kind p ≡ ordinary → NoSlash p → IsPlain p
unfolding kind
IsPlain-of_kind p e s = record {
  nonempty = ne_of_is p [] (ground arith);
  not_here = ne_of_is p (text ".") (ground arith);
  not_parent = ne_of_is p (text "..") (ground arith);
  no_slash = s;
}

All-pop : (P : Text → Type 0) (ps : List Text) → All P ps → All P (pop ps)
All-pop P [] h = tt
All-pop P (p ∷ []) h = tt
All-pop P (p ∷ q ∷ ps) h = (h.0, All-pop P (q ∷ ps) h.1)

All-push : (P : Text → Type 0) (ps : List Text) (p : Text) → All P ps → P p → All P (ps ++ p ∷ [])
All-push P [] p h k = (k, tt)
All-push P (q ∷ ps) p h k = (h.0, All-push P ps p h.1 k)

-- The loop keeps the parts plain.
walk-IsPlain :
    (ps parts : List Text) (r : List Text)
    → All NoSlash ps
    → All IsPlain parts
    → walk ps parts ≡ some r
    → All IsPlain r
unfolding walk
walk-IsPlain [] parts r s h e = subst (All IsPlain) (ground arith) h
walk-IsPlain (p ∷ ps) parts r s h e = go (λ q k f. walk-IsPlain ps q r s.1 k f) (kind p) refl
  where
    Rest : Type 0
    Rest = (q : List Text) → All IsPlain q → walk ps q ≡ some r → All IsPlain r

    go : Rest → (k : Kind) → kind p ≡ k → All IsPlain r
    go rest skipped f = rest parts h (rw (f, walk) at e)
    go rest parent f = elim (Bool-cases (leb (length parts) 1)) [
      | inl b ↦ absurd (let x : none ≡ some r = rw (f, walk, b) at e in cc)
      | inr b ↦ rest (pop parts) (All-pop IsPlain parts h) (rw (f, walk, b) at e)
    ]
    go rest ordinary f =
        rest (parts ++ p ∷ []) (All-push IsPlain parts p h (IsPlain-of_kind p f s.0))
          (rw (f, walk) at e)

walk_pushes : (ps parts : List Text) → All IsPlain ps → walk ps parts ≡ some (parts ++ ps)
unfolding walk
walk_pushes [] parts h = ap some (sym (append-nil parts))
walk_pushes (p ∷ ps) parts h =
    rw (kind_plain p h.0, walk)
      (walk_pushes ps (parts ++ p ∷ []) h.1 ∙ ap some (append_assoc parts (p ∷ []) ps))

walk_skip : (ps : List Text) → walk ([] ∷ ps) [] ≡ walk ps []
unfolding walk kind text_discrete
walk_skip ps = refl

under_src_lem :
    (parts : List Text) (path : Text)
    → under_src parts ≡ some path
    → (rest : List Text) × (parts ≡ text "src" ∷ rest) × (path ≡ b'/' ∷ join parts)
unfolding under_src
under_src_lem [] path e = absurd (let x : none ≡ some path = e in cc)
under_src_lem (p ∷ rest) path e = elim (Bool-cases (is p (text "src"))) [
  | inl b ↦ (
    rest,
    ap (λ q. q ∷ rest) (is_eq p (text "src") b),
    (let x : some (b'/' ∷ join (p ∷ rest)) ≡ some path = rw b at e in cc),
  )
  | inr b ↦ absurd (let x : none ≡ some path = rw b at e in cc)
]

-- Whatever a guest asks for, an accepted path is `/src/` and plain components behind it, or `/src`
-- itself: no `..`, `.` or empty component is left that could lead elsewhere.
pub virtual_path_confined :
    (name path : Text)
    → virtual_path name ≡ some path
    → (rest : List Text) × (path ≡ b'/' ∷ join (text "src" ∷ rest)) × All IsPlain rest
unfolding virtual_path
virtual_path_confined name path e = elim (Bool-cases (starts_with b'/' name)) [
  | inr b ↦ absurd (let x : none ≡ some path = rw b at e in cc)
  | inl b ↦ elim (Option-cases (walk (split name) [])) [
    | inl w ↦ absurd (let x : none ≡ some path = rw (b, w) at e in cc)
    | inr (parts, w) ↦
        let x : under_src parts ≡ some path = rw (b, w) at e in
        let (rest, f, g) = under_src_lem parts path x in
        (
          rest,
          g ∙ ap (λ ps. b'/' ∷ join ps) f,
          (let plain : All IsPlain (text "src" ∷ rest) =
                subst (All IsPlain) f
                  (walk-IsPlain (split name) [] parts (split-NoSlash name) tt w) in
              plain.1),
        )
  ]
]

All-NoSlash : (ps : List Text) → All IsPlain ps → All NoSlash ps
All-NoSlash [] h = tt
All-NoSlash (p ∷ ps) h = (h.0.no_slash, All-NoSlash ps h.1)

src-IsPlain : IsPlain (text "src")
src-IsPlain = record {
  nonempty = λ e. cc;
  not_here = λ e. cc;
  not_parent = λ e. cc;
  no_slash = (refl, (refl, (refl, tt)));
}

-- A path of plain components under `/src` leads to itself.
virtual_path_plain :
    (ps : List Text)
    → All IsPlain ps
    → virtual_path (b'/' ∷ join (text "src" ∷ ps)) ≡ some (b'/' ∷ join (text "src" ∷ ps))
unfolding virtual_path under_src split
virtual_path_plain ps h =
    rw
      (
        split-join (text "src") ps (src-IsPlain.no_slash, All-NoSlash ps h),
        walked,
        is_refl (text "src"),
      )
      refl
  where
    walked : walk ([] ∷ text "src" ∷ ps) [] ≡ some (text "src" ∷ ps)
    walked = walk_skip (text "src" ∷ ps) ∙ walk_pushes (text "src" ∷ ps) [] (src-IsPlain, h)

-- An accepted path is in normal form: it leads to itself.
pub virtual_path_idem :
    (name path : Text) → virtual_path name ≡ some path → virtual_path path ≡ some path
virtual_path_idem name path e =
    let (rest, f, plain) = virtual_path_confined name path e in
    subst (λ q. virtual_path q ≡ some q) (sym f) (virtual_path_plain rest plain)

valid_part-IsPlain : (p : Text) → valid_part p ≡ true → NoSlash p → IsPlain p
unfolding valid_part
valid_part-IsPlain p e s = record {
  nonempty = ne_of_is p [] (ground arith);
  not_here = ne_of_is p (text ".") (ground arith);
  not_parent = ne_of_is p (text "..") (ground arith);
  no_slash = s;
}

all_valid-IsPlain : (ps : List Text) → all valid_part ps ≡ true → All NoSlash ps → All IsPlain ps
all_valid-IsPlain [] e s = tt
all_valid-IsPlain (p ∷ ps) e s =
    (valid_part-IsPlain p (ground arith) s.0, all_valid-IsPlain ps (ground arith) s.1)

valid_parts : (name : Text) → valid_path name ≡ true → all valid_part (split name) ≡ true
unfolding valid_path
valid_parts name e = ground arith

join-src : (ps : List Text) → ps ≢ [] → b'/' ∷ join (text "src" ∷ ps) ≡ text "/src/" ++ join ps
unfolding join
join-src [] h = absurd (h refl)
join-src (p ∷ ps) h = refl

split_ne : (name : Text) → split name ≢ []
split_ne name e = subst NonEmpty e (split-NonEmpty name)

src_path : (name : Text) → b'/' ∷ join (text "src" ∷ split name) ≡ text "/src/" ++ name
src_path name =
    join-src (split name) (split_ne name) ∙ ap (λ s. text "/src/" ++ s) (join-split name)

-- A file name that `valid_path` lets in resolves, behind `/src/`, to itself: the compiler's guest
-- opens each submitted file under the very key that it is stored under.
pub virtual_path-valid_path :
    (name : Text)
    → valid_path name ≡ true
    → virtual_path (text "/src/" ++ name) ≡ some (text "/src/" ++ name)
virtual_path-valid_path name e =
    subst (λ q. virtual_path q ≡ some q) (src_path name)
      (virtual_path_plain (split name)
        (all_valid-IsPlain (split name) (valid_parts name e) (split-NoSlash name)))
