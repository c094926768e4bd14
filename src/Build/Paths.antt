-- ===== src/Build/Paths.antt =====
-- `valid_path` of src/build/mod.rs and `virtual_path` of src/build/compiler.rs. The calls of the
-- standard library (`split`, `join`, `starts_with`, `Path::components`) are written out over bytes.
pub mod Split
pub mod Resolve
use spinfoam.Prelude.{
  ℕ, Bool, true, false, not, ◌&&◌, ◌||◌, List, [], ◌∷◌, ◌++◌, Option, none, some, ltb, leb, ◌==◌,
  if◌then◌else◌, ite, length,
}
use spinfoam.Text.{Text, text, text_discrete}

abbrev cons_head : ℕ → List Text → List Text
cons_head c [] = (c ∷ []) ∷ []
cons_head c (p ∷ ps) = (c ∷ p) ∷ ps

-- `s.split('/')`: one part more than there are slashes.
unfoldable pub split : Text → List Text
split [] = [] ∷ []
split (c ∷ s) = if c == b'/' then [] ∷ split s else cons_head c (split s)

-- `parts.join("/")`
unfoldable pub join : List Text → Text
join [] = []
join (p ∷ []) = p
join (p ∷ q ∷ ps) = p ++ b'/' ∷ join (q ∷ ps)

abbrev pub starts_with : ℕ → Text → Bool
starts_with c [] = false
starts_with c (b ∷ s) = b == c

abbrev pub ends_with : ℕ → Text → Bool
ends_with c [] = false
ends_with c (b ∷ []) = b == c
ends_with c (b ∷ d ∷ s) = ends_with c (d ∷ s)

-- `name.contains("//")`
abbrev pub contains_slashes : Text → Bool
contains_slashes [] = false
contains_slashes (b ∷ []) = false
contains_slashes (b ∷ d ∷ s) = b == b'/' && d == b'/' || contains_slashes (d ∷ s)

abbrev pub all {ℓ} : {A : Type ℓ} → (A → Bool) → List A → Bool
all p [] = true
all p (x ∷ xs) = p x && all p xs

-- `b.is_ascii_alphanumeric() || b"_./-".contains(&b)`
abbrev pub allowed : ℕ → Bool
allowed b =
    leb b'0' b && leb b b'9'
    || leb b'A' b && leb b b'Z'
    || leb b'a' b && leb b b'z'
    || b == b'_'
    || b == b'.'
    || b == b'/'
    || b == b'-'

abbrev pub is : Text → Text → Bool
is p q = ite (text_discrete p q) true false

-- `!p.is_empty() && p != "." && p != ".." && p != "spinfoam.h"`
unfoldable pub valid_part : Text → Bool
valid_part p =
    not (is p [])
    && not (is p (text "."))
    && not (is p (text ".."))
    && not (is p (text "spinfoam.h"))

abbrev first_is : Text → List Text → Bool
first_is p [] = false
first_is p (q ∷ qs) = is q p

-- `Path::new(name).components().all(|c| matches!(c, Component::Normal(_)))`: the path is relative,
-- does not begin with `.` (any other `.` and empty parts are skipped), and has no `..`.
unfoldable pub normal_components : Text → Bool
unfolding split
normal_components name =
    not (starts_with b'/' name)
    && not (first_is (text ".") (split name))
    && all (λ p. not (is p (text ".."))) (split name)

unfoldable pub valid_path : Text → Bool
valid_path name =
    not (is name [])
    && leb (length name) 200
    && not (starts_with b'/' name)
    && not (ends_with b'/' name)
    && not (contains_slashes name)
    && all allowed name
    && all valid_part (split name)
    && normal_components name

-- How the loop of `virtual_path` treats a part.
pub data Kind : Type 0 where
  skipped parent ordinary : Kind

unfoldable pub kind : Text → Kind
kind p =
    if is p [] || is p (text ".") then skipped else if is p (text "..") then parent else ordinary

-- `parts.pop()`
abbrev pub pop : List Text → List Text
pop [] = []
pop (p ∷ []) = []
pop (p ∷ q ∷ ps) = p ∷ pop (q ∷ ps)

-- The loop of `virtual_path`, over the parts that are left.
unfoldable pub walk : List Text → List Text → Option (List Text)
walk [] parts = some parts
walk (p ∷ ps) parts = elim (kind p) [
  | skipped ↦ walk ps parts
  | parent ↦ if leb (length parts) 1 then none else walk ps (pop parts)
  | ordinary ↦ walk ps (parts ++ p ∷ [])
]

-- `(parts.first() == Some(&"src")).then(|| format!("/{}", parts.join("/")))`
unfoldable pub under_src : List Text → Option Text
under_src parts = if first_is (text "src") parts then some (b'/' ∷ join parts) else none

unfoldable pub virtual_path : Text → Option Text
virtual_path name =
    if starts_with b'/' name
    then elim (walk (split name) []) [ none ↦ none | some parts ↦ under_src parts ]
    else none
