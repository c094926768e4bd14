-- ===== src/Text.antt =====
-- Rust `String`s as the list of their UTF-8 bytes: `len` counts bytes, as in Rust.
-- `truncate` is the helper of src/build/mod.rs; `boundary` is its loop, which src/error.rs has too.
pub mod Truncate
pub mod Decimal
pub mod Order
use Prim.Native.Char.{code}
use Prim.Native.String.{String}
use spinfoam.Prelude.{
  ℕ, zero, suc, ◌<◌, ◌≡◌, refl, Bool, true, false, arith, ◌||◌, List, [], ◌∷◌, Option, none, some,
  min, length, get_elem?, take, ltb, leb, ◌==◌, if◌then◌else◌, ℕ_discrete,
}

abbrev pub Text : Type 0
Text = List ℕ

-- The bytes of an ASCII literal.
abbrev pub text : String → Text
text String.[] = []
text (String.◌∷◌ c s) = code c ∷ text s

pub heads_differ : (x y : ℕ) (xs ys : Text) → (x == y) ≡ false → ¬ (x ∷ xs ≡ y ∷ ys)
heads_differ x y xs ys h = λ e. ground arith

pub heads_agree : (x y : ℕ) (xs ys : Text) → (x == y) ≡ true → xs ≡ ys → x ∷ xs ≡ y ∷ ys
heads_agree x y xs ys h e = ground arith

pub tails_differ : (x y : ℕ) (xs ys : Text) → ¬ (xs ≡ ys) → ¬ (x ∷ xs ≡ y ∷ ys)
tails_differ x y xs ys h = λ e. h (cc)

pub nil_differs : (y : ℕ) (ys : Text) → ¬ ([] ≡ y ∷ ys)
nil_differs y ys = λ e. cc

pub cons_differs : (x : ℕ) (xs : Text) → ¬ (x ∷ xs ≡ [])
cons_differs x xs = λ e. cc

dec_cons :
    (x y : ℕ) (xs ys : Text) (b : Bool) → (x == y) ≡ b → Dec (xs ≡ ys) → Dec (x ∷ xs ≡ y ∷ ys)
dec_cons x y xs ys true h (yes e) = yes (heads_agree x y xs ys h e)
dec_cons x y xs ys true h (no e) = no (tails_differ x y xs ys e)
dec_cons x y xs ys false h d = no (heads_differ x y xs ys h)

-- Equality of texts, decided byte by byte.
unfoldable pub text_discrete : Discrete Text
unfolding dec_cons
text_discrete [] [] = yes refl
text_discrete [] (y ∷ ys) = no (nil_differs y ys)
text_discrete (x ∷ xs) [] = no (cons_differs x xs)
text_discrete (x ∷ xs) (y ∷ ys) = dec_cons x y xs ys (x == y) refl (text_discrete xs ys)

-- A byte that does not continue a character: `(b as i8) >= -0x40`.
abbrev pub starts_char : ℕ → Bool
starts_char b = ltb b 128 || leb 192 b

-- `str::is_char_boundary` of the standard library.
unfoldable pub is_char_boundary : Text → ℕ → Bool
is_char_boundary s zero = true
is_char_boundary s (suc i) = elim (get_elem? s (suc i)) [
  | none ↦ suc i == length s
  | some b ↦ starts_char b
]

-- `while !text.is_char_boundary(end) { end -= 1; }`
unfoldable pub boundary : Text → ℕ → ℕ
boundary s zero = zero
boundary s (suc n) = let rest = boundary s n in if is_char_boundary s (suc n) then suc n else rest

-- `String::truncate` keeps the first bytes.
unfoldable pub truncate : Text → ℕ → Text
unfolding boundary is_char_boundary
truncate s max = take (boundary s (min max (length s))) s
