-- ===== src/Text/Decimal.antt =====
-- Numbers in decimal, as `format!` writes them.
use spinfoam.Prelude.{
  ℕ, zero, suc, ◌+◌, ◌-◌, ◌*◌, ◌/◌, ◌%◌, ◌<◌, ◌≡◌, refl, ap, sym, ◌∙◌, [], ◌∷◌, ◌++◌, ltb,
  if◌then◌else◌, Bool-cases, inl, inr, arith,
}
use spinfoam.Text.{Text}

-- The number of steps bounds the digits.
unfoldable pub digits : ℕ → ℕ → Text
digits zero n = []
digits (suc k) n =
    let rest = digits k (n / 10) in
    if ltb n 10 then (b'0' + n) ∷ [] else rest ++ (b'0' + n % 10) ∷ []

unfoldable pub decimal : ℕ → Text
unfolding digits
decimal n = digits (suc n) n

abbrev read : Text → ℕ → ℕ
read [] a = a
read (c ∷ s) a = read s (10 * a + (c - b'0'))

read-append : (s : Text) (c a : ℕ) → read (s ++ c ∷ []) a ≡ 10 * read s a + (c - b'0')
read-append [] c a = refl
read-append (d ∷ s) c a = read-append s c (10 * a + (d - b'0'))

read-digits : (k n : ℕ) → n < k → read (digits k n) 0 ≡ n
unfolding digits
read-digits zero n h = absurd (omega arith)
read-digits (suc k) n h = elim (Bool-cases (ltb n 10)) [
  | inl b ↦ rw b (omega arith)
  | inr b ↦
      let small : 10 * (n / 10) + n % 10 ≡ n = omega arith in
      rw b (
        read-append (digits k (n / 10)) (b'0' + n % 10) 0
        ∙ omega (arith, read-digits k (n / 10) (ground arith)))
]

-- Two numbers are not written alike.
pub decimal_inj : (m n : ℕ) → decimal m ≡ decimal n → m ≡ n
unfolding decimal
decimal_inj m n e =
    sym (read-digits (suc m) m (omega arith))
    ∙ ap (λ s. read s 0) e
    ∙ read-digits (suc n) n (omega arith)
