-- ===== src/Protocol/Framing/Chunks.antt =====
-- However the input is cut into chunks, `frame` of src/protocol.rs reads the same lines.
use spinfoam.Prelude.{
  ℕ, zero, suc, ◌+◌, ◌≤◌, ◌<◌, ◌≡◌, refl, ap, sym, ◌∙◌, Bool, true, false, [], ◌∷◌, ◌++◌,
  append_assoc, append-nil, Option, none, some, Result, ok, err, ltb, ◌==◌, if◌then◌else◌, length,
  length-append, take, Bool-cases, Option-cases, inl, inr, arith,
}
use spinfoam.Outbox.Queues.{Bytes, max_frame}
use spinfoam.Protocol.Framing.{FrameError, too_long, Reader, line_end, at_end, frame_from, frame}

-- The input has no failing read and no empty chunk.
abbrev pub IsClean : Reader → Type 0
IsClean [] = Unit
IsClean (err e ∷ r) = ⊥
IsClean (ok [] ∷ r) = ⊥
IsClean (ok (b ∷ bs) ∷ r) = IsClean r

abbrev pub joined : Reader → Bytes
joined [] = []
joined (err e ∷ r) = joined r
joined (ok bytes ∷ r) = bytes ++ joined r

-- The reading of a whole input, with no chunks in sight: its first line if that is within the
-- limit, and what follows it.
abbrev pub first_line : Bytes → Result FrameError (Option Bytes)
first_line s = elim (line_end s) [
  | some n ↦ if ltb max_frame n then err too_long else ok (some (take n s))
  | none ↦ if ltb max_frame (length s) then err too_long else at_end s
]

abbrev pub shift : ℕ → Option ℕ → Option ℕ
shift k none = none
shift k (some n) = some (k + n)

shift-shift : (o : Option ℕ) (k : ℕ) → shift (suc k) o ≡ shift 1 (shift k o)
shift-shift none k = refl
shift-shift (some n) k = ap some (omega arith)

cons_end : (b : ℕ) (s : Bytes) → (b == b'\n') ≡ false → line_end (b ∷ s) ≡ shift 1 (line_end s)
cons_end b s e = rw e (go (line_end s))
  where
    go :
        (o : Option ℕ)
        → (let r : Option ℕ = elim o [ none ↦ none | some n ↦ some (suc n) ] in r) ≡ shift 1 o
    go none = refl
    go (some n) = ap some (omega arith)

shift_zero : (o : Option ℕ) → shift 0 o ≡ o
shift_zero none = refl
shift_zero (some n) = ap some (omega arith)

shift-none : (k : ℕ) (o : Option ℕ) → shift k o ≡ none → o ≡ none
shift-none k none e = refl
shift-none k (some n) e = cc

cons_none :
    (b : ℕ) (s : Bytes) → line_end (b ∷ s) ≡ none → ((b == b'\n') ≡ false) × (line_end s ≡ none)
cons_none b s e = elim (Bool-cases (b == b'\n')) [
  | inl h ↦ absurd (let x : some 1 ≡ none = rw (h, line_end) at e in cc)
  | inr h ↦ (h, shift-none 1 (line_end s) (sym (cons_end b s h) ∙ e))
]

pub line_end-append :
    (f s : Bytes) → line_end f ≡ none → line_end (f ++ s) ≡ shift (length f) (line_end s)
line_end-append [] s e = sym (shift_zero (line_end s))
line_end-append (b ∷ f) s e =
    let (h, k) = cons_none b f e in
    cons_end b (f ++ s) h
    ∙ ap (shift 1) (line_end-append f s k)
    ∙ sym (shift-shift (line_end s) (length f))

-- A line's end stands within what holds it, and does not move when more follows.
pub line_end_stays :
    (s t : Bytes) (n : ℕ) → line_end s ≡ some n → (line_end (s ++ t) ≡ some n) × (n ≤ length s)
line_end_stays [] t n e = cc
line_end_stays (b ∷ s) t n e = elim (Bool-cases (b == b'\n')) [
  | inl h ↦
      let first : some 1 ≡ some n = rw (h, line_end) at e in (rw (h, line_end) first, ground arith)
  | inr h ↦ elim (Option-cases (line_end s)) [
    | inl k ↦ absurd (let x : none ≡ some n = ap (shift 1) (sym k) ∙ sym (cons_end b s h) ∙ e in cc)
    | inr (m, k) ↦
        let (stays, within) = line_end_stays s t m k in
        let x : some (1 + m) ≡ some n = ap (shift 1) (sym k) ∙ sym (cons_end b s h) ∙ e in
        (cons_end b (s ++ t) h ∙ ap (shift 1) stays ∙ x, ground arith)
  ]
]

pub take-shift : (f s : Bytes) (n : ℕ) → take (length f + n) (f ++ s) ≡ f ++ take n s
take-shift [] s n = ap (λ k. take k s) (let e : 0 + n ≡ n = omega arith in e)
take-shift (b ∷ f) s n =
    ap (λ k. take k (b ∷ (f ++ s)))
      (let e : suc (length f) + n ≡ suc (length f + n) = omega arith in e)
    ∙ ap (◌∷◌ b) (take-shift f s n)

take_within : (s t : Bytes) (n : ℕ) → n ≤ length s → take n (s ++ t) ≡ take n s
take_within s t zero h = refl
take_within [] t (suc n) h = absurd (omega arith)
take_within (b ∷ s) t (suc n) h = ap (◌∷◌ b) (take_within s t n (omega arith))

pub first_line_at :
    (s : Bytes) (n : ℕ)
    → line_end s ≡ some n
    → first_line s ≡ (if ltb max_frame n then err too_long else ok (some (take n s)))
first_line_at s n e = rw (e, first_line) refl

first_line-none :
    (s : Bytes)
    → line_end s ≡ none
    → first_line s ≡ (if ltb max_frame (length s) then err too_long else at_end s)
first_line-none s e = rw (e, first_line) refl

-- Too many bytes with no end among them: no line of the input can be within the limit.
first_line_long :
    (f s : Bytes) → line_end f ≡ none → max_frame < length f → first_line (f ++ s) ≡ err too_long
first_line_long f s e h = elim (Option-cases (line_end s)) [
  | inl k ↦
      first_line-none (f ++ s) (line_end-append f s e ∙ ap (shift (length f)) k)
      ∙ (let b : ltb max_frame (length (f ++ s)) ≡ true = ground (arith, length-append f s) in
          rw b refl)
  | inr (n, k) ↦
      first_line_at (f ++ s) (length f + n) (line_end-append f s e ∙ ap (shift (length f)) k)
      ∙ (let b : ltb max_frame (length f + n) ≡ true = ground arith in rw b refl)
]

pub branch :
    {A B : Type 0} (t : Bool) (a b : A × B) → (if t then a else b).0 ≡ (if t then a.0 else b.0)
branch true a b = refl
branch false a b = refl

frame_from-first_line :
    (r : Reader) (f : Bytes)
    → IsClean r
    → line_end f ≡ none
    → length f ≤ max_frame
    → (frame_from f r).0 ≡ first_line (f ++ joined r)
unfolding frame_from
frame_from-first_line [] f c e h = sym (
    ap first_line (append-nil f)
    ∙ first_line-none f e
    ∙ (let b : ltb max_frame (length f) ≡ false = ground arith in rw b refl))
frame_from-first_line (err m ∷ r) f c e h = absurd c
frame_from-first_line (ok [] ∷ r) f c e h = absurd c
frame_from-first_line (ok (b ∷ bs) ∷ r) f c e h = elim (Option-cases (line_end (b ∷ bs))) [
  | inr (n, k) ↦
      let (stays, within) = line_end_stays (b ∷ bs) (joined r) n k in
      rw (k, frame_from)
        (branch (ltb max_frame (length f + n)) _ _
          ∙ ap (λ l. if ltb max_frame (length f + n) then err too_long else ok (some l))
              (ap (◌++◌ f) (sym (take_within (b ∷ bs) (joined r) n within))
                ∙ sym (take-shift f ((b ∷ bs) ++ joined r) n))
          ∙ sym (
              first_line_at (f ++ ((b ∷ bs) ++ joined r)) (length f + n)
                (line_end-append f ((b ∷ bs) ++ joined r) e ∙ ap (shift (length f)) stays)))
  | inl k ↦
      let none_yet : line_end (f ++ b ∷ bs) ≡ none =
        line_end-append f (b ∷ bs) e ∙ ap (shift (length f)) k in
      rw (k, frame_from)
        (elim (Bool-cases (ltb max_frame (length f + length (b ∷ bs)))) [
          | inl t ↦ rw t (
              sym (
                ap first_line (sym (append_assoc f (b ∷ bs) (joined r)))
                ∙ first_line_long (f ++ b ∷ bs) (joined r) none_yet
                    (ground (arith, length-append f (b ∷ bs)))))
          | inr t ↦ rw t (
              frame_from-first_line r (f ++ b ∷ bs) c none_yet
                (ground (arith, length-append f (b ∷ bs)))
              ∙ ap first_line (append_assoc f (b ∷ bs) (joined r)))
        ])
]

-- Of an input with no failing read, however cut into chunks that are not empty, the result is that
-- of the whole input: its first line with the newline if that takes at most 256 KiB, nothing at
-- its end, and an error if it ends inside a line or a line is longer.
pub frame-first_line : (r : Reader) → IsClean r → (frame r).0 ≡ first_line (joined r)
unfolding frame
frame-first_line r c = frame_from-first_line r [] c refl (omega arith)
