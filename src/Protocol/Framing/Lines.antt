-- ===== src/Protocol/Framing/Lines.antt =====
-- `frame` of src/protocol.rs called again and again reads the lines that were written.
use spinfoam.Prelude.{
  ℕ, zero, suc, ◌+◌, ◌<◌, ◌≡◌, refl, ap, sym, subst, ◌∙◌, false, List, [], ◌∷◌, ◌++◌, append_assoc,
  Option, none, some, Result, ok, err, ltb, if_cases, length, take, drop, take-append-drop,
  Option-cases, inl, inr, arith,
}
use spinfoam.Outbox.Queues.{Bytes, max_frame}
use spinfoam.Protocol.Framing.{FrameError, Reader, line_end, unconsumed, at_end, frame_from, frame}
use spinfoam.Protocol.Framing.Chunks.{
  IsClean, joined, first_line, line_end-append, take-shift, first_line_at, frame-first_line,
}

-- The line read and what is left to read make up what there was.
abbrev Keeps : Bytes → Result FrameError (Option Bytes) × Reader → Type 0
Keeps s (ok (some l), r) = IsClean r × (l ++ joined r ≡ s)
Keeps s (ok none, r) = Unit
Keeps s (err e, r) = Unit

joined-unconsumed : (bs : Bytes) (r : Reader) → joined (unconsumed bs r) ≡ bs ++ joined r
joined-unconsumed [] r = refl
joined-unconsumed (b ∷ bs) r = refl

unconsumed-IsClean : (bs : Bytes) (r : Reader) → IsClean r → IsClean (unconsumed bs r)
unconsumed-IsClean [] r c = c
unconsumed-IsClean (b ∷ bs) r c = c

at_end-Keeps : (f s : Bytes) (r : Reader) → Keeps s (at_end f, r)
at_end-Keeps [] s r = tt
at_end-Keeps (b ∷ f) s r = tt

frame_from-Keeps : (r : Reader) (f : Bytes) → IsClean r → Keeps (f ++ joined r) (frame_from f r)
unfolding frame_from
frame_from-Keeps [] f c = at_end-Keeps f _ []
frame_from-Keeps (err m ∷ r) f c = absurd c
frame_from-Keeps (ok [] ∷ r) f c = absurd c
frame_from-Keeps (ok (b ∷ bs) ∷ r) f c = elim (Option-cases (line_end (b ∷ bs))) [
  | inr (n, k) ↦
      rw (k, frame_from)
        (if_cases (Keeps (f ++ ((b ∷ bs) ++ joined r))) (ltb max_frame (length f + n)) _ _ (λ _. tt)
          λ _. (
            unconsumed-IsClean (drop n (b ∷ bs)) r c,
            ap (◌++◌ (f ++ take n (b ∷ bs))) (joined-unconsumed (drop n (b ∷ bs)) r)
                ∙ append_assoc f (take n (b ∷ bs)) _
                ∙ ap (◌++◌ f) (
                    sym (append_assoc (take n (b ∷ bs)) (drop n (b ∷ bs)) (joined r))
                    ∙ ap (λ l. l ++ joined r) (take-append-drop n (b ∷ bs))),
          ))
  | inl k ↦
      rw (k, frame_from)
        (if_cases (Keeps (f ++ ((b ∷ bs) ++ joined r))) (ltb max_frame (length f + length (b ∷ bs)))
          _ _ (λ _. tt)
          λ _.
            subst (λ s. Keeps s (frame_from (f ++ b ∷ bs) r)) (append_assoc f (b ∷ bs) (joined r))
              (frame_from-Keeps r (f ++ b ∷ bs) c))
]

-- The results of `n` calls, each where the one before stopped.
pub frames : ℕ → Reader → List (Result FrameError (Option Bytes))
frames zero r = []
frames (suc n) r = let (x, r') = frame r in x ∷ frames n r'

abbrev pub IsLine : Bytes → Type 0
IsLine l = (line_end l ≡ none) × (length l < max_frame)

abbrev pub AllLines : List Bytes → Type 0
AllLines [] = Unit
AllLines (l ∷ ls) = IsLine l × AllLines ls

abbrev pub written : List Bytes → Bytes
written [] = []
written (l ∷ ls) = l ++ b'\n' ∷ written ls

abbrev pub read_back : List Bytes → List (Result FrameError (Option Bytes))
read_back [] = ok none ∷ []
read_back (l ∷ ls) = ok (some (l ++ b'\n' ∷ [])) ∷ read_back ls

first_line-written :
    (l s : Bytes) → IsLine l → first_line (l ++ b'\n' ∷ s) ≡ ok (some (l ++ b'\n' ∷ []))
first_line-written l s (e, h) =
    first_line_at (l ++ b'\n' ∷ s) (length l + 1) (line_end-append l (b'\n' ∷ s) e)
    ∙ (let b : ltb max_frame (length l + 1) ≡ false = ground arith in rw b refl)
    ∙ ap (λ x. ok (some x)) (take-shift l (b'\n' ∷ s) 1)

append_cancel : (l s t : Bytes) → l ++ s ≡ l ++ t → s ≡ t
append_cancel [] s t e = e
append_cancel (b ∷ l) s t e = append_cancel l s t (cc)

step-Keeps :
    (r : Reader) (l s : Bytes)
    → IsClean r
    → joined r ≡ l ++ b'\n' ∷ s
    → (frame r).0 ≡ ok (some (l ++ b'\n' ∷ []))
    → IsClean (frame r).1 × (joined (frame r).1 ≡ s)
unfolding frame
step-Keeps r l s c e f =
    let (clean, k) =
      subst (λ x. Keeps (joined r) (x, (frame_from [] r).1)) f (frame_from-Keeps r [] c) in
    (clean, append_cancel (l ++ b'\n' ∷ []) _ s (k ∙ e ∙ sym (append_assoc l (b'\n' ∷ []) s)))

-- Lines written one after the other, each with a newline and at most 256 KiB long with it, are read
-- back in order by as many calls, however the input is cut into chunks; one call more finds the end.
pub frames-written :
    (ls : List Bytes) (r : Reader)
    → IsClean r
    → AllLines ls
    → joined r ≡ written ls
    → frames (suc (length ls)) r ≡ read_back ls
unfolding frames
frames-written [] r c a e = ap (λ x. x ∷ []) (frame-first_line r c ∙ ap first_line e)
frames-written (l ∷ ls) r c a e =
    let head : (frame r).0 ≡ ok (some (l ++ b'\n' ∷ [])) =
      frame-first_line r c ∙ ap first_line e ∙ first_line-written l (written ls) a.0 in
    let (clean, left) = step-Keeps r l (written ls) c e head in
    ap (λ x. x ∷ frames (suc (length ls)) (frame r).1) head
    ∙ ap (◌∷◌ (ok (some (l ++ b'\n' ∷ [])))) (frames-written ls (frame r).1 clean a.1 left)
