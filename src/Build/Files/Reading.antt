-- ===== src/Build/Files/Reading.antt =====
-- Reading a file through the compiler's descriptors (src/build/compiler.rs) is safe, and hands the
-- guest the file's bytes in order.
use spinfoam.Prelude.{
  ℕ, zero, suc, ◌+◌, ◌-◌, ◌≤◌, ◌≡◌, ◌≢◌, refl, ap, sym, subst, ◌∙◌, min, List, [], ◌∷◌, ◌++◌,
  append_assoc, Option, none, some, if_pos, length, take, drop, take-append-drop, length-take,
  lookup, insert, lookup-insert, insert-Distinct, length-insert_present, Option-cases, inl, inr,
  ℕ_discrete, arith,
}
use spinfoam.Text.{Text, text_discrete}
use spinfoam.Outbox.Queues.{Bytes, sub_usize}
use spinfoam.Build.Files.{Context, Reply, returns, faults, panics, minus_one, read_at, read_file}
use spinfoam.Build.Files.Valid.{FitsIn, OpenFits, IsValid, known, insert-OpenFits, insert-none}

-- The bytes that a reply puts into the guest's buffer.
abbrev pub given : Reply → Bytes
given (returns n bytes) = bytes
given faults = []
given panics = []

abbrev rest_of : Option Bytes → ℕ → Bytes
rest_of none offset = []
rest_of (some bytes) offset = drop offset bytes

-- What a descriptor has still to give: nothing, if it is not open.
abbrev pub unread : ℕ → Context → Bytes
unread fd c = elim (lookup ℕ_discrete fd c.opened) [
  | none ↦ []
  | some (name, offset) ↦ rest_of (lookup text_discrete name c.files) offset
]

drop-nil : (n : ℕ) → drop {A = ℕ} n [] ≡ []
drop-nil zero = refl
drop-nil (suc n) = refl

drop-drop : (a b n : ℕ) (xs : Bytes) → a + b ≡ n → drop b (drop a xs) ≡ drop n xs
drop-drop zero b n xs e = let f : b ≡ n = omega arith in ap (λ k. drop k xs) f
drop-drop (suc a) b n [] e = drop-nil b ∙ sym (drop-nil n)
drop-drop (suc a) b zero (x ∷ xs) e = absurd (omega arith)
drop-drop (suc a) b (suc n) (x ∷ xs) e = drop-drop a b n xs (omega arith)

length-drop : (n : ℕ) (xs : Bytes) → length (drop n xs) ≡ length xs - n
length-drop zero xs = omega arith
length-drop (suc n) [] = omega arith
length-drop (suc n) (x ∷ xs) = omega (arith, length-drop n xs)

-- The bytes given and those still unread are the ones that were unread, and as many were given as
-- fit the buffer and are left.
pub record Reads (fd dst : ℕ) (c : Context) (r : Context × Reply) : Type 0 where
  pub valid : IsValid r.0
  pub safe : r.1 ≢ panics
  pub in_order : given r.1 ++ unread fd r.0 ≡ unread fd c
  pub amount : length (given r.1) ≡ min dst (length (unread fd c))

unread_open :
    (fd : ℕ) (name : Text) (offset : ℕ) (bytes : Bytes) (c : Context)
    → lookup ℕ_discrete fd c.opened ≡ some (name, offset)
    → lookup text_discrete name c.files ≡ some bytes
    → unread fd c ≡ drop offset bytes
unread_open fd name offset bytes c e f = rw (e, unread) (rw (f, rest_of) refl)

module _ (fd dst : ℕ) (name : Text) (offset : ℕ) (bytes : Bytes) (c : Context) (v : IsValid c)
    (e : lookup ℕ_discrete fd c.opened ≡ some (name, offset))
    (f : lookup text_discrete name c.files ≡ some bytes) (h : offset ≤ length bytes) where
  moved : ℕ → Context
  moved n = record c { opened = insert ℕ_discrete fd (name, offset + n) c.opened }

  moved-IsValid : (n : ℕ) → offset + n ≤ length bytes → IsValid (moved n)
  unfolding moved
  moved-IsValid n k = record {
    distinct = insert-Distinct ℕ_discrete fd (name, offset + n) c.opened v.distinct;
    opens = insert-OpenFits c v fd name (offset + n) (rw f k);
    few = omega (
      arith,
      length-insert_present ℕ_discrete fd (name, offset + n) (name, offset) c.opened e,
      v.few,
    );
    fresh = λ j g.
        insert-none c v fd (name, offset + n) j
          (λ p. absurd (omega (arith, known c v fd (name, offset) e))) (v.fresh j g);
    descriptors = v.descriptors;
    small = v.small;
    short = v.short;
  }

  unread-moved : (n : ℕ) → unread fd (moved n) ≡ drop n (drop offset bytes)
  unfolding moved
  unread-moved n =
      unread_open fd name (offset + n) bytes (moved n)
        (lookup-insert ℕ_discrete fd fd (name, offset + n) c.opened
          ∙ if_pos (ℕ_discrete fd fd) refl _ _)
        f
      ∙ sym (drop-drop offset n (offset + n) bytes refl)

  at_offset :
      (n : ℕ)
      → n ≡ min dst (length bytes - offset)
      → Reads fd dst c (moved n, returns n (take n (drop offset bytes)))
  at_offset n g = record {
    valid = moved-IsValid n (omega arith);
    safe = λ x. cc;
    in_order =
        ap (◌++◌ (take n (drop offset bytes))) (unread-moved n)
        ∙ take-append-drop n (drop offset bytes)
        ∙ sym (unread_open fd name offset bytes c e f);
    amount = omega (
      arith,
      length-take n (drop offset bytes),
      length-drop offset bytes,
      ap (λ (xs : Bytes). length xs) (unread_open fd name offset bytes c e f),
    );
  }

  read_at-Reads : Reads fd dst c (read_at fd dst name offset c)
  unfolding read_at moved
  read_at-Reads =
      rw (f, read_at) (at_offset (min dst (sub_usize (length bytes) offset)) (ground arith))

open_fits :
    (fd : ℕ) (name : Text) (offset : ℕ) (c : Context)
    → IsValid c
    → lookup ℕ_discrete fd c.opened ≡ some (name, offset)
    → FitsIn offset (lookup text_discrete name c.files)
open_fits fd name offset c v e = subst (OpenFits c.files) e (v.opens fd)

not_open-Reads :
    (fd dst : ℕ) (c : Context)
    → IsValid c
    → lookup ℕ_discrete fd c.opened ≡ none
    → Reads fd dst c (c, returns minus_one [])
not_open-Reads fd dst c v e = record {
  valid = v;
  safe = λ x. cc;
  in_order = refl;
  amount = omega (arith, ap (λ (xs : Bytes). length xs) nothing);
}
  where
    nothing : unread fd c ≡ []
    nothing = rw (e, unread) refl

-- On a valid context a read gives the guest the file's next bytes, as many as the buffer holds or
-- are left; it keeps the context valid and never panics. Of a descriptor that is not open it
-- gives nothing.
pub read_file-Reads :
    (fd dst : ℕ) (c : Context) → IsValid c → Reads fd dst c (read_file fd (some dst) c)
unfolding read_file
read_file-Reads fd dst c v = elim (Option-cases (lookup ℕ_discrete fd c.opened)) [
  | inl e ↦ rw (e, read_file) (not_open-Reads fd dst c v e)
  | inr ((name, offset), e) ↦ elim (Option-cases (lookup text_discrete name c.files)) [
    | inl f ↦ absurd (subst (FitsIn offset) f (open_fits fd name offset c v e))
    | inr (bytes, f) ↦
        rw (e, read_file)
          (read_at-Reads fd dst name offset bytes c v e f
            (subst (FitsIn offset) f (open_fits fd name offset c v e)))
  ]
]

-- Reads one after the other: the bytes given in all, and the context behind.
pub read_all : ℕ → List ℕ → Context → Bytes × Context
read_all fd [] c = ([], c)
read_all fd (dst ∷ ds) c =
    let (c', r) = read_file fd (some dst) c in
    let (bytes, c'') = read_all fd ds c' in (given r ++ bytes, c'')

-- On a valid context, reads of any sizes on a descriptor give its file's bytes in order, with none
-- lost or repeated.
pub read_all_in_order :
    (fd : ℕ) (ds : List ℕ) (c : Context)
    → IsValid c
    → (read_all fd ds c).0 ++ unread fd (read_all fd ds c).1 ≡ unread fd c
unfolding read_all
read_all_in_order fd [] c v = refl
read_all_in_order fd (dst ∷ ds) c v =
    let step = read_file-Reads fd dst c v in
    append_assoc (given (read_file fd (some dst) c).1) _ _
    ∙ ap (◌++◌ (given (read_file fd (some dst) c).1))
        (read_all_in_order fd ds (read_file fd (some dst) c).0 step.valid)
    ∙ step.in_order
