-- ===== src/Build/Files/Valid.antt =====
-- The invariant of the compiler's context (src/build/compiler.rs), kept by every helper.
use spinfoam.Prelude.{
  ℕ, ◌+◌, ◌-◌, ◌*◌, ◌^◌, ◌≤◌, ◌<◌, ◌≡◌, sym, subst, ◌∙◌, List, [], ◌∷◌, ◌++◌, Option, none, some,
  ltb, leb, ite, if_cases, if_pos, if_neg, length, length-append, lookup, insert, remove,
  lookup-insert, lookup-remove_ne, lookup-remove_self, Distinct, insert-Distinct, remove-Distinct,
  length-insert, length-remove, Option-cases, Bool-cases, inl, inr, ℕ_discrete, arith,
}
use spinfoam.Text.{Text, text_discrete, truncate}
use spinfoam.Text.Truncate.{truncate_lem}
use spinfoam.Outbox.Queues.{Bytes}
use spinfoam.Build.Files.{
  Context, Reply, max_output, write, fatal, diagnostic, open_path, close_file,
}

-- An open descriptor names a file that is there, at an offset within it.
abbrev pub FitsIn : ℕ → Option Bytes → Type 0
FitsIn offset none = ⊥
FitsIn offset (some bytes) = offset ≤ length bytes

abbrev pub OpenFits : List (Text × Bytes) → Option (Text × ℕ) → Type 0
OpenFits files none = Unit
OpenFits files (some (name, offset)) = FitsIn offset (lookup text_discrete name files)

pub record IsValid (c : Context) : Type 0 where
  pub distinct : Distinct ℕ_discrete c.opened
  pub opens : (fd : ℕ) → OpenFits c.files (lookup ℕ_discrete fd c.opened)
  pub few : length c.opened ≤ 64
  pub fresh : (fd : ℕ) → c.next + 2 < fd → lookup ℕ_discrete fd c.opened ≡ none
  pub descriptors : c.next + 2 < 2 ^ 31
  pub small : length c.output ≤ max_output
  pub short : length c.diagnostics ≤ 16 * 1024

module _ (c : Context) (v : IsValid c) where
  -- A descriptor that is open was handed out before.
  pub known : (fd : ℕ) (e : Text × ℕ) → lookup ℕ_discrete fd c.opened ≡ some e → fd ≤ c.next + 2
  known fd e h = elim (Bool-cases (leb fd (c.next + 2))) [
    | inl b ↦ ground arith
    | inr b ↦ absurd (let x : none ≡ some e = sym (v.fresh fd (ground arith)) ∙ h in cc)
  ]

  pub insert-OpenFits :
      (k : ℕ) (name : Text) (offset : ℕ)
      → FitsIn offset (lookup text_discrete name c.files)
      → (fd : ℕ)
      → OpenFits c.files (lookup ℕ_discrete fd (insert ℕ_discrete k (name, offset) c.opened))
  insert-OpenFits k name offset h fd =
      rw (lookup-insert ℕ_discrete k fd (name, offset) c.opened) (elim (ℕ_discrete k fd) [
        | yes p ↦ rw (if_pos (ℕ_discrete k fd) p) h
        | no p ↦ rw (if_neg (ℕ_discrete k fd) p) (v.opens fd)
      ])

  pub insert-none :
      (k : ℕ) (e : Text × ℕ) (fd : ℕ)
      → ¬ (k ≡ fd)
      → lookup ℕ_discrete fd c.opened ≡ none
      → lookup ℕ_discrete fd (insert ℕ_discrete k e c.opened) ≡ none
  insert-none k e fd p h =
      lookup-insert ℕ_discrete k fd e c.opened ∙ if_neg (ℕ_discrete k fd) p _ _ ∙ h

  pub write-IsValid : (bytes : Bytes) → IsValid (write (some bytes) (length bytes) c).0
  unfolding write
  write-IsValid bytes =
      if_cases {A = Context × Reply} (λ r. IsValid r.0)
        (ltb (max_output - length c.output) (length bytes)) _ _
        (λ _. record {
          distinct = v.distinct;
          opens = v.opens;
          few = v.few;
          fresh = v.fresh;
          descriptors = v.descriptors;
          small = v.small;
          short = v.short;
        })
        λ b. record {
          distinct = v.distinct;
          opens = v.opens;
          few = v.few;
          fresh = v.fresh;
          descriptors = v.descriptors;
          small = ground (arith, length-append c.output bytes);
          short = v.short;
        }

  pub diagnostic-IsValid :
      (lossy : Bytes → Text) (bytes : Bytes) (len : ℕ)
      → IsValid (diagnostic lossy (some bytes) len c).0
  unfolding diagnostic
  diagnostic-IsValid lossy bytes len = record {
    distinct = v.distinct;
    opens = v.opens;
    few = v.few;
    fresh = v.fresh;
    descriptors = v.descriptors;
    small = v.small;
    short = omega (
      arith,
      v.short,
      length-append c.diagnostics
          (truncate (lossy bytes ++ b'\n' ∷ []) (16 * 1024 - length c.diagnostics)),
      (truncate_lem (lossy bytes ++ b'\n' ∷ []) (16 * 1024 - length c.diagnostics)).0,
    );
  }

  pub fatal-IsValid :
      (lossy : Bytes → Text) (bytes : Bytes) → IsValid (fatal lossy (some bytes) c).0
  unfolding fatal
  fatal-IsValid lossy bytes = record {
    distinct = v.distinct;
    opens = v.opens;
    few = v.few;
    fresh = v.fresh;
    descriptors = v.descriptors;
    small = v.small;
    short = v.short;
  }

  pub close_file-IsValid : (fd : ℕ) → IsValid (close_file fd c).0
  unfolding close_file
  close_file-IsValid fd = record {
    distinct = remove-Distinct ℕ_discrete fd c.opened v.distinct;
    opens = λ k. subst (OpenFits c.files) (sym (closed_lookup k)) (kept k);
    few = omega (arith, length-remove ℕ_discrete fd c.opened, v.few);
    fresh = λ k h. closed_lookup k ∙ both_none k (v.fresh k h);
    descriptors = v.descriptors;
    small = v.small;
    short = v.short;
  }
    where
      closed_lookup :
          (k : ℕ)
          → lookup ℕ_discrete k (remove ℕ_discrete fd c.opened)
            ≡ ite (ℕ_discrete k fd) none (lookup ℕ_discrete k c.opened)
      closed_lookup k = elim (ℕ_discrete k fd) [
        | yes p ↦
            subst (λ j. lookup ℕ_discrete j (remove ℕ_discrete fd c.opened) ≡ none) (sym p)
              (lookup-remove_self ℕ_discrete fd c.opened v.distinct)
            ∙ sym (if_pos (ℕ_discrete k fd) p _ _)
        | no p ↦ lookup-remove_ne ℕ_discrete fd k c.opened p ∙ sym (if_neg (ℕ_discrete k fd) p _ _)
      ]

      kept : (k : ℕ) → OpenFits c.files (ite (ℕ_discrete k fd) none (lookup ℕ_discrete k c.opened))
      kept k = elim (ℕ_discrete k fd) [
        | yes p ↦ rw (if_pos (ℕ_discrete k fd) p) tt
        | no p ↦ rw (if_neg (ℕ_discrete k fd) p) (v.opens k)
      ]

      both_none :
          (k : ℕ)
          → lookup ℕ_discrete k c.opened ≡ none
          → ite (ℕ_discrete k fd) none (lookup ℕ_discrete k c.opened) ≡ none
      both_none k h = elim (ℕ_discrete k fd) [
        | yes p ↦ if_pos (ℕ_discrete k fd) p _ _
        | no p ↦ if_neg (ℕ_discrete k fd) p _ _ ∙ h
      ]

  pub open_path-IsValid : (name : Text) → IsValid (open_path name c).0
  unfolding open_path
  open_path-IsValid name = elim (Option-cases (lookup text_discrete name c.files)) [
    | inl e ↦ rw (e, open_path) v
    | inr (bytes, e) ↦
        rw (e, open_path)
          (if_cases {A = Context × Reply} (λ r. IsValid r.0) (leb 64 (length c.opened)) _ _ (λ _. v)
            λ b.
              if_cases {A = Context × Reply} (λ r. IsValid r.0) (leb (c.next + 1) (2 ^ 31 - 1 - 2))
                _ _
                (λ d. record {
                  distinct =
                      insert-Distinct ℕ_discrete (c.next + 1 + 2) (name, 0) c.opened v.distinct;
                  opens = insert-OpenFits (c.next + 1 + 2) name 0 (rw e (omega arith));
                  few =
                      ground (arith, length-insert ℕ_discrete (c.next + 1 + 2) (name, 0) c.opened);
                  fresh = λ fd h.
                      insert-none (c.next + 1 + 2) (name, 0) fd (λ p. absurd (omega arith))
                        (v.fresh fd (omega arith));
                  descriptors = ground arith;
                  small = v.small;
                  short = v.short;
                })
                λ d. v)
  ]
