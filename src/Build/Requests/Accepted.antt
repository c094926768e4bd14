-- ===== src/Build/Requests/Accepted.antt =====
-- What a build request that passes `validate` of src/build/mod.rs satisfies.
use spinfoam.Prelude.{
  ◌*◌, ◌≤◌, ◌≡◌, ◌≢◌, refl, ap, sym, subst, ◌∙◌, Bool, true, false, not, ◌||◌, List, [], ◌∷◌, ◌++◌,
  map, none, some, Result, ok, ◌>>◌, fail_if, ltb, ◌==◌, if◌then◌else◌, length, lookup, total,
  Option-cases, inl, inr, arith, if_neg,
}
use spinfoam.Text.{Text, text, text_discrete}
use spinfoam.Outbox.Queues.{is_empty}
use spinfoam.Build.Paths.{valid_path, virtual_path}
use spinfoam.Build.Paths.Resolve.{virtual_path-valid_path}
use spinfoam.Build.Requests.{
  Request, has_file, any_invalid, directories, any, any_conflict, validate,
}

guarded :
    {E : Type 0} (c : Bool) (e : E) (k : Result E (Unit {0}))
    → (fail_if c e >> k) ≡ ok tt
    → (c ≡ false) × (k ≡ ok tt)
guarded true e k h = cc
guarded false e k h = (refl, h)

-- The tests of `validate`, all passed.
pub record Passed (r : Request) : Type 0 where
  pub version : (r.sdk_version == 1) ≡ true
  pub size :
      (is_empty r.files || ltb 32 (length r.files) || ltb (128 * 1024) (total length r.files))
      ≡ false
  pub paths :
      (not (valid_path r.entry) || not (has_file r.entry r.files) || any_invalid r.files) ≡ false
  pub conflicts : any_conflict r.files r.files ≡ false

any-map :
    (p : Text → Bool) (f : Text → Text) (xs : List Text) → any p (map f xs) ≡ any (λ x. p (f x)) xs
any-map p f [] = refl
any-map p f (x ∷ xs) = ap (λ b. p (f x) || b) (any-map p f xs)

or_left : (a b : Bool) → (a || b) ≡ false → a ≡ false
or_left true b e = cc
or_left false b e = refl

or_right : (a b : Bool) → (a || b) ≡ false → b ≡ false
or_right true b e = cc
or_right false b e = e

-- A path's directory is among those that the loop tests.
directory_tested :
    (d s : Text) (p : Text → Bool) → any p (directories (d ++ b'/' ∷ s)) ≡ false → p d ≡ false
directory_tested [] s p e = or_left (p []) _ e
directory_tested (c ∷ d) s p e =
    directory_tested d s (λ x. p (c ∷ x))
      (sym (any-map p (◌∷◌ c) (directories (d ++ b'/' ∷ s))) ∙ under (c == b'/') e)
  where
    under :
        (b : Bool)
        → any p (
            if b
            then [] ∷ map (◌∷◌ c) (directories (d ++ b'/' ∷ s))
            else map (◌∷◌ c) (directories (d ++ b'/' ∷ s)))
          ≡ false
        → any p (map (◌∷◌ c) (directories (d ++ b'/' ∷ s))) ≡ false
    under true f = or_right (p []) _ f
    under false f = f

conflict_tested :
    (files rest : List (Text × Text)) (name c : Text)
    → any_conflict rest files ≡ false
    → lookup text_discrete name rest ≡ some c
    → any (λ d. has_file d files) (directories name) ≡ false
conflict_tested files [] name c e h = cc
conflict_tested files ((k, v) ∷ rest) name c e h = elim (text_discrete k name) [
  | yes p ↦ subst (λ n. any (λ d. has_file d files) (directories n) ≡ false) p (or_left _ _ e)
  | no p ↦
      conflict_tested files rest name c (or_right _ _ e)
        (sym (if_neg (text_discrete k name) p _ _) ∙ h)
]

none_of_has_file :
    (d : Text) (files : List (Text × Text))
    → has_file d files ≡ false
    → lookup text_discrete d files ≡ none
none_of_has_file d files e = elim (Option-cases (lookup text_discrete d files)) [
  | inl h ↦ h
  | inr (c, h) ↦ absurd (let x : true ≡ false = rw (h, has_file) at e in cc)
]

abbrev pub AllResolve : List (Text × Text) → Type 0
AllResolve [] = Unit
AllResolve ((name, s) ∷ files) =
    (virtual_path (text "/src/" ++ name) ≡ some (text "/src/" ++ name)) × AllResolve files

valid-AllResolve : (files : List (Text × Text)) → any_invalid files ≡ false → AllResolve files
valid-AllResolve [] e = tt
valid-AllResolve ((name, s) ∷ files) e =
    (virtual_path-valid_path name (ground arith), valid-AllResolve files (or_right _ _ e))

pub record Accepted (r : Request) : Type 0 where
  pub version : r.sdk_version ≡ 1
  pub some_file : r.files ≢ []
  pub few_files : length r.files ≤ 32
  pub small : total length r.files ≤ 128 * 1024
  pub entry_given : has_file r.entry r.files ≡ true
  pub resolves : AllResolve r.files

size_passed :
    (files : List (Text × Text))
    → (is_empty files || ltb 32 (length files) || ltb (128 * 1024) (total length files)) ≡ false
    → (files ≢ []) × (length files ≤ 32) × (total length files ≤ 128 * 1024)
size_passed [] e = cc
size_passed (f ∷ files) e = (λ h. cc, ground arith, ground arith)

Passed-Accepted : (r : Request) → Passed r → Accepted r
Passed-Accepted r p =
    let (some_file, few, small) = size_passed r.files p.size in
    record {
      version = ground arith;
      some_file = some_file;
      few_files = few;
      small = small;
      entry_given = ground (arith, p.paths);
      resolves = valid-AllResolve r.files (or_right _ _ p.paths);
    }

module _ {N : Type 0} where
  validate-Passed : (r : Request) → validate {N = N} r ≡ ok tt → Passed r
  unfolding validate
  validate-Passed r h =
      let (a, h1) = guarded _ _ _ h in
      let (b, h2) = guarded _ _ _ h1 in
      let (c, h3) = guarded _ _ _ h2 in
      let (d, h4) = guarded _ _ _ h3 in
      record { version = ground arith; size = b; paths = c; conflicts = d }

  -- A request that `validate` lets through asks for SDK version 1, has 1 to 32 files of 128 KiB in
  -- all and its entry among them, and each file's path, behind `/src/`, is one that the compiler's
  -- virtual file system resolves to itself.
  pub validate-Accepted : (r : Request) → validate {N = N} r ≡ ok tt → Accepted r
  validate-Accepted r h = Passed-Accepted r (validate-Passed r h)

  -- In a request that `validate` lets through no file is the directory of another.
  pub validate_no_nesting :
      (r : Request) (d s c : Text)
      → validate {N = N} r ≡ ok tt
      → lookup text_discrete (d ++ b'/' ∷ s) r.files ≡ some c
      → lookup text_discrete d r.files ≡ none
  validate_no_nesting r d s c h e = none_of_has_file d r.files (
      directory_tested d s (λ x. has_file x r.files)
        (conflict_tested r.files r.files (d ++ b'/' ∷ s) c (validate-Passed r h).conflicts e))
