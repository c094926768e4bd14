-- ===== src/Build/Files/History.antt =====
-- Any sequence of helper calls that a compiler guest makes (src/build/compiler.rs).
use spinfoam.Prelude.{
  ℕ, refl, Bool, not, ◌||◌, List, [], ◌∷◌, some, ltb, ◌==◌, if_cases, length, Option-cases, inl,
  inr, arith,
}
use spinfoam.Text.{Text}
use spinfoam.Outbox.Queues.{Bytes}
use spinfoam.Build.Paths.{virtual_path}
use spinfoam.Build.Files.{
  Context, Reply, copy_input, write, fatal, diagnostic, open_file, read_file, close_file, set_up,
}
use spinfoam.Build.Files.Valid.{
  IsValid, write-IsValid, diagnostic-IsValid, fatal-IsValid, close_file-IsValid, open_path-IsValid,
}
use spinfoam.Build.Files.Reading.{read_file-Reads}

-- A call that the guest's memory serves, with the bytes that it names; a call that it does not
-- serve faults and changes nothing. A buffer read by `write` is as long as the length given.
pub data Call : Type 0 where
  inputs : ℕ → Call
  writes fatals : Bytes → Call
  diagnostics : Bytes → ℕ → Call
  opens : Bytes → ℕ → ℕ → Call
  reads : ℕ → ℕ → Call
  closes : ℕ → Call

module _ (lossy : Bytes → Text) (is_utf8 : Bytes → Bool) where
  unfoldable pub serve : Call → Context → Context
  serve (inputs len) c = (copy_input (some len) len c).0
  serve (writes bytes) c = (write (some bytes) (length bytes) c).0
  serve (fatals bytes) c = (fatal lossy (some bytes) c).0
  serve (diagnostics bytes len) c = (diagnostic lossy (some bytes) len c).0
  serve (opens bytes len flags) c = (open_file is_utf8 (some bytes) len flags c).0
  serve (reads fd dst) c = (read_file fd (some dst) c).0
  serve (closes fd) c = (close_file fd c).0

  -- The last call of the list is the latest.
  unfoldable pub guest : Text → List (Text × Text) → Text → List Call → Context
  guest sdk files entry [] = set_up sdk files entry
  guest sdk files entry (call ∷ calls) = serve call (guest sdk files entry calls)

  open_file-IsValid :
      (bytes : Bytes) (len flags : ℕ) (c : Context)
      → IsValid c
      → IsValid (open_file is_utf8 (some bytes) len flags c).0
  unfolding open_file
  open_file-IsValid bytes len flags c v =
      if_cases {A = Context × Reply} (λ r. IsValid r.0) (ltb 256 len || not (flags == 0)) _ _
        (λ _. v)
        λ _.
          if_cases {A = Context × Reply} (λ r. IsValid r.0) (not (is_utf8 bytes)) _ _ (λ _. v)
            λ _. elim (Option-cases (virtual_path bytes)) [
              | inl e ↦ rw e v
              | inr (name, e) ↦ rw e (open_path-IsValid c v name)
            ]

  serve-IsValid : (call : Call) (c : Context) → IsValid c → IsValid (serve call c)
  unfolding serve copy_input
  serve-IsValid (inputs len) c v =
      if_cases {A = Context × Reply} (λ r. IsValid r.0) (not (len == length c.input)) _ _ (λ _. v)
        λ _. v
  serve-IsValid (writes bytes) c v = write-IsValid c v bytes
  serve-IsValid (fatals bytes) c v = fatal-IsValid c v lossy bytes
  serve-IsValid (diagnostics bytes len) c v = diagnostic-IsValid c v lossy bytes len
  serve-IsValid (opens bytes len flags) c v = open_file-IsValid bytes len flags c v
  serve-IsValid (reads fd dst) c v = (read_file-Reads fd dst c v).valid
  serve-IsValid (closes fd) c v = close_file-IsValid c v fd

  set_up-IsValid :
      (sdk : Text) (files : List (Text × Text)) (entry : Text) → IsValid (set_up sdk files entry)
  unfolding set_up
  set_up-IsValid sdk files entry = record {
    distinct = tt;
    opens = λ fd. tt;
    few = omega arith;
    fresh = λ fd h. refl;
    descriptors = omega arith;
    small = omega arith;
    short = omega arith;
  }

  -- Whatever calls the guest makes: at most 64 descriptors are open, each once and at an offset
  -- within a file that is there, no number above the last one given out is open, the output stays
  -- within 64 KiB and the diagnostics within 16 KiB.
  pub guest-IsValid :
      (sdk : Text) (files : List (Text × Text)) (entry : Text) (calls : List Call)
      → IsValid (guest sdk files entry calls)
  unfolding guest
  guest-IsValid sdk files entry [] = set_up-IsValid sdk files entry
  guest-IsValid sdk files entry (call ∷ calls) =
      serve-IsValid call (guest sdk files entry calls) (guest-IsValid sdk files entry calls)
