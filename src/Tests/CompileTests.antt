-- ===== src/Tests/CompileTests.antt =====
-- A build whose compiler writes the beginning of an ELF file.
use spinfoam.Prelude.{ℕ, ◌≡◌, refl, true, false, [], ◌∷◌, none, ok, ℕ_discrete}
use spinfoam.Text.{text, text_discrete}
use spinfoam.Json.{Value, null}
use spinfoam.Build.Paths.{
  split, join, normal_components, valid_part, valid_path, kind, walk, under_src, virtual_path,
}
use spinfoam.Build.Requests.{Request, Builds, validate, compile, succeeded}
use spinfoam.Build.Files.{write, set_up, finish}
use spinfoam.Build.Files.History.{writes, serve, guest}
use spinfoam.Build.Run.{Machine, completes, run, Replies, compile-Replies}
use spinfoam.Tests.Samples.{sample_from_i64}

program : Unit {0}
unfolding text_discrete ℕ_discrete split join normal_components valid_part valid_path kind walk
    under_src virtual_path validate compile write set_up serve guest finish run
program = tt

abbrev build_request : Request
build_request = record {
  sdk_version = 1;
  files = (text "c.c", text "xyz") ∷ [];
  entry = text "c.c";
}

abbrev enabled : Builds ℕ
enabled = record {
  unavailable = none;
  fingerprint = text "print";
  decode = λ v. ok build_request;
  sha256 = λ bytes. text "hash";
  base64 = λ bytes. text "data";
  from_i64 = sample_from_i64;
}

abbrev machine : Machine
machine = record {
  lossy = λ bytes. bytes;
  is_utf8 = λ bytes. true;
  describe = λ code. text "compiler failed";
  sdk = text "h";
  load_error = none;
  calls = writes (0x7f ∷ b'E' ∷ b'L' ∷ b'F' ∷ []) ∷ [];
  result = ok 1;
}

abbrev built : Value ℕ
built =
    succeeded enabled
      (record { elf = 0x7f ∷ b'E' ∷ b'L' ∷ b'F' ∷ []; diagnostics = []; truncated = false })

compile-Replies_example :
    ((r : Request) × (enabled.decode null ≡ ok r) × (validate {N = ℕ} r ≡ ok tt))
    × (enabled.unavailable ≡ none)
    × Replies enabled built
unfolding program
compile-Replies_example = compile-Replies enabled machine completes false null built refl
