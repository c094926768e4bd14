-- ===== src/Tests/BuildTests.antt =====
-- Runs of the build requests, the virtual paths and the compiler guest's file helpers.
use spinfoam.Prelude.{
  ℕ, ◌≡◌, refl, List, [], ◌∷◌, ◌++◌, Bool, true, ok, none, some, lookup, ℕ_discrete,
}
use spinfoam.Text.{Text, text, text_discrete}
use spinfoam.Build.Paths.{
  split, join, normal_components, valid_part, valid_path, kind, walk, under_src, virtual_path,
}
use spinfoam.Build.Paths.Resolve.{IsPlain, virtual_path_confined, virtual_path-valid_path}
use spinfoam.Build.Paths.Split.{All}
use spinfoam.Build.Requests.{Request, validate}
use spinfoam.Build.Requests.Accepted.{Accepted, validate-Accepted, validate_no_nesting}
use spinfoam.Build.Files.{
  copy_input, write, fatal, diagnostic, open_path, open_file, read_at, read_file, close_file,
  set_up,
}
use spinfoam.Build.Files.Valid.{IsValid}
use spinfoam.Build.Files.Reading.{unread, read_all, read_all_in_order}
use spinfoam.Build.Files.History.{Call, opens, reads, serve, guest, guest-IsValid}

program : Unit {0}
unfolding text_discrete split join normal_components valid_part valid_path kind walk under_src
    virtual_path validate copy_input write fatal diagnostic open_path open_file read_at read_file
    close_file set_up serve guest ℕ_discrete
program = tt

climbing : virtual_path (text "/src/a/../b.c") ≡ some (text "/src/b.c")
unfolding program
climbing = refl

escaping : virtual_path (text "/src/../etc") ≡ none
unfolding program
escaping = refl

virtual_path_confined_example :
    (rest : List Text) × (text "/src/b.c" ≡ b'/' ∷ join (text "src" ∷ rest)) × All IsPlain rest
virtual_path_confined_example =
    virtual_path_confined (text "/src/a/../b.c") (text "/src/b.c") climbing

nested_valid : valid_path (text "a/b.c") ≡ true
unfolding program
nested_valid = refl

virtual_path-valid_path_example :
    virtual_path (text "/src/" ++ text "a/b.c") ≡ some (text "/src/" ++ text "a/b.c")
virtual_path-valid_path_example = virtual_path-valid_path (text "a/b.c") nested_valid

abbrev request : Request
request = record {
  sdk_version = 1;
  files = (text "a/b.c", text "x") ∷ (text "c.c", text "y") ∷ [];
  entry = text "c.c";
}

request_passes : validate {N = ℕ} request ≡ ok tt
unfolding program
request_passes = refl

validate-Accepted_example : Accepted request
validate-Accepted_example = validate-Accepted {N = ℕ} request request_passes

nested_stored : lookup text_discrete (text "a" ++ b'/' ∷ text "b.c") request.files ≡ some (text "x")
unfolding program
nested_stored = refl

validate_no_nesting_example : lookup text_discrete (text "a") request.files ≡ none
validate_no_nesting_example =
    validate_no_nesting {N = ℕ} request (text "a") (text "b.c") (text "x") request_passes
      nested_stored

abbrev as_is : Text → Text
as_is s = s

abbrev always : Text → Bool
always s = true

-- The latest call stands first: the guest opens a file and reads one byte of it.
abbrev calls : List Call
calls = reads 3 1 ∷ opens (text "/src/c.c") 8 0 ∷ []

abbrev source : List (Text × Text)
source = (text "c.c", text "xyz") ∷ []

one_read :
    lookup ℕ_discrete 3 (guest as_is always (text "h") source (text "c.c") calls).opened
    ≡ some (text "/src/c.c", 1)
unfolding program
one_read = refl

guest-IsValid_example : IsValid (guest as_is always (text "h") source (text "c.c") calls)
guest-IsValid_example = guest-IsValid as_is always (text "h") source (text "c.c") calls

read_all_in_order_example :
    (read_all 3 (1 ∷ 4 ∷ []) (guest as_is always (text "h") source (text "c.c") calls)).0
      ++ unread 3
          (read_all 3 (1 ∷ 4 ∷ []) (guest as_is always (text "h") source (text "c.c") calls)).1
    ≡ unread 3 (guest as_is always (text "h") source (text "c.c") calls)
read_all_in_order_example =
    read_all_in_order 3 (1 ∷ 4 ∷ []) (guest as_is always (text "h") source (text "c.c") calls)
      guest-IsValid_example
