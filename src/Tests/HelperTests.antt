-- ===== src/Tests/HelperTests.antt =====
-- Runs of the guest's helpers: an object that is set, an array that is pushed to, a granted call.
use spinfoam.Prelude.{ℕ, ◌≤◌, ◌≡◌, ◌↔◌, refl, true, [], ◌∷◌, some, ite, ℕ_discrete, arith}
use spinfoam.Prelude.Int.{pos}
use spinfoam.Text.{Text, text, text_discrete}
use spinfoam.Json.{null, number, string, array, object, cons, nil, field, end, get, get_field}
use spinfoam.Helpers.Values.{visit, valid_value, short}
use spinfoam.Helpers.Values.Limits.{height, size, valid_value_iff}
use spinfoam.Helpers.Table.{Guest, External, insert_handle, json, plain, read_text}
use spinfoam.Helpers.Operations.{h_object, h_array, and_then}
use spinfoam.Helpers.Encoded.{h_number, h_set, h_push}
use spinfoam.Helpers.Waiting.{h_call, calls}
use spinfoam.Helpers.Handles.{IsValid}
use spinfoam.Helpers.History.{objects, arrays, numbers, initial, serve, session, session-IsValid}
use spinfoam.Helpers.RoundTrip.{h_set_reads_back}
use spinfoam.Helpers.Granted.{LetsOut, h_call-LetsOut}
use spinfoam.Tests.Samples.{sample_to_vec, sample_from_i64}

abbrev sample : External ℕ
sample = record {
  to_vec = sample_to_vec;
  from_str = λ s. some (string s);
  equal = λ v w. true;
  as_i64 = λ n. some (pos n);
  from_i64 = sample_from_i64;
  is_utf8 = λ b. true;
}

program : Unit {0}
unfolding text_discrete visit valid_value insert_handle read_text h_object h_array h_number h_set
    h_push h_call serve session ℕ_discrete
program = tt

abbrev fresh_guest : Guest ℕ
fresh_guest =
    initial (text "o1") null
      (record { name = text "read"; arguments = (text "p", string (text "v")) ∷ [] } ∷ []) 1 0

-- Handles 1, 2 and 3: a number, an object and an array.
abbrev busy : Guest ℕ
busy = session sample fresh_guest (arrays ∷ objects ∷ numbers 7 ∷ [])

held_number : json 1 busy ≡ some (number 7)
unfolding program
held_number = refl

held_object : json 2 busy ≡ some (object end)
unfolding program
held_object = refl

held_array : json 3 busy ≡ some (array nil)
unfolding program
held_array = refl

fresh_guest-IsValid : IsValid fresh_guest
fresh_guest-IsValid = record {
  distinct = tt;
  few = omega arith;
  fresh = λ h k. refl;
  started = omega arith;
  bounded = omega arith;
}

session-IsValid_example : IsValid busy
session-IsValid_example =
    session-IsValid sample fresh_guest (arrays ∷ objects ∷ numbers 7 ∷ []) fresh_guest-IsValid

valid_value_iff_example : (valid_value sample_to_vec (array (cons null nil)) ≡ true) ↔ (
    (height {N = ℕ} (array (cons null nil)) ≤ 32)
    × (size {N = ℕ} (array (cons null nil)) ≤ 4096)
    × (short (sample_to_vec (array (cons null nil))) ≡ true))
valid_value_iff_example = valid_value_iff sample_to_vec (array (cons null nil))

key_read : read_text sample (some (text "k")) 1 ≡ some (text "k")
unfolding program
key_read = refl

set_valid : valid_value sample_to_vec (object (field (text "k") (number 7) end)) ≡ true
unfolding program
set_valid = refl

h_set_reads_back_example :
    ((h_set sample 2 (some (text "k")) 1 1 busy).1 ≡ plain 0)
    × ((j : Text)
        → and_then (json 2 (h_set sample 2 (some (text "k")) 1 1 busy).0) (λ w. get w j)
          ≡ ite (text_discrete (text "k") j) (some (number 7)) (get_field j end))
h_set_reads_back_example =
    h_set_reads_back sample 2 (some (text "k")) 1 1 busy (text "k") (number 7) end key_read
      held_number held_object set_valid

push_valid : valid_value sample_to_vec (array (cons (number 7) nil)) ≡ true
unfolding program
push_valid = refl

abbrev asking : Guest ℕ
asking = (h_set sample 2 (some (text "p")) 1 1 busy).0

call_granted :
    (h_call sample (some (text "read")) 4 2 50 asking).1
    ≡ calls (text "read") (object (field (text "p") (number 7) end)) 50
unfolding program
call_granted = refl

h_call-LetsOut_example :
    LetsOut sample
      (some (text "read"))
      4
      2
      50
      asking
      (h_call sample (some (text "read")) 4 2 50 asking).1
h_call-LetsOut_example = h_call-LetsOut sample (some (text "read")) 4 2 50 asking
