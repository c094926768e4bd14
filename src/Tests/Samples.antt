-- ===== src/Tests/Samples.antt =====
-- Concrete stand-ins for the parameters: an encoder that writes strings raw and all else as `{}`.
use spinfoam.Prelude.{ℕ, [], ◌∷◌, Result, ok}
use spinfoam.Prelude.Int.{ℤ, pos, negsuc}
use spinfoam.Text.{Text}
use spinfoam.Json.{Value, null, boolean, number, string, array, object}
use spinfoam.Outbox.Queues.{Bytes}

abbrev pub sample_to_vec : Value ℕ → Result Text Bytes
sample_to_vec (string s) = ok s
sample_to_vec null = ok (b'{' ∷ b'}' ∷ [])
sample_to_vec (boolean b) = ok (b'{' ∷ b'}' ∷ [])
sample_to_vec (number n) = ok (b'{' ∷ b'}' ∷ [])
sample_to_vec (array xs) = ok (b'{' ∷ b'}' ∷ [])
sample_to_vec (object fs) = ok (b'{' ∷ b'}' ∷ [])

abbrev pub sample_from_i64 : ℤ → ℕ
sample_from_i64 (pos n) = n
sample_from_i64 (negsuc n) = n
