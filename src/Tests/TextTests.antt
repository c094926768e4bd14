-- ===== src/Tests/TextTests.antt =====
-- Runs of `truncate` on a text with a two-byte character.
use spinfoam.Prelude.{◌≤◌, ◌≡◌, refl, true, [], ◌∷◌, ◌++◌, length, arith}
use spinfoam.Text.{Text, is_char_boundary, truncate}
use spinfoam.Text.Truncate.{truncate_lem, truncate_short}

-- "aé"
abbrev accented : Text
accented = 97 ∷ 195 ∷ 169 ∷ []

truncate_inside : truncate accented 2 ≡ 97 ∷ []
unfolding truncate
truncate_inside = refl

truncate_lem_example :
    (length (truncate accented 2) ≤ 2)
    × ((rest : Text) × (truncate accented 2 ++ rest ≡ accented))
    × (is_char_boundary accented (length (truncate accented 2)) ≡ true)
truncate_lem_example = truncate_lem accented 2

truncate_short_example : truncate accented 3 ≡ accented
truncate_short_example = truncate_short accented 3 (omega arith)
