-- ===== src/Tests/Naming.antt =====
-- The unit tests of disintegrate/src/identifier.rs.
use Prim.Native.Char.{Char, code}
use disintegrate.Prelude.{String, ℕ, ◌≡◌, refl, Bool, true, false, ◌&&◌, ◌||◌, leb, eqb}
use disintegrate.Prelude.Result.{ok, err}
use disintegrate.Identifier.Names.{new}

abbrev between : ℕ → ℕ → Char → Bool
between a b c = leb a (code c) && leb (code c) b

abbrev is_letter : Char → Bool
is_letter c = between 97 122 c || between 65 90 c || eqb (code c) 95

abbrev all_words : String → Bool
all_words String.[] = true
all_words (String.◌∷◌ c s) = (is_letter c || between 48 57 c) && all_words s

-- The pattern `^[a-zA-Z_][a-zA-Z0-9_]*$`.
abbrev matches_pattern : String → Bool
matches_pattern String.[] = false
matches_pattern (String.◌∷◌ c s) = is_letter c && all_words s

can_create_valid_identifier : new matches_pattern "hello_world" ≡ ok "hello_world"
unfolding new
can_create_valid_identifier = refl

cannot_create_empty_identifier :
    new matches_pattern "" ≡ err (record { message = "Invalid identifier: " })
unfolding new
cannot_create_empty_identifier = refl

cannot_create_identifier_with_spaces :
    new matches_pattern "hello world" ≡ err (record { message = "Invalid identifier: hello world" })
unfolding new
cannot_create_identifier_with_spaces = refl

cannot_create_non_ascii_identifier :
    new matches_pattern "héllo" ≡ err (record { message = "Invalid identifier: héllo" })
unfolding new
cannot_create_non_ascii_identifier = refl
