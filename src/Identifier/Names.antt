-- ===== src/Identifier/Names.antt =====
-- The validation of identifiers and the conversions into their values: disintegrate/src/identifier.rs. The
-- matching of the pattern `^[a-zA-Z_][a-zA-Z0-9_]*$` is that of the package regex, a parameter here.
use Prim.Native.String.{◌++◌}
use disintegrate.Prelude.{String, Bool, not, if◌then◌else◌}
use disintegrate.Prelude.Int.{ℤ}
use disintegrate.Prelude.Result.{Result, ok, err}
use disintegrate.Identifier.{Identifier, IdentifierType, IdentifierValue}

pub record IdentifierError : Type 0 where
  pub message : String

module _ (is_match : String → Bool) where
  abbrev is_valid_identifier : String → Bool
  is_valid_identifier s = is_match s

  -- `Identifier::new`, and `TryFrom<&'static str>`.
  unfoldable pub new : String → Result Identifier IdentifierError
  new s =
      if not (is_valid_identifier s)
      then err (record { message = "Invalid identifier: " ++ s })
      else ok s

-- `ident!(#name)`, which does not validate.
unfoldable pub unsafe_new : String → Identifier
unsafe_new s = s

-- The trait `IntoIdentifierValue`.
pub record IntoIdentifierValue (A : Type 0) : Type 0 where
  pub type_info : IdentifierType
  pub into_identifier_value : A → IdentifierValue

-- For `String` and `&str`.
abbrev pub string_value : IntoIdentifierValue String
string_value = record {
  type_info = IdentifierType.string;
  into_identifier_value = λ s. IdentifierValue.string s;
}

abbrev pub i64_value : IntoIdentifierValue ℤ
i64_value = record {
  type_info = IdentifierType.i64;
  into_identifier_value = λ n. IdentifierValue.i64 n;
}

-- A `Uuid` is given by its text.
abbrev pub uuid_value : IntoIdentifierValue String
uuid_value = record {
  type_info = IdentifierType.uuid;
  into_identifier_value = λ u. IdentifierValue.uuid u;
}
