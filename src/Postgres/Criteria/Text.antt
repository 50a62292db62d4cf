-- ===== src/Postgres/Criteria/Text.antt =====
-- How PostgreSQL reads the text of the criteria: the grammar of the conditions that
-- disintegrate-postgres/src/event_store/query.rs writes, with the precedence of AND over OR.
use Prim.Native.String.{◌++◌}
use Prim.Native.Char.{code}
use disintegrate.Prelude.{◌≡◌, String, Bool, true, not, ◌&&◌, ◌||◌, List, all, ltb, ◌==◌, eqb}
use disintegrate.Prelude.Int.{ℤ}
use disintegrate.Prelude.Show.{show, show_ℤ}
use disintegrate.Identifier.{Identifier, IdentifierValue}
use disintegrate.Event.{EventId}
use disintegrate.Postgres.Criteria.{TypeTest, Group}
use disintegrate.Postgres.Criteria.Rows.{Row, equals}

-- No quote in a text: between quotes it is a literal that stands for itself.
abbrev pub is_plain : String → Bool
is_plain String.[] = true
is_plain (String.◌∷◌ c s) = not (eqb (code c) 39) && is_plain s

abbrev pub is_plain_value : IdentifierValue → Bool
is_plain_value (IdentifierValue.string v) = is_plain v
is_plain_value (IdentifierValue.i64 v) = true
is_plain_value (IdentifierValue.uuid v) = is_plain v

-- A name of a column for an identifier: it has no space, which ends a name, and is not a column of the
-- store's own.
abbrev is_word : String → Bool
is_word String.[] = true
is_word (String.◌∷◌ c s) = not (eqb (code c) 32) && is_word s

abbrev pub is_column : String → Bool
is_column k = is_word k && not (k == "event_type") && not (k == "event_id")

abbrev pub is_plain_test : TypeTest → Bool
is_plain_test t =
    is_plain t.event_type && all (λ p. is_column p.0 && is_plain_value p.1) t.identifiers

-- No literal of the criteria holds a quote, and the identifiers are names of columns.
abbrev pub IsPlain : List Group → Type 0
IsPlain gs = all (λ g. all is_plain_test g.tests) gs ≡ true

pub data Level : Type 0 where
  comparison conjunction condition : Level

-- The text is a condition of that level, and the row makes it true or not. A literal is a text or a UUID
-- as the type of its column is.
pub data Reads (row : Row) : Level → String → Bool → Type 0 where
  event_type :
      (v : String)
      → is_plain v ≡ true
      → Reads row Level.comparison ("event_type = '" ++ (v ++ "'")) (v == row.event_type)
  event_id :
      (n : EventId) → Reads row Level.comparison ("event_id > " ++ show n) (ltb n row.event_id)
  varchar :
      (k : Identifier) (v : String)
      → is_column k ≡ true
      → is_plain v ≡ true
      → Reads row Level.comparison
          (k ++ (" = " ++ ("'" ++ (v ++ "'"))))
          (equals (row.column k) (IdentifierValue.string v))
  uuid :
      (k : Identifier) (v : String)
      → is_column k ≡ true
      → is_plain v ≡ true
      → Reads row Level.comparison
          (k ++ (" = " ++ ("'" ++ (v ++ "'"))))
          (equals (row.column k) (IdentifierValue.uuid v))
  number :
      (k : Identifier) (v : ℤ)
      → is_column k ≡ true
      → Reads row Level.comparison
          (k ++ (" = " ++ show_ℤ v))
          (equals (row.column k) (IdentifierValue.i64 v))
  parenthesized :
      (s : String) (b : Bool)
      → Reads row Level.condition s b
      → Reads row Level.comparison ("(" ++ (s ++ ")")) b
  one : (s : String) (b : Bool) → Reads row Level.comparison s b → Reads row Level.conjunction s b
  and :
      (s t : String) (b c : Bool)
      → Reads row Level.comparison s b
      → Reads row Level.conjunction t c
      → Reads row Level.conjunction (s ++ (" AND " ++ t)) (b && c)
  only : (s : String) (b : Bool) → Reads row Level.conjunction s b → Reads row Level.condition s b
  or :
      (s t : String) (b c : Bool)
      → Reads row Level.conjunction s b
      → Reads row Level.condition t c
      → Reads row Level.condition (s ++ (" OR " ++ t)) (b || c)
