-- ===== src/Tests/Indexing.antt =====
-- Runs of the indexer of identifiers.
use mathlib.Core.List.{Memᴰ}
use disintegrate.Prelude.{ℕ, ◌≡◌, refl, Bool, false, none, [], ◌∷◌, arith}
use disintegrate.Identifier.{IdentifierValue}
use disintegrate.Event.{PersistedEvent}
use disintegrate.Postgres.Criteria.Rows.{Row}
use disintegrate.Postgres.Indexer.{index_row, execute_update, sql_builder, id_indexer}
use disintegrate.Postgres.Indexer.Columns.{IsIndexed, handle_each-IsIndexed}
use disintegrate.Tests.Streams.{ShoppingEvent, added, cleared, shopping}
use disintegrate.Tests.Appending.{cup, pen}

-- A row that was written before the events had an identifier.
abbrev old_row : ℕ → Row
old_row id = record { event_id = id; event_type = "Added"; column = λ k. none }

updates_columns :
    (sql_builder 7 (
      ("cart_id", IdentifierValue.string "c1")
      ∷ ("item_id", IdentifierValue.string "p1")
      ∷ [])).text
    ≡ "UPDATE event SET cart_id = $1,item_id = $2 WHERE event_id = $3"
unfolding sql_builder
updates_columns = refl

handle_each-IsIndexed_example :
    (r' : Row) × Memᴰ r' (
      index_row 2
        (shopping.domain_identifiers (added "pen"))
        (index_row 1 (shopping.domain_identifiers (added "cup")) (old_row 1))
      ∷ index_row 2
          (shopping.domain_identifiers (added "pen"))
          (index_row 1 (shopping.domain_identifiers (added "cup")) (old_row 2))
      ∷ [])
    × IsIndexed shopping "indexer" pen (old_row 2) r'
handle_each-IsIndexed_example =
    handle_each-IsIndexed shopping "indexer" (old_row 1 ∷ old_row 2 ∷ [])
      (index_row 2 (shopping.domain_identifiers (added "pen"))
          (index_row 1 (shopping.domain_identifiers (added "cup")) (old_row 1))
        ∷ index_row 2 (shopping.domain_identifiers (added "pen"))
            (index_row 1 (shopping.domain_identifiers (added "cup")) (old_row 2))
        ∷ [])
      0 (cup ∷ pen ∷ []) pen (old_row 2) (unfold id_indexer execute_update in refl)
      (omega arith, (omega arith, tt)) (Memᴰ.tail (Memᴰ.head refl)) (Memᴰ.tail (Memᴰ.head refl))
      refl

abbrev clearing : PersistedEvent ShoppingEvent
clearing = record { id = 1; event = cleared }

abbrev never : ℕ → Bool
never k = false
