-- ===== src/Tests/Appending.antt =====
-- Appends to the tables of the PostgreSQL store.
use disintegrate.Prelude.{◌≡◌, refl, Bool, true, false, some, List, [], ◌∷◌, arith, inl, inr}
use disintegrate.Prelude.Result.{ok, err}
use disintegrate.Identifier
use disintegrate.Event.{PersistedEvent, event_info, has_domain_identifier}
use disintegrate.Stream.Filter
use disintegrate.Stream.Query
use disintegrate.Stream.Query.{StreamQuery}
use disintegrate.Postgres.Criteria.{Group, group, groups, type_test, type_tests}
use disintegrate.Postgres.Criteria.Rows.{holds, row_of}
use disintegrate.Postgres.Append.{
  SequenceRow, Database, concurrency, update_rows, finish, stage, stage_all, append,
}
use disintegrate.Postgres.Append.Validity.{IsValid}
use disintegrate.Postgres.Append.Validation.{append_validates}
use disintegrate.Tests.Streams.{ShoppingEvent, added, shopping, shopping_schema, item_filter, one}

abbrev empty : Database ShoppingEvent
empty = record { next_id = 1; event_sequence = []; event = [] }

abbrev pub cup : PersistedEvent ShoppingEvent
cup = record { id = 1; event = added "cup" }

abbrev pub pen : PersistedEvent ShoppingEvent
pen = record { id = 2; event = added "pen" }

abbrev pub row : PersistedEvent ShoppingEvent → Bool → SequenceRow
row e true = record { row = row_of shopping e; consumed = 1; committed = true }
row e false = record { row = row_of shopping e; consumed = 0; committed = false }

-- The tables after a cup was added.
abbrev pub with_cup : Database ShoppingEvent
with_cup = record { next_id = 2; event_sequence = row cup true ∷ []; event = cup ∷ [] }

pub with_cup-IsValid : IsValid with_cup
with_cup-IsValid = record {
  sound = (record { checked = omega arith; spent = inr refl }, tt);
  fresh = (omega arith, tt);
}

abbrev quiet : Database ShoppingEvent → Database ShoppingEvent
quiet d = d

-- A pen is added: the query for pens does not see the cup.
added_pen :
    append shopping shopping_schema quiet with_cup (added "pen" ∷ []) (one (item_filter "pen")) 0
    ≡ (
      record {
        next_id = 3;
        event_sequence = row cup true ∷ row pen true ∷ [];
        event = cup ∷ pen ∷ [];
      },
      ok (pen ∷ []),
    )
unfolding append stage_all stage finish update_rows groups group type_tests type_test holds
    Query.change_origin Filter.change_origin Identifier.get event_info has_domain_identifier
added_pen = refl

-- A cup is not: the query for cups from the start sees the first one.
second_cup :
    (append shopping shopping_schema quiet with_cup
      (added "cup" ∷ [])
      (one (item_filter "cup"))
      0).1
    ≡ err concurrency
unfolding append stage_all stage finish update_rows groups group type_tests type_test holds
    Query.change_origin Filter.change_origin Identifier.get event_info has_domain_identifier
second_cup = refl

append_validates_example :
    Query.matches shopping (Query.change_origin 0 (one (item_filter "pen"))) cup ≡ false
append_validates_example =
    append_validates shopping shopping_schema quiet with_cup
      (record {
        next_id = 3;
        event_sequence = row cup true ∷ row pen true ∷ [];
        event = cup ∷ pen ∷ [];
      })
      (added "pen") [] (one (item_filter "pen")) 0 (pen ∷ [])
      (record { name = "Added"; domain_identifiers = "item_id" ∷ [] }) cup (row cup true) added_pen
      (unfold Query.change_origin Filter.change_origin in (refl, tt))
      (unfold Query.change_origin Filter.change_origin in (refl, tt))
      (unfold stage_all stage in
        (
          record { checked = omega arith; spent = inr refl },
          (record { checked = omega arith; spent = inl refl }, tt),
        ))
      (unfold stage_all stage in inl refl) refl refl (omega arith) (omega arith)
      (unfold event_info in refl)

-- Two clients have staged an event each; the first one's criteria select the second one's row.
abbrev both : Database ShoppingEvent
both = record { next_id = 3; event_sequence = row cup false ∷ row pen false ∷ []; event = [] }

abbrev all_rows : List Group
all_rows = record { after = some 0; tests = [] } ∷ []
