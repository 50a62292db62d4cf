-- ===== src/Tests/Reading.antt =====
-- Reads from the PostgreSQL store while clients append.
use mathlib.Core.List.{Memᴰ}
use disintegrate.Prelude.{ℕ, ◌+◌, refl, false, true, Bool, none, some, List, [], ◌∷◌, arith}
use disintegrate.Identifier
use disintegrate.Identifier.{IdentifierValue}
use disintegrate.Event.{event_info, has_domain_identifier}
use disintegrate.Stream.Filter
use disintegrate.Stream.Query
use disintegrate.Postgres.Criteria.{Group, group, groups, type_test, type_tests}
use disintegrate.Postgres.Criteria.Rows.{holds}
use disintegrate.Postgres.Append.{stage}
use disintegrate.Postgres.Session.{effect, step_at, step, run, current_epoch}
use disintegrate.Postgres.Listener.{EventListener, take, handle_stream, handle_events_from}
use disintegrate.Postgres.Listener.Progress.{Progress}
use disintegrate.Postgres.Reading.{stream, pg_event_store}
use disintegrate.Postgres.Reading.Cursor.{run-handled}
use disintegrate.Tests.Streams.{ShoppingEvent, shopping, shopping_schema, item_filter, one}
use disintegrate.Tests.Appending.{cup}
use disintegrate.Tests.Sessions.{shop, shop-IsConsistent, shop-IsSingle, started, shopping_known}

abbrev cup_groups : List Group
cup_groups =
    record {
      after = none;
      tests =
          record {
            event_type = "Added";
            identifiers = ("item_id", IdentifierValue.string "cup") ∷ [];
          }
          ∷ record { event_type = "Cleared"; identifiers = [] }
          ∷ [];
    }
    ∷ []

-- Counts the events.
abbrev counter : EventListener ℕ ShoppingEvent
counter = record { id = "counter"; query = one (item_filter "cup"); handle = λ n e. (n + 1, true) }

abbrev never : ℕ → Bool
never k = false

run-handled_example :
    (p : Progress counter 0 0
      (take 10 (
        stream shopping shopping_schema some
          (current_epoch shop)
          (run shopping shop started).db
          (Query.change_origin 0 (one (item_filter "cup")))))
      (handle_events_from counter never
        (pg_event_store shopping shopping_schema (λ w. run shopping w started))
        shop
        10
        0
        0).1)
    × Memᴰ cup p.done
unfolding run
run-handled_example =
    run-handled shopping shopping_schema 0 (item_filter "cup") [] cup_groups (refl, tt)
      (unfold Query.change_origin Filter.change_origin groups group type_tests type_test event_info
          has_domain_identifier in
        refl)
      refl counter never 0 10 shop started started cup refl shopping_known shop-IsConsistent
      shop-IsSingle (unfold run step step_at effect stage in Memᴰ.head refl)
      (unfold Query.matches Query.change_origin Filter.matches Filter.change_origin
          Identifier.get in
        refl)
      (unfold handle_events_from handle_stream stream Query.change_origin Filter.change_origin
          groups group type_tests type_test event_info has_domain_identifier holds current_epoch
          Identifier.get in
        omega arith)
