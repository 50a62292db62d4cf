-- ===== src/Tests/Sessions.antt =====
-- Clients that append at the same time.
use disintegrate.Prelude.{ℕ, ◌≡◌, refl, true, some, none, List, [], ◌∷◌, All, length, arith, inl}
use disintegrate.Identifier
use disintegrate.Identifier.{IdentifierValue}
use disintegrate.Event.{EventInfo, event_info, has_domain_identifier}
use disintegrate.Postgres.Criteria.{Group, group, groups, type_test, type_tests}
use disintegrate.Postgres.Criteria.Rows.{holds}
use disintegrate.Postgres.Append.{stage, update_rows}
use disintegrate.Postgres.Session.{
  World, Action, ready, begin, stages, updates, inserts, commits, begin_batch, stages_batch,
  commits_batch, effect, step_at, step, run, current_epoch,
}
use disintegrate.Postgres.Session.Consistent.{IsConsistent, run-IsConsistent}
use disintegrate.Postgres.Session.Epoch.{up_to, run-up_to}
use disintegrate.Postgres.Session.Single.{IsSingle, run-IsSingle}
use disintegrate.Postgres.Session.Locks.{lock_keys, locked_id, locked_id-lock_keys}
use disintegrate.Postgres.Session.Validated.{IsUnmatched, run-IsUnmatched}
use disintegrate.Tests.Streams.{
  ShoppingEvent, added, cleared, shopping, shopping_schema, item_filter,
}
use disintegrate.Tests.Appending.{cup, pen, row, with_cup, with_cup-IsValid}

-- Two clients, when a cup is in the store.
abbrev pub shop : World ShoppingEvent
shop = record { db = with_cup; clients = ready ∷ ready ∷ [] }

pub shop-IsConsistent : IsConsistent shopping shop.db shop.clients
shop-IsConsistent = record {
  started = omega arith;
  valid = with_cup-IsValid;
  logged = ((row cup true, inl refl, refl, refl, omega arith), tt);
  served = (tt, (tt, tt));
}

pub shop-IsSingle : IsSingle shop.db shop.clients
shop-IsSingle = record { once = λ n. ground arith; fresh = λ n le. ground arith }

-- The first client has staged a pen.
abbrev pub started : List (ℕ × Action ShoppingEvent)
started = (0, begin) ∷ (0, stages (added "pen")) ∷ []

abbrev pen_groups : List Group
pen_groups =
    record {
      after = none;
      tests =
          record {
            event_type = "Added";
            identifiers = ("item_id", IdentifierValue.string "pen") ∷ [];
          }
          ∷ record { event_type = "Cleared"; identifiers = [] }
          ∷ [];
    }
    ∷ []

-- The second client tries to add a pen too, while the first one finishes.
abbrev pub rest : List (ℕ × Action ShoppingEvent)
rest =
    (1, begin)
    ∷ (1, stages (added "pen"))
    ∷ (0, inserts)
    ∷ (1, updates pen_groups)
    ∷ (0, commits)
    ∷ []

pub shopping_known :
    (event : ShoppingEvent)
    → (info : EventInfo) × (event_info shopping_schema (shopping.name event) ≡ some info)
unfolding event_info
shopping_known (added item) = (record { name = "Added"; domain_identifiers = "item_id" ∷ [] }, refl)
shopping_known cleared = (record { name = "Cleared"; domain_identifiers = [] }, refl)

-- The second client reads from a table in which the first one's event is still to come.
epoch_waits : current_epoch (run shopping shop started) ≡ 1
unfolding current_epoch run step step_at effect stage
epoch_waits = refl

run-IsConsistent_example :
    IsConsistent shopping (run shopping shop started).db (run shopping shop started).clients
run-IsConsistent_example = run-IsConsistent shopping shop started shop-IsConsistent

run-IsSingle_example : IsSingle (run shopping shop started).db (run shopping shop started).clients
run-IsSingle_example = run-IsSingle shopping shop started shop-IsSingle

run-up_to_example :
    up_to (current_epoch shop) (run shopping shop started).db.event
    ≡ up_to (current_epoch shop) shop.db.event
run-up_to_example = run-up_to shopping shop started shop-IsConsistent

run-IsUnmatched_example :
    All
      (IsUnmatched shopping pen_groups 1
        (pen ∷ [])
        shopping_schema
        (item_filter "pen")
        []
        (refl, tt)
        (unfold groups group type_tests type_test event_info has_domain_identifier in refl))
      (run shopping
        (step shopping (run shopping shop started) (0, updates pen_groups))
        rest).db.event
run-IsUnmatched_example =
    run-IsUnmatched shopping pen_groups 1 (pen ∷ []) shopping_schema (item_filter "pen") []
      (refl, tt) (unfold groups group type_tests type_test event_info has_domain_identifier in refl)
      (run shopping shop started) 0 rest refl shopping_known
      (run-IsConsistent shopping shop started shop-IsConsistent)
      (unfold run step step_at effect stage in refl)
      (unfold run step step_at effect stage update_rows holds Identifier.get in refl)
      (refl, (refl, (refl, (refl, (refl, tt)))))

-- An append without validation that commits later brings the second pen in: nothing keeps it out.
unchecked :
    length
      (run shopping shop (
        (0, begin)
        ∷ (1, begin_batch)
        ∷ (1, stages_batch (added "pen"))
        ∷ (0, stages (added "pen"))
        ∷ (0, updates pen_groups)
        ∷ (1, commits_batch)
        ∷ (0, inserts)
        ∷ [])).db.event
    ≡ 3
unfolding run step step_at effect stage update_rows holds Identifier.get
unchecked = refl

-- Bit 31 of the lower half is set, so its key is negative.
locked_id-lock_keys_example : locked_id (lock_keys 15032385536) ≡ 15032385536
locked_id-lock_keys_example = locked_id-lock_keys 15032385536 (omega arith)

-- A pen is added while another client stages one too.
