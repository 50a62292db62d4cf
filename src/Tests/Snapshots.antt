-- ===== src/Tests/Snapshots.antt =====
-- Loading the wallet of the banking example from snapshots.
use disintegrate.Prelude.{true, false, List, [], ◌∷◌}
use disintegrate.Prelude.Int.{pos}
use disintegrate.Event.{PersistedEvent}
use disintegrate.Identifier
use disintegrate.Stream.Filter
use disintegrate.Stream.Query
use disintegrate.State.{StatePart, single, new}
use disintegrate.State.Snapshots.{MultiStateSnapshot, single_snapshot, pair_snapshot}
use disintegrate.State.Counters.{Forgets, single-Forgets, pair-Forgets}
use disintegrate.Banking
use disintegrate.Banking.{DomainEvent, AccountState, AccountBalance, banking_event}
use disintegrate.Tests.Memory.{numbered}
use disintegrate.Tests.Deciding.{wallets}

-- The storage of the snapshots is the two parts; as in PostgreSQL, a part that is loaded starts with no
-- applied event.
abbrev Parts : Type 0
Parts = StatePart AccountState × StatePart AccountBalance

abbrev backend : MultiStateSnapshot Parts Parts
backend =
    pair_snapshot
      (single_snapshot (record {
        load_snapshot = λ b p. new b.0.version b.0.inner;
        store_snapshot = λ b p. ((p, b.1), true);
      }))
      (record {
        load_snapshot = λ b p. new b.1.version b.1.inner;
        store_snapshot = λ b p. ((b.0, p), true);
      })

abbrev first_events : List (PersistedEvent DomainEvent)
first_events =
    numbered 0
      (DomainEvent.account_opened (pos 1) ∷ DomainEvent.amount_deposited (pos 1) (pos 10) ∷ [])

abbrev later_events : List (PersistedEvent DomainEvent)
later_events = numbered 2 (
    DomainEvent.amount_deposited (pos 2) (pos 5)
    ∷ DomainEvent.amount_withdrawn (pos 1) (pos 3)
    ∷ [])

-- The parts after the first two events of the history.
abbrev taken_parts : Parts
taken_parts = (
  record {
    version = 1;
    applied_events = 1;
    inner = record { account_id = pos 1; opened = true; closed = false };
  },
  record {
    version = 2;
    applied_events = 1;
    inner = record { account_id = pos 1; balance = pos 10 };
  },
)

wallets-Forgets : Forgets wallets
wallets-Forgets =
    pair-Forgets (single Banking.account_state banking_event) Banking.account_balance banking_event
      (single-Forgets Banking.account_state banking_event)
