-- ===== src/Tests/Deciding.antt =====
-- Decisions of the banking example on a store in memory.
use disintegrate.Prelude.{max, ◌≡◌, refl, true, false, List, [], ◌∷◌, ◌++◌, any, String}
use disintegrate.Prelude.Int.{pos}
use disintegrate.Prelude.Result.{ok, unwrap, ◌>>=◌}
use disintegrate.Event.{PersistedEvent}
use disintegrate.Identifier
use disintegrate.Stream.Filter
use disintegrate.Stream.Query
use disintegrate.State.{
  StatePart, MultiState, single, pair, mutate_each, mutate_matching, matches_event, mutate_part,
  query_part, new,
}
use disintegrate.State.Multi.{IsLawful, single-IsLawful}
use disintegrate.State.Tuple.{IsTuple, pair-IsLawful, tuple_advances}
use disintegrate.StateStore.{load, persist, mutate_state, mutate_stream}
use disintegrate.StateStore.Replay.{load-replay}
use disintegrate.Decision.{make}
use disintegrate.Decision.Serial.{MadeOn, make_serial, ValidatedOn, make_validated}
use disintegrate.Banking.{
  DomainEvent, AccountState, AccountBalance, account_state, account_balance, banking_event,
  open_account, withdraw_amount, mutate_balance, new_state, new_balance,
}
use disintegrate.Banking
use disintegrate.Banking.Laws.{account_state-KeepsQuery, account_balance-KeepsQuery}
use disintegrate.Banking.Opening.{opens, open_once}
use disintegrate.Tests.Memory.{memory, memory-KeepsLog}

abbrev pub states : MultiState AccountState (StatePart AccountState) DomainEvent
states = single account_state banking_event

pub states-IsLawful : IsLawful states banking_event
states-IsLawful = single-IsLawful account_state banking_event account_state-KeepsQuery

-- Another client opens account 2 while the decision to open account 1 is made.
abbrev meanwhile : List DomainEvent → List DomainEvent
meanwhile st = st ++ DomainEvent.account_opened (pos 2) ∷ []

abbrev first : PersistedEvent DomainEvent
first = record { id = 1; event = DomainEvent.account_opened (pos 2) }

abbrev second : PersistedEvent DomainEvent
second = record { id = 2; event = DomainEvent.account_opened (pos 1) }

abbrev stored : List DomainEvent
stored = DomainEvent.account_opened (pos 2) ∷ DomainEvent.account_opened (pos 1) ∷ []

made :
    make states (memory banking_event) (open_account (pos 1)) meanwhile []
    ≡ (stored, ok (second ∷ []))
unfolding make load persist mutate_state mutate_stream single open_account mutate_matching
    matches_event mutate_part query_part new Query.matches Query.change_origin Query.query
    Query.cast Filter.matches Filter.change_origin Filter.cast Filter.new Identifier.get
    Banking.mutate_state
made = refl

make_serial_example :
    MadeOn states banking_event states-IsLawful
      (memory banking_event)
      (memory-KeepsLog banking_event)
      (open_account (pos 1))
      ((memory-KeepsLog banking_event).log (meanwhile []))
      stored
      (second ∷ [])
make_serial_example =
    make_serial states banking_event states-IsLawful (memory banking_event)
      (memory-KeepsLog banking_event) (open_account (pos 1)) meanwhile [] stored (first ∷ [])
      (second ∷ []) (unfold open_account in refl) (unfold memory-KeepsLog in refl) made

open_once_example :
    (any (λ e. opens (pos 1) e.event) (first ∷ []) ≡ false)
    × (first ∷ second ∷ [] ≡ (first ∷ []) ++ second ∷ [])
unfolding memory-KeepsLog
open_once_example =
    open_once (memory banking_event) (memory-KeepsLog banking_event) (pos 1) meanwhile [] stored
      (first ∷ []) (second ∷ []) (unfold memory-KeepsLog in refl) made

-- The two states of a withdrawal.
abbrev pub wallets :
    MultiState
      (AccountState × AccountBalance)
      (StatePart AccountState × StatePart AccountBalance)
      DomainEvent
wallets = pair states account_balance banking_event

pub wallets-IsLawful : IsLawful wallets banking_event
wallets-IsLawful =
    pair-IsLawful states account_balance banking_event states-IsLawful account_balance-KeepsQuery

abbrev pub history : List DomainEvent
history =
    DomainEvent.account_opened (pos 1)
    ∷ DomainEvent.amount_deposited (pos 1) (pos 10)
    ∷ DomainEvent.amount_deposited (pos 2) (pos 5)
    ∷ DomainEvent.amount_withdrawn (pos 1) (pos 3)
    ∷ []

abbrev pub queried : AccountState × AccountBalance
queried = (new_state (pos 1), new_balance (pos 1))

load-replay_example : load wallets (memory banking_event) history queried ≡ (
    unwrap {X = String} (
      mutate_each wallets
        (wallets.into_state_part queried)
        ((memory-KeepsLog banking_event).log history))
    >>= λ m. ok (record { state = wallets.into_state m; version = wallets.version m }))
load-replay_example =
    load-replay wallets banking_event wallets-IsLawful (memory banking_event)
      (memory-KeepsLog banking_event) history queried

loaded_history :
    load wallets (memory banking_event) history queried
    ≡ ok (record {
      state = (
        record { account_id = pos 1; opened = true; closed = false },
        record { account_id = pos 1; balance = pos 7 },
      );
      version = 4;
    })
unfolding load mutate_state mutate_stream single pair mutate_matching matches_event mutate_part
    query_part new Query.matches Query.change_origin Query.query Query.cast Query.union
    Filter.matches Filter.change_origin Filter.cast Filter.new Identifier.get Banking.mutate_state
    mutate_balance
loaded_history = refl

-- A part of the wallets after the first event.
abbrev parts : StatePart AccountState × StatePart AccountBalance
parts = (
  record {
    version = 1;
    applied_events = 1;
    inner = record { account_id = pos 1; opened = true; closed = false };
  },
  record { version = 0; applied_events = 0; inner = new_balance (pos 1) },
)

abbrev other : PersistedEvent DomainEvent
other = record { id = 2; event = DomainEvent.amount_deposited (pos 2) (pos 5) }

abbrev own : PersistedEvent DomainEvent
own = record { id = 3; event = DomainEvent.amount_deposited (pos 1) (pos 5) }

abbrev parts' : StatePart AccountState × StatePart AccountBalance
parts' = (
  parts.0,
  record {
    version = 3;
    applied_events = 1;
    inner = record { account_id = pos 1; balance = pos 5 };
  },
)

wallets-IsTuple :
    IsTuple banking_event
      (AccountState × AccountBalance)
      (StatePart AccountState × StatePart AccountBalance)
      wallets
wallets-IsTuple =
    IsTuple.more states account_balance (IsTuple.one account_state account_state-KeepsQuery)
      account_balance-KeepsQuery

tuple_advances_example :
    (Query.matches banking_event (wallets.query_all parts) own ≡ true
      → wallets.version parts' ≡ max (wallets.version parts) 3)
    × (Query.matches banking_event (wallets.query_all parts) own ≡ false → parts' ≡ parts)
tuple_advances_example = tuple_advances banking_event wallets wallets-IsTuple parts parts' own (
    unfold single pair mutate_matching matches_event mutate_part query_part Query.matches
      Query.union Query.change_origin Query.query Query.cast Filter.matches Filter.change_origin
      Filter.cast Filter.new Identifier.get mutate_balance in
    refl)

-- A deposit arrives while a withdrawal is decided, which does not hinder it.
abbrev deposit_meanwhile : List DomainEvent → List DomainEvent
deposit_meanwhile st = st ++ DomainEvent.amount_deposited (pos 1) (pos 2) ∷ []

abbrev after_withdrawal : List DomainEvent
after_withdrawal = deposit_meanwhile history ++ DomainEvent.amount_withdrawn (pos 1) (pos 6) ∷ []

abbrev withdrawal : PersistedEvent DomainEvent
withdrawal = record { id = 6; event = DomainEvent.amount_withdrawn (pos 1) (pos 6) }

withdrawn :
    make wallets (memory banking_event) (withdraw_amount (pos 1) (pos 6)) deposit_meanwhile history
    ≡ (after_withdrawal, ok (withdrawal ∷ []))
unfolding make load persist mutate_state mutate_stream single pair withdraw_amount mutate_matching
    matches_event mutate_part query_part new Query.matches Query.change_origin Query.query
    Query.cast Query.union Query.exclude_events Filter.matches Filter.change_origin Filter.cast
    Filter.new Identifier.get Banking.mutate_state mutate_balance
withdrawn = refl

make_validated_example :
    ValidatedOn wallets banking_event wallets-IsLawful
      (memory banking_event)
      (memory-KeepsLog banking_event)
      (withdraw_amount (pos 1) (pos 6))
      ((memory-KeepsLog banking_event).log history)
      ((memory-KeepsLog banking_event).log (deposit_meanwhile history))
      after_withdrawal
      (withdrawal ∷ [])
make_validated_example =
    make_validated wallets banking_event wallets-IsLawful (memory banking_event)
      (memory-KeepsLog banking_event) (withdraw_amount (pos 1) (pos 6)) deposit_meanwhile history
      after_withdrawal (withdrawal ∷ []) withdrawn
