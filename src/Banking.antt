-- ===== src/Banking.antt =====
-- The banking example: examples/banking/src/domain.rs. An `i32` is an integer whose sums are checked:
-- an overflow panics, as in a build with overflow checks.
pub mod Laws
pub mod Opening
use disintegrate.Prelude.{
  ◌+◌, ◌^◌, String, Bool, true, false, not, ◌&&◌, Option, none, some, List, [], ◌∷◌, map, ltb,
  ◌>>=◌, if◌then◌else◌,
}
use disintegrate.Prelude.Int.{ℤ, pos, negsuc, ◌+ℤ◌, ◌-ℤ◌, ltb_ℤ, pos_part, neg_part}
use disintegrate.Prelude.Result.{Result, ok, err}
use disintegrate.Identifier.{
  IdentifierType, IdentifierValue, DomainIdentifierSet, domain_identifiers,
}
use disintegrate.Event.{EventInfo, EventSchema, Event}
use disintegrate.Stream.Filter
use disintegrate.Stream.Query
use disintegrate.Stream.Query.{StreamQuery}
use disintegrate.State.{StateMutate}
use disintegrate.Decision.{Decision}

abbrev pub AccountId : Type 0
AccountId = ℤ

pub data DomainEvent : Type 0 where
  account_opened account_closed : (account_id : AccountId) → DomainEvent
  transfer_sent : (account_id to : AccountId) (amount : ℤ) → DomainEvent
  transfer_received : (account_id source : AccountId) (amount : ℤ) → DomainEvent
  amount_deposited amount_withdrawn : (account_id : AccountId) (amount : ℤ) → DomainEvent

-- The streams that `#[stream(...)]` derives.
pub data AccountStateEvent : Type 0 where
  account_opened account_closed : (account_id : AccountId) → AccountStateEvent

pub data AccountBalanceEvent : Type 0 where
  amount_deposited amount_withdrawn : (account_id : AccountId) (amount : ℤ) → AccountBalanceEvent
  transfer_sent : (account_id to : AccountId) (amount : ℤ) → AccountBalanceEvent
  transfer_received : (account_id source : AccountId) (amount : ℤ) → AccountBalanceEvent

pub data Error : Type 0 where
  invalid_amount insufficient_balance account_already_opened account_not_found account_closed :
      Error

-- A schema in which every event has the identifier `account_id`.
abbrev schema_of : List String → EventSchema
schema_of events = record {
  events = events;
  events_info = map (λ name. record { name = name; domain_identifiers = "account_id" ∷ [] }) events;
  domain_identifiers = record { ident = "account_id"; type_info = IdentifierType.i64 } ∷ [];
}

abbrev pub state_schema : EventSchema
state_schema = schema_of ("AccountOpened" ∷ "AccountClosed" ∷ [])

abbrev pub balance_schema : EventSchema
balance_schema =
    schema_of ("TransferSent" ∷ "TransferReceived" ∷ "AmountDeposited" ∷ "AmountWithdrawn" ∷ [])

abbrev pub name : DomainEvent → String
name (DomainEvent.account_opened id) = "AccountOpened"
name (DomainEvent.account_closed id) = "AccountClosed"
name (DomainEvent.transfer_sent id to amount) = "TransferSent"
name (DomainEvent.transfer_received id source amount) = "TransferReceived"
name (DomainEvent.amount_deposited id amount) = "AmountDeposited"
name (DomainEvent.amount_withdrawn id amount) = "AmountWithdrawn"

abbrev account_of : DomainEvent → AccountId
account_of (DomainEvent.account_opened id) = id
account_of (DomainEvent.account_closed id) = id
account_of (DomainEvent.transfer_sent id to amount) = id
account_of (DomainEvent.transfer_received id source amount) = id
account_of (DomainEvent.amount_deposited id amount) = id
account_of (DomainEvent.amount_withdrawn id amount) = id

abbrev pub account_set : AccountId → DomainIdentifierSet
account_set id = ("account_id", IdentifierValue.i64 id) ∷ []

abbrev pub banking_event : Event DomainEvent
banking_event = record {
  schema = schema_of (
      "AccountOpened" ∷ "AccountClosed" ∷ "TransferSent" ∷ "TransferReceived" ∷ "AmountDeposited"
      ∷ "AmountWithdrawn" ∷ []);
  name = name;
  domain_identifiers = λ e. account_set (account_of e);
}

-- `TryFrom<DomainEvent>` of the two streams.
abbrev into_state_event : DomainEvent → Option AccountStateEvent
into_state_event (DomainEvent.account_opened id) = some (AccountStateEvent.account_opened id)
into_state_event (DomainEvent.account_closed id) = some (AccountStateEvent.account_closed id)
into_state_event _ = none

abbrev into_balance_event : DomainEvent → Option AccountBalanceEvent
into_balance_event (DomainEvent.amount_deposited id amount) =
    some (AccountBalanceEvent.amount_deposited id amount)
into_balance_event (DomainEvent.amount_withdrawn id amount) =
    some (AccountBalanceEvent.amount_withdrawn id amount)
into_balance_event (DomainEvent.transfer_sent id to amount) =
    some (AccountBalanceEvent.transfer_sent id to amount)
into_balance_event (DomainEvent.transfer_received id source amount) =
    some (AccountBalanceEvent.transfer_received id source amount)
into_balance_event _ = none

pub record AccountBalance : Type 0 where
  pub account_id : AccountId
  pub balance : ℤ

-- The sum or difference of two `i32`, if it is one.
abbrev pub checked_i32 : ℤ → Option ℤ
checked_i32 z = if ltb (pos_part z) (2 ^ 31) && ltb (neg_part z) (2 ^ 31 + 1) then some z else none

abbrev set_balance : AccountBalance → Option ℤ → Option AccountBalance
set_balance s none = none
set_balance s (some z) = some (record s { balance = z })

unfoldable pub mutate_balance : AccountBalance → AccountBalanceEvent → Option AccountBalance
unfolding ◌+ℤ◌ ◌-ℤ◌
mutate_balance s (AccountBalanceEvent.amount_deposited id amount) =
    set_balance s (checked_i32 (s.balance +ℤ amount))
mutate_balance s (AccountBalanceEvent.amount_withdrawn id amount) =
    set_balance s (checked_i32 (s.balance -ℤ amount))
mutate_balance s (AccountBalanceEvent.transfer_sent id to amount) =
    set_balance s (checked_i32 (s.balance -ℤ amount))
mutate_balance s (AccountBalanceEvent.transfer_received id source amount) =
    set_balance s (checked_i32 (s.balance +ℤ amount))

pub record AccountState : Type 0 where
  pub account_id : AccountId
  pub opened : Bool
  pub closed : Bool

unfoldable pub mutate_state : AccountState → AccountStateEvent → AccountState
mutate_state s (AccountStateEvent.account_opened id) = record s { opened = true }
mutate_state s (AccountStateEvent.account_closed id) = record s { closed = true }

-- The derived `StateQuery` of the two states.
abbrev pub account_balance : StateMutate AccountBalance AccountBalanceEvent DomainEvent
account_balance = record {
  name = "AccountBalance";
  query =
      λ s. Query.query balance_schema (some (Filter.new balance_schema (account_set s.account_id)));
  try_into = into_balance_event;
  mutate = mutate_balance;
}

abbrev pub account_state : StateMutate AccountState AccountStateEvent DomainEvent
account_state = record {
  name = "AccountState";
  query = λ s. Query.query state_schema (some (Filter.new state_schema (account_set s.account_id)));
  try_into = into_state_event;
  mutate = λ s e. some (mutate_state s e);
}

abbrev pub new_state : AccountId → AccountState
new_state id = record { account_id = id; opened = false; closed = false }

abbrev pub new_balance : AccountId → AccountBalance
new_balance id = record { account_id = id; balance = pos 0 }

unfoldable pub open_account : AccountId → Decision AccountState DomainEvent Error
open_account id = record {
  state_query = new_state id;
  validation_query = none;
  process = λ state.
      if state.opened then err account_already_opened else ok (DomainEvent.account_opened id ∷ []);
}

unfoldable pub close_account : AccountId → Decision AccountState DomainEvent Error
close_account id = record {
  state_query = new_state id;
  validation_query = none;
  process = λ state.
      if not state.opened
      then err account_not_found
      else if state.closed
      then err Error.account_closed
      else ok (DomainEvent.account_closed id ∷ []);
}

unfoldable pub deposit_amount :
    AccountId → ℤ → Decision (AccountState × AccountBalance) DomainEvent Error
deposit_amount id amount = record {
  state_query = (new_state id, new_balance id);
  validation_query = none;
  process = λ states.
      if not states.0.opened
      then err account_not_found
      else if states.0.closed
      then err Error.account_closed
      else ok (DomainEvent.amount_deposited id amount ∷ []);
}

-- `union!(&account_state, account_balance.exclude_events(...))`
abbrev without_deposits : AccountId → StreamQuery
without_deposits id =
    Query.exclude_events ("AmountDeposited" ∷ []) (account_balance.query (new_balance id))

unfoldable pub withdraw_amount :
    AccountId → ℤ → Decision (AccountState × AccountBalance) DomainEvent Error
withdraw_amount id amount = record {
  state_query = (new_state id, new_balance id);
  validation_query = some (Query.union (account_state.query (new_state id)) (without_deposits id));
  process = λ states.
      if not states.0.opened
      then err account_not_found
      else if states.0.closed
      then err Error.account_closed
      else if ltb_ℤ states.1.balance amount
      then err insufficient_balance
      else ok (DomainEvent.amount_withdrawn id amount ∷ []);
}

-- The three states are a pair whose first component is a pair.
unfoldable pub send_money :
    AccountId
    → AccountId
    → ℤ
    → Decision ((AccountState × AccountBalance) × AccountState) DomainEvent Error
send_money id beneficiary_id amount = record {
  state_query = ((new_state id, new_balance id), new_state beneficiary_id);
  validation_query = some (
      Query.union (account_state.query (new_state id))
        (Query.union (without_deposits id) (account_state.query (new_state beneficiary_id))));
  process = λ states.
      if ltb_ℤ amount (pos 0)
      then err invalid_amount
      else if not states.0.0.opened
      then err account_not_found
      else if not states.1.opened
      then err account_not_found
      else if states.0.0.closed
      then err Error.account_closed
      else if states.1.closed
      then err Error.account_closed
      else if ltb_ℤ states.0.1.balance amount
      then err insufficient_balance
      else ok (
          DomainEvent.transfer_sent id beneficiary_id amount
          ∷ DomainEvent.transfer_received beneficiary_id id amount
          ∷ []);
}
