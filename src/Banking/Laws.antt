-- ===== src/Banking/Laws.antt =====
-- About the decisions of examples/banking/src/domain.rs.
use disintegrate.Prelude.{
  ◌≡◌, ◌≢◌, ◌∙◌, sym, Bool-cases, Option-cases, inl, inr, refl, true, false, some, Option, List, [],
  if◌then◌else◌, ◌∷◌, arith,
}
use disintegrate.Prelude.Int.{eqb_ℤ, eqb_ℤ_iff, ℤ, pos, ◌+ℤ◌, ◌-ℤ◌, ◌≤ℤ◌}
use disintegrate.Prelude.Result.{ok, err}
use disintegrate.State.{KeepsQuery}
use disintegrate.Testing.Follow.{take, follow}
use disintegrate.Identifier
use disintegrate.Stream.Filter
use disintegrate.Stream.Query
use disintegrate.Banking.{
  banking_event, AccountId, DomainEvent, AccountStateEvent, AccountBalanceEvent, Error,
  AccountBalance, AccountState, account_already_opened, mutate_balance, mutate_state,
  account_balance, account_state, open_account, close_account, deposit_amount, withdraw_amount,
  send_money,
}

abbrev IsOpen : AccountState → Type 0
IsOpen s = (s.opened ≡ true) × (s.closed ≡ false)

pub withdraw_inv :
    (id : AccountId) (amount : ℤ) (s : AccountState) (b : AccountBalance)
    (events : List DomainEvent)
    → (withdraw_amount id amount).process (s, b) ≡ ok events
    → IsOpen s × (amount ≤ℤ b.balance) × (events ≡ DomainEvent.amount_withdrawn id amount ∷ [])
unfolding withdraw_amount
withdraw_inv id amount s b events h = (ground arith, ground arith, ground arith)

pub withdraw_of_open :
    (id : AccountId) (amount : ℤ) (s : AccountState) (b : AccountBalance)
    → IsOpen s
    → amount ≤ℤ b.balance
    → (withdraw_amount id amount).process (s, b) ≡ ok (DomainEvent.amount_withdrawn id amount ∷ [])
unfolding withdraw_amount
withdraw_of_open id amount s b o le = ground (arith, o)

-- A withdrawal that is accepted produces one event, which leaves a balance that is not negative if
-- it does not overflow.
withdraw_covered :
    (id : AccountId) (amount : ℤ) (s : AccountState) (b b' : AccountBalance)
    (events : List DomainEvent)
    → (withdraw_amount id amount).process (s, b) ≡ ok events
    → mutate_balance b (AccountBalanceEvent.amount_withdrawn id amount) ≡ some b'
    → (events ≡ DomainEvent.amount_withdrawn id amount ∷ []) × (pos 0 ≤ℤ b'.balance)
unfolding mutate_balance
withdraw_covered id amount s b b' events h m =
    let (o, le, shape) = withdraw_inv id amount s b events h in (shape, ground arith)

-- A withdrawal that was decided before a deposit is decided in the same way after it, if the
-- deposit is not negative: this is why its validation query leaves the deposits out.
pub withdraw-deposit :
    (id : AccountId) (amount deposited : ℤ) (s : AccountState) (b b' : AccountBalance)
    (events : List DomainEvent)
    → (withdraw_amount id amount).process (s, b) ≡ ok events
    → mutate_balance b (AccountBalanceEvent.amount_deposited id deposited) ≡ some b'
    → pos 0 ≤ℤ deposited
    → (withdraw_amount id amount).process (s, b') ≡ ok events
unfolding mutate_balance withdraw_amount
withdraw-deposit id amount deposited s b b' events h m le = ground arith

balance_step : AccountBalance → DomainEvent → Option AccountBalance
balance_step b (DomainEvent.transfer_sent id to amount) =
    if eqb_ℤ b.account_id id
    then mutate_balance b (AccountBalanceEvent.transfer_sent id to amount)
    else some b
balance_step b (DomainEvent.transfer_received id source amount) =
    if eqb_ℤ b.account_id id
    then mutate_balance b (AccountBalanceEvent.transfer_received id source amount)
    else some b
balance_step b e = take account_balance banking_event b e

take-balance :
    (b : AccountBalance) (e : DomainEvent)
    → take account_balance banking_event b e ≡ balance_step b e
unfolding balance_step Query.matches Query.change_origin Query.query Query.cast Filter.matches
    Filter.change_origin Filter.cast Filter.new Identifier.get
take-balance b (DomainEvent.transfer_sent id to amount) = ground arith
take-balance b (DomainEvent.transfer_received id source amount) = ground arith
take-balance b (DomainEvent.account_opened id) = refl
take-balance b (DomainEvent.account_closed id) = refl
take-balance b (DomainEvent.amount_deposited id amount) = refl
take-balance b (DomainEvent.amount_withdrawn id amount) = refl

mutate_balance-account_id :
    (s s' : AccountBalance) (e : AccountBalanceEvent)
    → mutate_balance s e ≡ some s'
    → s'.account_id ≡ s.account_id
unfolding mutate_balance
mutate_balance-account_id s s' (AccountBalanceEvent.amount_deposited id amount) h = ground arith
mutate_balance-account_id s s' (AccountBalanceEvent.amount_withdrawn id amount) h = ground arith
mutate_balance-account_id s s' (AccountBalanceEvent.transfer_sent id to amount) h = ground arith
mutate_balance-account_id s s' (AccountBalanceEvent.transfer_received id source amount) h =
    ground arith

differs : (a x y : ℤ) → a ≡ x → x ≢ y → eqb_ℤ a y ≡ false
differs a x y same other = elim (Bool-cases (eqb_ℤ a y)) [
  | inl equal ↦ absurd (other (sym same ∙ (eqb_ℤ_iff a y).0 equal))
  | inr n ↦ n
]

module _ (id beneficiary_id : AccountId) (amount : ℤ) (other : id ≢ beneficiary_id) where
  abbrev transfer : List DomainEvent
  transfer =
      DomainEvent.transfer_sent id beneficiary_id amount
      ∷ DomainEvent.transfer_received beneficiary_id id amount
      ∷ []

  follow-sender :
      (b : AccountBalance)
      → b.account_id ≡ id
      → follow account_balance banking_event b transfer
        ≡ mutate_balance b (AccountBalanceEvent.transfer_sent id beneficiary_id amount)
  unfolding balance_step
  follow-sender b own =
      let sent = AccountBalanceEvent.transfer_sent id beneficiary_id amount in
      let hit : eqb_ℤ b.account_id id ≡ true = (eqb_ℤ_iff b.account_id id).1 own in
      rw (take-balance b (DomainEvent.transfer_sent id beneficiary_id amount), hit)
        (elim (Option-cases (mutate_balance b sent)) [
          | inl o ↦ rw o refl
          | inr (b', o) ↦
              let same : b'.account_id ≡ id = mutate_balance-account_id b b' sent o ∙ own in
              let miss : eqb_ℤ b'.account_id beneficiary_id ≡ false =
                differs b'.account_id id beneficiary_id same other in
              rw o (
                rw (take-balance b' (DomainEvent.transfer_received beneficiary_id id amount), miss)
                  refl)
        ])

  follow-beneficiary :
      (c : AccountBalance)
      → c.account_id ≡ beneficiary_id
      → follow account_balance banking_event c transfer
        ≡ mutate_balance c (AccountBalanceEvent.transfer_received beneficiary_id id amount)
  unfolding balance_step
  follow-beneficiary c its =
      let received = AccountBalanceEvent.transfer_received beneficiary_id id amount in
      let miss : eqb_ℤ c.account_id id ≡ false =
        differs c.account_id beneficiary_id id its (λ same. other (sym same)) in
      let hit : eqb_ℤ c.account_id beneficiary_id ≡ true =
        (eqb_ℤ_iff c.account_id beneficiary_id).1 its in
      rw (take-balance c (DomainEvent.transfer_sent id beneficiary_id amount), miss)
        (rw (take-balance c (DomainEvent.transfer_received beneficiary_id id amount), hit)
          (elim (Option-cases (mutate_balance c received)) [
            | inl o ↦ rw o refl
            | inr (c', o) ↦ rw o refl
          ]))

transfer_conserves :
    (id beneficiary_id : AccountId) (amount : ℤ) (b b' c c' : AccountBalance)
    → mutate_balance b (AccountBalanceEvent.transfer_sent id beneficiary_id amount) ≡ some b'
    → mutate_balance c (AccountBalanceEvent.transfer_received beneficiary_id id amount) ≡ some c'
    → amount ≤ℤ b.balance
    → (b'.balance +ℤ c'.balance ≡ b.balance +ℤ c.balance) × (pos 0 ≤ℤ b'.balance)
unfolding mutate_balance ◌+ℤ◌ ◌-ℤ◌
transfer_conserves id beneficiary_id amount b b' c c' m n le = (ground arith, ground arith)

send_inv :
    (id beneficiary_id : AccountId) (amount : ℤ) (s t : AccountState) (b : AccountBalance)
    (events : List DomainEvent)
    → (send_money id beneficiary_id amount).process ((s, b), t) ≡ ok events
    → (pos 0 ≤ℤ amount)
      × (amount ≤ℤ b.balance)
      × (events
          ≡ DomainEvent.transfer_sent id beneficiary_id amount
            ∷ DomainEvent.transfer_received beneficiary_id id amount
            ∷ [])
unfolding send_money
send_inv id beneficiary_id amount s t b events h = (ground arith, ground arith, ground arith)

-- The events of a transfer to another account that is accepted, when the balances of the two accounts
-- follow them as a replay does, move an amount that is not negative: the sum of the two balances stays,
-- and the sender's does not become negative. Neither of the two sums may overflow.
pub send_conserves :
    (id beneficiary_id : AccountId) (amount : ℤ) (s t : AccountState) (b b' c c' : AccountBalance)
    (events : List DomainEvent)
    → id ≢ beneficiary_id
    → b.account_id ≡ id
    → c.account_id ≡ beneficiary_id
    → (send_money id beneficiary_id amount).process ((s, b), t) ≡ ok events
    → follow account_balance banking_event b events ≡ some b'
    → follow account_balance banking_event c events ≡ some c'
    → (b'.balance +ℤ c'.balance ≡ b.balance +ℤ c.balance)
      × (pos 0 ≤ℤ amount)
      × (pos 0 ≤ℤ b'.balance)
send_conserves id beneficiary_id amount s t b b' c c' events other own its h m n =
    let (positive, le, shape) = send_inv id beneficiary_id amount s t b events h in
    let m' = sym (follow-sender id beneficiary_id amount other b own) ∙ rw shape at m in
    let n' = sym (follow-beneficiary id beneficiary_id amount other c its) ∙ rw shape at n in
    let (sum, covered) = transfer_conserves id beneficiary_id amount b b' c c' m' n' le in
    (sum, positive, covered)

-- After an account is closed no decision on it is accepted any more: it cannot be opened or closed
-- again, no amount can be deposited or withdrawn, and none that is not negative can be sent to an
-- account that was opened.
closed_final :
    (id beneficiary_id : AccountId) (amount : ℤ) (s t : AccountState) (b : AccountBalance)
    (events : List DomainEvent)
    → (close_account id).process s ≡ ok events
    → pos 0 ≤ℤ amount
    → t.opened ≡ true
    → let s' = mutate_state s (AccountStateEvent.account_closed id) in
      ((open_account id).process s' ≡ err account_already_opened)
      × ((close_account id).process s' ≡ err Error.account_closed)
      × ((deposit_amount id amount).process (s', b) ≡ err Error.account_closed)
      × ((withdraw_amount id amount).process (s', b) ≡ err Error.account_closed)
      × ((send_money id beneficiary_id amount).process ((s', b), t) ≡ err Error.account_closed)
unfolding open_account close_account deposit_amount withdraw_amount send_money mutate_state
closed_final id beneficiary_id amount s t b events h le o =
    (ground arith, ground arith, ground arith, ground arith, ground arith)

pub mutate_state-account_id :
    (s : AccountState) (e : AccountStateEvent) → (mutate_state s e).account_id ≡ s.account_id
unfolding mutate_state
mutate_state-account_id s (AccountStateEvent.account_opened id) = refl
mutate_state-account_id s (AccountStateEvent.account_closed id) = refl

-- No event changes the query of the two states.
pub account_balance-KeepsQuery : KeepsQuery account_balance
account_balance-KeepsQuery = record {
  kept = λ s s' e h. let same = mutate_balance-account_id s s' e h in rw same refl;
}

pub account_state-KeepsQuery : KeepsQuery account_state
account_state-KeepsQuery = record {
  kept = λ s s' e h.
      let same : mutate_state s e ≡ s' = ground arith in
      rw (← same, mutate_state-account_id s e) refl;
}
