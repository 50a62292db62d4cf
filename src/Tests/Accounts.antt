-- ===== src/Tests/Accounts.antt =====
-- The decisions of the banking example on small balances.
use disintegrate.Prelude.{◌≡◌, refl, true, false, [], ◌∷◌}
use disintegrate.Prelude.Int.{ℤ, pos, negsuc, ◌+ℤ◌, ◌≤ℤ◌}
use disintegrate.Prelude.Result.{ok}
use disintegrate.Identifier
use disintegrate.Stream.Filter
use disintegrate.Stream.Query
use disintegrate.Banking.{
  DomainEvent, AccountState, AccountBalance, mutate_balance, deposit_amount, send_money,
}
use disintegrate.Banking.Laws.{send_conserves}

abbrev open_state : AccountState
open_state = record { account_id = pos 1; opened = true; closed = false }

abbrev beneficiary : AccountState
beneficiary = record { account_id = pos 2; opened = true; closed = false }

abbrev holding : ℤ → AccountBalance
holding z = record { account_id = pos 1; balance = z }

send_conserves_example : (pos 6 +ℤ pos 9 ≡ pos 10 +ℤ pos 5) × (pos 0 ≤ℤ pos 4) × (pos 0 ≤ℤ pos 6)
send_conserves_example =
    send_conserves (pos 1) (pos 2) (pos 4) open_state beneficiary (holding (pos 10))
      (holding (pos 6)) (record { account_id = pos 2; balance = pos 5 })
      (record { account_id = pos 2; balance = pos 9 })
      (DomainEvent.transfer_sent (pos 1) (pos 2) (pos 4)
        ∷ DomainEvent.transfer_received (pos 2) (pos 1) (pos 4)
        ∷ [])
      (λ same. absurd (cc same)) refl refl (unfold send_money in refl)
      (unfold mutate_balance Query.matches Query.change_origin Query.query Query.cast Filter.matches
          Filter.change_origin Filter.cast Filter.new Identifier.get in
        refl)
      (unfold mutate_balance Query.matches Query.change_origin Query.query Query.cast Filter.matches
          Filter.change_origin Filter.cast Filter.new Identifier.get in
        refl)

abbrev closed_state : AccountState
closed_state = record { account_id = pos 1; opened = true; closed = true }

-- A negative amount is deposited, which leaves the account in debt.
negative_deposit :
    (deposit_amount (pos 1) (negsuc 4)).process (open_state, holding (pos 0))
    ≡ ok (DomainEvent.amount_deposited (pos 1) (negsuc 4) ∷ [])
unfolding deposit_amount
negative_deposit = refl
