-- ===== src/Tests/Harness.antt =====
-- Runs of the test harness, on the banking example.
use disintegrate.Prelude.{◌≡◌, refl, ◌↔◌}
use disintegrate.Prelude.Int.{pos}
use disintegrate.Prelude.Result.{err}
use disintegrate.Decision.{domain, make}
use disintegrate.Banking
use disintegrate.Banking.{banking_event, withdraw_amount}
use disintegrate.Testing.{given, when}
use disintegrate.Testing.Agreement.{when-make}
use disintegrate.Tests.Memory.{memory, memory-KeepsLog}
use disintegrate.Tests.Deciding.{wallets, wallets-IsLawful, history}

when-make_example :
    ((when wallets (given history) (withdraw_amount (pos 1) (pos 20))).result
      ≡ err Banking.Error.insufficient_balance)
    ↔ ((make wallets (memory banking_event) (withdraw_amount (pos 1) (pos 20)) (λ st. st) history).1
        ≡ err (domain Banking.Error.insufficient_balance))
when-make_example =
    when-make wallets banking_event wallets-IsLawful (memory banking_event)
      (memory-KeepsLog banking_event) (withdraw_amount (pos 1) (pos 20)) (λ st. st) history history
      Banking.Error.insufficient_balance (unfold memory-KeepsLog in refl)
