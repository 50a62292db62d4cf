-- ===== src/Prelude/Show.antt =====
-- `Display` of integers: decimal digits, with a sign before negative numbers.
use Prim.Native.Nat.{ℕ, zero, suc, ◌+◌, ◌/◌, ◌%◌, ◌<◌}
use Prim.Native.String.{String, ◌++◌}
use mathlib.Core.Path.{◌≡◌, refl}
use native.Mathlib.Omega.{arith}
use disintegrate.Prelude.Tests.{eqb, ltb, if◌then◌else◌}
use disintegrate.Prelude.Int.{ℤ, pos, negsuc}

abbrev digit : ℕ → String
digit d =
    if eqb d 0
    then "0"
    else if eqb d 1
    then "1"
    else if eqb d 2
    then "2"
    else if eqb d 3
    then "3"
    else if eqb d 4
    then "4"
    else if eqb d 5
    then "5"
    else if eqb d 6
    then "6"
    else if eqb d 7
    then "7"
    else if eqb d 8
    then "8"
    else "9"

-- The digits of `n` before those of `acc`; a fuel of n + 1 is enough, as each round divides by 10.
show_digits : ℕ → ℕ → String → String
show_digits zero n acc = acc
show_digits (suc fuel) n acc =
    let rest = show_digits fuel (n / 10) (digit (n % 10) ++ acc) in
    if ltb n 10 then digit n ++ acc else rest

unfoldable pub show : ℕ → String
unfolding show_digits
show n = show_digits (n + 1) n ""

-- More fuel than n + 1 changes nothing.
show_digits_fuel :
    (f g n : ℕ) (acc : String) → n < f → n < g → show_digits f n acc ≡ show_digits g n acc
unfolding show_digits
show_digits_fuel zero g n acc p q = elim p [ ]
show_digits_fuel (suc f) zero n acc p q = elim q [ ]
show_digits_fuel (suc f) (suc g) n acc p q =
    ground (arith, show_digits_fuel f g (n / 10) (digit (n % 10) ++ acc))

unfoldable pub show_ℤ : ℤ → String
unfolding show
show_ℤ (pos n) = show n
show_ℤ (negsuc n) = "-" ++ show (n + 1)

show_120 : show 120 ≡ "120"
unfolding show
show_120 = refl
