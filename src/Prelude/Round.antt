-- ===== src/Prelude/Round.antt =====
-- Decimals of a request, and Python's `round`. A decimal is a whole number of millionths: requests
-- carry few places, and the sources round each of them to an integer where it arrives.
use karibu.Prelude.Tests.{ltb, ◌==◌, if◌then◌else◌}
use karibu.Prelude.Int.{ℤ, pos, negsuc, neg}
use Prim.Native.Nat.{ℕ, suc, ◌+◌, ◌*◌, ◌/◌, ◌%◌, ◌≤◌}
use native.Mathlib.Omega.{arith}

abbrev pub Decimal : Type 0
Decimal = ℕ

-- `round(n / d)`: to the nearest integer, a tie to the even one
unfoldable pub round_half_even : ℕ → ℕ → ℕ
round_half_even n d =
    if ltb (2 * (n % d)) d
    then n / d
    else if ltb d (2 * (n % d))
    then n / d + 1
    else if (n / d) % 2 == 0
    then n / d
    else n / d + 1

-- `int(round(amount * 100))`
abbrev pub to_cents : Decimal → ℕ
to_cents amount = round_half_even amount 10000

-- `round(value * 1000)`, on the two signs alike
abbrev pub to_milli : ℤ → ℤ
to_milli (pos n) = pos (round_half_even n 1000)
to_milli (negsuc n) = neg (pos (round_half_even (suc n) 1000))

-- Rounding moves an amount by half a cent at most.
pub to_cents-near :
    (amount : Decimal)
    → (2 * (10000 * to_cents amount) ≤ 2 * amount + 10000)
      × (2 * amount ≤ 2 * (10000 * to_cents amount) + 10000)
unfolding round_half_even
to_cents-near amount = ground arith
