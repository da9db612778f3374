-- ===== src/Base/Decimal.antt =====
-- The decimal digits that `snprintf` writes for `%u` and `%d`, and reading them back.
use Prim.Native.Nat.{ℕ, zero, suc, ◌+◌, ◌-◌, ◌/◌, ◌%◌, ◌^◌}
use mathlib.Core.List.{[], ◌∷◌, ◌++◌}
use banking_management_syste.Base.Tests.{ltb, if◌then◌else◌}
use banking_management_syste.Base.Text.{Text}

-- The last digits first are split off; the fuel counts digits.
unfoldable pub digits : ℕ → ℕ → Text
digits zero n = []
digits (suc fuel) n =
    let front = digits fuel (n / 10) in
    if ltb n 10 then (b'0' + n) ∷ [] else front ++ (b'0' + n % 10) ∷ []

-- %u, %llu: a number has at most as many digits as its value and one.
unfoldable pub decimal : ℕ → Text
unfolding digits
decimal n = digits (suc n) n

-- %d: the bit pattern as a signed number.
unfoldable pub signed : ℕ → Text
unfolding decimal
signed n = if ltb n (2 ^ 31) then decimal n else b'-' ∷ decimal (2 ^ 32 - n)
