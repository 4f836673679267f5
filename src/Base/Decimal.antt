-- ===== src/Base/Decimal.antt =====
-- Decimal numerals, as fmt prints a number that is not negative.
use Prim.Native.String.{String, slice}
use Prim.Native.Nat.{ℕ, zero, suc, ◌/◌, ◌%◌}
use riftroute.Base.Tests.{ltb, if◌then◌else◌}
use riftroute.Base.Text.{◌<>◌}

digit : ℕ → String
digit d = slice "0123456789" d (suc d)

decimal_from : ℕ → ℕ → String
decimal_from zero n = ""
decimal_from (suc fuel) n =
    let front = decimal_from fuel (n / 10) in if ltb n 10 then digit n else front <> digit (n % 10)

-- A number has no more digits than one more than itself.
unfoldable pub decimal : ℕ → String
unfolding digit decimal_from
decimal n = decimal_from (suc n) n
