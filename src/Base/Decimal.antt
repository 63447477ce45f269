-- ===== src/Base/Decimal.antt =====
-- Decimal digits of a number, as `format!` prints them.
pub mod Read
use Prim.Native.Nat.{ℕ, zero, suc, ◌/◌, ◌%◌}
use Prim.Native.String.{String, ◌++◌}
use nxr.Base.Tests.{if◌then◌else◌, ltb, ◌==◌}

digit : ℕ → String
digit d =
    if d == 0
    then "0"
    else if d == 1
    then "1"
    else if d == 2
    then "2"
    else if d == 3
    then "3"
    else if d == 4
    then "4"
    else if d == 5
    then "5"
    else if d == 6
    then "6"
    else if d == 7
    then "7"
    else if d == 8
    then "8"
    else "9"

print : ℕ → ℕ → String
unfolding digit
print zero n = ""
print (suc fuel) n =
    let rest = print fuel (n / 10) in if ltb n 10 then digit n else rest ++ digit (n % 10)

-- A number has at most as many digits as its value plus one.
unfoldable pub decimal : ℕ → String
unfolding print
decimal n = print (suc n) n
