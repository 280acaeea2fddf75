-- ===== src/Prelude/Text.antt =====
-- `str` of a number.
use Prim.Native.Nat.{ℕ, zero, suc, ◌/◌, ◌%◌}
use Prim.Native.String.{String, ◌++◌ as append}
use pix_vpn_service.Prelude.Tests.{ltb, ◌==◌, if◌then◌else◌}

digit : ℕ → String
digit n =
    if n == 0
    then "0"
    else if n == 1
    then "1"
    else if n == 2
    then "2"
    else if n == 3
    then "3"
    else if n == 4
    then "4"
    else if n == 5
    then "5"
    else if n == 6
    then "6"
    else if n == 7
    then "7"
    else if n == 8
    then "8"
    else "9"

-- A number has no more digits than the number itself, or one.
decimal_of : ℕ → ℕ → String
unfolding digit
decimal_of zero n = ""
decimal_of (suc fuel) n =
    let more = append (decimal_of fuel (n / 10)) (digit (n % 10)) in
    if ltb n 10 then digit n else more

unfoldable pub decimal : ℕ → String
unfolding decimal_of digit
decimal n = decimal_of (suc n) n

unfoldable pub with_number : String → ℕ → String
unfolding decimal decimal_of digit
with_number prefix n = append prefix (decimal n)
