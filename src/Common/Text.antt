-- ===== src/Common/Text.antt =====
-- Texts: concatenation, and what the program prints of a number.
use Prim.Native.Nat.{ℕ, zero, suc, ◌/◌, ◌%◌}
use package.kinova_gen3_ros.Common.Tests.{ltb, ◌==◌, ℕ_eq, if◌then◌else◌}
pub use Prim.Native.String.{String, ◌++◌}

-- One decimal digit.
digit : ℕ → String
digit n =
    if n == 0
    then "0"
    else if n == 1
    then "1"
    else if n == 2
    then "2"
    else if n == 3
    then "3"
    else if n == 4
    then "4"
    else if n == 5
    then "5"
    else if n == 6
    then "6"
    else if n == 7
    then "7"
    else if n == 8
    then "8"
    else "9"

print_from : ℕ → ℕ → String → String
print_from zero n acc = acc
print_from (suc fuel) n acc =
    let rest = print_from fuel (n / 10) (digit (n % 10) ++ acc) in
    if ltb n 10 then digit n ++ acc else rest

-- `std::to_string` of a number: one round for each digit, so `n + 1` rounds are enough.
unfoldable pub to_string : ℕ → String
unfolding digit print_from
to_string n = print_from (suc n) n ""
