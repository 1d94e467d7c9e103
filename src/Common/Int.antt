-- ===== src/Common/Int.antt =====
-- Signed integers over the native numbers, as far as the program counts and prints them.
use Prim.Native.Nat.{ℕ, zero, suc, ◌-◌, ◌%◌, ◌^◌}
use package.kinova_gen3_ros.Common.Tests.{ltb, if◌then◌else◌}
use package.kinova_gen3_ros.Common.Text.{String, ◌++◌, to_string}

-- `negsuc n` is -(n + 1).
pub data ℤ : Type 0 where
  pos : ℕ → ℤ
  negsuc : ℕ → ℤ

-- `i + 1`
unfoldable pub succ : ℤ → ℤ
succ (pos n) = pos (suc n)
succ (negsuc zero) = pos 0
succ (negsuc (suc n)) = negsuc n

-- `std::to_string` of an int.
unfoldable pub print_ℤ : ℤ → String
print_ℤ (pos n) = to_string n
print_ℤ (negsuc n) = "-" ++ to_string (suc n)

-- static_cast<int> of a wider integer that is not negative: its low 32 bits, as a signed number.
unfoldable pub to_int : ℕ → ℤ
to_int n = let w = n % 2 ^ 32 in if ltb w (2 ^ 31) then pos w else negsuc (2 ^ 32 - w - 1)
