-- ===== src/Common/Int.antt =====
-- Signed integers over the native numbers, and `%d` of `printf`.
use Prim.Native.Nat.{ℕ, suc, ◌^◌, ◌≤◌, ◌<◌}
use mathlib.Core.List.{List, ◌∷◌}
use native.Mathlib.Omega.{arith}
use linux_iot_gateway.Common.Decimal.{to_string, length-to_string}
use linux_iot_gateway.Common.Lists.{length}

-- `negsuc n` is -(n + 1).
pub data ℤ : Type 0 where
  pos : ℕ → ℤ
  negsuc : ℕ → ℤ

-- The values of `int`.
abbrev pub IsInt : ℤ → Type 0
IsInt (pos n) = n < 2 ^ 31
IsInt (negsuc n) = n < 2 ^ 31

abbrev pub int_text : ℤ → List ℕ
int_text (pos n) = to_string n
int_text (negsuc n) = b'-' ∷ to_string (suc n)

-- An `int` has at most ten digits and a sign.
pub length-int_text : (z : ℤ) → IsInt z → length (int_text z) ≤ 11
length-int_text (pos n) h = omega (arith, length-to_string 9 n (omega arith))
length-int_text (negsuc n) h = omega (arith, length-to_string 9 (suc n) (omega arith))
