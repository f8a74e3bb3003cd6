-- ===== src/Common/Decimal.antt =====
-- `std::to_string` of an unsigned number, and the number that digits spell.
use linux_iot_gateway.Common.Tests.{ltb, leb, if◌then◌else◌, Bool-cases}
use linux_iot_gateway.Common.Lists.{All, All-append, is_empty, length, length-append}
use Prim.Native.Nat.{ℕ, zero, suc, ◌+◌, ◌-◌, ◌*◌, ◌/◌, ◌%◌, ◌^◌, ◌≤◌, ◌<◌}
use mathlib.Core.Path.{◌≡◌, refl}
use mathlib.Core.Logic.{inl, inr}
use mathlib.Core.Bool.{Bool, true, false, ◌&&◌}
use mathlib.Core.List.{List, [], ◌∷◌, ◌++◌}
use native.Mathlib.Omega.{arith}
use native.Mathlib.Nat.{pow-suc}

abbrev pub is_digit : ℕ → Bool
is_digit c = leb b'0' c && leb c b'9'

-- The number that the digits spell behind `n`, with no bound.
abbrev pub value : ℕ → List ℕ → ℕ
value n [] = n
value n (c ∷ s) = value (n * 10 + (c - b'0')) s

-- Digits are split off from the right, with fuel for one more than are needed.
decimal : ℕ → ℕ → List ℕ
decimal zero n = []
decimal (suc fuel) n =
    let rest = decimal fuel (n / 10) in
    if ltb n 10 then (b'0' + n) ∷ [] else rest ++ (b'0' + n % 10) ∷ []

unfoldable pub to_string : ℕ → List ℕ
unfolding decimal
to_string n = decimal (suc n) n

abbrev pub AllDigits : List ℕ → Type 0
AllDigits = All (λ c. is_digit c ≡ true)

pub value-append : (n : ℕ) (xs ys : List ℕ) → value n (xs ++ ys) ≡ value (value n xs) ys
value-append n [] ys = refl
value-append n (x ∷ xs) ys = value-append (n * 10 + (x - b'0')) xs ys

pub le-value : (n : ℕ) (s : List ℕ) → n ≤ value n s
le-value n [] = omega arith
le-value n (c ∷ s) = omega (arith, le-value (n * 10 + (c - b'0')) s)

decimal-value : (fuel n : ℕ) → n < fuel → value 0 (decimal fuel n) ≡ n
unfolding decimal
decimal-value zero n h = elim h [ ]
decimal-value (suc fuel) n h = ground (
  arith,
  value-append 0 (decimal fuel (n / 10)) ((b'0' + n % 10) ∷ []),
  decimal-value fuel (n / 10),
)

decimal-AllDigits : (fuel n : ℕ) → AllDigits (decimal fuel n)
unfolding decimal
decimal-AllDigits zero n = tt
decimal-AllDigits (suc fuel) n = elim (Bool-cases (ltb n 10)) [
  | inl e ↦ rw e (ground arith, tt)
  | inr e ↦ rw e (
      All-append (λ c. is_digit c ≡ true) (decimal fuel (n / 10)) ((b'0' + n % 10) ∷ [])
        (decimal-AllDigits fuel (n / 10)) (ground arith, tt))
]

append-not_empty : (xs : List ℕ) (y : ℕ) → is_empty (xs ++ y ∷ []) ≡ false
append-not_empty [] y = refl
append-not_empty (x ∷ xs) y = refl

decimal-not_empty : (fuel n : ℕ) → is_empty (decimal (suc fuel) n) ≡ false
unfolding decimal
decimal-not_empty fuel n = ground (arith, append-not_empty (decimal fuel (n / 10)) (b'0' + n % 10))

-- The text of a number is one or more digits that spell it.
pub value-to_string : (n : ℕ) → value 0 (to_string n) ≡ n
unfolding to_string
value-to_string n = decimal-value (suc n) n (omega arith)

pub to_string-AllDigits : (n : ℕ) → AllDigits (to_string n)
unfolding to_string
to_string-AllDigits n = decimal-AllDigits (suc n) n

pub to_string-not_empty : (n : ℕ) → is_empty (to_string n) ≡ false
unfolding to_string
to_string-not_empty n = decimal-not_empty n n

decimal-length : (k fuel n : ℕ) → n < 10 ^ suc k → length (decimal fuel n) ≤ suc k
unfolding decimal
decimal-length k zero n h = omega arith
decimal-length zero (suc fuel) n h = ground arith
decimal-length (suc k) (suc fuel) n h = ground (
  arith,
  pow-suc 10 (suc k),
  length-append (decimal fuel (n / 10)) ((b'0' + n % 10) ∷ []),
  decimal-length k fuel (n / 10),
)

-- A number below a power of ten has as many digits at most.
pub length-to_string : (k n : ℕ) → n < 10 ^ suc k → length (to_string n) ≤ suc k
unfolding to_string
length-to_string k n h = decimal-length k (suc n) n h
