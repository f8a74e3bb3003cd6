-- ===== src/Common/Slots.antt =====
-- The objects of a program by the order of their construction, each of which owns numbered
-- resources until its destruction.
use Prim.Native.Nat.{ℕ, zero, suc, ◌+◌}
use mathlib.Core.Path.{◌≡◌, refl, ap}
use mathlib.Core.Bool.{false}
use mathlib.Core.List.{List, [], ◌∷◌, ◌++◌}
use native.Mathlib.Omega.{arith}
use linux_iot_gateway.Common.Tests.{◌==◌}
use linux_iot_gateway.Common.Lists.{count, count-append}

-- An object before or after its destruction.
pub data Slot (T : Type 0) : Type 0 where
  holds : T → Slot T
  destroyed : Slot T

module _ {T : Type 0} where
  abbrev pub slot_at : ℕ → List (Slot T) → Slot T
  slot_at i [] = destroyed
  slot_at zero (s ∷ objects) = s
  slot_at (suc i) (s ∷ objects) = slot_at i objects

  abbrev pub set_slot : ℕ → Slot T → List (Slot T) → List (Slot T)
  set_slot i t [] = []
  set_slot zero t (s ∷ objects) = t ∷ objects
  set_slot (suc i) t (s ∷ objects) = s ∷ set_slot i t objects

  pub slot_at-set_slot :
      (i j : ℕ) (t : Slot T) (objects : List (Slot T))
      → (i == j) ≡ false
      → slot_at j (set_slot i t objects) ≡ slot_at j objects
  slot_at-set_slot i j t [] h = refl
  slot_at-set_slot zero zero t (s ∷ objects) h = absurd (ground arith)
  slot_at-set_slot zero (suc j) t (s ∷ objects) h = refl
  slot_at-set_slot (suc i) zero t (s ∷ objects) h = refl
  slot_at-set_slot (suc i) (suc j) t (s ∷ objects) h = slot_at-set_slot i j t objects (ground arith)

module _ {T : Type 0} (owns : T → List ℕ) where
  abbrev pub slot_owns : Slot T → List ℕ
  slot_owns (holds object) = owns object
  slot_owns destroyed = []

  abbrev pub owned : List (Slot T) → List ℕ
  owned [] = []
  owned (s ∷ objects) = slot_owns s ++ owned objects

  pub count-owned-append :
      (k : ℕ) (xs ys : List (Slot T))
      → count k (owned (xs ++ ys)) ≡ count k (owned xs) + count k (owned ys)
  count-owned-append k [] ys = omega arith
  count-owned-append k (s ∷ xs) ys = omega (
    arith,
    count-owned-append k xs ys,
    count-append k (slot_owns s) (owned (xs ++ ys)),
    count-append k (slot_owns s) (owned xs),
  )

  pub count-owned-set_slot :
      (k i : ℕ) (t : Slot T) (objects : List (Slot T)) {object : T}
      → slot_at i objects ≡ holds object
      → count k (owned (set_slot i t objects)) + count k (owns object)
        ≡ count k (owned objects) + count k (slot_owns t)
  count-owned-set_slot k i t [] e = cc
  count-owned-set_slot k zero t (s ∷ objects) e = omega (
    arith,
    count-append k (slot_owns s) (owned objects),
    count-append k (slot_owns t) (owned objects),
    ap (λ u. count k (slot_owns u)) e,
  )
  count-owned-set_slot k (suc i) t (s ∷ objects) e = omega (
    arith,
    count-owned-set_slot k i t objects e,
    count-append k (slot_owns s) (owned objects),
    count-append k (slot_owns s) (owned (set_slot i t objects)),
  )
