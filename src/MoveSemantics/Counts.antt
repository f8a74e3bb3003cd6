-- ===== src/MoveSemantics/Counts.antt =====
-- How often an array is owned by the objects or was deleted.
use linux_iot_gateway.Common.{
  ℕ, ◌+◌, List, [], ◌∷◌, Option, none, some, ◌≡◌, refl, ap, ap₂, ◌∙◌, arith, ◌==◌, if◌then◌else◌,
  ltb, count, count-append, length, length-append, length-set,
}
use linux_iot_gateway.Common.Int.{ℤ}
use linux_iot_gateway.Common.Slots.{
  Slot, holds, destroyed, slot_at, slot_owns, owned, count-owned-append, count-owned-set_slot,
}
use linux_iot_gateway.MoveSemantics.{Buffer, Program, allocate, delete, replace, push, put}

abbrev pub owns : Buffer → List ℕ
owns b = elim b.pointer [ none ↦ [] | some a ↦ a ∷ [] ]

-- How often an array is owned or was deleted.
abbrev pub held : ℕ → Program → ℕ
held k p = count k (owned owns p.objects) + count k p.deleted

-- Whether an array has been allocated.
abbrev pub allocated : ℕ → Program → ℕ
allocated k p = if ltb k (length p.arrays) then 1 else 0

-- An array that has been allocated, and no other, is held once.
abbrev pub Balanced : Program → Type 0
Balanced p = (k : ℕ) → held k p ≡ allocated k p

abbrev pub pointer_count : ℕ → Option ℕ → ℕ
pointer_count k none = 0
pointer_count k (some a) = if a == k then 1 else 0

count-owns : (k : ℕ) (b : Buffer) → count k (owns b) ≡ pointer_count k b.pointer
count-owns k b = by_pointer b.pointer
  where
    by_pointer :
        (pointer : Option ℕ)
        → count k (elim pointer [ none ↦ [] | some a ↦ a ∷ [] ]) ≡ pointer_count k pointer
    by_pointer none = refl
    by_pointer (some a) = refl

-- An allocation changes nothing else, and its array is new.
pub allocated-allocate :
    (k : ℕ) (xs : List ℤ) (p : Program)
    → let (p', pointer) = allocate xs p in
      (allocated k p' ≡ allocated k p + pointer_count k pointer)
      × (p'.objects ≡ p.objects)
      × (p'.deleted ≡ p.deleted)
unfolding allocate
allocated-allocate k [] p = (omega arith, refl, refl)
allocated-allocate k (x ∷ xs) p =
    (ground (arith, length-append p.arrays (some (x ∷ xs) ∷ [])), refl, refl)

pub deleted-delete :
    (k : ℕ) (pointer : Option ℕ) (p : Program)
    → let p' = delete pointer p in
      (count k p'.deleted ≡ count k p.deleted + pointer_count k pointer)
      × (allocated k p' ≡ allocated k p)
      × (p'.objects ≡ p.objects)
unfolding delete
deleted-delete k none p = (omega arith, refl, refl)
deleted-delete k (some a) p = (
  count-append k p.deleted (a ∷ []),
  ap (λ n. if ltb k n then 1 else 0) (length-set p.arrays a none),
  refl,
)

abbrev slot_count : ℕ → Slot Buffer → ℕ
slot_count k (holds b) = pointer_count k b.pointer
slot_count k destroyed = 0

count-slot_owns : (k : ℕ) (s : Slot Buffer) → count k (slot_owns owns s) ≡ slot_count k s
count-slot_owns k (holds b) = count-owns k b
count-slot_owns k destroyed = refl

pub held-push :
    (k : ℕ) (b : Buffer) (p : Program) → held k (push b p) ≡ held k p + pointer_count k b.pointer
held-push k b p = omega (
  arith,
  count-owned-append owns k p.objects (holds b ∷ []),
  count-append k (owns b) [],
  count-owns k b,
)

pub held-put :
    (k i : ℕ) (s : Slot Buffer) (p : Program) {b : Buffer}
    → slot_at i p.objects ≡ holds b
    → held k (put i s p) + pointer_count k b.pointer ≡ held k p + slot_count k s
held-put k i s p {b} e =
    omega (arith, count-owned-set_slot owns k i s p.objects e, count-owns k b, count-slot_owns k s)

-- The same objects are left, with so much less of the array held.
pub held-allocate : (k : ℕ) (xs : List ℤ) (p : Program) → held k (allocate xs p).0 ≡ held k p
held-allocate k xs p =
    let (_, same, same') = allocated-allocate k xs p in
    ap₂ (λ objects deleted. count k (owned owns objects) + count k deleted) same same'

pub held-delete :
    (k : ℕ) (pointer : Option ℕ) (p : Program)
    → held k (delete pointer p) ≡ held k p + pointer_count k pointer
held-delete k pointer p =
    let (more, _, same) = deleted-delete k pointer p in
    omega (arith, more, ap (λ objects. count k (owned owns objects)) same)

-- The array of an object is deleted and another put in its place.
pub held-replace :
    (k i : ℕ) (this b : Buffer) (p : Program)
    → slot_at i p.objects ≡ holds this
    → held k (replace i this.pointer b p) ≡ held k p + pointer_count k b.pointer
held-replace k i this b p e =
    let (_, _, same) = deleted-delete k this.pointer p in
    omega (
      arith,
      held-delete k this.pointer p,
      held-put k i (holds b) (delete this.pointer p) (ap (slot_at i) same ∙ e),
    )
