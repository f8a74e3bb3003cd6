-- ===== src/MoveSemantics/Ownership.antt =====
-- Sequences of operations on buffers, and the arrays that they own and delete.
use linux_iot_gateway.Common.{
  ℕ, ◌+◌, false, List, [], ◌∷◌, ◌≡◌, refl, ap, ◌∙◌, arith, ◌==◌, Bool-cases, inl, inr, length,
}
use linux_iot_gateway.Common.Int.{ℤ}
use linux_iot_gateway.Common.Slots.{Slot, holds, destroyed, slot_at, slot_at-set_slot}
use linux_iot_gateway.MoveSemantics.{
  Buffer, Program, allocate, delete, contents, empty_buffer, construct, copy_from, copy_construct,
  replace, copy_over, copy_assign, move_from, move_construct, move_over, move_assign, destroy_slot,
  destroy, put,
}
use linux_iot_gateway.MoveSemantics.Counts.{
  held, allocated, Balanced, allocated-allocate, deleted-delete, held-push, held-put, held-allocate,
  held-delete, held-replace,
}

pub data Operation : Type 0 where
  constructs : List ℤ → Operation
  copies moves : ℕ → Operation
  copy_assigns move_assigns : ℕ → ℕ → Operation
  destroys : ℕ → Operation

unfoldable pub apply : Program → Operation → Program
apply p (constructs xs) = construct xs p
apply p (copies j) = copy_construct j p
apply p (moves j) = move_construct j p
apply p (copy_assigns i j) = copy_assign i j p
apply p (move_assigns i j) = move_assign i j p
apply p (destroys i) = destroy i p

abbrev pub run : Program → List Operation → Program
run p [] = p
run p (o ∷ os) = run (apply p o) os

abbrev pub no_objects : Program
no_objects = record { objects = []; arrays = []; deleted = [] }

-- An operation holds an array as much more often as it allocates it.
abbrev Keeps : Program → Program → Type 0
Keeps p p' = (k : ℕ) → held k p' + allocated k p ≡ held k p + allocated k p'

construct-Keeps : (xs : List ℤ) (p : Program) → Keeps p (construct xs p)
unfolding construct
construct-Keeps xs p k =
    let (p', pointer) = allocate xs p in
    omega (
      arith,
      held-push k (record { size = length xs; pointer = pointer }) p',
      held-allocate k xs p,
      (allocated-allocate k xs p).0,
    )

copy_from-Keeps : (s : Slot Buffer) (p : Program) → Keeps p (copy_from s p)
copy_from-Keeps (holds other) p k =
    let (p', pointer) = allocate (contents other p) p in
    omega (
      arith,
      held-push k (record { size = other.size; pointer = pointer }) p',
      held-allocate k (contents other p) p,
      (allocated-allocate k (contents other p) p).0,
    )
copy_from-Keeps destroyed p k = refl

copy_over-Keeps :
    (i : ℕ) (s t : Slot Buffer) (p : Program)
    → slot_at i p.objects ≡ s
    → Keeps p (copy_over i s t p)
copy_over-Keeps i (holds this) (holds other) p e k =
    let (p', pointer) = allocate (contents other p) p in
    let (more, same, _) = allocated-allocate k (contents other p) p in
    omega (
      arith,
      held-replace k i this (record { size = other.size; pointer = pointer }) p'
          (ap (slot_at i) same ∙ e),
      (deleted-delete k this.pointer p').1,
      held-allocate k (contents other p) p,
      more,
    )
copy_over-Keeps i (holds this) destroyed p e k = refl
copy_over-Keeps i destroyed (holds other) p e k = refl
copy_over-Keeps i destroyed destroyed p e k = refl

move_from-Keeps :
    (j : ℕ) (s : Slot Buffer) (p : Program) → slot_at j p.objects ≡ s → Keeps p (move_from j s p)
move_from-Keeps j (holds other) p e k =
    omega (
      arith,
      held-push k other (put j (holds empty_buffer) p),
      held-put k j (holds empty_buffer) p e,
    )
move_from-Keeps j destroyed p e k = refl

move_over-Keeps :
    (i j : ℕ) (s t : Slot Buffer) (p : Program)
    → (i == j) ≡ false
    → slot_at i p.objects ≡ s
    → slot_at j p.objects ≡ t
    → Keeps p (move_over i j s t p)
move_over-Keeps i j (holds this) (holds other) p ne e e' k =
    let (_, allocates, same) = deleted-delete k this.pointer p in
    omega (
      arith,
      held-replace k i this other p e,
      allocates,
      held-put k j (holds empty_buffer) (replace i this.pointer other p) (
          slot_at-set_slot i j (holds other) (delete this.pointer p).objects ne
          ∙ ap (slot_at j) same
          ∙ e'),
    )
move_over-Keeps i j (holds this) destroyed p ne e e' k = refl
move_over-Keeps i j destroyed (holds other) p ne e e' k = refl
move_over-Keeps i j destroyed destroyed p ne e e' k = refl

destroy_slot-Keeps :
    (i : ℕ) (s : Slot Buffer) (p : Program) → slot_at i p.objects ≡ s → Keeps p (destroy_slot i s p)
destroy_slot-Keeps i (holds this) p e k =
    let (_, allocates, same) = deleted-delete k this.pointer p in
    omega (
      arith,
      held-delete k this.pointer p,
      allocates,
      held-put k i destroyed (delete this.pointer p) (ap (slot_at i) same ∙ e),
    )
destroy_slot-Keeps i destroyed p e k = refl

apply-Keeps : (p : Program) (o : Operation) → Keeps p (apply p o)
unfolding apply copy_construct move_construct copy_assign move_assign destroy
apply-Keeps p (constructs xs) k = construct-Keeps xs p k
apply-Keeps p (copies j) k = copy_from-Keeps (slot_at j p.objects) p k
apply-Keeps p (moves j) k = move_from-Keeps j (slot_at j p.objects) p refl k
apply-Keeps p (copy_assigns i j) k = elim (Bool-cases (i == j)) [
  | inl same ↦ rw same refl
  | inr other ↦ rw other (copy_over-Keeps i (slot_at i p.objects) (slot_at j p.objects) p refl k)
]
apply-Keeps p (move_assigns i j) k = elim (Bool-cases (i == j)) [
  | inl same ↦ rw same refl
  | inr other ↦
      rw other (move_over-Keeps i j (slot_at i p.objects) (slot_at j p.objects) p other refl refl k)
]
apply-Keeps p (destroys i) k = destroy_slot-Keeps i (slot_at i p.objects) p refl k

run_from-Balanced : (os : List Operation) (p : Program) → Balanced p → Balanced (run p os)
run_from-Balanced [] p h = h
run_from-Balanced (o ∷ os) p h =
    run_from-Balanced os (apply p o) (λ k. omega (arith, h k, apply-Keeps p o k))

-- After any constructions, copies, moves, assignments, to itself too, and destructions, each array
-- that has been allocated is either owned by one object, and not deleted, or owned by none, and
-- deleted once; no other array is owned or deleted.
pub run-Balanced :
    (os : List Operation) (k : ℕ) → held k (run no_objects os) ≡ allocated k (run no_objects os)
run-Balanced os = run_from-Balanced os no_objects (λ k. ground arith)
