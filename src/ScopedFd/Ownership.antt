-- ===== src/ScopedFd/Ownership.antt =====
-- Sequences of operations on objects, and the descriptors that they own and close.
use linux_iot_gateway.Common.{
  ℕ, ◌+◌, false, List, [], ◌∷◌, ◌++◌, none, ◌≡◌, refl, ◌∙◌, arith, ◌==◌, Bool-cases, inl, inr,
  count, count-append,
}
use linux_iot_gateway.Common.Slots.{
  Slot, holds, destroyed, slot_at, set_slot, owned, count-owned-append, count-owned-set_slot,
  slot_at-set_slot,
}
use linux_iot_gateway.ScopedFd.{
  Fd, Program, closes, construct, move_from, move_construct, assign_from, move_assign, destroy_slot,
  destroy,
}

pub data Operation : Type 0 where
  constructs : Fd → Operation
  moves_from : ℕ → Operation
  assigns : ℕ → ℕ → Operation
  destroys : ℕ → Operation

unfoldable pub apply : Program → Operation → Program
apply p (constructs fd) = construct fd p
apply p (moves_from j) = move_construct j p
apply p (assigns i j) = move_assign i j p
apply p (destroys i) = destroy i p

abbrev pub run : Program → List Operation → Program
run p [] = p
run p (o ∷ os) = run (apply p o) os

abbrev pub no_objects : Program
no_objects = record { objects = []; closed = [] }

-- The descriptors that were handed to an object.
abbrev pub given : List Operation → List ℕ
given [] = []
given (constructs fd ∷ os) = closes fd ++ given os
given (_ ∷ os) = given os

-- How often the descriptor is owned or was closed.
abbrev pub held : ℕ → Program → ℕ
held k p = count k (owned closes p.objects) + count k p.closed

held-move_from :
    (k j : ℕ) (s : Slot Fd) (p : Program)
    → slot_at j p.objects ≡ s
    → held k (move_from j s p) ≡ held k p
held-move_from k j (holds fd) p e = omega (
  arith,
  count-owned-append closes k (set_slot j (holds none) p.objects) (holds fd ∷ []),
  count-owned-set_slot closes k j (holds none) p.objects e,
  count-append k (closes fd) [],
)
held-move_from k j destroyed p e = refl

held-assign_from :
    (k i j : ℕ) (s t : Slot Fd) (p : Program)
    → (i == j) ≡ false
    → slot_at i p.objects ≡ s
    → slot_at j p.objects ≡ t
    → held k (assign_from i j s t p) ≡ held k p
held-assign_from k i j (holds fd) (holds other) p h e e' = omega (
  arith,
  count-owned-set_slot closes k j (holds none) (set_slot i (holds other) p.objects)
      (slot_at-set_slot i j (holds other) p.objects h ∙ e'),
  count-owned-set_slot closes k i (holds other) p.objects e,
  count-append k p.closed (closes fd),
)
held-assign_from k i j (holds fd) destroyed p h e e' = refl
held-assign_from k i j destroyed (holds other) p h e e' = refl
held-assign_from k i j destroyed destroyed p h e e' = refl

held-destroy_slot :
    (k i : ℕ) (s : Slot Fd) (p : Program)
    → slot_at i p.objects ≡ s
    → held k (destroy_slot i s p) ≡ held k p
held-destroy_slot k i (holds fd) p e = omega (
  arith,
  count-owned-set_slot closes k i destroyed p.objects e,
  count-append k p.closed (closes fd),
)
held-destroy_slot k i destroyed p e = refl

held-apply :
    (k : ℕ) (p : Program) (o : Operation) → held k (apply p o) ≡ held k p + count k (given (o ∷ []))
unfolding apply construct move_construct move_assign destroy
held-apply k p (constructs fd) =
    omega
      (arith, count-owned-append closes k p.objects (holds fd ∷ []), count-append k (closes fd) [])
held-apply k p (moves_from j) = omega (arith, held-move_from k j (slot_at j p.objects) p refl)
held-apply k p (assigns i j) = elim (Bool-cases (i == j)) [
  | inl same ↦ rw same (omega arith)
  | inr other ↦ rw other (
      omega (
        arith,
        held-assign_from k i j (slot_at i p.objects) (slot_at j p.objects) p other refl refl,
      ))
]
held-apply k p (destroys i) = omega (arith, held-destroy_slot k i (slot_at i p.objects) p refl)

given-cons :
    (k : ℕ) (o : Operation) (os : List Operation)
    → count k (given (o ∷ os)) ≡ count k (given (o ∷ [])) + count k (given os)
given-cons k (constructs fd) os =
    omega (arith, count-append k (closes fd) (given os), count-append k (closes fd) [])
given-cons k (moves_from j) os = omega arith
given-cons k (assigns i j) os = omega arith
given-cons k (destroys i) os = omega arith

held-run_from :
    (k : ℕ) (p : Program) (os : List Operation) → held k (run p os) ≡ held k p + count k (given os)
held-run_from k p [] = omega arith
held-run_from k p (o ∷ os) =
    omega (arith, held-run_from k (apply p o) os, held-apply k p o, given-cons k o os)

-- After any constructions, moves, assignments, to itself too, and destructions, each descriptor is
-- owned by objects and closed, both together, exactly as often as it was handed to one. So one that
-- was handed over once is not lost, not owned twice, and not closed twice or while it is owned.
pub held-run : (k : ℕ) (os : List Operation) → held k (run no_objects os) ≡ count k (given os)
held-run k os = omega (arith, held-run_from k no_objects os)
