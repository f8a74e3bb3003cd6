-- ===== src/MoveSemantics.antt =====
-- cpp_modules/move_semantics_demo/main.cpp: `Buffer`, an object that owns an array on the heap. What
-- it prints is left out.
pub mod Counts
pub mod Ownership
use linux_iot_gateway.Common.{
  ℕ, zero, suc, Bool, List, [], ◌∷◌, ◌++◌, Option, none, some, ◌==◌, if◌then◌else◌, length, take,
  set, get_or,
}
use linux_iot_gateway.Common.Int.{ℤ}
use linux_iot_gateway.Common.Slots.{Slot, holds, destroyed, slot_at, set_slot}

-- `size_` and `data_`; a null pointer is `none`, and an array is known by its number.
pub record Buffer : Type 0 where
  pub size : ℕ
  pub pointer : Option ℕ

-- The arrays in the order of their allocation, `none` once deleted, and the calls of `delete[]` with
-- a pointer that is not null. An allocation does not fail.
pub record Program : Type 0 where
  pub objects : List (Slot Buffer)
  pub arrays : List (Option (List ℤ))
  pub deleted : List ℕ

-- `size > 0 ? new int[size] : nullptr`, with what the array then holds.
unfoldable pub allocate : List ℤ → Program → Program × Option ℕ
allocate [] p = (p, none)
allocate (x ∷ xs) p = (record p { arrays = p.arrays ++ some (x ∷ xs) ∷ [] }, some (length p.arrays))

unfoldable pub delete : Option ℕ → Program → Program
delete none p = p
delete (some a) p = record p { arrays = set p.arrays a none; deleted = p.deleted ++ a ∷ [] }

-- What an array holds; one that is deleted is never read.
abbrev array_at : Option ℕ → Program → List ℤ
array_at none p = []
array_at (some a) p = elim (get_or p.arrays a none) [ none ↦ [] | some xs ↦ xs ]

-- `std::copy` of the array of another object.
abbrev pub contents : Buffer → Program → List ℤ
contents b p = take b.size (array_at b.pointer p)

abbrev pub push : Buffer → Program → Program
push b p = record p { objects = p.objects ++ holds b ∷ [] }

abbrev pub put : ℕ → Slot Buffer → Program → Program
put i s p = record p { objects = set_slot i s p.objects }

abbrev pub empty_buffer : Buffer
empty_buffer = record { size = 0; pointer = none }

-- The array holds any numbers.
unfoldable pub construct : List ℤ → Program → Program
unfolding allocate
construct xs p =
    let (p', pointer) = allocate xs p in push (record { size = length xs; pointer = pointer }) p'

-- No operation is called on a destroyed object; these clauses are never run.
abbrev pub copy_from : Slot Buffer → Program → Program
copy_from (holds other) p =
    let (p', pointer) = allocate (contents other p) p in
    push (record { size = other.size; pointer = pointer }) p'
copy_from destroyed p = p

unfoldable pub copy_construct : ℕ → Program → Program
unfolding allocate
copy_construct j p = copy_from (slot_at j p.objects) p

-- Behind the allocation of `copy_assign`.
abbrev pub replace : ℕ → Option ℕ → Buffer → Program → Program
replace i old b p = put i (holds b) (delete old p)

abbrev pub copy_over : ℕ → Slot Buffer → Slot Buffer → Program → Program
copy_over i (holds this) (holds other) p =
    let (p', pointer) = allocate (contents other p) p in
    replace i this.pointer (record { size = other.size; pointer = pointer }) p'
copy_over i _ _ p = p

unfoldable pub copy_assign : ℕ → ℕ → Program → Program
unfolding allocate delete
copy_assign i j p = if i == j then p else copy_over i (slot_at i p.objects) (slot_at j p.objects) p

abbrev pub move_from : ℕ → Slot Buffer → Program → Program
move_from j (holds other) p = push other (put j (holds empty_buffer) p)
move_from j destroyed p = p

unfoldable pub move_construct : ℕ → Program → Program
move_construct j p = move_from j (slot_at j p.objects) p

abbrev pub move_over : ℕ → ℕ → Slot Buffer → Slot Buffer → Program → Program
move_over i j (holds this) (holds other) p =
    put j (holds empty_buffer) (replace i this.pointer other p)
move_over i j _ _ p = p

unfoldable pub move_assign : ℕ → ℕ → Program → Program
unfolding delete
move_assign i j p =
    if i == j then p else move_over i j (slot_at i p.objects) (slot_at j p.objects) p

abbrev pub destroy_slot : ℕ → Slot Buffer → Program → Program
destroy_slot i (holds this) p = put i destroyed (delete this.pointer p)
destroy_slot i destroyed p = p

unfoldable pub destroy : ℕ → Program → Program
unfolding delete
destroy i p = destroy_slot i (slot_at i p.objects) p
