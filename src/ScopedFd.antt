-- ===== src/ScopedFd.antt =====
-- practice/day02/scoped_fd.cpp: `ScopedFd`, an object that owns a file descriptor.
pub mod Ownership
use linux_iot_gateway.Common.{
  ℕ, zero, suc, List, [], ◌∷◌, ◌++◌, Option, none, some, ◌==◌, if◌then◌else◌,
}
use linux_iot_gateway.Common.Slots.{Slot, holds, destroyed, slot_at, set_slot}

-- `fd_`; a negative one, as behind a move, is `none`.
abbrev pub Fd : Type 0
Fd = Option ℕ

-- The objects in the order of their construction, and the calls of `close`.
pub record Program : Type 0 where
  pub objects : List (Slot Fd)
  pub closed : List ℕ

-- `if (fd_ >= 0) close(fd_)`.
abbrev pub closes : Fd → List ℕ
closes none = []
closes (some fd) = fd ∷ []

unfoldable pub construct : Fd → Program → Program
construct fd p = record p { objects = p.objects ++ holds fd ∷ [] }

-- No operation is called on a destroyed object; the last clauses are never run.
abbrev pub move_from : ℕ → Slot Fd → Program → Program
move_from j (holds fd) p = record p { objects = set_slot j (holds none) p.objects ++ holds fd ∷ [] }
move_from j destroyed p = p

unfoldable pub move_construct : ℕ → Program → Program
move_construct j p = move_from j (slot_at j p.objects) p

abbrev pub assign_from : ℕ → ℕ → Slot Fd → Slot Fd → Program → Program
assign_from i j (holds fd) (holds other) p = record {
  objects = set_slot j (holds none) (set_slot i (holds other) p.objects);
  closed = p.closed ++ closes fd;
}
assign_from i j _ _ p = p

unfoldable pub move_assign : ℕ → ℕ → Program → Program
move_assign i j p =
    if i == j then p else assign_from i j (slot_at i p.objects) (slot_at j p.objects) p

abbrev pub destroy_slot : ℕ → Slot Fd → Program → Program
destroy_slot i (holds fd) p = record {
  objects = set_slot i destroyed p.objects;
  closed = p.closed ++ closes fd;
}
destroy_slot i destroyed p = p

unfoldable pub destroy : ℕ → Program → Program
destroy i p = destroy_slot i (slot_at i p.objects) p
