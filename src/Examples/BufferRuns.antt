-- ===== src/Examples/BufferRuns.antt =====
-- Two buffers that are copied, moved and assigned, one to itself, as far as the second's destruction.
use linux_iot_gateway.Common.{List, [], ◌∷◌, ◌≡◌, refl}
use linux_iot_gateway.Common.Int.{pos}
use linux_iot_gateway.MoveSemantics
use linux_iot_gateway.MoveSemantics.Counts.{held, allocated}
use linux_iot_gateway.MoveSemantics.Ownership.{
  Operation, constructs, copies, moves, copy_assigns, move_assigns, destroys, run, no_objects,
  run-Balanced, apply,
}

abbrev operations : List Operation
operations =
    constructs (pos 1 ∷ pos 2 ∷ [])
    ∷ copies 0
    ∷ moves 0
    ∷ constructs (pos 3 ∷ [])
    ∷ move_assigns 3 1
    ∷ copy_assigns 3 3
    ∷ copy_assigns 2 3
    ∷ destroys 1
    ∷ []

run-Balanced_example : held 2 (run no_objects operations) ≡ allocated 2 (run no_objects operations)
run-Balanced_example = run-Balanced operations 2

deletes : (run no_objects operations).deleted ≡ 2 ∷ 0 ∷ []
unfolding apply MoveSemantics.destroy MoveSemantics.copy_assign MoveSemantics.move_assign
    MoveSemantics.construct MoveSemantics.move_construct MoveSemantics.copy_construct
deletes = refl
