-- ===== src/Examples/ScopedFdRuns.antt =====
-- A descriptor that is moved into another object, over one that it owned.
use linux_iot_gateway.Common.{[], ◌∷◌, some, ◌≡◌, count}
use linux_iot_gateway.ScopedFd.Ownership.{
  constructs, moves_from, assigns, destroys, run, no_objects, given, held, held-run,
}

held-run_example :
    let os =
      constructs (some 3) ∷ constructs (some 4) ∷ assigns 1 0 ∷ moves_from 1 ∷ destroys 2 ∷ [] in
    held 3 (run no_objects os) ≡ count 3 (given os)
held-run_example =
    held-run 3
      (constructs (some 3) ∷ constructs (some 4) ∷ assigns 1 0 ∷ moves_from 1 ∷ destroys 2 ∷ [])
