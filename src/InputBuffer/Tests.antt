-- ===== src/InputBuffer/Tests.antt =====
-- The input buffer at concrete calls.
use p4simulator.Base.{ℕ, ◌≡◌, refl, none, some, List, [], ◌∷◌}
use p4simulator.InputBuffer.{
  normal, resubmit, recirculate, pushed, dropped, blocked, init, push_front, pop_back, back,
}
use p4simulator.InputBuffer.Runs.{Op, puts, takes, answered, gave, run, run_lanes, run_refines}

abbrev script : List (Op ℕ)
script =
    puts normal 1
    ∷ puts normal 2
    ∷ puts resubmit 3
    ∷ puts recirculate 4
    ∷ takes
    ∷ takes
    ∷ takes
    ∷ takes
    ∷ puts normal 5
    ∷ puts normal 6
    ∷ puts normal 7
    ∷ takes
    ∷ []

run-script :
    run (init 1 2) script
    ≡ answered pushed
      ∷ answered pushed
      ∷ answered pushed
      ∷ answered dropped
      ∷ gave (some 3)
      ∷ gave (some 1)
      ∷ gave (some 2)
      ∷ gave none
      ∷ answered pushed
      ∷ answered pushed
      ∷ answered blocked
      ∷ []
unfolding run init push_front pop_back back
run-script = refl

run_refines_example :
    run (init 1 2) script
    ≡ run_lanes (record { room_hi = 1; room_lo = 2; in_hi = []; in_lo = [] }) script
run_refines_example = run_refines 1 2 script
