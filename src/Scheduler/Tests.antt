-- ===== src/Scheduler/Tests.antt =====
-- Runs of the code of include/libasyik/asyik_round_robin.hpp, and its theorem at a concrete input.
use libasyik.Common.{◌≡◌, refl, List, [], ◌∷◌, ◌++◌, true}
use libasyik.Scheduler.{
  round_robin, awakened, pick_next, notify, request_stop, suspend_until, check_interrupt,
  has_ready_fibers,
}
use libasyik.Scheduler.Fairness.{Call, awakes, picks, serve, picked, served, awoken, picked-awoken}

program : Unit {0}
unfolding round_robin awakened pick_next notify request_stop suspend_until check_interrupt
    has_ready_fibers serve picked served
program = tt

history : List Call
history = awakes 1 ∷ awakes 2 ∷ picks ∷ awakes 1 ∷ picks ∷ []

picked_run : picked history round_robin ≡ 1 ∷ 2 ∷ []
unfolding program history
picked_run = refl

stop_run : check_interrupt true (request_stop round_robin) ≡ true
unfolding program
stop_run = refl

picked-awoken_example :
    picked history round_robin ++ (served history round_robin).rqueue ≡ awoken history
picked-awoken_example = picked-awoken history
