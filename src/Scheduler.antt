-- ===== src/Scheduler.antt =====
-- include/libasyik/asyik_round_robin.hpp: the scheduler of the fibers of a thread. A fiber is a
-- number; what Boost.Fiber does between two calls is a list of calls.
pub mod Fairness
mod Tests
use libasyik.Common.{ℕ, Option, none, some, List, [], ◌∷◌, ◌++◌, Bool, true, false, not, ◌&&◌}

pub record RoundRobin : Type 0 where
  pub rqueue : List ℕ
  pub flag : Bool
  pub stopped : Bool

unfoldable pub round_robin : RoundRobin
round_robin = record { rqueue = []; flag = false; stopped = false }

unfoldable pub awakened : ℕ → RoundRobin → RoundRobin
awakened ctx s = record { rqueue = s.rqueue ++ (ctx ∷ []); flag = s.flag; stopped = s.stopped }

-- `none` is the null pointer.
unfoldable pub pick_next : RoundRobin → Option ℕ × RoundRobin
pick_next s = elim s.rqueue [
  | [] ↦ (none, s)
  | victim ∷ rest ↦ (some victim, record { rqueue = rest; flag = s.flag; stopped = s.stopped })
]

unfoldable pub has_ready_fibers : RoundRobin → Bool
has_ready_fibers s = elim s.rqueue [ [] ↦ false | _ ∷ _ ↦ true ]

unfoldable pub notify : RoundRobin → RoundRobin
notify s = record { rqueue = s.rqueue; flag = true; stopped = s.stopped }

-- The end of the wait: at a flag, or when the time is over; `none` where it goes on.
unfoldable pub suspend_until : (is_over : Bool) → RoundRobin → Option RoundRobin
suspend_until is_over s = elim s.flag [
  | true ↦ some (record { rqueue = s.rqueue; flag = false; stopped = s.stopped })
  | false ↦ elim is_over [
    | true ↦ some (record { rqueue = s.rqueue; flag = false; stopped = s.stopped })
    | false ↦ none
  ]
]

unfoldable pub request_stop : RoundRobin → RoundRobin
request_stop s = notify (record { rqueue = s.rqueue; flag = s.flag; stopped = true })

-- Whether service_terminated_error is thrown; the other fibers are those of the main and the
-- dispatcher context.
unfoldable pub check_interrupt : (is_worker : Bool) → RoundRobin → Bool
check_interrupt is_worker s = s.stopped && is_worker
