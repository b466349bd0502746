-- ===== src/Scheduler/Fairness.antt =====
-- Every fiber that is ready is picked in its turn.
use libasyik.Common.{
  ℕ, ◌≡◌, sym, ap, ◌∙◌, Option, none, some, List, [], ◌∷◌, ◌++◌, Bool, true, false, append-nil,
  append_assoc,
}
use libasyik.Scheduler.{RoundRobin, round_robin, awakened, pick_next, notify, request_stop}

-- What Boost.Fiber calls.
pub data Call : Type 0 where
  awakes : ℕ → Call
  picks notifies stops : Call

-- The fiber that a call picks, if it picks, and the scheduler after it.
unfoldable pub serve : Call → RoundRobin → Option ℕ × RoundRobin
serve (awakes ctx) s = (none, awakened ctx s)
serve picks s = pick_next s
serve notifies s = (none, notify s)
serve stops s = (none, request_stop s)

-- The fibers that a history picks, in their order.
unfoldable pub picked : List Call → RoundRobin → List ℕ
picked [] s = []
picked (c ∷ cs) s =
    let rest = picked cs (serve c s).1 in elim (serve c s).0 [ none ↦ rest | some f ↦ f ∷ rest ]

-- The scheduler after a history.
unfoldable pub served : List Call → RoundRobin → RoundRobin
served [] s = s
served (c ∷ cs) s = served cs (serve c s).1

-- The fibers that a history awakes, in their order.
pub awoken : List Call → List ℕ
awoken [] = []
awoken (awakes ctx ∷ cs) = ctx ∷ awoken cs
awoken (picks ∷ cs) = awoken cs
awoken (notifies ∷ cs) = awoken cs
awoken (stops ∷ cs) = awoken cs

abbrev queued : List ℕ → (flag stopped : Bool) → RoundRobin
queued q flag stopped = record { rqueue = q; flag = flag; stopped = stopped }

queue_lem :
    (cs : List Call) (q : List ℕ) (flag stopped : Bool)
    → picked cs (queued q flag stopped) ++ (served cs (queued q flag stopped)).rqueue
      ≡ q ++ awoken cs
unfolding picked served serve awakened pick_next notify request_stop awoken
queue_lem [] q flag stopped = sym (append-nil q)
queue_lem (awakes ctx ∷ cs) q flag stopped =
    queue_lem cs (q ++ (ctx ∷ [])) flag stopped ∙ append_assoc q (ctx ∷ []) (awoken cs)
queue_lem (picks ∷ cs) [] flag stopped = queue_lem cs [] flag stopped
queue_lem (picks ∷ cs) (f ∷ q) flag stopped = ap (◌∷◌ f) (queue_lem cs q flag stopped)
queue_lem (notifies ∷ cs) q flag stopped = queue_lem cs q true stopped
queue_lem (stops ∷ cs) q flag stopped = queue_lem cs q true true

-- In any history of calls of a new scheduler, of which any may notify or stop it, the fibers that
-- were picked, followed by those that wait, are the fibers that were awoken, in their order.
pub picked-awoken :
    (cs : List Call) → picked cs round_robin ++ (served cs round_robin).rqueue ≡ awoken cs
unfolding round_robin
picked-awoken cs = queue_lem cs [] false false
