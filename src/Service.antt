-- ===== src/Service.antt =====
-- src/service.cpp and include/libasyik/service.hpp: the tasks of a service and of its workers, as
-- counters and queues. The channels, the fibers and the promises are those of Boost.Fiber: a task
-- is a number, and each `Step` is what happens between two points at which a fiber may yield.
pub mod Counting
pub mod Draining
pub mod Workers
mod Tests
use libasyik.Common.{
  ℕ, suc, ◌+◌, ◌-◌, ◌%◌, ◌*◌, ◌≡◌, ◌≤◌, Option, none, some, List, [], ◌∷◌, ◌++◌, Bool, true, false,
  not, ◌&&◌, ◌||◌, if◌then◌else◌, ltb, ◌==◌,
}

abbrev pub u32_mod : ℕ
u32_mod = 4294967296

-- A service: the tasks in its channel, and how many were started and have not returned. A task whose fiber is still to be reclaimed counts in `ended`, with the counter of tasks
-- gone down and that of fibers not yet.
pub record Service : Type 0 where
  pub stopped : Bool
  pub closed : Bool
  pub execute_tasks : List ℕ
  pub running : ℕ
  pub ended : ℕ
  pub execute_task_count : ℕ
  pub active_fiber_count : ℕ

unfoldable pub make_service : Service
make_service = record {
  stopped = false;
  closed = false;
  execute_tasks = [];
  running = 0;
  ended = 0;
  execute_task_count = 0;
  active_fiber_count = 0;
}

-- `execute`: a closed channel does not take the task.
unfoldable pub execute : (task : ℕ) → Service → Service
execute task s = record s {
  execute_tasks = if s.closed then s.execute_tasks else s.execute_tasks ++ (task ∷ []);
  execute_task_count = (s.execute_task_count + 1) % u32_mod;
}

-- The fiber that starts a fiber for each task.
unfoldable pub start_task : Service → Service
start_task s = elim s.execute_tasks [
  | [] ↦ s
  | task ∷ rest ↦ record s {
    execute_tasks = rest;
    running = s.running + 1;
    active_fiber_count = s.active_fiber_count + 1;
  }
]

-- The end of a task, which may be that of `stop`, with its exception put into its promise.
unfoldable pub end_task : (is_stop : Bool) → Service → Service
end_task is_stop s = record s {
  stopped = s.stopped || is_stop;
  running = s.running - 1;
  ended = s.ended + 1;
  execute_task_count = (s.execute_task_count + (u32_mod - 1)) % u32_mod;
}

-- The guard of the fiber.
unfoldable pub end_fiber : Service → Service
end_fiber s = record s { ended = s.ended - 1; active_fiber_count = s.active_fiber_count - 1 }

-- The test of the loop of `run`, and what follows the loop.
unfoldable pub goes_on : (stop_on_complete : Bool) → Service → Bool
goes_on stop_on_complete s = not s.stopped && (not stop_on_complete || ltb 0 s.execute_task_count)

unfoldable pub close_tasks : Service → Service
close_tasks s = record s { closed = true }

pub data Step (stop_on_complete : Bool) : Service → Service → Type 0 where
  executes : (s : Service) (task : ℕ) → Step stop_on_complete s (execute task s)
  starts : (s : Service) → s.stopped ≡ false → Step stop_on_complete s (start_task s)
  ends :
      (s : Service) (is_stop : Bool) → 1 ≤ s.running → Step stop_on_complete s (end_task is_stop s)
  reclaims : (s : Service) → 1 ≤ s.ended → Step stop_on_complete s (end_fiber s)
  leaves :
      (s : Service) → goes_on stop_on_complete s ≡ false → Step stop_on_complete s (close_tasks s)

pub data Reach (stop_on_complete : Bool) : Service → Type 0 where
  made : Reach stop_on_complete make_service
  step :
      (s t : Service)
      → Reach stop_on_complete s
      → Step stop_on_complete s t
      → Reach stop_on_complete t

-- `init_workers`: the number of threads, from the value that atoi reads, `none` where the
-- variable is not set or reads as a negative number.
unfoldable pub pool_size : (hardware_concurrency : ℕ) → (multiplier : Option ℕ) → ℕ
pool_size hardware_concurrency none = hardware_concurrency * 5
pool_size hardware_concurrency (some m) = hardware_concurrency * (if m == 0 then 5 else m)

-- `get_async_stats`, with what the counters count: the tasks that wait and those that run.
pub record AsyncStats : Type 0 where
  pub task_started : ℕ
  pub task_terminated : ℕ
  pub task_error : ℕ
  pub queue_size : ℕ

unfoldable pub async : AsyncStats → AsyncStats
async s = record s { queue_size = (s.queue_size + 1) % u32_mod }

unfoldable pub worker_pops : AsyncStats → AsyncStats
worker_pops s = record s {
  queue_size = (s.queue_size + (u32_mod - 1)) % u32_mod;
  task_started = (s.task_started + 1) % u32_mod;
}

unfoldable pub worker_ends : (throws : Bool) → AsyncStats → AsyncStats
worker_ends throws s = record s {
  task_terminated = (s.task_terminated + 1) % u32_mod;
  task_error = if throws then (s.task_error + 1) % u32_mod else s.task_error;
}

-- The context of TLS for a call: its own, that of its service, or the default.
unfoldable pub get_tls_client_context : {A : Type 0} (default_client_context : A) → Option A → A
get_tls_client_context default_client_context none = default_client_context
get_tls_client_context default_client_context (some ctx) = ctx

pub set_tls_client_context : {A : Type 0} (ctx : Option A) → Option A → Option A
set_tls_client_context ctx _ = ctx

unfoldable pub context_for :
    {A : Type 0} (default_client_context : A) (own : Option A) (service : Option A) → A
context_for default_client_context none service =
    get_tls_client_context default_client_context service
context_for default_client_context (some ctx) service = ctx
