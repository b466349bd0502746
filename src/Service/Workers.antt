-- ===== src/Service/Workers.antt =====
-- The active service of a thread of workers, `service::async` of include/libasyik/service.hpp: each
-- task sets the variable of its thread to its own service and puts the old value back at its end.
-- The tasks of a thread are fibers, so that others may run between the two.
use libasyik.Common.{
  ℕ, ◌≡◌, refl, ap, ◌∙◌, Option, none, some, List, [], ◌∷◌, ◌++◌, Bool, if◌then◌else◌, ◌==◌,
  ==_refl,
}

-- A thread: `active_service`, and the `prev_as` of the tasks that have begun.
pub record Thread : Type 0 where
  pub active_service : Option ℕ
  pub prev_as : List (ℕ × Option ℕ)

pub data TaskEvent : Type 0 where
  begins : (task service : ℕ) → TaskEvent
  finishes : (task : ℕ) → TaskEvent

unfoldable pub begin_task : (task service : ℕ) → Thread → Thread
begin_task task service t = record {
  active_service = some service;
  prev_as = (task, t.active_service) ∷ t.prev_as;
}

-- The value that a task has kept, and the others.
unfoldable pub kept : (task : ℕ) → List (ℕ × Option ℕ) → Option ℕ
kept task [] = none
kept task ((k, prev) ∷ rest) = if k == task then prev else kept task rest

unfoldable pub without : (task : ℕ) → List (ℕ × Option ℕ) → List (ℕ × Option ℕ)
without task [] = []
without task ((k, prev) ∷ rest) = if k == task then rest else (k, prev) ∷ without task rest

unfoldable pub finish_task : (task : ℕ) → Thread → Thread
finish_task task t = record {
  active_service = kept task t.prev_as;
  prev_as = without task t.prev_as;
}

unfoldable pub happens : TaskEvent → Thread → Thread
happens (begins task service) t = begin_task task service t
happens (finishes task) t = finish_task task t

unfoldable pub run_tasks : List TaskEvent → Thread → Thread
run_tasks [] t = t
run_tasks (e ∷ es) t = run_tasks es (happens e t)

-- A service that is gone is not found.
unfoldable pub get_current_service : (lives : ℕ → Bool) → Thread → Option ℕ
get_current_service lives t = elim t.active_service [
  | none ↦ none
  | some s ↦ if lives s then some s else none
]

-- Tasks of which each ends before what it interrupted goes on.
pub data IsNested : List TaskEvent → Type 0 where
  no_task : IsNested []
  task_in :
      (task service : ℕ) (inner rest : List TaskEvent)
      → IsNested inner
      → IsNested rest
      → IsNested (begins task service ∷ (inner ++ (finishes task ∷ rest)))

run_tasks-append :
    (es fs : List TaskEvent) (t : Thread) → run_tasks (es ++ fs) t ≡ run_tasks fs (run_tasks es t)
unfolding run_tasks
run_tasks-append [] fs t = refl
run_tasks-append (e ∷ es) fs t = run_tasks-append es fs (happens e t)

finish-begin : (task service : ℕ) (t : Thread) → finish_task task (begin_task task service t) ≡ t
unfolding finish_task begin_task kept without
finish-begin task service t = rw (==_refl task) refl

IsNested-same : (es : List TaskEvent) → IsNested es → (t : Thread) → run_tasks es t ≡ t
unfolding run_tasks happens
IsNested-same es (no_task) t = refl
IsNested-same es (task_in task service inner rest n m) t =
    run_tasks-append inner (finishes task ∷ rest) (begin_task task service t)
    ∙ ap (λ x. run_tasks rest (finish_task task x))
        (IsNested-same inner n (begin_task task service t))
    ∙ ap (run_tasks rest) (finish-begin task service t)
    ∙ IsNested-same rest m t

-- After a task has begun, and tasks have run of which each ended before what it interrupted went
-- on, the active service is that of the task; at its end the thread is as it was before.
pub run_tasks-IsNested :
    (task service : ℕ) (inner : List TaskEvent) (t : Thread)
    → IsNested inner
    → ((run_tasks (begins task service ∷ inner) t).active_service ≡ some service)
      × (run_tasks (begins task service ∷ (inner ++ (finishes task ∷ []))) t ≡ t)
unfolding run_tasks happens begin_task
run_tasks-IsNested task service inner t n = (
  ap (λ (x : Thread). x.active_service) (IsNested-same inner n (begin_task task service t)),
  IsNested-same (begins task service ∷ (inner ++ (finishes task ∷ [])))
      (task_in task service inner [] n no_task) t,
)
