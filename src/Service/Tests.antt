-- ===== src/Service/Tests.antt =====
-- Runs of the code of src/service.cpp, and its theorem at a concrete input.
use libasyik.Common.{
  [], ◌∷◌, ◌++◌, ℕ, ◌+◌, Bool, some, if◌then◌else◌, ltb, ◌≡◌, refl, none, true, false, length,
  arith,
}
use libasyik.Service.{
  Service, make_service, execute, start_task, end_task, end_fiber, goes_on, executes, starts, ends,
  Reach, made, step, pool_size,
}
use libasyik.Service.Draining.{
  rounds, wait_for_fibers, wait_by_force, wait, drain, Advances, HasWaited, drain_ends,
}
use libasyik.Service.Workers.{
  Thread, begins, finishes, begin_task, kept, without, finish_task, happens, run_tasks,
  get_current_service, no_task, task_in, run_tasks-IsNested,
}
use libasyik.Service.Counting.{goes_on-Reach}

program : Unit {0}
unfolding make_service execute start_task end_task end_fiber goes_on pool_size rounds
    wait_for_fibers wait_by_force wait drain
program = tt

-- With no known number of threads there is no worker.
no_worker_run : pool_size 0 none ≡ 0
unfolding program
no_worker_run = refl

submitted : Service
unfolding program
submitted = execute 7 make_service

started : Service
unfolding program submitted
started = start_task submitted

done : Service
unfolding program submitted started
done = end_task false started

done-Reach : Reach true done
unfolding program submitted started done
done-Reach =
    step started done
      (step submitted started (step make_service submitted (made) (executes make_service 7))
        (starts submitted refl))
      (ends started false (omega arith))

goes_on-Reach_example :
    (length done.execute_tasks ≡ 0) × (done.running ≡ 0) × (done.active_fiber_count ≡ done.ended)
unfolding program submitted started done
goes_on-Reach_example = goes_on-Reach done done-Reach refl refl (omega arith) refl

-- A clock that moves on in every round, and a fiber that ends at its time.
left : ℕ × ℕ → ℕ
left e = if ltb e.0 e.1 then 1 else 0

later : ℕ × ℕ → ℕ × ℕ
later e = (e.0 + 1, e.1)

later-Advances : Advances {E = ℕ × ℕ} (λ e. e.0) later 1
unfolding program later Advances
later-Advances e = omega arith

-- A fiber that lives longer than the waiting is left behind.
drain_run :
    drain {E = ℕ × ℕ} left (λ e. e.0) later (λ e. e) (λ e. e) 502 (0, 5000) ≡ some (1222, 5000)
unfolding program left later
drain_run = refl

drain_ends_example :
    let wait_at = wait {E = ℕ × ℕ} left (λ e. e.0) later (λ e. e) (λ e. e) 502 (200, 300) in
    (r : (ℕ × ℕ) × Bool) × (wait_at ≡ some r)
    × (drain {E = ℕ × ℕ} left (λ e. e.0) later (λ e. e) (λ e. e) 502 (0, 300)
        ≡ some (rounds later 20 r.0))
    × HasWaited left (λ e. e.0) later (λ e. e) (λ e. e) (200, 300) r
unfolding program left later
drain_ends_example =
    drain_ends left (λ e. e.0) later (λ e. e) (λ e. e) 1 502 (0, 300) later-Advances
      (λ e. omega arith) (omega arith)

idle_thread : Thread
idle_thread = record { active_service = none; prev_as = [] }

-- Two tasks that take turns: the first then sees the service of the second, and the thread keeps
-- the service of the first when both have ended.
turns_run :
    ((run_tasks (begins 1 10 ∷ begins 2 20 ∷ []) idle_thread).active_service ≡ some 20)
    × (get_current_service
          (λ s. true)
          (run_tasks (begins 1 10 ∷ begins 2 20 ∷ finishes 1 ∷ finishes 2 ∷ []) idle_thread)
        ≡ some 10)
unfolding idle_thread begin_task kept without finish_task happens run_tasks get_current_service
turns_run = (refl, refl)

run_tasks-IsNested_example :
    ((run_tasks (begins 1 10 ∷ begins 2 20 ∷ finishes 2 ∷ []) idle_thread).active_service ≡ some 10)
    × (run_tasks (begins 1 10 ∷ ((begins 2 20 ∷ finishes 2 ∷ []) ++ (finishes 1 ∷ []))) idle_thread
        ≡ idle_thread)
run_tasks-IsNested_example =
    run_tasks-IsNested 1 10 (begins 2 20 ∷ finishes 2 ∷ []) idle_thread
      (task_in 2 20 [] [] no_task no_task)
