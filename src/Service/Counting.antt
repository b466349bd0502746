-- ===== src/Service/Counting.antt =====
-- What the counters of a service in src/service.cpp count.
use libasyik.Common.{
  ℕ, ◌+◌, ◌%◌, ◌≡◌, ◌≤◌, ◌<◌, refl, sym, ◌∙◌, ◌⊎◌, inl, inr, List, [], ◌∷◌, ◌++◌, Bool, true, false,
  if◌then◌else◌, length, length-append, arith, Bool-cases,
}
use libasyik.Service.{
  u32_mod, Service, make_service, execute, start_task, end_task, end_fiber, goes_on, close_tasks,
  Step, executes, starts, ends, reclaims, leaves, Reach, made, step,
}

-- The counters are those of the tasks and of the fibers; the first until the channel is closed.
pub record IsCounted (s : Service) : Type 0 where
  pub tasks_count :
      (s.closed ≡ true) ⊎ (s.execute_task_count ≡ (length s.execute_tasks + s.running) % u32_mod)
  pub fibers_count : s.active_fiber_count ≡ s.running + s.ended

pushed_length :
    (closed : Bool) (xs : List ℕ) (t : ℕ)
    → closed ≡ false
    → length (if closed then xs else xs ++ (t ∷ [])) ≡ length xs + 1
pushed_length true xs t e = absurd (cc e)
pushed_length false xs t e = omega (arith, length-append xs (t ∷ []))

execute-IsCounted : (task : ℕ) (s : Service) → IsCounted s → IsCounted (execute task s)
unfolding execute
execute-IsCounted task s c = record {
  tasks_count = elim (Bool-cases s.closed) [
    | inl e ↦ inl e
    | inr e ↦ elim c.tasks_count [
      | inl f ↦ inl f
      | inr f ↦ inr (omega (arith, f, pushed_length s.closed s.execute_tasks task e))
    ]
  ];
  fibers_count = c.fibers_count;
}

start_task-IsCounted : (s : Service) → IsCounted s → IsCounted (start_task s)
unfolding start_task
start_task-IsCounted s c =
    from s.stopped s.closed s.execute_tasks s.running s.ended s.execute_task_count
      s.active_fiber_count c
  where
    from :
        (st cl : Bool) (q : List ℕ) (r e n a : ℕ)
        → IsCounted (record {
          stopped = st;
          closed = cl;
          execute_tasks = q;
          running = r;
          ended = e;
          execute_task_count = n;
          active_fiber_count = a;
        })
        → IsCounted (
            start_task (record {
              stopped = st;
              closed = cl;
              execute_tasks = q;
              running = r;
              ended = e;
              execute_task_count = n;
              active_fiber_count = a;
            }))
    from st cl [] r e n a k = k
    from st cl (t ∷ q) r e n a k = record {
      tasks_count = elim k.tasks_count [ inl x ↦ inl x | inr x ↦ inr (omega (arith, x)) ];
      fibers_count = omega (arith, k.fibers_count);
    }

end_task-IsCounted :
    (is_stop : Bool) (s : Service) → 1 ≤ s.running → IsCounted s → IsCounted (end_task is_stop s)
unfolding end_task
end_task-IsCounted is_stop s h c = record {
  tasks_count = elim c.tasks_count [ inl e ↦ inl e | inr e ↦ inr (omega (arith, e, h)) ];
  fibers_count = omega (arith, c.fibers_count, h);
}

end_fiber-IsCounted : (s : Service) → 1 ≤ s.ended → IsCounted s → IsCounted (end_fiber s)
unfolding end_fiber
end_fiber-IsCounted s h c = record {
  tasks_count = c.tasks_count;
  fibers_count = omega (arith, c.fibers_count, h);
}

close_tasks-IsCounted : (s : Service) → IsCounted s → IsCounted (close_tasks s)
unfolding close_tasks
close_tasks-IsCounted s c = record { tasks_count = inl refl; fibers_count = c.fibers_count }

Step-IsCounted : (complete : Bool) (s t : Service) → Step complete s t → IsCounted s → IsCounted t
Step-IsCounted complete s t (executes _ task) c = execute-IsCounted task s c
Step-IsCounted complete s t (starts _ h) c = start_task-IsCounted s c
Step-IsCounted complete s t (ends _ is_stop h) c = end_task-IsCounted is_stop s h c
Step-IsCounted complete s t (reclaims _ h) c = end_fiber-IsCounted s h c
Step-IsCounted complete s t (leaves _ h) c = close_tasks-IsCounted s c

Reach-IsCounted : (complete : Bool) (s : Service) → Reach complete s → IsCounted s
unfolding make_service
Reach-IsCounted complete s (made) = record {
  tasks_count = inr (omega arith);
  fibers_count = omega arith;
}
Reach-IsCounted complete s (step r t p h) =
    Step-IsCounted complete r s h (Reach-IsCounted complete r p)

-- In a service that runs until it is complete, in every state that its steps reach, before the
-- channel is closed or the service stopped and with fewer than 2^32 tasks, the loop is left only
-- when no task waits or runs, and the fibers still counted are those whose tasks have ended.
pub goes_on-Reach :
    (s : Service)
    → Reach true s
    → s.closed ≡ false
    → s.stopped ≡ false
    → length s.execute_tasks + s.running < u32_mod
    → goes_on true s ≡ false
    → (length s.execute_tasks ≡ 0) × (s.running ≡ 0) × (s.active_fiber_count ≡ s.ended)
unfolding goes_on
goes_on-Reach s r unclosed going few left =
    let c = Reach-IsCounted true s r in
    let none_left : s.execute_task_count ≡ 0 = ground (arith, left, going) in
    elim c.tasks_count [
      | inl e ↦ absurd (cc (sym e ∙ unclosed))
      | inr e ↦ (
        omega (arith, e, none_left, few),
        omega (arith, e, none_left, few),
        omega (arith, e, none_left, few, c.fibers_count),
      )
    ]
