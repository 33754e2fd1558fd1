-- ===== src/Scheduler/Runs.antt =====
-- Sequences of calls on src/device_scheduler.cpp, and what starting and stopping leave alone.
use edge_link.Timer
use edge_link.Prelude.{
  ℕ, ◌+◌, ◌≤◌, ◌<◌, ◌≡◌, refl, ap, Bool, true, false, ◌&&◌, Option, List, [], ◌∷◌, map, arith,
  u64_mod, length,
}
use edge_link.Prelude.Keys.{nat_eq, text_eq}
use edge_link.Scheduler.{
  new, stop, Call, step, run, Task, Scheduler, start_task, add_task, remove_task, start_all,
  stop_all, start,
}
use edge_link.Scheduler.Timers.{IsValid, step-IsValid}
use edge_link.Timer.{Timer}

module _ {C : Type 0} where
  step_next :
      (s : Scheduler C) (c : Call C)
      → s.next_task_id + 1 < u64_mod
      → (step s c).next_task_id ≤ s.next_task_id + 1
  unfolding step add_task remove_task start stop
  step_next s c room = ground arith

  run_keeps :
      (s : Scheduler C) (cs : List (Call C))
      → s.next_task_id + length cs < u64_mod
      → IsValid s
      → IsValid (run s cs)
  unfolding run
  run_keeps s [] room v = v
  run_keeps s (c ∷ cs) room v =
      let h : s.next_task_id + 1 < u64_mod = omega arith in
      let n = step_next s c h in run_keeps (step s c) cs (omega arith) (step-IsValid s c h v)

  new-IsValid : IsValid (new {C = C})
  unfolding new
  new-IsValid = record { tasks_ok = tt; unique = tt; next_positive = omega arith }

  -- After any calls on a new scheduler, fewer than 2^64 - 1 of them and whatever the kernel answers:
  -- the tasks have distinct non-zero IDs below the counter, positive intervals and callbacks; while
  -- the scheduler runs, each timer repeats at its task's interval and calls its task's callback, and
  -- while it does not, no timer is armed.
  pub scheduler_run-IsValid : (cs : List (Call C)) → length cs + 1 < u64_mod → IsValid (run new cs)
  scheduler_run-IsValid cs room = run_keeps new cs (unfold new in omega arith) new-IsValid

  -- The tasks without their timers.
  abbrev pub outline : List (ℕ × Task C) → List (ℕ × ℕ × Option C)
  outline = map (λ e. (e.0, e.1.interval_ms, e.1.callback))

  -- Whether the kernel takes the settings of all tasks.
  abbrev pub all_accepted : (ℕ → Bool) → List (ℕ × Task C) → Bool
  all_accepted accepted [] = true
  all_accepted accepted (e ∷ es) = accepted e.0 && all_accepted accepted es

  outline-stop_all : (ts : List (ℕ × Task C)) → outline (stop_all ts) ≡ outline ts
  outline-stop_all [] = refl
  outline-stop_all (e ∷ ts) = ap (◌∷◌ (e.0, e.1.interval_ms, e.1.callback)) (outline-stop_all ts)

  start_all_lem :
      (accepted : ℕ → Bool) (ts : List (ℕ × Task C))
      → let (ok, ts') = start_all accepted ts in
        (ok ≡ all_accepted accepted ts) × (outline ts' ≡ outline ts)
  unfolding start_all start_task Timer.start_periodic
  start_all_lem accepted [] = (refl, refl)
  start_all_lem accepted ((id, task) ∷ ts) = ground (arith, start_all_lem accepted ts)

  -- On a stopped scheduler `start` succeeds exactly if the kernel arms the timers of all tasks, and
  -- the scheduler then runs. Whether it succeeds or not, and when it stops, no task is lost, added
  -- or changed. On a running scheduler it succeeds and does nothing.
  pub start_lem :
      (s : Scheduler C) (accepted : ℕ → Bool)
      → let (ok, s') = start s accepted in
        (s.running ≡ false → (ok ≡ all_accepted accepted s.tasks) × (s'.running ≡ ok))
        × (s.running ≡ true → (ok ≡ true) × (s' ≡ s))
        × (outline s'.tasks ≡ outline s.tasks)
        × (outline (stop s').tasks ≡ outline s.tasks)
        × (s'.next_task_id ≡ s.next_task_id)
  unfolding start stop
  start_lem s accepted =
      let (ok, kept) = start_all_lem accepted s.tasks in
      let started = outline-stop_all (start_all accepted s.tasks).1 in
      let stopped = outline-stop_all s.tasks in
      let again = outline-stop_all (stop_all (start_all accepted s.tasks).1) in ground arith
