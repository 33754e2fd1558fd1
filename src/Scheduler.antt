-- ===== src/Scheduler.antt =====
-- src/device_scheduler.cpp: periodic polling tasks. The kernel's answers are arguments: whether the
-- timer of a new task could be made, and for each task whether its timer could be armed in the call.
-- `C` is the type of the callbacks; an empty `std::function` is `none`.
pub mod Timers
pub mod Runs
use edge_link.Timer
use edge_link.Prelude.{
  ℕ, Bool, true, false, not, ◌||◌, Option, none, some, List, [], ◌∷◌, eqb, if◌then◌else◌, is_some,
  inc64, length,
}
use edge_link.Prelude.Dict.{find, put, erase, map_values}
use edge_link.Prelude.Keys.{nat_eq, text_eq}
use edge_link.Timer.{Timer}

pub record Task (C : Type 0) : Type 0 where
  pub interval_ms : ℕ
  pub callback : Option C
  pub timer : Timer C

-- A call of a method, with the kernel's answers in it.
pub data Call (C : Type 0) : Type 0 where
  add : ℕ → Option C → Bool → Bool → Call C
  remove : ℕ → Call C
  starts : (ℕ → Bool) → Call C
  stops : Call C

pub record Scheduler (C : Type 0) : Type 0 where
  pub tasks : List (ℕ × Task C)
  pub next_task_id : ℕ
  pub running : Bool

module _ {C : Type 0} where
  unfoldable pub new : Scheduler C
  new = record { tasks = []; next_task_id = 1; running = false }

  abbrev pub with_timer : Task C → Timer C → Task C
  with_timer task timer = record task { timer = timer }

  unfoldable pub start_task : Task C → Bool → Bool × Task C
  start_task task accepted =
      let (ok, timer) = Timer.start_periodic task.timer accepted task.interval_ms task.callback in
      (ok, with_timer task timer)

  abbrev pub stop_task : Task C → Task C
  stop_task task = with_timer task (Timer.stop task.timer)

  -- `tasks_.emplace`: a task that has the ID already is kept.
  unfoldable pub occupant : List (ℕ × Task C) → ℕ → Task C → Task C
  occupant tasks id task = elim (find id tasks) [ none ↦ task | some old ↦ old ]

  abbrev pub new_task : ℕ → Option C → Task C
  new_task interval_ms callback = record {
    interval_ms = interval_ms;
    callback = callback;
    timer = Timer.new;
  }

  -- Where the timer cannot be armed, the task is erased again; its ID stays used.
  pub launch : List (ℕ × Task C) → ℕ → Bool × Task C → ℕ × List (ℕ × Task C)
  launch tasks id (true, task) = (id, put id task tasks)
  launch tasks id (false, task) = (0, erase id tasks)

  pub insert_task : Bool → List (ℕ × Task C) → ℕ → Task C → Bool → ℕ × List (ℕ × Task C)
  unfolding launch
  insert_task running tasks id task accepted =
      if running then launch tasks id (start_task task accepted) else (id, put id task tasks)

  -- `created`: the timer could be made. `accepted`: its timer could be armed.
  unfoldable pub add_task : Scheduler C → ℕ → Option C → Bool → Bool → ℕ × Scheduler C
  unfolding insert_task
  add_task s interval_ms callback created accepted =
      let id = s.next_task_id in
      let task = occupant s.tasks id (new_task interval_ms callback) in
      let (result, tasks) = insert_task s.running s.tasks id task accepted in
      if eqb interval_ms 0 || not (is_some callback)
      then (0, s)
      else if not created
      then (0, s)
      else (result, record s { tasks = tasks; next_task_id = inc64 id })

  unfoldable pub remove_task : Scheduler C → ℕ → Bool × Scheduler C
  remove_task s id = elim (find id s.tasks) [
    | none ↦ (false, s)
    | some task ↦ (true, record s { tasks = erase id s.tasks })
  ]

  -- The loop of `start`: the tasks before the first refusal are started, and `false` reports one.
  unfoldable pub start_all : (ℕ → Bool) → List (ℕ × Task C) → Bool × List (ℕ × Task C)
  start_all accepted [] = (true, [])
  start_all accepted ((id, task) ∷ rest) =
      let (ok, task') = start_task task (accepted id) in
      let (all_ok, rest') = start_all accepted rest in
      if ok then (all_ok, (id, task') ∷ rest') else (false, (id, task') ∷ rest)

  abbrev pub stop_all : List (ℕ × Task C) → List (ℕ × Task C)
  stop_all = map_values stop_task

  unfoldable pub start : Scheduler C → (ℕ → Bool) → Bool × Scheduler C
  start s accepted =
      if s.running
      then (true, s)
      else let (ok, tasks) = start_all accepted s.tasks in
        if ok
        then (true, record s { tasks = tasks; running = true })
        else (false, record s { tasks = stop_all tasks })

  unfoldable pub stop : Scheduler C → Scheduler C
  stop s = record s { tasks = stop_all s.tasks; running = false }

  pub task_count : Scheduler C → ℕ
  task_count s = length s.tasks

  pub is_running : Scheduler C → Bool
  is_running s = s.running

  unfoldable pub step : Scheduler C → Call C → Scheduler C
  step s (add interval_ms callback created accepted) =
      (add_task s interval_ms callback created accepted).1
  step s (remove id) = (remove_task s id).1
  step s (starts accepted) = (start s accepted).1
  step s stops = stop s

  unfoldable pub run : Scheduler C → List (Call C) → Scheduler C
  run s [] = s
  run s (c ∷ cs) = run (step s c) cs
