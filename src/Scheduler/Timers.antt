-- ===== src/Scheduler/Timers.antt =====
-- The timers of src/device_scheduler.cpp: armed exactly while the scheduler runs.
use edge_link.Timer
use edge_link.Prelude.{
  subst, ℕ, ◌+◌, ◌≤◌, ◌<◌, ◌≡◌, refl, inl, inr, Bool, true, false, not, ◌||◌, Option, none, List,
  [], ◌∷◌, arith, eqb, Bool-cases, Option-cases, is_some, u64_mod, inc64, All,
}
use edge_link.Prelude.Dict.{
  find, IsUnique, put-IsUnique, erase-IsUnique, All-put, All-erase, map_values-IsUnique,
}
use edge_link.Prelude.Keys.{nat_eq, text_eq}
use edge_link.Scheduler.{
  stop, Call, step, add, remove, Task, starts, stops, Scheduler, start_task, stop_task, occupant,
  new_task, launch, insert_task, add_task, remove_task, start_all, stop_all, start,
}
use edge_link.Timer.{disarmed, Timer, periodic_spec}

module _ {C : Type 0} where
  -- While the scheduler runs the timer repeats at the task's interval and calls its callback;
  -- otherwise it is disarmed.
  abbrev pub TimerOk : Bool → Task C → Type 0
  TimerOk true task =
      (task.timer.spec ≡ periodic_spec task.interval_ms) × (task.timer.callback ≡ task.callback)
  TimerOk false task = task.timer.spec ≡ disarmed

  -- The ID has been given out, and the task is one that `addTask` accepts.
  abbrev pub TaskOk : ℕ → Bool → ℕ × Task C → Type 0
  TaskOk next running (id, task) =
      (0 < id)
      × (id < next)
      × (0 < task.interval_ms)
      × (is_some task.callback ≡ true)
      × TimerOk running task

  pub record IsValid (s : Scheduler C) : Type 0 where
    pub tasks_ok : All (TaskOk s.next_task_id s.running) s.tasks
    pub unique : IsUnique s.tasks
    pub next_positive : 0 < s.next_task_id

  TaskOk-weaken :
      (running : Bool) (n n' : ℕ) (ts : List (ℕ × Task C))
      → n ≤ n'
      → All (TaskOk n running) ts
      → All (TaskOk n' running) ts
  TaskOk-weaken running n n' [] h a = tt
  TaskOk-weaken running n n' ((id, task) ∷ ts) h (t, a) =
      ((t.0, omega arith, t.2, t.3, t.4), TaskOk-weaken running n n' ts h a)

  stop_all_ok :
      (n : ℕ) (running : Bool) (ts : List (ℕ × Task C))
      → All (TaskOk n running) ts
      → All (TaskOk n false) (stop_all ts)
  unfolding Timer.stop
  stop_all_ok n running [] a = tt
  stop_all_ok n running ((id, task) ∷ ts) (t, a) =
      ((t.0, t.1, t.2, t.3, refl), stop_all_ok n running ts a)

  start_all_ok :
      (accepted : ℕ → Bool) (n : ℕ) (ts : List (ℕ × Task C))
      → All (TaskOk n false) ts
      → (start_all accepted ts).0 ≡ true
      → All (TaskOk n true) (start_all accepted ts).1
  unfolding start_all start_task Timer.start_periodic
  start_all_ok accepted n [] a h = tt
  start_all_ok accepted n ((id, task) ∷ ts) (t, a) h = ground (arith, start_all_ok accepted n ts a)

  stop_all-start_all :
      (accepted : ℕ → Bool) (n : ℕ) (ts : List (ℕ × Task C))
      → All (TaskOk n false) ts
      → All (TaskOk n false) (stop_all (start_all accepted ts).1)
  unfolding start_all start_task Timer.start_periodic Timer.stop
  stop_all-start_all accepted n [] a = tt
  stop_all-start_all accepted n ((id, task) ∷ ts) (t, a) =
      ground (arith, stop_all-start_all accepted n ts a, stop_all_ok n false ts a)

  find-start_all :
      (accepted : ℕ → Bool) (k : ℕ) (ts : List (ℕ × Task C))
      → find k ts ≡ none
      → find k (start_all accepted ts).1 ≡ none
  unfolding start_all find
  find-start_all accepted k [] h = refl
  find-start_all accepted k ((id, task) ∷ ts) h = ground (arith, find-start_all accepted k ts)

  start_all-IsUnique :
      (accepted : ℕ → Bool) (ts : List (ℕ × Task C))
      → IsUnique ts
      → IsUnique (start_all accepted ts).1
  unfolding start_all
  start_all-IsUnique accepted [] u = tt
  start_all-IsUnique accepted ((id, task) ∷ ts) u =
      ground (arith, find-start_all accepted id ts, start_all-IsUnique accepted ts u.1)

  find_fresh :
      (next : ℕ) (running : Bool) (ts : List (ℕ × Task C))
      → All (TaskOk next running) ts
      → find next ts ≡ none
  unfolding find
  find_fresh next running ts a = fresh next ts a (omega arith)
    where
      fresh :
          (k : ℕ) (us : List (ℕ × Task C))
          → All (TaskOk next running) us
          → next ≤ k
          → find k us ≡ none
      fresh k [] b h = refl
      fresh k ((id, task) ∷ us) (t, b) h = ground (arith, fresh k us b)

  start_task_ok :
      (interval_ms : ℕ) (callback : Option C) (accepted : Bool)
      → let (ok, task) = start_task (new_task interval_ms callback) accepted in
        (ok ≡ true → TimerOk true task)
        × (task.interval_ms ≡ interval_ms)
        × (task.callback ≡ callback)
  unfolding start_task Timer.start_periodic Timer.new
  start_task_ok interval_ms callback accepted = ground arith

  new_task_disarmed :
      (interval_ms : ℕ) (callback : Option C) → TimerOk false (new_task interval_ms callback)
  unfolding Timer.new
  new_task_disarmed interval_ms callback = refl

  launch_ok :
      (n : ℕ) (ts : List (ℕ × Task C)) (started : Bool × Task C)
      → 0 < n
      → All (TaskOk (n + 1) true) ts
      → IsUnique ts
      → 0 < started.1.interval_ms
      → is_some started.1.callback ≡ true
      → (started.0 ≡ true → TimerOk true started.1)
      → All (TaskOk (n + 1) true) (launch ts n started).1 × IsUnique (launch ts n started).1
  unfolding launch
  launch_ok n ts (true, task) p a u i c t = (
    All-put (TaskOk (n + 1) true) n task ts (p, omega arith, i, c, t refl) a,
    put-IsUnique n task ts u,
  )
  launch_ok n ts (false, task) p a u i c t =
      (All-erase (TaskOk (n + 1) true) n ts a, erase-IsUnique n ts u)

  insert_task_ok :
      (running : Bool) (n : ℕ) (ts : List (ℕ × Task C)) (interval_ms : ℕ) (callback : Option C)
      (accepted : Bool)
      → 0 < n
      → All (TaskOk n running) ts
      → IsUnique ts
      → 0 < interval_ms
      → is_some callback ≡ true
      → let ts' = (insert_task running ts n (new_task interval_ms callback) accepted).1 in
        All (TaskOk (n + 1) running) ts' × IsUnique ts'
  unfolding insert_task
  insert_task_ok true n ts interval_ms callback accepted p a u i c =
      let facts = start_task_ok interval_ms callback accepted in
      launch_ok n ts (start_task (new_task interval_ms callback) accepted) p
        (TaskOk-weaken true n (n + 1) ts (omega arith) a) u (rw facts.1 i) (rw facts.2 c) facts.0
  insert_task_ok false n ts interval_ms callback accepted p a u i c =
      let old = TaskOk-weaken false n (n + 1) ts (omega arith) a in
      let idle = new_task_disarmed interval_ms callback in
      (
        All-put (TaskOk (n + 1) false) n _ ts (p, omega arith, i, c, idle) old,
        put-IsUnique n _ ts u,
      )

  occupant_fresh :
      (ts : List (ℕ × Task C)) (id : ℕ) (task : Task C)
      → find id ts ≡ none
      → occupant ts id task ≡ task
  unfolding occupant
  occupant_fresh ts id task h = rw (h, occupant)

  add_task-IsValid :
      (s : Scheduler C) (interval_ms : ℕ) (callback : Option C) (created accepted : Bool)
      → s.next_task_id + 1 < u64_mod
      → IsValid s
      → IsValid (add_task s interval_ms callback created accepted).1
  unfolding add_task
  add_task-IsValid s interval_ms callback created accepted room v =
      elim (Bool-cases (eqb interval_ms 0 || not (is_some callback))) [
        | inl bad ↦ rw bad v
        | inr valid ↦ elim (Bool-cases created) [
          | inr no_timer ↦ rw (valid, no_timer) v
          | inl timer ↦
              let n = s.next_task_id in
              let fresh =
                occupant_fresh s.tasks n (new_task interval_ms callback)
                  (find_fresh n s.running s.tasks v.tasks_ok) in
              let ids : inc64 n ≡ n + 1 = omega arith in
              let inserted =
                insert_task_ok s.running n s.tasks interval_ms callback accepted v.next_positive
                  v.tasks_ok v.unique (ground arith) (ground arith) in
              rw (valid, timer, fresh, ids)
                (record { tasks_ok = inserted.0; unique = inserted.1; next_positive = omega arith })
        ]
      ]

  remove_task-IsValid : (s : Scheduler C) (id : ℕ) → IsValid s → IsValid (remove_task s id).1
  unfolding remove_task
  remove_task-IsValid s id v = elim (Option-cases (find id s.tasks)) [
    | inl e ↦ rw (e, remove_task) v
    | inr (task, e) ↦
        rw (e, remove_task)
          (record {
            tasks_ok = All-erase (TaskOk s.next_task_id s.running) id s.tasks v.tasks_ok;
            unique = erase-IsUnique id s.tasks v.unique;
            next_positive = v.next_positive;
          })
  ]

  -- The three outcomes of `start`.
  start_cases :
      (s : Scheduler C) (accepted : ℕ → Bool)
      → let (ok, ts) = start_all accepted s.tasks in
        (s.running ≡ true → start s accepted ≡ (true, s))
        × (s.running ≡ false
            → ok ≡ true
            → start s accepted ≡ (true, record s { tasks = ts; running = true }))
        × (s.running ≡ false
            → ok ≡ false
            → start s accepted ≡ (false, record s { tasks = stop_all ts; running = false }))
  unfolding start
  start_cases s accepted = ground arith

  start-IsValid : (s : Scheduler C) (accepted : ℕ → Bool) → IsValid s → IsValid (start s accepted).1
  start-IsValid s accepted v = elim (Bool-cases s.running) [
    | inl r ↦ rw ((start_cases s accepted).0 r) v
    | inr r ↦
        let idle : All (TaskOk s.next_task_id false) s.tasks =
          subst (λ b. All (TaskOk s.next_task_id b) s.tasks) r v.tasks_ok in
        let kept = start_all-IsUnique accepted s.tasks v.unique in
        elim (Bool-cases (start_all accepted s.tasks).0) [
          | inl ok ↦ rw ((start_cases s accepted).1 r ok) (record {
            tasks_ok = start_all_ok accepted s.next_task_id s.tasks idle ok;
            unique = kept;
            next_positive = v.next_positive;
          })
          | inr refused ↦ rw ((start_cases s accepted).2 r refused) (record {
            tasks_ok = stop_all-start_all accepted s.next_task_id s.tasks idle;
            unique = map_values-IsUnique stop_task _ kept;
            next_positive = v.next_positive;
          })
        ]
  ]

  stop-IsValid : (s : Scheduler C) → IsValid s → IsValid (stop s)
  unfolding stop
  stop-IsValid s v = record {
    tasks_ok = stop_all_ok s.next_task_id s.running s.tasks v.tasks_ok;
    unique = map_values-IsUnique stop_task s.tasks v.unique;
    next_positive = v.next_positive;
  }

  -- What a call owes: the ID counter has not reached the end of its range.
  abbrev pub HasRoom : Scheduler C → Type 0
  HasRoom s = s.next_task_id + 1 < u64_mod

  -- Whatever the kernel answers, every call keeps the scheduler valid: distinct non-zero IDs below
  -- the counter, and all timers armed at their tasks' intervals while it runs and all disarmed
  -- while it does not. A start that fails halfway leaves none armed.
  pub step-IsValid : (s : Scheduler C) (c : Call C) → HasRoom s → IsValid s → IsValid (step s c)
  unfolding step
  step-IsValid s (add interval_ms callback created accepted) room v =
      add_task-IsValid s interval_ms callback created accepted room v
  step-IsValid s (remove id) room v = remove_task-IsValid s id v
  step-IsValid s (starts accepted) room v = start-IsValid s accepted v
  step-IsValid s stops room v = stop-IsValid s v
