-- ===== src/Tests/PoolRuns.antt =====
-- Runs of src/thread_pool.cpp.
use edge_link.ThreadPool
use edge_link.Prelude.{ℕ, ◌+◌, ◌<◌, ◌≤◌, ◌≡◌, refl, true, false, some, List, [], ◌∷◌, ◌++◌}
use edge_link.Prelude.Keys.{text_eq, nat_eq}
use edge_link.ThreadPool.{
  Worker, Pool, submit, Turn, worker_loop, turn_at, after_turn, all_exited, begin_stop, notify_all,
  joined_stop, Step, Reachable,
}
use edge_link.ThreadPool.Queue.{occurrences, busy}
use edge_link.ThreadPool.Runs.{pool_runs_all}
use edge_link.ThreadPool.Stopping.{turns_left, run_turns, stop_returns}

-- One thread; a task is submitted, and `stop` is called before the thread has taken it.
abbrev begun : Pool
begun = ThreadPool.start (ThreadPool.new 1)

abbrev loaded : Pool
loaded = submit begun 7

abbrev halting : Pool
halting = begin_stop loaded

abbrev taking : List Worker × Turn
taking = (
  Worker.executing 7 ∷ [],
  record { worker = Worker.executing 7; queue = []; taken = 7 ∷ []; ended = [] },
)

abbrev ending : List Worker × Turn
ending = (
  Worker.waiting ∷ [],
  record { worker = Worker.waiting; queue = []; taken = []; ended = 7 ∷ [] },
)

abbrev leaving : List Worker × Turn
leaving =
    (Worker.exited ∷ [], record { worker = Worker.exited; queue = []; taken = []; ended = [] })

abbrev finished_pool : Pool
finished_pool = joined_stop (after_turn (after_turn (after_turn halting taking) ending) leaving)

halting-Reachable : Reachable 1 halting
halting-Reachable =
    Reachable.more loaded halting
      (Reachable.more begun loaded
        (Reachable.more (ThreadPool.new 1) begun Reachable.fresh (Step.starts (ThreadPool.new 1)))
        (Step.submits begun 7))
      (Step.begins_stop loaded)

finished-Reachable : Reachable 1 finished_pool
unfolding ThreadPool.new ThreadPool.start submit begin_stop turn_at worker_loop
finished-Reachable =
    let q1 = after_turn halting taking in
    let q2 = after_turn q1 ending in
    let q3 = after_turn q2 leaving in
    Reachable.more q3 finished_pool
      (Reachable.more q2 q3
        (Reachable.more q1 q2
          (Reachable.more halting q1 halting-Reachable (Step.turns halting 0 taking refl))
          (Step.turns q1 0 ending refl))
        (Step.turns q2 0 leaving refl))
      (Step.joins q3 refl refl)

pool_runs_all_example :
    (finished_pool.accepted ≡ finished_pool.started ++ finished_pool.tasks)
    × (occurrences 7 finished_pool.finished + busy 7 finished_pool.workers
        ≡ occurrences 7 finished_pool.started)
    × (finished_pool.running ≡ false
        → 0 < 1
        → (finished_pool.tasks ≡ [])
          × (occurrences 7 finished_pool.finished ≡ occurrences 7 finished_pool.accepted))
pool_runs_all_example = pool_runs_all 1 finished_pool 7 finished-Reachable

loaded_running : loaded.running ≡ true
unfolding ThreadPool.new ThreadPool.start submit
loaded_running = refl

-- The worker takes the task before the notification, and ends it and leaves after it.
stop_returns_example :
    let notified = notify_all (run_turns (0 ∷ []) (begin_stop loaded)).1 in
    let (taken, q) = run_turns (0 ∷ 0 ∷ 0 ∷ []) notified in
    (all_exited q.workers ≡ false
      → (i : ℕ) × (r : List Worker × Turn) × (turn_at q.stopping q.tasks i q.workers ≡ some r))
    × (taken + turns_left q.tasks q.workers ≤ turns_left notified.tasks notified.workers)
    × (submit q 9 ≡ q)
stop_returns_example = stop_returns loaded (0 ∷ []) (0 ∷ 0 ∷ 0 ∷ []) 9 loaded_running
