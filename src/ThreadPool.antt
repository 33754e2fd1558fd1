-- ===== src/ThreadPool.antt =====
-- src/thread_pool.cpp: worker threads over one queue. What runs under the mutex is one step; a task
-- is a number, and its execution is two steps, its taking and its end. A worker that waits for the
-- condition sleeps until a notification wakes it, or wakes by itself. `stop` is the step that sets the
-- flag, the notification of all, and the step that joins the threads, which waits until all have left
-- their loop. The lists `accepted`, `started` and `finished` are records of the run, not of the program.
pub mod Queue
pub mod Waking
pub mod Runs
pub mod Stopping
use edge_link.Prelude.{
  ℕ, zero, suc, ◌≡◌, Bool, true, false, not, ◌||◌, Option, none, some, List, [], ◌∷◌, ◌++◌, map,
  if◌then◌else◌, replicate,
}
use edge_link.Prelude.Keys.{text_eq, nat_eq}

-- A worker that is about to test the queue, one inside `condition_.wait`, one that executes a task, and
-- one that has returned.
pub data Worker : Type 0 where
  waiting sleeping : Worker
  executing : ℕ → Worker
  exited : Worker

pub record Pool : Type 0 where
  pub thread_count : ℕ
  pub workers : List Worker
  pub tasks : List ℕ
  pub running : Bool
  pub stopping : Bool
  pub accepted : List ℕ
  pub started : List ℕ
  pub finished : List ℕ

unfoldable pub new : ℕ → Pool
new thread_count = record {
  thread_count = thread_count;
  workers = [];
  tasks = [];
  running = false;
  stopping = false;
  accepted = [];
  started = [];
  finished = [];
}

unfoldable pub start : Pool → Pool
start p = if p.running then p else record p {
  running = true;
  stopping = false;
  workers = p.workers ++ replicate p.thread_count Worker.waiting;
}

unfoldable pub submit : Pool → ℕ → Pool
submit p task =
    if not p.running || p.stopping
    then p
    else record p { tasks = p.tasks ++ task ∷ []; accepted = p.accepted ++ task ∷ [] }

-- What a turn of a worker changes: the worker, the queue, what it has taken and what it has ended.
pub record Turn : Type 0 where
  pub worker : Worker
  pub queue : List ℕ
  pub taken : List ℕ
  pub ended : List ℕ

-- One step of `workerLoop`; `none` where the worker sleeps, and after its return.
unfoldable pub worker_loop : Bool → List ℕ → Worker → Option Turn
worker_loop stopping tasks (Worker.executing t) =
    some (record { worker = Worker.waiting; queue = tasks; taken = []; ended = t ∷ [] })
worker_loop true [] Worker.waiting =
    some (record { worker = Worker.exited; queue = []; taken = []; ended = [] })
worker_loop false [] Worker.waiting =
    some (record { worker = Worker.sleeping; queue = []; taken = []; ended = [] })
worker_loop stopping (t ∷ ts) Worker.waiting =
    some (record { worker = Worker.executing t; queue = ts; taken = t ∷ []; ended = [] })
worker_loop stopping tasks Worker.sleeping = none
worker_loop stopping tasks Worker.exited = none

-- The return from `condition_.wait`.
abbrev pub awake : Worker → Worker
awake Worker.sleeping = Worker.waiting
awake w = w

abbrev pub awake_at : ℕ → List Worker → List Worker
awake_at i [] = []
awake_at zero (w ∷ ws) = awake w ∷ ws
awake_at (suc i) (w ∷ ws) = w ∷ awake_at i ws

-- `notify_one`, which wakes a worker of the system's choice.
unfoldable pub notify_one : ℕ → Pool → Pool
notify_one i p = record p { workers = awake_at i p.workers }

unfoldable pub notify_all : Pool → Pool
notify_all p = record p { workers = map awake p.workers }

abbrev pub put_back : Worker → Option (List Worker × Turn) → Option (List Worker × Turn)
put_back w none = none
put_back w (some (ws, turn)) = some (w ∷ ws, turn)

abbrev pub replaced : List Worker → Option Turn → Option (List Worker × Turn)
replaced ws none = none
replaced ws (some turn) = some (turn.worker ∷ ws, turn)

-- The turn of the worker at a position.
unfoldable pub turn_at : Bool → List ℕ → ℕ → List Worker → Option (List Worker × Turn)
turn_at stopping tasks i [] = none
turn_at stopping tasks zero (w ∷ ws) = replaced ws (worker_loop stopping tasks w)
turn_at stopping tasks (suc i) (w ∷ ws) = put_back w (turn_at stopping tasks i ws)

abbrev pub after_turn : Pool → List Worker × Turn → Pool
after_turn p (ws, turn) = record p {
  workers = ws;
  tasks = turn.queue;
  started = p.started ++ turn.taken;
  finished = p.finished ++ turn.ended;
}

abbrev pub all_exited : List Worker → Bool
all_exited [] = true
all_exited (Worker.exited ∷ ws) = all_exited ws
all_exited (_ ∷ ws) = false

-- The first part of `stop`.
unfoldable pub begin_stop : Pool → Pool
begin_stop p = if not p.running then p else record p { stopping = true }

-- The rest of `stop`, once `join` has returned for every worker.
unfoldable pub joined_stop : Pool → Pool
joined_stop p = record p { workers = []; running = false; stopping = false }

-- The threads take their turns in any order.
pub data Step : Pool → Pool → Type 0 where
  starts : (p : Pool) → Step p (start p)
  submits : (p : Pool) (task : ℕ) → Step p (submit p task)
  turns :
      (p : Pool) (i : ℕ) (r : List Worker × Turn)
      → turn_at p.stopping p.tasks i p.workers ≡ some r
      → Step p (after_turn p r)
  -- by the end of `submit`, or by itself
  wakes : (p : Pool) (i : ℕ) → Step p (notify_one i p)
  begins_stop : (p : Pool) → Step p (begin_stop p)
  notifies : (p : Pool) → Step p (notify_all p)
  joins : (p : Pool) → p.stopping ≡ true → all_exited p.workers ≡ true → Step p (joined_stop p)

pub data Reachable (n : ℕ) : Pool → Type 0 where
  fresh : Reachable n (new n)
  more : (p q : Pool) → Reachable n p → Step p q → Reachable n q
