-- ===== src/ThreadPool/Runs.antt =====
-- src/thread_pool.cpp: every accepted task is run once, in the order of submission.
use edge_link.ThreadPool
use edge_link.Prelude.{ℕ, ◌+◌, ◌<◌, ◌≡◌, refl, ap, ◌∙◌, false, [], ◌++◌, append-nil, arith}
use edge_link.Prelude.Keys.{text_eq, nat_eq}
use edge_link.ThreadPool.{
  start, Pool, submit, notify_one, notify_all, begin_stop, joined_stop, Step, starts, submits,
  begins_stop, joins, Reachable, fresh, more,
}
use edge_link.ThreadPool.Queue.{
  occurrences, busy, IsValid, start-IsValid, submit-IsValid, turn-IsValid, begin_stop-IsValid,
  joined_stop-IsValid,
}
use edge_link.ThreadPool.Waking.{notify_one-IsValid, notify_all-IsValid}

Step-IsValid : {p q : Pool} → Step p q → IsValid p → IsValid q
Step-IsValid (starts p) v = start-IsValid p v
Step-IsValid (submits p task) v = submit-IsValid p task v
Step-IsValid (Step.turns p i r e) v = turn-IsValid p i r e v
Step-IsValid (Step.wakes p i) v = notify_one-IsValid i p v
Step-IsValid (Step.notifies p) v = notify_all-IsValid p v
Step-IsValid (begins_stop p) v = begin_stop-IsValid p v
Step-IsValid (joins p s a) v = joined_stop-IsValid p s a v

new-IsValid : (n : ℕ) → IsValid (ThreadPool.new n)
unfolding ThreadPool.new
new-IsValid n = record {
  in_order = refl;
  once = λ x. refl;
  drained = λ h. cc;
  stopped = λ h. (refl, refl, λ positive. refl);
  complete = λ h. cc;
}

Reachable-IsValid : {n : ℕ} {p : Pool} → Reachable n p → IsValid p
Reachable-IsValid {n} fresh = new-IsValid n
Reachable-IsValid (more p q r last) = Step-IsValid last (Reachable-IsValid r)

Step-thread_count : {p q : Pool} → Step p q → q.thread_count ≡ p.thread_count
unfolding start submit begin_stop joined_stop notify_one notify_all
Step-thread_count (starts p) = ground arith
Step-thread_count (submits p task) = ground arith
Step-thread_count (Step.turns p i r e) = refl
Step-thread_count (Step.wakes p i) = refl
Step-thread_count (Step.notifies p) = refl
Step-thread_count (begins_stop p) = ground arith
Step-thread_count (joins p s a) = refl

Reachable-thread_count : {n : ℕ} {p : Pool} → Reachable n p → p.thread_count ≡ n
unfolding ThreadPool.new
Reachable-thread_count fresh = refl
Reachable-thread_count (more p q r last) = Step-thread_count last ∙ Reachable-thread_count r

-- However submissions, the threads' turns, starts and stops interleave: the tasks taken from the
-- queue, followed by those still in it, are the accepted ones in the order of submission, so none is
-- lost or taken twice; each taken task has ended or is executed by one worker. A pool of at least one
-- thread that is not running has ended all that it accepted.
pub pool_runs_all :
    (n : ℕ) (p : Pool) (x : ℕ)
    → Reachable n p
    → (p.accepted ≡ p.started ++ p.tasks)
      × (occurrences x p.finished + busy x p.workers ≡ occurrences x p.started)
      × (p.running ≡ false
          → 0 < n
          → (p.tasks ≡ []) × (occurrences x p.finished ≡ occurrences x p.accepted))
pool_runs_all n p x r =
    let v = Reachable-IsValid r in
    (
      v.in_order,
      v.once x,
      λ h positive.
          let (none_left, _, empty) = v.stopped h in
          let nothing = empty (rw (Reachable-thread_count r) positive) in
          let all_started : p.accepted ≡ p.started =
            v.in_order ∙ ap (◌++◌ p.started) nothing ∙ append-nil p.started in
          (nothing, omega (arith, v.once x, ap (busy x) none_left, ap (occurrences x) all_started)),
    )
