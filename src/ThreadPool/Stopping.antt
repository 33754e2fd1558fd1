-- ===== src/ThreadPool/Stopping.antt =====
-- src/thread_pool.cpp: `stop` comes back, in whatever order the threads run.
use edge_link.Prelude.{
  subst, some-injective, ℕ, zero, suc, ◌+◌, ◌*◌, ◌≤◌, ◌<◌, ◌≡◌, refl, sym, ap, ◌∙◌, inl, inr, true,
  false, none, some, List, [], ◌∷◌, map, arith, Option-cases, length,
}
use edge_link.Prelude.Keys.{text_eq, nat_eq}
use edge_link.ThreadPool.{
  Worker, Pool, submit, Turn, worker_loop, awake, notify_all, put_back, turn_at, after_turn,
  all_exited, begin_stop,
}

-- The turns that a worker, or a task in the queue, can still take before the pool has stopped.
abbrev pub turns_left : List ℕ → List Worker → ℕ
turns_left tasks [] = 3 * length tasks
turns_left tasks (Worker.waiting ∷ ws) = 1 + turns_left tasks ws
turns_left tasks (Worker.sleeping ∷ ws) = 1 + turns_left tasks ws
turns_left tasks (Worker.executing t ∷ ws) = 2 + turns_left tasks ws
turns_left tasks (Worker.exited ∷ ws) = turns_left tasks ws

turns_left-cons :
    (t : ℕ) (ts : List ℕ) (ws : List Worker) → turns_left (t ∷ ts) ws ≡ 3 + turns_left ts ws
turns_left-cons t ts [] = omega arith
turns_left-cons t ts (Worker.waiting ∷ ws) = omega (arith, turns_left-cons t ts ws)
turns_left-cons t ts (Worker.sleeping ∷ ws) = omega (arith, turns_left-cons t ts ws)
turns_left-cons t ts (Worker.executing u ∷ ws) = omega (arith, turns_left-cons t ts ws)
turns_left-cons t ts (Worker.exited ∷ ws) = turns_left-cons t ts ws

abbrev Fewer : List ℕ → List Worker → List Worker × Turn → Type 0
Fewer tasks ws r = turns_left r.1.queue r.0 < turns_left tasks ws

Fewer-cons :
    (tasks : List ℕ) (w : Worker) (ws ws' : List Worker) (turn : Turn)
    → Fewer tasks ws (ws', turn)
    → Fewer tasks (w ∷ ws) (w ∷ ws', turn)
Fewer-cons tasks Worker.waiting ws ws' turn h = omega arith
Fewer-cons tasks Worker.sleeping ws ws' turn h = omega arith
Fewer-cons tasks (Worker.executing t) ws ws' turn h = omega arith
Fewer-cons tasks Worker.exited ws ws' turn h = h

-- A turn of any worker uses up at least one of them.
turn-Fewer :
    (tasks : List ℕ) (i : ℕ) (ws : List Worker) (r : List Worker × Turn)
    → turn_at true tasks i ws ≡ some r
    → Fewer tasks ws r
unfolding turn_at worker_loop
turn-Fewer tasks i [] r h = absurd (ground arith)
turn-Fewer [] zero (Worker.waiting ∷ ws) r h =
    subst (Fewer [] (Worker.waiting ∷ ws)) (some-injective _ _ h) (omega arith)
turn-Fewer (t ∷ ts) zero (Worker.waiting ∷ ws) r h =
    subst (Fewer (t ∷ ts) (Worker.waiting ∷ ws)) (some-injective _ _ h)
      (omega (arith, turns_left-cons t ts ws))
turn-Fewer tasks zero (Worker.executing t ∷ ws) r h =
    subst (Fewer tasks (Worker.executing t ∷ ws)) (some-injective _ _ h) (omega arith)
turn-Fewer [] zero (Worker.sleeping ∷ ws) r h = absurd (cc)
turn-Fewer (t ∷ ts) zero (Worker.sleeping ∷ ws) r h = absurd (cc)
turn-Fewer tasks zero (Worker.exited ∷ ws) r h = absurd (cc)
turn-Fewer tasks (suc i) (w ∷ ws) r h = elim (Option-cases (turn_at true tasks i ws)) [
  | inl e ↦ absurd (ground arith)
  | inr ((ws', turn), e) ↦
      subst (Fewer tasks (w ∷ ws)) (some-injective _ _ (rw e at h))
        (Fewer-cons tasks w ws ws' turn (turn-Fewer tasks i ws (ws', turn) e))
]

abbrev pub NoneSleeps : List Worker → Type 0
NoneSleeps [] = Unit
NoneSleeps (Worker.sleeping ∷ ws) = ⊥
NoneSleeps (w ∷ ws) = NoneSleeps ws

map-awake-NoneSleeps : (ws : List Worker) → NoneSleeps (map awake ws)
map-awake-NoneSleeps [] = tt
map-awake-NoneSleeps (Worker.waiting ∷ ws) = map-awake-NoneSleeps ws
map-awake-NoneSleeps (Worker.sleeping ∷ ws) = map-awake-NoneSleeps ws
map-awake-NoneSleeps (Worker.executing t ∷ ws) = map-awake-NoneSleeps ws
map-awake-NoneSleeps (Worker.exited ∷ ws) = map-awake-NoneSleeps ws

-- Where not all have left and none sleeps, some worker has a turn.
someone_runs :
    (tasks : List ℕ) (ws : List Worker)
    → NoneSleeps ws
    → all_exited ws ≡ false
    → (i : ℕ) × (r : List Worker × Turn) × (turn_at true tasks i ws ≡ some r)
unfolding turn_at worker_loop
someone_runs tasks [] up h = cc
someone_runs [] (Worker.waiting ∷ ws) up h = (zero, _, refl)
someone_runs (t ∷ ts) (Worker.waiting ∷ ws) up h = (zero, _, refl)
someone_runs tasks (Worker.sleeping ∷ ws) up h = absurd up
someone_runs tasks (Worker.executing t ∷ ws) up h = (zero, _, refl)
someone_runs tasks (Worker.exited ∷ ws) up h =
    let (i, r, e) = someone_runs tasks ws up h in (suc i, _, ap (put_back Worker.exited) e)

cons-NoneSleeps :
    (w : Worker) (ws ws' : List Worker)
    → (NoneSleeps ws → NoneSleeps ws')
    → NoneSleeps (w ∷ ws)
    → NoneSleeps (w ∷ ws')
cons-NoneSleeps Worker.waiting ws ws' keeps up = keeps up
cons-NoneSleeps Worker.sleeping ws ws' keeps up = absurd up
cons-NoneSleeps (Worker.executing t) ws ws' keeps up = keeps up
cons-NoneSleeps Worker.exited ws ws' keeps up = keeps up

-- While the pool stops, no worker goes to sleep.
turn-NoneSleeps :
    (tasks : List ℕ) (i : ℕ) (ws : List Worker) (r : List Worker × Turn)
    → turn_at true tasks i ws ≡ some r
    → NoneSleeps ws
    → NoneSleeps r.0
unfolding turn_at worker_loop
turn-NoneSleeps tasks i [] r h up = absurd (ground arith)
turn-NoneSleeps [] zero (Worker.waiting ∷ ws) r h up =
    subst (λ (q : List Worker × Turn). NoneSleeps q.0) (some-injective _ _ h) up
turn-NoneSleeps (t ∷ ts) zero (Worker.waiting ∷ ws) r h up =
    subst (λ (q : List Worker × Turn). NoneSleeps q.0) (some-injective _ _ h) up
turn-NoneSleeps tasks zero (Worker.sleeping ∷ ws) r h up = absurd up
turn-NoneSleeps tasks zero (Worker.executing t ∷ ws) r h up =
    subst (λ (q : List Worker × Turn). NoneSleeps q.0) (some-injective _ _ h) up
turn-NoneSleeps tasks zero (Worker.exited ∷ ws) r h up = absurd (cc)
turn-NoneSleeps tasks (suc i) (w ∷ ws) r h up = elim (Option-cases (turn_at true tasks i ws)) [
  | inl e ↦ absurd (ground arith)
  | inr ((ws', turn), e) ↦
      subst (λ (q : List Worker × Turn). NoneSleeps q.0) (some-injective _ _ (rw e at h))
        (cons-NoneSleeps w ws ws' (turn-NoneSleeps tasks i ws (ws', turn) e) up)
]

-- A thread that is given the processor; one that sleeps or has returned does nothing with it.
unfoldable pub turn_or_skip : ℕ → Pool → ℕ × Pool
turn_or_skip i p = elim (turn_at p.stopping p.tasks i p.workers) [
  | none ↦ (0, p)
  | some r ↦ (1, after_turn p r)
]

-- The turns that a schedule of the threads takes, and the pool after it.
unfoldable pub run_turns : List ℕ → Pool → ℕ × Pool
run_turns [] p = (0, p)
run_turns (i ∷ is) p =
    let (first, q) = turn_or_skip i p in let (later, r) = run_turns is q in (first + later, r)

abbrev Halting : Pool → Type 0
Halting p = (p.running ≡ true) × (p.stopping ≡ true)

turn_or_skip-Halting : (i : ℕ) (p : Pool) → Halting p → Halting (turn_or_skip i p).1
unfolding turn_or_skip
turn_or_skip-Halting i p h = elim (Option-cases (turn_at p.stopping p.tasks i p.workers)) [
  | inl e ↦ rw (e, turn_or_skip) h
  | inr (r, e) ↦ rw (e, turn_or_skip) h
]

run_turns-Halting : (is : List ℕ) (p : Pool) → Halting p → Halting (run_turns is p).1
unfolding run_turns
run_turns-Halting [] p h = h
run_turns-Halting (i ∷ is) p h =
    run_turns-Halting is (turn_or_skip i p).1 (turn_or_skip-Halting i p h)

turn_or_skip_lem :
    (i : ℕ) (p : Pool)
    → Halting p
    → NoneSleeps p.workers
    → let (taken, q) = turn_or_skip i p in
      NoneSleeps q.workers × (taken + turns_left q.tasks q.workers ≤ turns_left p.tasks p.workers)
unfolding turn_or_skip
turn_or_skip_lem i p h up = elim (Option-cases (turn_at p.stopping p.tasks i p.workers)) [
  | inl e ↦ rw (e, turn_or_skip) (up, omega arith)
  | inr (r, e) ↦
      let e' : turn_at true p.tasks i p.workers ≡ some r =
        ap (λ b. turn_at b p.tasks i p.workers) (sym h.1) ∙ e in
      let fewer = turn-Fewer p.tasks i p.workers r e' in
      rw (e, turn_or_skip) (turn-NoneSleeps p.tasks i p.workers r e' up, omega arith)
]

run_turns_lem :
    (is : List ℕ) (p : Pool)
    → Halting p
    → NoneSleeps p.workers
    → let (taken, q) = run_turns is p in
      NoneSleeps q.workers × (taken + turns_left q.tasks q.workers ≤ turns_left p.tasks p.workers)
unfolding run_turns
run_turns_lem [] p h up = (up, omega arith)
run_turns_lem (i ∷ is) p h up =
    let (up', first) = turn_or_skip_lem i p h up in
    let q = (turn_or_skip i p).1 in
    let (up'', later) = run_turns_lem is q (turn_or_skip-Halting i p h) up' in (up'', omega arith)

-- `stop` of a running pool sets the flag, and notifies all after any turns of the threads in between.
-- From then on, in whatever order they run: as long as a worker has not left its loop, some worker
-- has a turn, so none sleeps for ever; the turns taken so far and the measure of those left are
-- together at most what it was at the notification, so after at most that many turns all workers
-- have left and `join` returns; and a submission changes nothing.
pub stop_returns :
    (p : Pool) (before after : List ℕ) (task : ℕ)
    → p.running ≡ true
    → let notified = notify_all (run_turns before (begin_stop p)).1 in
      let (taken, q) = run_turns after notified in
      (all_exited q.workers ≡ false
        → (i : ℕ) × (r : List Worker × Turn) × (turn_at q.stopping q.tasks i q.workers ≡ some r))
      × (taken + turns_left q.tasks q.workers ≤ turns_left notified.tasks notified.workers)
      × (submit q task ≡ q)
unfolding notify_all
stop_returns p before after task running =
    let begun : Halting (begin_stop p) = unfold begin_stop in ground arith in
    let halting = run_turns-Halting before (begin_stop p) begun in
    let notified = notify_all (run_turns before (begin_stop p)).1 in
    let up = map-awake-NoneSleeps (run_turns before (begin_stop p)).1.workers in
    let (up', bound) = run_turns_lem after notified halting up in
    let q = (run_turns after notified).1 in
    let (going, still) = run_turns-Halting after notified halting in
    (
      λ h.
          let (i, r, e) = someone_runs q.tasks q.workers up' h in
          (i, r, ap (λ b. turn_at b q.tasks i q.workers) still ∙ e),
      bound,
      unfold submit in ground arith,
    )
