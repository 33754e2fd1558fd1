-- ===== src/ThreadPool/Queue.antt =====
-- src/thread_pool.cpp: where each task is, kept by every step.
use edge_link.Prelude.{
  subst, some-injective, ℕ, zero, suc, ◌+◌, ◌<◌, ◌≡◌, refl, sym, ap, ◌∙◌, ◌⊎◌, inl, inr, Bool, true,
  false, not, ◌||◌, some, List, [], ◌∷◌, ◌++◌, append-nil, append_assoc, arith, eqb, if◌then◌else◌,
  Bool-cases, Option-cases, length, replicate, length-replicate,
}
use edge_link.Prelude.Keys.{text_eq, nat_eq}
use edge_link.ThreadPool.{
  start, Worker, Pool, submit, Turn, worker_loop, turn_at, after_turn, all_exited, begin_stop,
  joined_stop,
}

abbrev pub occurrences : ℕ → List ℕ → ℕ
occurrences x [] = 0
occurrences x (y ∷ ys) = if eqb x y then suc (occurrences x ys) else occurrences x ys

-- The workers that execute a task.
abbrev pub busy : ℕ → List Worker → ℕ
busy x [] = 0
busy x (Worker.waiting ∷ ws) = busy x ws
busy x (Worker.sleeping ∷ ws) = busy x ws
busy x (Worker.executing t ∷ ws) = if eqb x t then suc (busy x ws) else busy x ws
busy x (Worker.exited ∷ ws) = busy x ws

abbrev pub any_exited : List Worker → Bool
any_exited [] = false
any_exited (Worker.exited ∷ ws) = true
any_exited (_ ∷ ws) = any_exited ws

pub record IsValid (p : Pool) : Type 0 where
  pub in_order : p.accepted ≡ p.started ++ p.tasks
  pub once : (x : ℕ) → occurrences x p.finished + busy x p.workers ≡ occurrences x p.started
  pub drained : any_exited p.workers ≡ true → (p.stopping ≡ true) × (p.tasks ≡ [])
  pub stopped :
      p.running ≡ false
      → (p.workers ≡ []) × (p.stopping ≡ false) × (0 < p.thread_count → p.tasks ≡ [])
  pub complete : p.running ≡ true → length p.workers ≡ p.thread_count

occurrences-append :
    (x : ℕ) (xs ys : List ℕ) → occurrences x (xs ++ ys) ≡ occurrences x xs + occurrences x ys
occurrences-append x [] ys = omega arith
occurrences-append x (y ∷ xs) ys = ground (arith, occurrences-append x xs ys)

-- What a turn keeps: the queue's order, each task's place, and the number of workers. A worker leaves
-- only when the pool stops and the queue is empty.
abbrev Turned : ℕ → Bool → List ℕ → List Worker → List Worker → Turn → Type 0
Turned x stopping tasks ws ws' turn =
    (tasks ≡ turn.taken ++ turn.queue)
    × (occurrences x turn.ended + busy x ws' ≡ occurrences x turn.taken + busy x ws)
    × (length ws' ≡ length ws)
    × (any_exited ws' ≡ true → (any_exited ws ≡ true) ⊎ ((stopping ≡ true) × (turn.queue ≡ [])))
    × (tasks ≡ [] → turn.queue ≡ [])

cons-Turned :
    (x : ℕ) (stopping : Bool) (tasks : List ℕ) (w : Worker) (ws ws' : List Worker) (turn : Turn)
    → Turned x stopping tasks ws ws' turn
    → Turned x stopping tasks (w ∷ ws) (w ∷ ws') turn
cons-Turned x stopping tasks Worker.waiting ws ws' turn (q, o, l, e, d) = (q, o, ap suc l, e, d)
cons-Turned x stopping tasks Worker.sleeping ws ws' turn (q, o, l, e, d) = (q, o, ap suc l, e, d)
cons-Turned x stopping tasks (Worker.executing t) ws ws' turn (q, o, l, e, d) =
    (q, ground arith, ap suc l, e, d)
cons-Turned x stopping tasks Worker.exited ws ws' turn (q, o, l, e, d) =
    (q, o, ap suc l, λ h. inl refl, d)

turn_at_lem :
    (x : ℕ) (stopping : Bool) (tasks : List ℕ) (i : ℕ) (ws : List Worker) {ws' : List Worker}
    {turn : Turn}
    → turn_at stopping tasks i ws ≡ some (ws', turn)
    → Turned x stopping tasks ws ws' turn
unfolding turn_at worker_loop
turn_at_lem x stopping tasks i [] h = ground arith
turn_at_lem x stopping tasks zero (w ∷ ws) h = ground arith
turn_at_lem x stopping tasks (suc i) (w ∷ ws) {ws'} {turn} h =
    elim (Option-cases (turn_at stopping tasks i ws)) [
      | inl e ↦ ground arith
      | inr ((ws1, turn1), e) ↦
          let ih = turn_at_lem x stopping tasks i ws e in
          subst (λ (r : List Worker × Turn). Turned x stopping tasks (w ∷ ws) r.0 r.1)
            (some-injective _ _ (rw e at h)) (cons-Turned x stopping tasks w ws ws1 turn1 ih)
    ]

any_exited-replicate :
    (n : ℕ) (ws : List Worker) → any_exited (ws ++ replicate n Worker.waiting) ≡ any_exited ws
any_exited-replicate zero ws = ap any_exited (append-nil ws)
any_exited-replicate (suc n) [] = any_exited-replicate n []
any_exited-replicate (suc n) (Worker.waiting ∷ ws) = any_exited-replicate (suc n) ws
any_exited-replicate (suc n) (Worker.sleeping ∷ ws) = any_exited-replicate (suc n) ws
any_exited-replicate (suc n) (Worker.executing t ∷ ws) = any_exited-replicate (suc n) ws
any_exited-replicate (suc n) (Worker.exited ∷ ws) = refl

busy-replicate : (x n : ℕ) → busy x (replicate n Worker.waiting) ≡ 0
busy-replicate x zero = refl
busy-replicate x (suc n) = busy-replicate x n

pub start-IsValid : (p : Pool) → IsValid p → IsValid (start p)
unfolding start
start-IsValid p v = elim (Bool-cases p.running) [
  | inl e ↦ simp (e, start) v
  | inr e ↦
      let (none_left, halted, empty) = v.stopped e in
      let n = p.thread_count in
      simp (e, none_left, start)
        (record {
          in_order = v.in_order;
          once = λ x. omega (arith, v.once x, ap (busy x) none_left, busy-replicate x n);
          drained = λ h. let no = any_exited-replicate n [] in absurd (ground arith);
          stopped = λ h. cc;
          complete = λ h. length-replicate n Worker.waiting;
        })
]

pub submit-IsValid : (p : Pool) (task : ℕ) → IsValid p → IsValid (submit p task)
unfolding submit
submit-IsValid p task v = elim (Bool-cases (not p.running || p.stopping)) [
  | inl e ↦ simp (e, submit) v
  | inr e ↦
      let running : p.running ≡ true = ground arith in
      let going : p.stopping ≡ false = ground arith in
      simp (e, submit)
        (record {
          in_order =
              ap (λ xs. xs ++ task ∷ []) v.in_order ∙ append_assoc p.started p.tasks (task ∷ []);
          once = v.once;
          drained = λ h. let (s, t) = v.drained h in absurd (ground arith);
          stopped = λ h. absurd (ground arith);
          complete = v.complete;
        })
]

no_worker :
    (stopping : Bool) (tasks : List ℕ) (i : ℕ) (ws : List Worker) {r : List Worker × Turn}
    → turn_at stopping tasks i ws ≡ some r
    → ws ≡ []
    → ⊥
unfolding turn_at
no_worker stopping tasks i [] e h = ground arith
no_worker stopping tasks i (w ∷ ws) e h = cc

pub turn-IsValid :
    (p : Pool) (i : ℕ) (r : List Worker × Turn)
    → turn_at p.stopping p.tasks i p.workers ≡ some r
    → IsValid p
    → IsValid (after_turn p r)
turn-IsValid p i (ws, turn) e v =
    let facts = λ (x : ℕ). turn_at_lem x p.stopping p.tasks i p.workers e in
    let (q, _, l, exits, drains) = facts 0 in
    record {
      in_order =
          v.in_order ∙ ap (◌++◌ p.started) q ∙ sym (append_assoc p.started turn.taken turn.queue);
      once = λ x.
          let (_, o, _, _, _) = facts x in
          omega (
            arith,
            v.once x,
            o,
            occurrences-append x p.finished turn.ended,
            occurrences-append x p.started turn.taken,
          );
      drained = λ h. elim (exits h) [
        | inl was ↦ let (s, t) = v.drained was in (s, drains t)
        | inr now ↦ now
      ];
      stopped = λ h.
          let (none_left, halted, empty) = v.stopped h in
          absurd (no_worker p.stopping p.tasks i p.workers e none_left);
      complete = λ h. l ∙ v.complete h;
    }

pub begin_stop-IsValid : (p : Pool) → IsValid p → IsValid (begin_stop p)
unfolding begin_stop
begin_stop-IsValid p v = elim (Bool-cases p.running) [
  | inr e ↦ simp (e, begin_stop) v
  | inl e ↦
      simp (e, begin_stop)
        (record {
          in_order = v.in_order;
          once = v.once;
          drained = λ h. (refl, (v.drained h).1);
          stopped = λ h. cc;
          complete = λ h. v.complete e;
        })
]

busy-all_exited : (x : ℕ) (ws : List Worker) → all_exited ws ≡ true → busy x ws ≡ 0
busy-all_exited x [] h = refl
busy-all_exited x (Worker.waiting ∷ ws) h = cc
busy-all_exited x (Worker.sleeping ∷ ws) h = cc
busy-all_exited x (Worker.executing t ∷ ws) h = cc
busy-all_exited x (Worker.exited ∷ ws) h = busy-all_exited x ws h

some_exited : (ws : List Worker) → all_exited ws ≡ true → 0 < length ws → any_exited ws ≡ true
some_exited [] h l = absurd (omega arith)
some_exited (Worker.waiting ∷ ws) h l = cc
some_exited (Worker.sleeping ∷ ws) h l = cc
some_exited (Worker.executing t ∷ ws) h l = cc
some_exited (Worker.exited ∷ ws) h l = refl

drained_at_join :
    (p : Pool)
    → p.stopping ≡ true
    → all_exited p.workers ≡ true
    → IsValid p
    → 0 < p.thread_count
    → p.tasks ≡ []
drained_at_join p s a v positive = elim (Bool-cases p.running) [
  | inl e ↦ let l = v.complete e in (v.drained (some_exited p.workers a (omega arith))).1
  | inr e ↦ let (_, halted, _) = v.stopped e in absurd (ground arith)
]

pub joined_stop-IsValid :
    (p : Pool)
    → p.stopping ≡ true
    → all_exited p.workers ≡ true
    → IsValid p
    → IsValid (joined_stop p)
unfolding joined_stop
joined_stop-IsValid p s a v = record {
  in_order = v.in_order;
  once = λ x. omega (arith, v.once x, busy-all_exited x p.workers a);
  drained = λ h. cc;
  stopped = λ h. (refl, refl, drained_at_join p s a v);
  complete = λ h. cc;
}
