-- ===== src/ThreadPool/Waking.antt =====
-- src/thread_pool.cpp: notifications wake workers and change nothing else.
use edge_link.Prelude.{
  ℕ, zero, suc, ◌≡◌, refl, sym, ap, ◌∙◌, List, [], ◌∷◌, map, arith, eqb, if◌then◌else◌, length,
}
use edge_link.Prelude.Keys.{text_eq, nat_eq}
use edge_link.ThreadPool.{Worker, Pool, awake, awake_at, notify_one, notify_all}
use edge_link.ThreadPool.Queue.{busy, any_exited, IsValid}

-- The same but for workers that sleep or have woken.
abbrev pub SameWorkers : List Worker → List Worker → Type 0
SameWorkers ws ws' =
    ((x : ℕ) → busy x ws' ≡ busy x ws) × (any_exited ws' ≡ any_exited ws) × (length ws' ≡ length ws)

cons-SameWorkers :
    (w : Worker) (ws ws' : List Worker) → SameWorkers ws ws' → SameWorkers (w ∷ ws) (w ∷ ws')
cons-SameWorkers Worker.waiting ws ws' (b, e, l) = (b, e, ap suc l)
cons-SameWorkers Worker.sleeping ws ws' (b, e, l) = (b, e, ap suc l)
cons-SameWorkers (Worker.executing t) ws ws' (b, e, l) =
    (λ x. ap (λ n. if eqb x t then suc n else n) (b x), e, ap suc l)
cons-SameWorkers Worker.exited ws ws' (b, e, l) = (b, refl, ap suc l)

awake-SameWorkers : (w : Worker) (ws : List Worker) → SameWorkers (w ∷ ws) (awake w ∷ ws)
awake-SameWorkers Worker.waiting ws = (λ x. refl, refl, refl)
awake-SameWorkers Worker.sleeping ws = (λ x. refl, refl, refl)
awake-SameWorkers (Worker.executing t) ws = (λ x. refl, refl, refl)
awake-SameWorkers Worker.exited ws = (λ x. refl, refl, refl)

awake_at-SameWorkers : (i : ℕ) (ws : List Worker) → SameWorkers ws (awake_at i ws)
awake_at-SameWorkers i [] = (λ x. refl, refl, refl)
awake_at-SameWorkers zero (w ∷ ws) = awake-SameWorkers w ws
awake_at-SameWorkers (suc i) (w ∷ ws) =
    cons-SameWorkers w ws (awake_at i ws) (awake_at-SameWorkers i ws)

map-awake-SameWorkers : (ws : List Worker) → SameWorkers ws (map awake ws)
map-awake-SameWorkers [] = (λ x. refl, refl, refl)
map-awake-SameWorkers (w ∷ ws) =
    let (b, e, l) = cons-SameWorkers w ws (map awake ws) (map-awake-SameWorkers ws) in
    let (b', e', l') = awake-SameWorkers w (map awake ws) in (λ x. b' x ∙ b x, e' ∙ e, l' ∙ l)

no_workers : (ws : List Worker) → length ws ≡ 0 → ws ≡ []
no_workers [] h = refl
no_workers (w ∷ ws) h = absurd (ground arith)

with_workers-IsValid :
    (p : Pool) (ws : List Worker)
    → SameWorkers p.workers ws
    → IsValid p
    → IsValid (record p { workers = ws })
with_workers-IsValid p ws (b, e, l) v = record {
  in_order = v.in_order;
  once = λ x. omega (arith, v.once x, b x);
  drained = λ h. v.drained (sym e ∙ h);
  stopped = λ h.
      let (none_left, halted, empty) = v.stopped h in
      (no_workers ws (l ∙ ap length none_left), halted, empty);
  complete = λ h. l ∙ v.complete h;
}

pub notify_one-IsValid : (i : ℕ) (p : Pool) → IsValid p → IsValid (notify_one i p)
unfolding notify_one
notify_one-IsValid i p v =
    with_workers-IsValid p (awake_at i p.workers) (awake_at-SameWorkers i p.workers) v

pub notify_all-IsValid : (p : Pool) → IsValid p → IsValid (notify_all p)
unfolding notify_all
notify_all-IsValid p v =
    with_workers-IsValid p (map awake p.workers) (map-awake-SameWorkers p.workers) v
