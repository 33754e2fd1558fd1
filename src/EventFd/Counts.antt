-- ===== src/EventFd/Counts.antt =====
-- src/eventfd_notifier.cpp: no notification is lost or counted twice.
use edge_link.Prelude.{ℕ, ◌+◌, ◌≤◌, ◌≡◌, Bool, none, some, List, [], ◌∷◌, arith, eqb, if◌then◌else◌}
use edge_link.EventFd.{handle_read, Notifier, counter_max, notify, notify_all}
use edge_link.MessageBus.{run}
use edge_link.Prelude.Keys.{nat_eq, text_eq}

-- The counts whose notification reported success.
abbrev pub sum_accepted : List ℕ → List Bool → ℕ
sum_accepted [] oks = 0
sum_accepted (c ∷ cs) [] = 0
sum_accepted (c ∷ cs) (ok ∷ oks) = if ok then c + sum_accepted cs oks else sum_accepted cs oks

module _ {C : Type 0} where
  counter_lem :
      (n : Notifier C) (cs : List ℕ) (counter : ℕ)
      → counter ≤ counter_max
      → let (oks, counter') = notify_all n cs counter in
        (counter' ≡ counter + sum_accepted cs oks) × (counter' ≤ counter_max)
  unfolding notify_all notify
  counter_lem n [] counter h = (omega arith, h)
  counter_lem n (c ∷ cs) counter h =
      let (ok, next) = notify n c counter in
      let bound : (next ≤ counter_max) × (next ≡ (if ok then counter + c else counter)) =
        ground arith in
      ground (arith, counter_lem n cs next bound.0)

  -- From an empty counter, for a notifier with a callback: after any notifications, one read passes
  -- to the callback the sum of exactly those counts whose notification reported success, which
  -- never overflows; where there was none it runs nothing. A second read finds the counter empty.
  pub handle_read-notify_all :
      (n : Notifier C) (c : C) (cs : List ℕ)
      → n.callback ≡ some c
      → let (oks, counter) = notify_all n cs 0 in
        let (run, left) = handle_read n counter in
        (counter ≡ sum_accepted cs oks)
        × (sum_accepted cs oks ≤ counter_max)
        × (run ≡ (if eqb counter 0 then none else some (c, sum_accepted cs oks)))
        × (handle_read n left ≡ (none, 0))
  unfolding handle_read
  handle_read-notify_all n c cs e =
      let (sum, bound) = counter_lem n cs 0 (omega arith) in ground arith
