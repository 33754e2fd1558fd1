-- ===== src/EventFd.antt =====
-- src/eventfd_notifier.cpp: notifications counted by an eventfd. The counter is the kernel's, shared
-- by all who hold the descriptor: as eventfd(2) says, a write adds to it unless the sum would pass
-- 2^64 - 2, and a read takes it all. A call that a signal interrupts is repeated and is one call
-- here. `C` is the type of the callbacks; an empty `std::function` is `none`.
pub mod Counts
use edge_link.Prelude.{
  ℕ, ◌+◌, ◌-◌, ◌^◌, Bool, true, false, not, ◌||◌, Option, none, some, List, [], ◌∷◌, ltb, eqb,
  if◌then◌else◌,
}
use edge_link.MessageBus.Index.{count}
use edge_link.Prelude.Keys.{nat_eq, text_eq}

pub record Notifier (C : Type 0) : Type 0 where
  pub has_fd : Bool
  pub callback : Option C

abbrev pub counter_max : ℕ
counter_max = 2 ^ 64 - 2

module _ {C : Type 0} where
  unfoldable pub set_callback : Notifier C → Option C → Notifier C
  set_callback n callback = record n { callback = callback }

  -- The result and the counter after the call.
  unfoldable pub notify : Notifier C → ℕ → ℕ → Bool × ℕ
  notify n count counter =
      if not n.has_fd || eqb count 0 || eqb count (2 ^ 64 - 1)
      then (false, counter)
      else if ltb counter_max (counter + count)
      then (false, counter)
      else (true, counter + count)

  -- The callback that runs, with its argument, and the counter after the call.
  unfoldable pub handle_read : Notifier C → ℕ → Option (C × ℕ) × ℕ
  handle_read n counter =
      if eqb counter 0
      then (none, 0)
      else elim n.callback [ none ↦ (none, 0) | some c ↦ (some (c, counter), 0) ]

  -- Notifications one after the other, with the results.
  unfoldable pub notify_all : Notifier C → List ℕ → ℕ → List Bool × ℕ
  notify_all n [] counter = ([], counter)
  notify_all n (c ∷ cs) counter =
      let (ok, counter') = notify n c counter in
      let (oks, counter'') = notify_all n cs counter' in (ok ∷ oks, counter'')
