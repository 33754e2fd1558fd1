-- ===== src/Tests/BusRuns.antt =====
-- Runs of src/message_bus.cpp, src/device_scheduler.cpp, src/timer.cpp, src/eventfd_notifier.cpp and
-- src/control_command_processor.cpp.
use edge_link.EventFd
use edge_link.Timer
use edge_link.Scheduler.Timers
use edge_link.Scheduler
use edge_link.MessageBus
use edge_link.Prelude.{
  inl, inr, ℕ, ◌+◌, ◌≤◌, ◌<◌, ◌≡◌, refl, Bool, true, false, not, none, some, List, [], ◌∷◌, ◌++◌,
  map, arith, eqb, if◌then◌else◌, is_some, u64_mod, Text, codes,
}
use edge_link.Control.{process}
use edge_link.Control.Normal.{process-normal}
use edge_link.EventFd.{Notifier, counter_max, notify_all}
use edge_link.EventFd.Counts.{sum_accepted, handle_read-notify_all}
use edge_link.Message.{Message, empty_message}
use edge_link.MessageBus.{
  MessageBus, subscriptions_of, subscribe, without, unsubscribe, run, publish,
}
use edge_link.MessageBus.Delivery.{successes, publish_log}
use edge_link.MessageBus.Effects.{unsubscribe_lem}
use edge_link.MessageBus.Runs.{bus_run-IsValid}
use edge_link.Prelude.Dict.{find, put}
use edge_link.Prelude.Keys.{nat_eq, text_eq}
use edge_link.Scheduler.{Scheduler}
use edge_link.Scheduler.Runs.{scheduler_run-IsValid, outline, all_accepted, start_lem}
use edge_link.Timer.{expires_at, Timer, start_once, start_periodic, timer_start_lem}

abbrev topic_a : Text
topic_a = codes "a"

abbrev topic_b : Text
topic_b = codes "b"

-- Two subscriptions to one topic, one to another, and the end of the first.
abbrev bus_calls : List (MessageBus.Call ℕ)
bus_calls =
    MessageBus.Call.subscribes topic_a (some 7)
    ∷ MessageBus.Call.subscribes topic_a (some 8)
    ∷ MessageBus.Call.subscribes topic_b (some 9)
    ∷ MessageBus.Call.unsubscribes 1
    ∷ []

abbrev bus : MessageBus ℕ
bus = MessageBus.run MessageBus.new bus_calls

bus_ok : MessageBus.Index.IsValid bus
bus_ok = bus_run-IsValid bus_calls (omega arith)

bus_run-IsValid_example : MessageBus.Index.IsValid (MessageBus.run MessageBus.new bus_calls)
bus_run-IsValid_example = bus_run-IsValid bus_calls (omega arith)

unsubscribe_example :
    let (ok, b') = unsubscribe bus 2 in
    (ok ≡ is_some (find 2 bus.subscription_topics))
    × (subscriptions_of b' topic_a ≡ without 2 (subscriptions_of bus topic_a))
    × (find 2 b'.subscription_topics ≡ none)
    × (ok ≡ false → b' ≡ bus)
    × MessageBus.Index.IsValid b'
unsubscribe_example = unsubscribe_lem bus 2 topic_a bus_ok

bus_room : bus.next_subscription_id + 1 < u64_mod
unfolding MessageBus.run MessageBus.step subscribe MessageBus.new MessageBus.enroll unsubscribe find
    put MessageBus.drop_from
bus_room = omega arith

-- A world that is the bus and the log; callback 8 throws, and callback 9 ends subscription 2.
abbrev World : Type 0
World = MessageBus ℕ × List (ℕ × Bool)

abbrev call_back : ℕ → Message → World → Bool × World
call_back c message (b, log) =
    (not (eqb c 8), (if eqb c 9 then (unsubscribe b 2).1 else b, log ++ (c, not (eqb c 8)) ∷ []))

abbrev message_a : Message
message_a = record empty_message { topic = topic_a }

publish_example :
    let (delivered, w') = publish (λ (w : World). w.0) call_back message_a (bus, []) in
    (es : List (ℕ × Bool)) × (w'.1 ≡ [] ++ es)
    × (map (λ e. e.0) es ≡ map (λ s. s.callback) (subscriptions_of bus topic_a))
    × (delivered ≡ successes es)
publish_example =
    publish_log (λ (w : World). w.0) call_back (λ w. w.1) (λ c m w. refl) message_a (bus, [])

-- A task is added, the scheduler starts, another is added and a restart is refused by the kernel.
abbrev task_calls : List (Scheduler.Call ℕ)
task_calls =
    Scheduler.Call.add 500 (some 1) true true
    ∷ Scheduler.Call.starts (λ id. true)
    ∷ Scheduler.Call.add 2500 (some 2) true true
    ∷ Scheduler.Call.stops
    ∷ Scheduler.Call.starts (λ id. eqb id 1)
    ∷ []

scheduler_run-IsValid_example : Scheduler.Timers.IsValid (Scheduler.run Scheduler.new task_calls)
scheduler_run-IsValid_example = scheduler_run-IsValid task_calls (omega arith)

abbrev scheduler : Scheduler ℕ
scheduler = Scheduler.run Scheduler.new task_calls

start_example :
    let (ok, s') = Scheduler.start scheduler (λ id. eqb id 2) in
    (scheduler.running ≡ false
      → (ok ≡ all_accepted (λ id. eqb id 2) scheduler.tasks) × (s'.running ≡ ok))
    × (scheduler.running ≡ true → (ok ≡ true) × (s' ≡ scheduler))
    × (outline s'.tasks ≡ outline scheduler.tasks)
    × (outline (Scheduler.stop s').tasks ≡ outline scheduler.tasks)
    × (s'.next_task_id ≡ scheduler.next_task_id)
start_example = start_lem scheduler (λ id. eqb id 2)

timer_start_example :
    let t : Timer ℕ = Timer.new in
    let (once_ok, once) = start_once t true 1500 (some 3) in
    let (periodic_ok, periodic) = start_periodic t true 1500 (some 3) in
    (once_ok ≡ true)
    × (periodic_ok ≡ true)
    × (Timer.handle_read once 8 ≡ some 3)
    × (Timer.handle_read periodic 8 ≡ some 3)
    × (once.spec.value_nsec < 1000000000)
    × (periodic.spec.interval_nsec < 1000000000)
    × (expires_at once.spec 1 ≡ none)
    × (expires_at periodic.spec 1 ≡ some 3000000000)
    × (expires_at (Timer.stop once).spec 1 ≡ none)
timer_start_example = timer_start_lem Timer.new 1500 1 (some 3)

abbrev notifier : Notifier ℕ
notifier = record { has_fd = true; callback = some 4 }

handle_read-notify_all_example :
    let (oks, counter) = notify_all notifier (2 ∷ 0 ∷ 5 ∷ []) 0 in
    let (run, left) = EventFd.handle_read notifier counter in
    (counter ≡ sum_accepted (2 ∷ 0 ∷ 5 ∷ []) oks)
    × (sum_accepted (2 ∷ 0 ∷ 5 ∷ []) oks ≤ counter_max)
    × (run ≡ (if eqb counter 0 then none else some (4, sum_accepted (2 ∷ 0 ∷ 5 ∷ []) oks)))
    × (EventFd.handle_read notifier left ≡ (none, 0))
handle_read-notify_all_example = handle_read-notify_all notifier 4 (2 ∷ 0 ∷ 5 ∷ []) refl

process-normal_example :
    process (codes "  " ++ (codes "pInG" ++ codes " ")) ≡ process (codes "PING")
process-normal_example =
    process-normal (codes "  ") (codes "pInG") (codes "PING") (codes " ") (refl, (refl, tt))
      (refl, tt)
      (
        inr (inl (omega arith, omega arith, refl)),
        (inl refl, (inr (inl (omega arith, omega arith, refl)), (inl refl, tt))),
      )
