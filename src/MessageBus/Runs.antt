-- ===== src/MessageBus/Runs.antt =====
-- Sequences of calls on the bus of src/message_bus.cpp.
use edge_link.Prelude.{
  ◌+◌, ◌≤◌, ◌<◌, ◌≡◌, refl, ap, ◌∙◌, inl, inr, true, false, some, List, [], ◌∷◌, ◌++◌, arith,
  eqb_iff, Bool-cases, is_some, u64_mod, Text, length, is_empty,
}
use edge_link.MessageBus.{
  new, Subscription, MessageBus, subscriptions_of, enroll, subscribe, without, drop_from,
  unsubscribe, clear, Call, subscribes, unsubscribes, clears, step, run,
}
use edge_link.MessageBus.Effects.{subscribe_lem, without_absent, unregistered, unsubscribe_lem}
use edge_link.MessageBus.Index.{IsValid, count, new-IsValid, clear-IsValid, subscribe-IsValid}
use edge_link.Prelude.Dict.{find, find-put}
use edge_link.Prelude.Keys.{nat_eq, text_beq, text_eq}

module _ {C : Type 0} where
  step_next :
      (b : MessageBus C) (c : Call C)
      → b.next_subscription_id + 1 < u64_mod
      → (step b c).next_subscription_id ≤ b.next_subscription_id + 1
  unfolding step subscribe enroll unsubscribe drop_from clear
  step_next b c room = ground arith

  step_keeps :
      (b : MessageBus C) (c : Call C)
      → b.next_subscription_id + 1 < u64_mod
      → IsValid b
      → IsValid (step b c)
  unfolding step
  step_keeps b (subscribes topic callback) room v = subscribe-IsValid b topic callback room v
  step_keeps b (unsubscribes id) room v = let (_, _, _, _, w) = unsubscribe_lem b id [] v in w
  step_keeps b clears room v = clear-IsValid b v

  run_keeps :
      (b : MessageBus C) (cs : List (Call C))
      → b.next_subscription_id + length cs < u64_mod
      → IsValid b
      → IsValid (run b cs)
  unfolding run
  run_keeps b [] room v = v
  run_keeps b (c ∷ cs) room v =
      let h : b.next_subscription_id + 1 < u64_mod = omega arith in
      let n = step_next b c h in run_keeps (step b c) cs (omega arith) (step_keeps b c h v)

  -- After any calls on a new bus, fewer than 2^64 - 1 of them, the two indexes agree: an ID is
  -- registered for a topic exactly if the topic's list holds it, and then once; no topic has an
  -- empty list, and the IDs in use are non-zero and below the counter.
  pub bus_run-IsValid : (cs : List (Call C)) → length cs + 1 < u64_mod → IsValid (run new cs)
  bus_run-IsValid cs room = run_keeps new cs (unfold new in omega arith) new-IsValid

  without-last :
      (xs : List (Subscription C)) (s : Subscription C)
      → count s.id xs ≡ 0
      → without s.id (xs ++ s ∷ []) ≡ xs
  unfolding without
  without-last [] s h = ground arith
  without-last (x ∷ xs) s h = ground (arith, without-last xs s)

  find-subscribe :
      (b : MessageBus C) (topic : Text) (callback : C)
      → is_empty topic ≡ false
      → let (id, b') = subscribe b topic (some callback) in
        find id b'.subscription_topics ≡ some topic
  unfolding subscribe enroll
  find-subscribe b topic callback t =
      let n = b.next_subscription_id in
      rw t (ground (arith, find-put n n topic b.subscription_topics, eqb_iff n n))

  -- On a bus whose indexes agree, below the wrap of the ID counter: ending a subscription to a
  -- topic with a name at once succeeds and leaves the list of every topic as it was before the
  -- subscription.
  pub unsubscribe-subscribe :
      (b : MessageBus C) (topic : Text) (callback : C) (j : Text)
      → is_empty topic ≡ false
      → b.next_subscription_id + 1 < u64_mod
      → IsValid b
      → let (id, b') = subscribe b topic (some callback) in
        let (ok, b'') = unsubscribe b' id in
        (ok ≡ true) × (subscriptions_of b'' j ≡ subscriptions_of b j)
  unsubscribe-subscribe b topic callback j t room v =
      let w = subscribe-IsValid b topic (some callback) room v in
      let (positive, fresh, lists) =
        (subscribe_lem b topic (some callback) j v).0 t callback refl in
      let id = (subscribe b topic (some callback)).0 in
      let (ok, left, _, _, _) = unsubscribe_lem (subscribe b topic (some callback)).1 id j w in
      let registered = find-subscribe b topic callback t in
      let absent : count id (subscriptions_of b j) ≡ 0 = unregistered b id j v fresh in
      (
        ok ∙ ap is_some registered,
        left ∙ elim (Bool-cases (text_beq topic j)) [
          | inl e ↦
              rw (lists, e)
                (without-last (subscriptions_of b j) (record { id = id; callback = callback })
                  absent)
          | inr e ↦ rw (lists, e) (without_absent id (subscriptions_of b j) absent)
        ],
      )
