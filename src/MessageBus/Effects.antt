-- ===== src/MessageBus/Effects.antt =====
-- What a subscription and its end do to the lists that `publish` of src/message_bus.cpp reads.
use edge_link.Prelude.{
  ℕ, ◌<◌, ◌≡◌, refl, sym, ap, ◌∙◌, ◌⊎◌, inl, inr, true, false, Option, none, some, List, [], ◌∷◌,
  ◌++◌, arith, if◌then◌else◌, eqb_iff, Option-cases, is_some, Text, is_empty,
}
use edge_link.MessageBus.{
  Subscription, MessageBus, subscriptions_of, subscribe, without, drop_from, unsubscribe,
}
use edge_link.MessageBus.Index.{
  IsValid, count, registered, find_next, length-without, find-subscribers, drop_from-IsValid,
}
use edge_link.MessageBus.Views.{subscriptions_of-enroll, subscriptions_of-drop_from}
use edge_link.Prelude.Dict.{find, find-erase}
use edge_link.Prelude.Keys.{nat_eq, text_beq, text_beq_iff, text_eq}

module _ {C : Type 0} where
  -- On a bus whose indexes agree, a subscription with a topic and a callback gets a new, non-zero
  -- ID and stands last in the list of its topic; all other lists are as before. Any other call
  -- returns 0 and changes nothing.
  pub subscribe_lem :
      (b : MessageBus C) (topic : Text) (callback : Option C) (j : Text)
      → IsValid b
      → let (id, b') = subscribe b topic callback in
        (is_empty topic ≡ false
          → (c : C) → callback ≡ some c
          → (0 < id)
            × (find id b.subscription_topics ≡ none)
            × (subscriptions_of b' j ≡ (
                if text_beq topic j
                then subscriptions_of b j ++ record { id = id; callback = c } ∷ []
                else subscriptions_of b j)))
        × ((is_empty topic ≡ true) ⊎ (callback ≡ none) → (id ≡ 0) × (b' ≡ b))
  unfolding subscribe
  subscribe_lem b topic none j v = ground arith
  subscribe_lem b topic (some c) j v =
      let n = b.next_subscription_id in
      let positive = v.next_positive in
      ground (
        arith,
        subscriptions_of-enroll b topic c j,
        find_next n n b.subscription_topics v.given_out (omega arith),
      )

  pub without_absent : (id : ℕ) (xs : List (Subscription C)) → count id xs ≡ 0 → without id xs ≡ xs
  unfolding without
  without_absent id [] h = refl
  without_absent id (x ∷ xs) h = ground (arith, without_absent id xs)

  drop_from_lists :
      (b : MessageBus C) (id : ℕ) (topic j : Text)
      → IsValid b
      → find id b.subscription_topics ≡ some topic
      → subscriptions_of (drop_from b id topic (subscriptions_of b topic)).1 j
        ≡ without id (subscriptions_of b j)
  drop_from_lists b id topic j v f = ground (
    arith,
    subscriptions_of-drop_from b id topic (subscriptions_of b topic) j,
    v.indexed id j,
    without_absent id (subscriptions_of b j),
    text_beq_iff topic j,
  )

  drop_from_result :
      (b : MessageBus C) (id : ℕ) (topic : Text)
      → IsValid b
      → find id b.subscription_topics ≡ some topic
      → let (ok, b') = drop_from b id topic (subscriptions_of b topic) in
        (ok ≡ true) × (find id b'.subscription_topics ≡ none)
  unfolding drop_from
  drop_from_result b id topic v f = ground (
    arith,
    find-subscribers b id topic v f,
    length-without id (subscriptions_of b topic),
    find-erase id id b.subscription_topics,
    eqb_iff id id,
  )

  pub unregistered :
      (b : MessageBus C) (id : ℕ) (j : Text)
      → IsValid b
      → find id b.subscription_topics ≡ none
      → count id (subscriptions_of b j) ≡ 0
  unregistered b id j v e = v.indexed id j ∙ ap (λ o. registered o j) e

  -- With both indexes in agreement, `unsubscribe` succeeds exactly when the ID is registered. It then
  -- removes that one subscription, keeps the order of the rest and every other list, and the ID is
  -- no longer registered; a call that fails changes nothing.
  pub unsubscribe_lem :
      (b : MessageBus C) (id : ℕ) (j : Text)
      → IsValid b
      → let (ok, b') = unsubscribe b id in
        (ok ≡ is_some (find id b.subscription_topics))
        × (subscriptions_of b' j ≡ without id (subscriptions_of b j))
        × (find id b'.subscription_topics ≡ none)
        × (ok ≡ false → b' ≡ b)
        × IsValid b'
  unfolding unsubscribe
  unsubscribe_lem b id j v = elim (Option-cases (find id b.subscription_topics)) [
    | inl e ↦
        rw (e, unsubscribe)
          (
            refl,
            sym (without_absent id (subscriptions_of b j) (unregistered b id j v e)),
            e,
            λ _. refl,
            v,
          )
    | inr (topic, e) ↦
        let r = drop_from_result b id topic v e in
        rw (e, unsubscribe, (find-subscribers b id topic v e).0)
          (
            r.0,
            drop_from_lists b id topic j v e,
            r.1,
            λ h. cc (r.0),
            drop_from-IsValid b id topic v e,
          )
  ]
