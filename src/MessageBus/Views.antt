-- ===== src/MessageBus/Views.antt =====
-- The subscription list of each topic after the writes of src/message_bus.cpp.
use edge_link.Prelude.{
  ℕ, ◌≡◌, refl, true, List, [], ◌∷◌, ◌++◌, arith, if◌then◌else◌, Text, is_empty,
}
use edge_link.MessageBus.{
  Subscription, MessageBus, or_empty, subscriptions_of, enroll, without, drop_from,
}
use edge_link.Prelude.Dict.{find, find-put, find-erase}
use edge_link.Prelude.Keys.{nat_eq, text_beq, text_beq_iff, text_eq}

module _ {C : Type 0} where
  pub is_empty-nil : (xs : List (Subscription C)) → is_empty xs ≡ true → xs ≡ []
  is_empty-nil [] h = refl
  is_empty-nil (x ∷ xs) h = cc

  pub subscriptions_of-enroll :
      (b : MessageBus C) (topic : Text) (callback : C) (j : Text)
      → let s : Subscription C = record { id = b.next_subscription_id; callback = callback } in
        subscriptions_of (enroll b topic callback) j
        ≡ (if text_beq topic j then subscriptions_of b j ++ s ∷ [] else subscriptions_of b j)
  unfolding enroll subscriptions_of
  subscriptions_of-enroll b topic callback j =
      let s : Subscription C = record { id = b.next_subscription_id; callback = callback } in
      ground (
        arith,
        find-put topic j (or_empty (find topic b.subscribers) ++ s ∷ []) b.subscribers,
        text_beq_iff topic j,
      )

  pub subscriptions_of-drop_from :
      (b : MessageBus C) (id : ℕ) (topic : Text) (ss : List (Subscription C)) (j : Text)
      → subscriptions_of (drop_from b id topic ss).1 j
        ≡ (if text_beq topic j then without id ss else subscriptions_of b j)
  unfolding drop_from subscriptions_of
  subscriptions_of-drop_from b id topic ss j = ground (
    arith,
    find-put topic j (without id ss) b.subscribers,
    find-erase topic j b.subscribers,
    is_empty-nil (without id ss),
  )
