-- ===== src/Attachment/Laws.antt =====
-- A service on the message bus: the subscription of `attachMessageBus` is the one that
-- `detachMessageBus` ends.
use edge_link.MessageBus
use edge_link.Prelude.{
  ◌+◌, ◌<◌, ◌≡◌, refl, Bool, true, false, some, arith, eqb, u64_mod, Text, is_empty,
}
use edge_link.Attachment.{detached, detach_message_bus, attach_message_bus}
use edge_link.MessageBus.{MessageBus, subscriptions_of}
use edge_link.MessageBus.Effects.{subscribe_lem}
use edge_link.MessageBus.Index.{IsValid}
use edge_link.MessageBus.Runs.{unsubscribe-subscribe}
use edge_link.Prelude.Keys.{text_eq, nat_eq}

module _ {C : Type 0} where
  -- On a bus whose indexes agree, below the wrap of its ID counter: a ready service without a
  -- subscription, attached to a topic with a name, is subscribed to it; detached after that, it leaves
  -- the subscriptions of every topic as they were. A service that is not ready changes nothing.
  pub detach-attach :
      (ready : Bool) (bus : MessageBus C) (topic : Text) (callback : C) (j : Text)
      → is_empty topic ≡ false
      → bus.next_subscription_id + 1 < u64_mod
      → IsValid bus
      → let (ok, a, attached) = attach_message_bus ready detached bus topic callback in
        let (left, after) = detach_message_bus a attached in
        (ok ≡ ready)
        × (a.message_bus ≡ ready)
        × (left ≡ detached)
        × (subscriptions_of after j ≡ subscriptions_of bus j)
        × (ready ≡ false → attached ≡ bus)
  unfolding attach_message_bus detach_message_bus
  detach-attach false bus topic callback j named room v = (refl, refl, refl, refl, λ _. refl)
  detach-attach true bus topic callback j named room v =
      let (positive, unused, lists) =
        (subscribe_lem bus topic (some callback) j v).0 named callback refl in
      let (removed, back) = unsubscribe-subscribe bus topic callback j named room v in
      let given : eqb ((MessageBus.subscribe bus topic (some callback)).0) 0 ≡ false =
        ground arith in
      rw given (refl, refl, refl, rw given back, λ h. cc)
