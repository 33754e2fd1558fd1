-- ===== src/MessageBus.antt =====
-- src/message_bus.cpp: subscriptions by topic, with the reverse index from subscription IDs. Each
-- method body runs under the mutex, so a call is one step; `publish` copies the subscription list
-- under the mutex and runs the callbacks after it. `C` is the type of the callbacks, and an empty
-- `std::function` is `none`.
pub mod Views
pub mod Index
pub mod Effects
pub mod Delivery
pub mod Runs
use edge_link.Prelude.{
  ℕ, suc, Bool, false, not, Option, none, some, List, [], ◌∷◌, ◌++◌, eqb, if◌then◌else◌, inc64,
  Text, length, is_empty,
}
use edge_link.Message.{Message}
use edge_link.Prelude.Dict.{find, put, erase}
use edge_link.Prelude.Keys.{nat_eq, text_eq}

pub record Subscription (C : Type 0) : Type 0 where
  pub id : ℕ
  pub callback : C

pub record MessageBus (C : Type 0) : Type 0 where
  pub next_subscription_id : ℕ
  pub subscribers : List (Text × List (Subscription C))
  pub subscription_topics : List (ℕ × Text)

module _ {C : Type 0} where
  unfoldable pub new : MessageBus C
  new = record { next_subscription_id = 1; subscribers = []; subscription_topics = [] }

  abbrev pub or_empty : Option (List (Subscription C)) → List (Subscription C)
  or_empty none = []
  or_empty (some subscriptions) = subscriptions

  -- `subscribers_[topic]`, where a missing key reads as the empty vector.
  unfoldable pub subscriptions_of : MessageBus C → Text → List (Subscription C)
  subscriptions_of b topic = or_empty (find topic b.subscribers)

  unfoldable pub enroll : MessageBus C → Text → C → MessageBus C
  enroll b topic callback =
      let id = b.next_subscription_id in
      record b {
        next_subscription_id = inc64 id;
        subscribers =
            put topic (subscriptions_of b topic ++ (record { id = id; callback = callback } ∷ []))
              b.subscribers;
        subscription_topics = put id topic b.subscription_topics;
      }

  unfoldable pub subscribe : MessageBus C → Text → Option C → ℕ × MessageBus C
  subscribe b topic none = (0, b)
  subscribe b topic (some callback) =
      if is_empty topic then (0, b) else (b.next_subscription_id, enroll b topic callback)

  -- `remove_if` and `erase`.
  unfoldable pub without : ℕ → List (Subscription C) → List (Subscription C)
  without id [] = []
  without id (s ∷ ss) = if eqb s.id id then without id ss else s ∷ without id ss

  unfoldable pub drop_from : MessageBus C → ℕ → Text → List (Subscription C) → Bool × MessageBus C
  drop_from b id topic subscriptions =
      let kept = without id subscriptions in
      (
        not (eqb (length kept) (length subscriptions)),
        record b {
          subscribers =
              if is_empty kept then erase topic b.subscribers else put topic kept b.subscribers;
          subscription_topics = erase id b.subscription_topics;
        },
      )

  unfoldable pub unsubscribe : MessageBus C → ℕ → Bool × MessageBus C
  unsubscribe b id = elim (find id b.subscription_topics) [
    | none ↦ (false, b)
    | some topic ↦ elim (find topic b.subscribers) [
      | none ↦ (false, record b { subscription_topics = erase id b.subscription_topics })
      | some subscriptions ↦ drop_from b id topic subscriptions
    ]
  ]

  pub subscriber_count : MessageBus C → Text → ℕ
  subscriber_count b topic = elim (find topic b.subscribers) [
    | none ↦ 0
    | some subscriptions ↦ length subscriptions
  ]

  unfoldable pub clear : MessageBus C → MessageBus C
  clear b = record b { subscribers = []; subscription_topics = [] }

-- A call of one of the methods that write the indexes.
pub data Call (C : Type 0) : Type 0 where
  subscribes : Text → Option C → Call C
  unsubscribes : ℕ → Call C
  clears : Call C

unfoldable pub step : {C : Type 0} → MessageBus C → Call C → MessageBus C
step b (subscribes topic callback) = (subscribe b topic callback).1
step b (unsubscribes id) = (unsubscribe b id).1
step b clears = clear b

unfoldable pub run : {C : Type 0} → MessageBus C → List (Call C) → MessageBus C
run b [] = b
run b (c ∷ cs) = run (step b c) cs

-- `publish` in a world `W` that holds the bus. A callback may do anything to the world, subscribe
-- and unsubscribe included; `call` says whether it returned or threw, and what it left.
module _ {C W : Type 0} (bus : W → MessageBus C) (call : C → Message → W → Bool × W) where
  unfoldable pub deliver : List (Subscription C) → Message → W → ℕ × W
  deliver [] message w = (0, w)
  deliver (s ∷ ss) message w =
      let (returned, w') = call s.callback message w in
      let (delivered, w'') = deliver ss message w' in
      (if returned then suc delivered else delivered, w'')

  unfoldable pub publish : Message → W → ℕ × W
  unfolding deliver
  publish message w =
      if is_empty message.topic then (0, w) else elim (find message.topic (bus w).subscribers) [
        | none ↦ (0, w)
        | some subscriptions ↦ deliver subscriptions message w
      ]
