-- ===== src/Attachment.antt =====
-- `attachMessageBus` and `detachMessageBus`, which src/storage_service.cpp and src/mqtt_service.cpp
-- share word for word: the subscription of a service on the one message bus of the program. `C` is the
-- type of the callbacks, and the service's own is a parameter.
pub mod Laws
use edge_link.MessageBus
use edge_link.Prelude.{ℕ, Bool, true, false, not, ◌&&◌, some, eqb, if◌then◌else◌, Text}
use edge_link.MessageBus.{MessageBus}
use edge_link.Prelude.Keys.{text_eq, nat_eq}

-- `messageBus_ != nullptr` and `subscriptionId_`.
pub record Attachment : Type 0 where
  pub message_bus : Bool
  pub subscription_id : ℕ

abbrev pub detached : Attachment
detached = record { message_bus = false; subscription_id = 0 }

module _ {C : Type 0} where
  unfoldable pub detach_message_bus : Attachment → MessageBus C → Attachment × MessageBus C
  detach_message_bus a bus = (
    detached,
    if a.message_bus && not (eqb a.subscription_id 0)
        then (MessageBus.unsubscribe bus a.subscription_id).1
        else bus,
  )

  -- `ready` is `isOpen()` for the storage service, and true for the MQTT service.
  unfoldable pub attach_message_bus :
      Bool → Attachment → MessageBus C → Text → C → Bool × Attachment × MessageBus C
  attach_message_bus ready a bus topic callback =
      let (none_left, freed) = detach_message_bus a bus in
      if not ready
      then (false, none_left, freed)
      else let (id, subscribed) = MessageBus.subscribe freed topic (some callback) in
        if eqb id 0
        then (false, none_left, subscribed)
        else (true, record { message_bus = true; subscription_id = id }, subscribed)
