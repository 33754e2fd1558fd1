-- ===== src/Storage/Contract.antt =====
-- What the users of src/storage_service.cpp rely on of the queue of waiting MQTT messages: an abstract
-- queue in the order of IDs.
use edge_link.Prelude.{ℕ, ◌≡◌, ◌⊎◌, Bool, List, [], eqb, if◌then◌else◌, Text, take}
use edge_link.Prelude.Decimal.{c_str}
use edge_link.Prelude.Keys.{text_eq, nat_eq}
use edge_link.Storage.Outbox.{PendingMqttMessage}
use edge_link.Storage.Tables.{Ascending, without_id, pending_message, ExtendedBy}
use edge_link.Storage.Values.{timestamp_to_milliseconds}

pub record Queue : Type 1 where
  pub Store : Type 0
  pub rows : Store → List PendingMqttMessage
  pub enqueue : Text → Text → Bool → ℕ → Store → Bool × Store
  pub load : ℕ → Store → List PendingMqttMessage × Store
  pub remove_row : ℕ → Store → Bool × Store

module _ (q : Queue) where
  open q use {Store, rows, enqueue, load, remove_row}

  pub record QueueLaws : Type 0 where
    -- a success adds one row at the end, and nothing else changes
    pub enqueue_rows :
        (topic payload : Text) (retain : Bool) (now : ℕ) (s : Store)
        → let (ok, s') = enqueue topic payload retain now s in
          if ok
          then ExtendedBy
              (rows s)
              (rows s')
              (pending_message (c_str topic) (c_str payload) retain (timestamp_to_milliseconds now))
          else rows s' ≡ rows s
    -- reading gives the first rows, at most as many as asked for, or nothing after an error
    pub load_rows :
        (limit : ℕ) (s : Store)
        → let (ms, s') = load limit s in
          (rows s' ≡ rows s)
          × ((ms ≡ []) ⊎ (ms ≡ (if eqb limit 0 then rows s else take limit (rows s))))
    -- a removal takes the row of the ID, or nothing
    pub remove_rows :
        (id : ℕ) (s : Store)
        → let (ok, s') = remove_row id s in
          rows s' ≡ (if ok then without_id id (rows s) else rows s)
    pub ascending : (s : Store) → Ascending (rows s)
