-- ===== src/Storage/Stored.antt =====
-- src/storage_service.cpp: what is stored is read back.
use edge_link.Prelude.{ℕ, ◌≡◌}
use edge_link.Message.{Message}
use edge_link.Prelude.Decimal.{c_str}
use edge_link.Prelude.Keys.{text_eq, nat_eq}
use edge_link.Storage.RoundTrip.{Storable}
use edge_link.Storage.Values.{FloatText, timestamp_to_milliseconds, milliseconds_to_timestamp}

-- `duration_cast` of whole milliseconds loses nothing; of other times it is towards the epoch.
unfoldable pub whole_milliseconds : ℕ → ℕ
whole_milliseconds t = milliseconds_to_timestamp (timestamp_to_milliseconds t)

-- A message whose texts have no zero byte and whose value can be stored.
abbrev pub MessageStorable : FloatText → Message → Type 0
MessageStorable f m =
    (c_str m.topic ≡ m.topic)
    × (c_str m.device_id ≡ m.device_id)
    × (c_str m.tag_name ≡ m.tag_name)
    × Storable f m.value
