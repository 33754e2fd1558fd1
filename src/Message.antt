-- ===== src/Message.antt =====
-- `struct Message` of include/edgelink/message_bus.h, with the representation of Device.antt.
use edge_link.Prelude.{ℕ, [], Text}
use edge_link.Device.{Quality, TagValue}
use edge_link.Prelude.Keys.{nat_eq, text_eq}

pub record Message : Type 0 where
  pub topic : Text
  pub device_id : Text
  pub tag_name : Text
  pub value : TagValue
  pub quality : Quality
  pub timestamp : ℕ

-- `Message message;`
abbrev pub empty_message : Message
empty_message = record {
  topic = [];
  device_id = [];
  tag_name = [];
  value = TagValue.monostate;
  quality = Quality.invalid;
  timestamp = 0;
}
