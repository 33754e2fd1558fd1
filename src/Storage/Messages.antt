-- ===== src/Storage/Messages.antt =====
-- src/storage_service.cpp: the stored messages, in the table `tag_messages`.
use edge_link.Prelude.{
  ℕ, Bool, false, not, Option, none, some, List, [], ◌∷◌, ltb, eqb, if◌then◌else◌, ◌>>=◌, Text,
  codes,
}
use edge_link.Codec.Decoder.{quality_of}
use edge_link.Codec.Encoder.{quality_rank}
use edge_link.Message.{Message}
use edge_link.Prelude.Decimal.{c_str}
use edge_link.Prelude.Keys.{text_eq, nat_eq}
use edge_link.Storage.{
  joined, SqlValue, Sqlite, Service, column_int64, column_int, read_text_column,
}
use edge_link.Storage.Outbox.{first_row}
use edge_link.Storage.Values.{
  FloatText, serialize_tag_value, deserialize_tag_value, timestamp_to_milliseconds,
  milliseconds_to_timestamp, is_valid_quality,
}

pub record StoredMessage : Type 0 where
  pub id : ℕ
  pub message : Message

abbrev pub insert_message_sql : Text
insert_message_sql = joined (
    codes "INSERT INTO tag_messages("
    ∷ codes "topic, device_id, tag_name, value_type, value_text, quality, timestamp_ms"
    ∷ codes ") VALUES(?, ?, ?, ?, ?, ?, ?);"
    ∷ [])

abbrev pub select_messages_sql : Text
select_messages_sql = joined (
    codes "SELECT id, topic, device_id, tag_name, "
    ∷ codes "value_type, value_text, quality, timestamp_ms "
    ∷ codes "FROM tag_messages ORDER BY id ASC;"
    ∷ [])

abbrev pub select_messages_limit_sql : Text
select_messages_limit_sql = joined (
    codes "SELECT id, topic, device_id, tag_name, "
    ∷ codes "value_type, value_text, quality, timestamp_ms "
    ∷ codes "FROM tag_messages ORDER BY id ASC LIMIT ?;"
    ∷ [])

-- `push_back`, unless the row is skipped.
abbrev pub kept : Option StoredMessage → List StoredMessage → List StoredMessage
kept none rest = rest
kept (some m) rest = m ∷ rest

module _ (lib : Sqlite) (f : FloatText) where
  open lib use {World}

  -- What `storeMessage` binds.
  unfoldable pub message_values : Message → List SqlValue
  message_values m =
      let v = serialize_tag_value f m.value in
      SqlValue.text (c_str m.topic)
      ∷ SqlValue.text (c_str m.device_id)
      ∷ SqlValue.text (c_str m.tag_name)
      ∷ SqlValue.integer v.type_index
      ∷ SqlValue.text (c_str v.content)
      ∷ SqlValue.integer (quality_rank m.quality)
      ∷ SqlValue.integer (timestamp_to_milliseconds m.timestamp)
      ∷ []

  unfoldable pub store_message : Service → Message → World → Bool × World
  store_message s m w =
      if not s.database
      then (false, w)
      else let (prepared, after) = lib.prepare insert_message_sql w in
        if not prepared
        then (false, after)
        else lib.execute insert_message_sql (message_values m) after

  -- A row that is not skipped.
  unfoldable pub message_of_row : List SqlValue → Option StoredMessage
  message_of_row row =
      let quality_value = column_int lib row 6 in
      if not (is_valid_quality quality_value)
      then none
      else (deserialize_tag_value f (column_int lib row 4) (read_text_column lib row 5) >>= λ v.
          some (record {
            id = column_int64 lib row 0;
            message = record {
              topic = read_text_column lib row 1;
              device_id = read_text_column lib row 2;
              tag_name = read_text_column lib row 3;
              value = v;
              quality = quality_of quality_value;
              timestamp = milliseconds_to_timestamp (column_int64 lib row 7);
            };
          }))

  -- The loop over the rows.
  unfoldable pub read_messages : List (List SqlValue) → List StoredMessage
  read_messages [] = []
  read_messages (row ∷ rows) = let rest = read_messages rows in kept (message_of_row row) rest

  unfoldable pub load_messages : Service → ℕ → World → List StoredMessage × World
  load_messages s limit w =
      let sql = if eqb limit 0 then select_messages_sql else select_messages_limit_sql in
      if not s.database
      then ([], w)
      else let (prepared, after) = lib.prepare sql w in
        if not prepared
        then ([], after)
        else let (rows, finished, end) =
            lib.query sql (if ltb 0 limit then SqlValue.integer limit ∷ [] else []) after in
          (if finished then read_messages rows else [], end)

unfoldable pub message_count : (lib : Sqlite) → Service → lib.World → ℕ × lib.World
message_count lib s w =
    let (row, end) = first_row lib s (codes "SELECT COUNT(*) FROM tag_messages;") w in
    (elim row [ none ↦ 0 | some columns ↦ column_int64 lib columns 0 ], end)
