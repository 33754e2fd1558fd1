-- ===== src/Storage/Outbox.antt =====
-- src/storage_service.cpp: the MQTT messages that wait to be sent, in the table `mqtt_outbox`.
use edge_link.Prelude.{
  ℕ, ◌^◌, Bool, false, not, ◌&&◌, ◌||◌, Option, none, some, List, [], ◌∷◌, map, ltb, leb, eqb,
  if◌then◌else◌, Text, codes, is_empty,
}
use edge_link.Prelude.Decimal.{c_str}
use edge_link.Prelude.Keys.{text_eq, nat_eq}
use edge_link.Storage.{
  joined, SqlValue, Sqlite, Service, column_int64, column_int, read_text_column,
}
use edge_link.Storage.Values.{timestamp_to_milliseconds}

pub record PendingMqttMessage : Type 0 where
  pub id : ℕ
  pub topic : Text
  pub payload : Text
  pub retain : Bool
  pub created_at_ms : ℕ

abbrev pub insert_pending_sql : Text
insert_pending_sql = joined (
    codes "INSERT INTO mqtt_outbox(topic, payload, retain, created_at_ms) "
    ∷ codes "VALUES(?, ?, ?, ?);"
    ∷ [])

abbrev pub select_pending_sql : Text
select_pending_sql = joined (
    codes "SELECT id, topic, payload, retain, created_at_ms "
    ∷ codes "FROM mqtt_outbox ORDER BY id ASC;"
    ∷ [])

abbrev pub select_pending_limit_sql : Text
select_pending_limit_sql = joined (
    codes "SELECT id, topic, payload, retain, created_at_ms "
    ∷ codes "FROM mqtt_outbox ORDER BY id ASC LIMIT ?;"
    ∷ [])

abbrev pub delete_pending_sql : Text
delete_pending_sql = codes "DELETE FROM mqtt_outbox WHERE id = ?;"

abbrev pub count_pending_sql : Text
count_pending_sql = codes "SELECT COUNT(*) FROM mqtt_outbox;"

module _ (lib : Sqlite) where
  open lib use {World}

  -- At the system time `now`.
  unfoldable pub enqueue_mqtt_message : Service → Text → Text → Bool → ℕ → World → Bool × World
  enqueue_mqtt_message s topic payload retain now w =
      if not s.database || is_empty topic
      then (false, w)
      else let (prepared, after) = lib.prepare insert_pending_sql w in
        if not prepared
        then (false, after)
        else lib.execute insert_pending_sql
            (SqlValue.text (c_str topic)
              ∷ SqlValue.text (c_str payload)
              ∷ SqlValue.integer (if retain then 1 else 0)
              ∷ SqlValue.integer (timestamp_to_milliseconds now)
              ∷ [])
            after

  unfoldable pub pending_of_row : List SqlValue → PendingMqttMessage
  pending_of_row row = record {
    id = column_int64 lib row 0;
    topic = read_text_column lib row 1;
    payload = read_text_column lib row 2;
    retain = not (eqb (column_int lib row 3) 0);
    created_at_ms = column_int64 lib row 4;
  }

  unfoldable pub load_pending_mqtt_messages : Service → ℕ → World → List PendingMqttMessage × World
  load_pending_mqtt_messages s limit w =
      let sql = if eqb limit 0 then select_pending_sql else select_pending_limit_sql in
      if not s.database
      then ([], w)
      else let (prepared, after) = lib.prepare sql w in
        if not prepared
        then ([], after)
        else let (rows, finished, end) =
            lib.query sql (if ltb 0 limit then SqlValue.integer limit ∷ [] else []) after in
          (if finished then map pending_of_row rows else [], end)

  -- `messageId` is the bit pattern of 64 bits; `messageId <= 0` is zero or the high bit.
  unfoldable pub remove_pending_mqtt_message : Service → ℕ → World → Bool × World
  remove_pending_mqtt_message s message_id w =
      if not s.database || eqb message_id 0 || leb (2 ^ 63) message_id
      then (false, w)
      else let (prepared, after) = lib.prepare delete_pending_sql w in
        if not prepared
        then (false, after)
        else let (deleted, end) =
            lib.execute delete_pending_sql (SqlValue.integer message_id ∷ []) after in
          (deleted && eqb (lib.changes end) 1, end)

  -- The first column of the first row of a query without values, if there is one.
  unfoldable pub first_row : Service → Text → World → Option (List SqlValue) × World
  first_row s sql w =
      if not s.database
      then (none, w)
      else let (prepared, after) = lib.prepare sql w in
        if not prepared
        then (none, after)
        else let (rows, finished, end) = lib.query sql [] after in
          (elim rows [ [] ↦ none | row ∷ others ↦ some row ], end)

  unfoldable pub pending_mqtt_message_count : Service → World → ℕ × World
  pending_mqtt_message_count s w =
      let (row, end) = first_row s count_pending_sql w in
      (elim row [ none ↦ 0 | some columns ↦ column_int64 lib columns 0 ], end)

  unfoldable pub journal_mode : Service → World → Text × World
  journal_mode s w =
      let (row, end) = first_row s (codes "PRAGMA journal_mode;") w in
      (elim row [ none ↦ [] | some columns ↦ read_text_column lib columns 0 ], end)
