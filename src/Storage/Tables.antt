-- ===== src/Storage/Tables.antt =====
-- What src/storage_service.cpp relies on of SQLite for its two tables, as its documentation states it
-- for these statements: a statement that fails changes nothing, preparing and querying change no
-- table, IDs ascend with the insertions (`AUTOINCREMENT`), a query lists the rows in the order of
-- their IDs up to its limit, and a deletion counts the rows that it removed.
use edge_link.Prelude.{
  ℕ, ◌+◌, ◌≤◌, ◌<◌, ◌≡◌, refl, inl, inr, Bool, true, false, List, [], ◌∷◌, ◌++◌, map, arith, eqb,
  if◌then◌else◌, eqb_iff, Bool-cases, Text, length, take, All,
}
use edge_link.Prelude.Keys.{text_eq, nat_eq}
use edge_link.Storage.{SqlValue, Sqlite}
use edge_link.Storage.Messages.{insert_message_sql, select_messages_sql}
use edge_link.Storage.Outbox.{
  PendingMqttMessage, insert_pending_sql, select_pending_sql, select_pending_limit_sql,
  delete_pending_sql,
}

-- Each ID is above those before it.
abbrev pub Ascending : List PendingMqttMessage → Type 0
Ascending [] = Unit {0}
Ascending (m ∷ ms) = All (λ n. m.id < n.id) ms × Ascending ms

-- The messages whose ID is another one.
unfoldable pub without_id : ℕ → List PendingMqttMessage → List PendingMqttMessage
without_id id [] = []
without_id id (m ∷ ms) = if eqb m.id id then without_id id ms else m ∷ without_id id ms

length-without_id : (id : ℕ) (ms : List PendingMqttMessage) → length (without_id id ms) ≤ length ms
unfolding without_id
length-without_id id [] = omega arith
length-without_id id (m ∷ ms) = ground (arith, length-without_id id ms)

-- Nothing was removed where the length stayed.
without_id_same :
    (id : ℕ) (ms : List PendingMqttMessage)
    → length (without_id id ms) ≡ length ms
    → without_id id ms ≡ ms
unfolding without_id
without_id_same id [] h = refl
without_id_same id (m ∷ ms) h = ground (arith, length-without_id id ms, without_id_same id ms)

pub without_id_later :
    (id : ℕ) (ms : List PendingMqttMessage) → All (λ n. id < n.id) ms → without_id id ms ≡ ms
unfolding without_id
without_id_later id [] h = refl
without_id_later id (m ∷ ms) h = ground (arith, without_id_later id ms h.1)

-- At most one row has an ID.
length-le_without_id :
    (id : ℕ) (ms : List PendingMqttMessage)
    → Ascending ms
    → length ms ≤ length (without_id id ms) + 1
unfolding without_id
length-le_without_id id [] h = omega arith
length-le_without_id id (m ∷ ms) h = elim (Bool-cases (eqb m.id id)) [
  | inl e ↦
      let same = (eqb_iff m.id id).0 e in
      rw (e, without_id_later id ms (rw same at h.0)) (omega arith)
  | inr e ↦ rw e (omega (arith, length-le_without_id id ms h.1))
]

-- A deletion that did not count one row has removed none.
pub without_id_none :
    (id changes : ℕ) (ms : List PendingMqttMessage)
    → Ascending ms
    → changes + length (without_id id ms) ≡ length ms
    → eqb changes 1 ≡ false
    → without_id id ms ≡ ms
without_id_none id changes ms a counted other =
    without_id_same id ms (ground (arith, length-le_without_id id ms a))

abbrev pub pending_message : Text → Text → Bool → ℕ → ℕ → PendingMqttMessage
pending_message topic payload retain ms id = record {
  id = id;
  topic = topic;
  payload = payload;
  retain = retain;
  created_at_ms = ms;
}

-- One more row at the end, with an ID of the database's choice.
abbrev pub ExtendedBy :
    List PendingMqttMessage → List PendingMqttMessage → (ℕ → PendingMqttMessage) → Type 0
ExtendedBy before after row = (id : ℕ) × (after ≡ before ++ (row id ∷ []))

abbrev pub row_of_pending : PendingMqttMessage → List SqlValue
row_of_pending m =
    SqlValue.integer m.id
    ∷ SqlValue.text m.topic
    ∷ SqlValue.text m.payload
    ∷ SqlValue.integer (if m.retain then 1 else 0)
    ∷ SqlValue.integer m.created_at_ms
    ∷ []

module _ (lib : Sqlite) where
  open lib use {World}

  pub record TableLaws : Type 0 where
    pub messages : World → List (List SqlValue)
    pub pending : World → List PendingMqttMessage
    pub prepare_messages : (sql : Text) (w : World) → messages (lib.prepare sql w).1 ≡ messages w
    pub prepare_pending : (sql : Text) (w : World) → pending (lib.prepare sql w).1 ≡ pending w
    pub query_pending :
        (sql : Text) (vs : List SqlValue) (w : World) → pending (lib.query sql vs w).2 ≡ pending w
    pub insert_message :
        (topic device_id tag_name content : Text) (type_index quality ms : ℕ) (w : World)
        → let vs =
            SqlValue.text topic
            ∷ SqlValue.text device_id
            ∷ SqlValue.text tag_name
            ∷ SqlValue.integer type_index
            ∷ SqlValue.text content
            ∷ SqlValue.integer quality
            ∷ SqlValue.integer ms
            ∷ [] in
          let (stored, end) = lib.execute insert_message_sql vs w in
          stored ≡ true
          → (id : ℕ) × (messages end ≡ messages w ++ ((SqlValue.integer id ∷ vs) ∷ []))
    pub select_messages :
        (w : World)
        → let (rows, finished, end) = lib.query select_messages_sql [] w in
          finished ≡ true → rows ≡ messages w
    pub insert_pending :
        (topic payload : Text) (retain : Bool) (ms : ℕ) (w : World)
        → let (stored, end) =
            lib.execute insert_pending_sql
              (SqlValue.text topic
                ∷ SqlValue.text payload
                ∷ SqlValue.integer (if retain then 1 else 0)
                ∷ SqlValue.integer ms
                ∷ [])
              w in
          if stored
          then ExtendedBy (pending w) (pending end) (pending_message topic payload retain ms)
          else pending end ≡ pending w
    pub select_pending :
        (w : World)
        → let (rows, finished, end) = lib.query select_pending_sql [] w in
          finished ≡ true → rows ≡ map row_of_pending (pending w)
    pub select_pending_limit :
        (limit : ℕ) (w : World)
        → let (rows, finished, end) =
            lib.query select_pending_limit_sql (SqlValue.integer limit ∷ []) w in
          finished ≡ true → rows ≡ map row_of_pending (take limit (pending w))
    pub delete_pending :
        (id : ℕ) (w : World)
        → let (deleted, end) = lib.execute delete_pending_sql (SqlValue.integer id ∷ []) w in
          if deleted
          then (pending end ≡ without_id id (pending w))
            × (lib.changes end + length (pending end) ≡ length (pending w))
          else pending end ≡ pending w
    pub pending_ascending : (w : World) → Ascending (pending w)
