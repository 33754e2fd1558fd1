-- ===== src/Storage/Refinement.antt =====
-- src/storage_service.cpp: the outbox table implements the abstract queue.
use edge_link.Prelude.{
  ℕ, zero, suc, ◌%◌, ◌^◌, ◌≡◌, refl, sym, ap, ap₂, ◌∙◌, ◌⊎◌, inl, inr, Bool, true, false, not, ◌||◌,
  List, [], ◌∷◌, map, arith, ltb, leb, eqb, if◌then◌else◌, Bool-cases, Text, is_empty, take,
}
use edge_link.Prelude.Decimal.{c_str}
use edge_link.Prelude.Keys.{text_eq, nat_eq}
use edge_link.SharedMemory.{stored}
use edge_link.Storage.{
  SqlValue, Sqlite, Service, column, column_int64, column_int, read_text_column,
}
use edge_link.Storage.Contract.{Queue, QueueLaws}
use edge_link.Storage.Outbox.{
  PendingMqttMessage, insert_pending_sql, select_pending_sql, select_pending_limit_sql,
  delete_pending_sql, enqueue_mqtt_message, pending_of_row, load_pending_mqtt_messages,
  remove_pending_mqtt_message,
}
use edge_link.Storage.Plain.{
  plain, map-plain-append, without_id-map-plain, take-map-plain, map-plain-Ascending,
}
use edge_link.Storage.Tables.{
  without_id, without_id_none, pending_message, ExtendedBy, row_of_pending, TableLaws,
}
use edge_link.Storage.Values.{timestamp_to_milliseconds}

module _ (lib : Sqlite) (t : TableLaws lib) (s : Service) where
  open lib use {World}
  open t use {pending}

  -- The rows as the service reads them.
  abbrev seen : World → List PendingMqttMessage
  seen w = map plain (pending w)

  -- The service's operations on the outbox, on the world of the database.
  unfoldable pub storage_queue : Queue
  storage_queue = record {
    Store = World;
    rows = seen;
    enqueue = enqueue_mqtt_message lib s;
    load = load_pending_mqtt_messages lib s;
    remove_row = remove_pending_mqtt_message lib s;
  }

  added_row :
      (topic payload : Text) (retain : Bool) (ms : ℕ) (w : World)
      → let (stored, end) =
          lib.execute insert_pending_sql
            (SqlValue.text (c_str topic)
              ∷ SqlValue.text (c_str payload)
              ∷ SqlValue.integer (if retain then 1 else 0)
              ∷ SqlValue.integer ms
              ∷ [])
            w in
        if stored
        then ExtendedBy
            (map plain (pending w))
            (seen end)
            (pending_message (c_str topic) (c_str payload) retain ms)
        else seen end ≡ map plain (pending w)
  added_row topic payload retain ms w =
      let values =
        SqlValue.text (c_str topic)
        ∷ SqlValue.text (c_str payload)
        ∷ SqlValue.integer (if retain then 1 else 0)
        ∷ SqlValue.integer ms
        ∷ [] in
      let law = t.insert_pending (c_str topic) (c_str payload) retain ms w in
      elim (Bool-cases (lib.execute insert_pending_sql values w).0) [
        | inl e ↦
            let (id, more_rows) = rw e at law in
            rw e (
              id,
              ap (map plain) more_rows ∙ map-plain-append (pending w) topic payload retain ms id,
            )
        | inr e ↦ rw e (ap (map plain) (rw e at law))
      ]

  enqueue_pending :
      (topic payload : Text) (retain : Bool) (now : ℕ) (w : World)
      → let (ok, w') = enqueue_mqtt_message lib s topic payload retain now w in
        if ok
        then ExtendedBy
            (seen w)
            (seen w')
            (pending_message (c_str topic) (c_str payload) retain (timestamp_to_milliseconds now))
        else seen w' ≡ seen w
  unfolding enqueue_mqtt_message
  enqueue_pending topic payload retain now w =
      let kept = t.prepare_pending insert_pending_sql w in
      let stored =
        added_row topic payload retain (timestamp_to_milliseconds now)
          (lib.prepare insert_pending_sql w).1 in
      elim (Bool-cases (not s.database || is_empty topic)) [
        | inl e ↦ rw e refl
        | inr e ↦ elim (Bool-cases ((lib.prepare insert_pending_sql w).0)) [
          | inl p ↦ rw (e, p) (rw kept at stored)
          | inr p ↦ rw (e, p) (ap (map plain) kept)
        ]
      ]

  pending_of_row_lem : (m : PendingMqttMessage) → pending_of_row lib (row_of_pending m) ≡ plain m
  unfolding pending_of_row column_int64 column_int read_text_column column
  pending_of_row_lem m =
      let same : not (eqb ((if m.retain then 1 else 0) % 2 ^ 32) 0) ≡ m.retain = ground arith in
      ap (λ b. record (plain m) { retain = b }) same

  pending_of_rows :
      (ms : List PendingMqttMessage)
      → map (pending_of_row lib) (map row_of_pending ms) ≡ map plain ms
  pending_of_rows [] = refl
  pending_of_rows (m ∷ ms) = ap₂ ◌∷◌ (pending_of_row_lem m) (pending_of_rows ms)

  read_rows :
      (finished : Bool) (rows : List (List SqlValue)) (ms : List PendingMqttMessage)
      {ms' : List PendingMqttMessage}
      → (finished ≡ true → rows ≡ map row_of_pending ms)
      → map plain ms ≡ ms'
      → let found = if finished then map (pending_of_row lib) rows else [] in
        (found ≡ []) ⊎ (found ≡ ms')
  read_rows false rows ms h same = inl refl
  read_rows true rows ms h same =
      inr (ap (map (pending_of_row lib)) (h refl) ∙ pending_of_rows ms ∙ same)

  abbrev first_rows : ℕ → List PendingMqttMessage → List PendingMqttMessage
  first_rows limit ms = if eqb limit 0 then ms else take limit ms

  selected :
      (limit : ℕ) (w : World)
      → let sql = if eqb limit 0 then select_pending_sql else select_pending_limit_sql in
        let vs = if ltb 0 limit then SqlValue.integer limit ∷ [] else [] in
        let (rows, finished, end) = lib.query sql vs w in
        finished ≡ true → rows ≡ map row_of_pending (first_rows limit (pending w))
  selected zero w = t.select_pending w
  selected (suc n) w =
      let unlimited : eqb (suc n) 0 ≡ false = ground arith in
      let limited : ltb 0 (suc n) ≡ true = ground arith in
      rw (unlimited, limited) (t.select_pending_limit (suc n) w)

  first_rows-plain :
      (limit : ℕ) (w : World)
      → map plain (first_rows limit (pending w))
        ≡ (if eqb limit 0 then seen w else take limit (seen w))
  first_rows-plain limit w = elim (Bool-cases (eqb limit 0)) [
    | inl e ↦ rw e refl
    | inr e ↦ rw e (sym (take-map-plain limit (pending w)))
  ]

  load_pending :
      (limit : ℕ) (w : World)
      → let (ms, w') = load_pending_mqtt_messages lib s limit w in
        (seen w' ≡ seen w)
        × ((ms ≡ []) ⊎ (ms ≡ (if eqb limit 0 then seen w else take limit (seen w))))
  unfolding load_pending_mqtt_messages
  load_pending limit w =
      let sql = if eqb limit 0 then select_pending_sql else select_pending_limit_sql in
      let vs = if ltb 0 limit then SqlValue.integer limit ∷ [] else [] in
      let (prepared, after) = lib.prepare sql w in
      let (rows, finished, end) = lib.query sql vs after in
      let kept = t.prepare_pending sql w in
      elim (Bool-cases s.database) [
        | inr e ↦ rw e (refl, inl refl)
        | inl e ↦ elim (Bool-cases prepared) [
          | inr p ↦ rw (e, p) (ap (map plain) kept, inl refl)
          | inl p ↦
              rw (e, p)
                (
                  ap (map plain) (t.query_pending sql vs after ∙ kept),
                  read_rows finished rows (first_rows limit (pending after)) (selected limit after)
                      (ap (λ ms. map plain (first_rows limit ms)) kept ∙ first_rows-plain limit w),
                )
        ]
      ]

  remove_row_pending :
      (id : ℕ) (w : World)
      → let (ok, w') = remove_pending_mqtt_message lib s id w in
        pending w' ≡ (if ok then without_id id (pending w) else pending w)
  unfolding remove_pending_mqtt_message
  remove_row_pending id w =
      let (prepared, after) = lib.prepare delete_pending_sql w in
      let (deleted, end) = lib.execute delete_pending_sql (SqlValue.integer id ∷ []) after in
      let kept = t.prepare_pending delete_pending_sql w in
      let law = t.delete_pending id after in
      elim (Bool-cases (not s.database || eqb id 0 || leb (2 ^ 63) id)) [
        | inl e ↦ rw e refl
        | inr e ↦ elim (Bool-cases prepared) [
          | inr p ↦ rw (e, p) kept
          | inl p ↦ elim (Bool-cases deleted) [
            | inr d ↦ rw (e, p, d) (rw d at law ∙ kept)
            | inl d ↦
                let (removed, counted) = rw d at law in
                elim (Bool-cases (eqb (lib.changes end) 1)) [
                  | inl c ↦ rw (e, p, d, c) (removed ∙ ap (without_id id) kept)
                  | inr c ↦
                      let unchanged =
                        without_id_none id (lib.changes end) (pending after)
                          (t.pending_ascending after) (rw removed at counted) c in
                      rw (e, p, d, c) (removed ∙ unchanged ∙ kept)
                ]
          ]
        ]
      ]

  remove_pending :
      (id : ℕ) (w : World)
      → let (ok, w') = remove_pending_mqtt_message lib s id w in
        seen w' ≡ (if ok then without_id id (seen w) else seen w)
  remove_pending id w =
      let law = remove_row_pending id w in
      elim (Bool-cases (remove_pending_mqtt_message lib s id w).0) [
        | inl e ↦ rw e (ap (map plain) (rw e at law) ∙ sym (without_id-map-plain id (pending w)))
        | inr e ↦ rw e (ap (map plain) (rw e at law))
      ]

  -- On tables that SQLite keeps as documented, and whatever it answers, the outbox behaves as the
  -- abstract queue, its rows taken as the service reads them: a message is added at the end or the
  -- queue stays as it was, reading gives the first messages in order or none, and a removal takes
  -- exactly the message of the ID or none.
  pub storage_queue-QueueLaws : QueueLaws storage_queue
  unfolding storage_queue
  storage_queue-QueueLaws = record {
    enqueue_rows = enqueue_pending;
    load_rows = load_pending;
    remove_rows = remove_pending;
    ascending = λ w. map-plain-Ascending (pending w) (t.pending_ascending w);
  }
