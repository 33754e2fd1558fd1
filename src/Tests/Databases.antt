-- ===== src/Tests/Databases.antt =====
-- A small database in place of SQLite, for tests: the waiting messages have consecutive IDs, and only
-- the first one can be deleted; any other deletion fails.
use edge_link.Prelude.{
  subst, ℕ, suc, ◌+◌, ◌≤◌, ◌<◌, ◌≡◌, refl, sym, ap, ◌∙◌, inl, inr, Bool, true, false, not, List, [],
  ◌∷◌, ◌++◌, map, arith, eqb, if◌then◌else◌, eqb_iff, Bool-cases, Text, length, take, All,
}
use edge_link.Prelude.Decimal.{c_str}
use edge_link.Prelude.Keys.{text_beq, text_eq, nat_eq}
use edge_link.Storage.{SqlValue, Sqlite}
use edge_link.Storage.Contract.{Queue, QueueLaws}
use edge_link.Storage.Messages.{insert_message_sql, select_messages_sql}
use edge_link.Storage.Outbox.{PendingMqttMessage, insert_pending_sql, delete_pending_sql}
use edge_link.Storage.Tables.{
  Ascending, without_id, without_id_later, pending_message, row_of_pending, TableLaws,
}
use edge_link.Storage.Values.{timestamp_to_milliseconds}

pub record Rows : Type 0 where
  pub base : ℕ
  pub waiting_rows : List (ℕ → PendingMqttMessage)
  pub stored_rows : List (List SqlValue)

-- A row is a message that waits for its ID.
abbrev pub numbered : ℕ → List (ℕ → PendingMqttMessage) → List PendingMqttMessage
numbered base [] = []
numbered base (r ∷ rs) = record (r (suc base)) { id = suc base } ∷ numbered (suc base) rs

numbered-above :
    (low base : ℕ) (rs : List (ℕ → PendingMqttMessage))
    → low ≤ base
    → All (λ m. low < m.id) (numbered base rs)
numbered-above low base [] h = tt
numbered-above low base (r ∷ rs) h = (omega arith, numbered-above low (suc base) rs (omega arith))

pub numbered-Ascending :
    (base : ℕ) (rs : List (ℕ → PendingMqttMessage)) → Ascending (numbered base rs)
numbered-Ascending base [] = tt
numbered-Ascending base (r ∷ rs) =
    (numbered-above (suc base) (suc base) rs (omega arith), numbered-Ascending (suc base) rs)

pub numbered-append :
    (base : ℕ) (rs : List (ℕ → PendingMqttMessage)) (r : ℕ → PendingMqttMessage)
    → let id = suc (base + length rs) in
      numbered base (rs ++ (r ∷ [])) ≡ numbered base rs ++ (record (r id) { id = id } ∷ [])
numbered-append base [] r = ap (λ n. record (r (suc n)) { id = suc n } ∷ []) (omega arith)
numbered-append base (q ∷ rs) r = ap (◌∷◌ (record (q (suc base)) { id = suc base })) (
    numbered-append (suc base) rs r
    ∙ ap (λ n. numbered (suc base) rs ++ (record (r (suc n)) { id = suc n } ∷ [])) (omega arith))

abbrev pub pending_rows : Rows → List PendingMqttMessage
pending_rows d = numbered d.base d.waiting_rows

abbrev pub add_row : (ℕ → PendingMqttMessage) → Rows → Rows
add_row r d = record d { waiting_rows = d.waiting_rows ++ (r ∷ []) }

abbrev pub delete_first : ℕ → Rows → Bool × Rows
delete_first id d = elim d.waiting_rows [
  | [] ↦ (false, d)
  | r ∷ rs ↦
      if eqb id (suc d.base)
      then (true, record d { base = suc d.base; waiting_rows = rs })
      else (false, d)
]

delete_first_rows :
    (id base : ℕ) (rs : List (ℕ → PendingMqttMessage)) (others : List (List SqlValue))
    → let d : Rows = record { base = base; waiting_rows = rs; stored_rows = others } in
      let (ok, after) = delete_first id d in
      (pending_rows after ≡ (if ok then without_id id (pending_rows d) else pending_rows d))
      × (ok ≡ true → 1 + length (pending_rows after) ≡ length (pending_rows d))
unfolding without_id
delete_first_rows id base [] others = ground arith
delete_first_rows id base (r ∷ rs) others = elim (Bool-cases (eqb id (suc base))) [
  | inr e ↦ rw e (refl, λ h. cc)
  | inl e ↦
      let exact = (eqb_iff id (suc base)).0 e in
      let same : eqb (suc base) id ≡ true = ground arith in
      let later = without_id_later id (numbered (suc base) rs) (
        subst (λ k. All (λ n. k < n.id) (numbered (suc base) rs)) (sym exact)
          (numbered-above (suc base) (suc base) rs (omega arith))) in
      rw (e, same) (sym later, λ h. omega arith)
]

-- The queue of these rows, where the system never fails to read.
abbrev pub rows_queue : Queue
rows_queue = record {
  Store = Rows;
  rows = pending_rows;
  enqueue = λ topic payload retain now d. (
    true,
    add_row (pending_message (c_str topic) (c_str payload) retain (timestamp_to_milliseconds now))
        d,
  );
  load = λ limit d. (if eqb limit 0 then pending_rows d else take limit (pending_rows d), d);
  remove_row = delete_first;
}

pub rows_queue-QueueLaws : QueueLaws rows_queue
rows_queue-QueueLaws = record {
  enqueue_rows = λ topic payload retain now d. (
    suc (d.base + length d.waiting_rows),
    numbered-append d.base d.waiting_rows
        (pending_message (c_str topic) (c_str payload) retain (timestamp_to_milliseconds now)),
  );
  load_rows = λ limit d. (refl, inr refl);
  remove_rows = λ id d. (delete_first_rows id d.base d.waiting_rows d.stored_rows).0;
  ascending = λ d. numbered-Ascending d.base d.waiting_rows;
}

-- The statements that the storage service executes.
abbrev execute_rows : Text → List SqlValue → Rows → Bool × Rows
execute_rows sql (SqlValue.text t ∷ SqlValue.text p ∷ SqlValue.integer r ∷ SqlValue.integer ms ∷ [])
      d =
    if text_beq sql insert_pending_sql
    then (true, add_row (pending_message t p (not (eqb r 0)) ms) d)
    else (false, d)
execute_rows sql (SqlValue.integer id ∷ []) d =
    if text_beq sql delete_pending_sql then delete_first id d else (false, d)
execute_rows sql vs d =
    if text_beq sql insert_message_sql
    then (true, record d { stored_rows = d.stored_rows ++ ((SqlValue.integer 1 ∷ vs) ∷ []) })
    else (false, d)

abbrev select_rows : Text → List SqlValue → Rows → List (List SqlValue)
select_rows sql (SqlValue.integer limit ∷ []) d = map row_of_pending (take limit (pending_rows d))
select_rows sql vs d =
    if text_beq sql select_messages_sql then d.stored_rows else map row_of_pending (pending_rows d)

abbrev pub small_database : Sqlite
small_database = record {
  World = Rows;
  open_v2 = λ path d. (true, true, d);
  close_v2 = λ d. d;
  busy_timeout = λ ms d. d;
  exec = λ sql d. (true, d);
  prepare = λ sql d. (true, d);
  execute = execute_rows;
  changes = λ d. 1;
  query = λ sql vs d. (select_rows sql vs d, true, d);
  text_to_integer = λ t. 0;
  integer_to_text = λ n. [];
}

pub flag_kept : (b : Bool) → not (eqb (if b then 1 else 0) 0) ≡ b
flag_kept b = ground arith

pub delete_law :
    (id : ℕ) (d : Rows)
    → let (ok, after) = delete_first id d in
      if ok
      then (pending_rows after ≡ without_id id (pending_rows d))
        × (1 + length (pending_rows after) ≡ length (pending_rows d))
      else pending_rows after ≡ pending_rows d
delete_law id d =
    let (left, counted) = delete_first_rows id d.base d.waiting_rows d.stored_rows in
    elim (Bool-cases (delete_first id d).0) [
      | inl e ↦ rw e ((rw e at left), counted e)
      | inr e ↦ rw e (rw e at left)
    ]

unfoldable pub small_database-TableLaws : TableLaws small_database
small_database-TableLaws = record {
  messages = λ d. d.stored_rows;
  pending = pending_rows;
  prepare_messages = λ sql d. refl;
  prepare_pending = λ sql d. refl;
  query_pending = λ sql vs d. refl;
  insert_message = λ topic device_id tag_name content type_index quality ms d h. (1, refl);
  select_messages = λ d h. refl;
  insert_pending = λ topic payload retain ms d. (
    suc (d.base + length d.waiting_rows),
    ap (λ b. pending_rows (add_row (pending_message topic payload b ms) d)) (flag_kept retain)
        ∙ numbered-append d.base d.waiting_rows (pending_message topic payload retain ms),
  );
  select_pending = λ d h. refl;
  select_pending_limit = λ limit d h. refl;
  delete_pending = delete_law;
  pending_ascending = λ d. numbered-Ascending d.base d.waiting_rows;
}
