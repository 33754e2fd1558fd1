-- ===== src/Mqtt/Replay/Drain.antt =====
-- src/mqtt_service.cpp: the inner loop of `replayLoop` while the connection stays and the broker
-- acknowledges each message before the time is over.
use edge_link.Prelude.{
  ℕ, zero, suc, ◌≤◌, ◌<◌, ◌≡◌, refl, ap, ◌∙◌, Bool, true, false, not, ◌&&◌, some, List, [], ◌∷◌,
  arith, eqb, if◌then◌else◌, length, is_empty, take, All,
}
use edge_link.Mqtt.{MqttService, is_client, is_connected, largest_payload, handle_publish}
use edge_link.Mqtt.Replay.{Position, awaiting, removing, cannot_publish, begin_publish, end_publish}
use edge_link.Mqtt.Replay.Sections.{without-First}
use edge_link.Prelude.Keys.{text_eq, nat_eq}
use edge_link.Storage.Contract.{Queue, QueueLaws}
use edge_link.Storage.Outbox.{PendingMqttMessage}

-- The rest of `publishWithAcknowledgement` once its message is acknowledged.
unfoldable pub answered : ℕ → ℕ → Position → MqttService → Position × MqttService
answered c message_id (awaiting m) s = end_publish m (handle_publish c message_id s)
answered c message_id p s = (p, s)

-- `publishWithAcknowledgement` with the ID and the client of libmosquitto.
unfoldable pub acknowledged_publish :
    ℕ → ℕ → PendingMqttMessage → MqttService → Position × MqttService
acknowledged_publish c message_id m s =
    let (p, launched_service) = begin_publish m (some message_id) s in
    answered c message_id p launched_service

abbrev is_removing : Position → Bool
is_removing (removing m) = true
is_removing _ = false

-- A service that can publish.
abbrev pub Ready : ℕ → MqttService → Type 0
Ready c s = (s.connected ≡ true) × (s.stopping ≡ false) × (s.client ≡ some c)

abbrev pub Sendable : PendingMqttMessage → Type 0
Sendable m = (is_empty m.topic ≡ false) × (length m.payload ≤ largest_payload)

acknowledged_publish_lem :
    (c message_id : ℕ) (m : PendingMqttMessage) (s : MqttService)
    → Ready c s
    → Sendable m
    → let (p, s') = acknowledged_publish c message_id m s in (p ≡ removing m) × Ready c s'
unfolding acknowledged_publish answered begin_publish handle_publish end_publish
acknowledged_publish_lem c message_id m s (up, running, client_set) ok =
    let can : cannot_publish m s ≡ false = unfold cannot_publish in ground arith in
    let noted : (is_client s.client c && eqb message_id message_id) ≡ true = ground arith in
    rw (can, noted) (ground arith, (up, running, client_set))

module _ (q : Queue) where
  open q use {Store, rows, load, remove_row}

  -- The loop, for at most `fuel` messages: those sent and removed, whether it has ended, and the state.
  unfoldable pub replay_messages :
      ℕ → ℕ → ℕ → MqttService → Store → List PendingMqttMessage × Bool × MqttService × Store
  replay_messages c message_id zero s store = ([], false, s, store)
  replay_messages c message_id (suc fuel) s store =
      let (ms, loaded) = load 1 store in
      if not (is_connected s) then ([], true, s, store) else elim ms [
        | [] ↦ ([], true, s, loaded)
        | m ∷ _ ↦
            let (p, after) = acknowledged_publish c message_id m s in
            let (ok, removed) = remove_row m.id loaded in
            let (sent, ended, end_service, end_store) =
              replay_messages c message_id fuel after removed in
            if not (is_removing p)
            then ([], true, after, loaded)
            else if not ok
            then ([], true, after, removed)
            else (m ∷ sent, ended, end_service, end_store)
      ]

  -- A database that does not fail: the first row is read, and it is removed.
  pub record Reliable : Type 0 where
    pub load_works : (store : Store) → (load 1 store).0 ≡ take 1 (rows store)
    pub remove_works :
        (store : Store) (m : PendingMqttMessage) (rest : List PendingMqttMessage)
        → rows store ≡ m ∷ rest
        → (remove_row m.id store).0 ≡ true

  module _ (laws : QueueLaws q) (reliable : Reliable) where
    drained :
        (c message_id fuel : ℕ) (s : MqttService) (store : Store) (r : List PendingMqttMessage)
        → rows store ≡ r
        → length r < fuel
        → All Sendable r
        → Ready c s
        → let (sent, ended, s', store') = replay_messages c message_id fuel s store in
          (sent ≡ r) × (ended ≡ true) × (rows store' ≡ [])
    unfolding replay_messages is_connected
    drained c message_id zero s store r e enough ok ready = absurd (omega arith)
    drained c message_id (suc fuel) s store [] e enough ok ready =
        let nothing : (load 1 store).0 ≡ [] = reliable.load_works store ∙ ap (take 1) e in
        let same = (laws.load_rows 1 store).0 in rw (ready.0, nothing) (refl, refl, same ∙ e)
    drained c message_id (suc fuel) s store (m ∷ rest) e enough ok ready =
        let one : (load 1 store).0 ≡ m ∷ [] = reliable.load_works store ∙ ap (take 1) e in
        let loaded = (load 1 store).1 in
        let first : rows loaded ≡ m ∷ rest = (laws.load_rows 1 store).0 ∙ e in
        let (acknowledged_now, ready') = acknowledged_publish_lem c message_id m s ready ok.0 in
        let removing_now : is_removing (acknowledged_publish c message_id m s).0 ≡ true =
          ap is_removing acknowledged_now in
        let taken = reliable.remove_works loaded m rest first in
        let left : rows (remove_row m.id loaded).1 ≡ rest =
          rw taken at (laws.remove_rows m.id loaded)
          ∙ without-First m (rows loaded) (laws.ascending loaded) (rest, first) in
        let (all_sent, ended, empty) =
          drained c message_id fuel (acknowledged_publish c message_id m s).1
            (remove_row m.id loaded).1 rest left (omega arith) ok.1 ready' in
        rw (ready.0, one, removing_now, taken) (ap (◌∷◌ m) all_sent, ended, empty)

    -- While the connection stays, the database does not fail and the broker acknowledges, and where
    -- each waiting message has a topic and a payload within the limit: the loop ends by itself,
    -- within one round more than there are waiting messages: all are sent, in the order in which
    -- they were stored, and the outbox is empty.
    pub replay_messages_lem :
        (c message_id fuel : ℕ) (s : MqttService) (store : Store)
        → length (rows store) < fuel
        → All Sendable (rows store)
        → Ready c s
        → let (sent, ended, s', store') = replay_messages c message_id fuel s store in
          (sent ≡ rows store) × (ended ≡ true) × (rows store' ≡ [])
    replay_messages_lem c message_id fuel s store enough ok ready =
        drained c message_id fuel s store (rows store) refl enough ok ready
