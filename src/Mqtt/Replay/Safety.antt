-- ===== src/Mqtt/Replay/Safety.antt =====
-- src/mqtt_service.cpp: no message that the outbox has accepted is lost.
use edge_link.Prelude.{
  subst, ℕ, ◌≡◌, refl, sym, ap, ◌∙◌, ◌⊎◌, inl, inr, false, List, [], ◌∷◌, ◌++◌, append-nil, arith,
  if◌then◌else◌, Bool-cases, is_some, Text, length, drop, All, All-weaken, All-append,
  drop-length-append, IsIn, IsIn-append, IsIn-last,
}
use edge_link.Mqtt.{
  new, publish, MqttConfig, MqttService, begin_connect, begin_disconnect, set_offline_storage,
  handle_connect, handle_disconnect,
}
use edge_link.Mqtt.Forward.{request_replay}
use edge_link.Mqtt.Replay.{
  Step, Reachable, System, sending, removing, Broker, initial, added, wakes, checks, loads, sends,
  ends_wait, removes_row, ends, connects, disconnects, destroys_client, connack, loses_connection,
  puback, sent_unacknowledged, publishes, stores, requests_replay, sets_storage, start_here,
  and_then,
}
use edge_link.Mqtt.Replay.Held.{First, Holds, Holds-grown, Holds-acknowledge, Holds-sent}
use edge_link.Mqtt.Replay.Sections.{
  Holds-removed, begin_connect_keeps, handle_publish_lem, Holds-begin_replay, Holds-check_connected,
  Holds-loaded, Holds-begin_publish, Holds-end_publish, without-First,
}
use edge_link.Prelude.Decimal.{c_str}
use edge_link.Prelude.Keys.{text_eq, nat_eq}
use edge_link.Storage.Contract.{Queue, QueueLaws}
use edge_link.Storage.Outbox.{PendingMqttMessage}
use edge_link.Storage.Tables.{pending_message}
use edge_link.Storage.Values.{timestamp_to_milliseconds}

module _ (q : Queue) (laws : QueueLaws q) where
  open q use {Store, rows, enqueue, load, remove_row}

  abbrev Kept : Store → Broker → PendingMqttMessage → Type 0
  Kept store b m = IsIn m (rows store) ⊎ IsIn m b.delivered

  record Good (x : System q) : Type 0 where
    held :
        Holds x.service.replay_message_id x.service.replay_publish_acknowledged
          (rows x.store)
          x.broker
          x.position
    safe : All (Kept x.store x.broker) x.accepted

  -- A section that does not touch the awaited message.
  Good-service :
      (x : System q) (s : MqttService)
      → (s.replay_message_id ≡ x.service.replay_message_id)
        × (s.replay_publish_acknowledged ≡ x.service.replay_publish_acknowledged)
      → Good x
      → Good (record x { service = s })
  Good-service x s (same_id, same_flag) g = record {
    held = rw (same_id, same_flag) g.held;
    safe = g.safe;
  }

  safe-removed :
      (x : System q) (m : PendingMqttMessage)
      → Holds x.service.replay_message_id x.service.replay_publish_acknowledged
          (rows x.store)
          x.broker
          (removing m)
      → (n : PendingMqttMessage) → Kept x.store x.broker n
      → Kept (remove_row m.id x.store).1 x.broker n
  safe-removed x m h n (inr d) = inr d
  safe-removed x m h n (inl p) =
      let law = laws.remove_rows m.id x.store in
      let (rest, first) = h.1 in
      elim (rw first at p) [
        | inl e ↦ inr (rw e h.0)
        | inr i ↦ elim (Bool-cases (remove_row m.id x.store).0) [
          | inl ok ↦
              let left : rows (remove_row m.id x.store).1 ≡ rest =
                rw ok at law ∙ without-First m (rows x.store) (laws.ascending x.store) h.1 in
              inl (rw left i)
          | inr failed ↦
              let left : rows (remove_row m.id x.store).1 ≡ rows x.store = rw failed at law in
              inl (rw left p)
        ]
      ]

  safe-stored :
      (x : System q) (topic payload : Text) (now : ℕ)
      → All (Kept x.store x.broker) x.accepted
      → let (ok, after) = enqueue topic payload false now x.store in
        All (Kept after x.broker) (if ok then x.accepted ++ added q x.store after else x.accepted)
  safe-stored x topic payload now safe =
      let law = laws.enqueue_rows topic payload false now x.store in
      let (ok, after) = enqueue topic payload false now x.store in
      elim (Bool-cases ok) [
        | inr failed ↦
            let same : rows after ≡ rows x.store = rw failed at law in
            rw failed (
              All-weaken _ (Kept after x.broker) x.accepted
                (λ n k. elim k [ inl p ↦ inl (rw same p) | inr d ↦ inr d ]) safe)
        | inl success_now ↦
            let (id, grown) = rw success_now at law in
            let m =
              pending_message (c_str topic) (c_str payload) false (timestamp_to_milliseconds now)
                id in
            let new_row : added q x.store after ≡ m ∷ [] =
              ap (drop (length (rows x.store))) grown
              ∙ drop-length-append (rows x.store) (m ∷ []) in
            let m_kept : Kept after x.broker m = inl (rw grown (IsIn-last m (rows x.store))) in
            let others =
              All-weaken _ (Kept after x.broker) x.accepted
                (λ n k. elim k [
                  | inl p ↦ inl (rw grown (IsIn-append n (rows x.store) (m ∷ []) p))
                  | inr d ↦ inr d
                ])
                safe in
            let both = All-append (Kept after x.broker) x.accepted (m ∷ []) others (m_kept, tt) in
            rw success_now
              (subst (λ ms. All (Kept after x.broker) (x.accepted ++ ms)) (sym new_row) both)
      ]

  store-grows :
      (topic payload : Text) (now : ℕ) (store : Store)
      → (extra : List PendingMqttMessage) × (rows (enqueue topic payload false now store).1
          ≡ rows store ++ extra)
  store-grows topic payload now store =
      let law = laws.enqueue_rows topic payload false now store in
      elim (Bool-cases (enqueue topic payload false now store).0) [
        | inl stored ↦ let (id, grown) = rw stored at law in (_, grown)
        | inr failed ↦ ([], (rw failed at law) ∙ sym (append-nil (rows store)))
      ]

  Step-Good : {x y : System q} → Step q x y → Good x → Good y
  Step-Good {x} (wakes at_wait wanted) g = record {
    held = Holds-begin_replay x.service (rows x.store) x.broker;
    safe = g.safe;
  }
  Step-Good {x} (checks at_check) g = record {
    held = Holds-check_connected x.service _ _ (rows x.store) x.broker;
    safe = g.safe;
  }
  Step-Good {x} (loads at_load) g =
      let (same, found) = laws.load_rows 1 x.store in
      record {
        held = Holds-loaded _ _ x.broker (load 1 x.store).0 (rows x.store) _ same found;
        safe =
            All-weaken _ _ x.accepted (λ m k. elim k [ inl p ↦ inl (rw same p) | inr d ↦ inr d ])
              g.safe;
      }
  Step-Good {x} (sends m answer at_send unused) g = record {
    held = Holds-begin_publish m answer x.service x.broker (rows x.store) (rw at_send at g.held);
    safe = g.safe;
  }
  Step-Good {x} (ends_wait m at_wait) g = record {
    held = Holds-end_publish m x.service x.broker (rows x.store) (rw at_wait at g.held);
    safe = g.safe;
  }
  Step-Good {x} (removes_row m at_removal) g = record {
    held = Holds-removed _ _ _ _ x.broker;
    safe = All-weaken _ _ x.accepted (safe-removed x m (rw at_removal at g.held)) g.safe;
  }
  Step-Good {x} (ends at_end) g = record { held = tt; safe = g.safe }
  Step-Good {x} (connects a free) g =
      let (same_id, same_flag) = begin_connect_keeps a x.service in
      elim (Bool-cases (is_some (begin_connect a x.service).0)) [
        | inl e ↦ rw e (Good-service x _ (same_id, same_flag) g)
        | inr e ↦ rw e (record { held = tt; safe = g.safe })
      ]
  Step-Good {x} disconnects g = Good-service x _ (unfold begin_disconnect in (refl, refl)) g
  Step-Good {x} (destroys_client at_rest) g = record { held = rw at_rest tt; safe = g.safe }
  Step-Good {x} (connack c code) g = Good-service x _ (unfold handle_connect in ground arith) g
  Step-Good {x} (loses_connection c) g =
      Good-service x _ (unfold handle_disconnect in ground arith) g
  Step-Good {x} (puback c message_id n found) g =
      let (same, why) = handle_publish_lem c message_id x.service in
      record {
        held = rw same (
            Holds-acknowledge _ message_id _ _ n (rows x.store) x.broker x.position found why
              g.held);
        safe =
            All-weaken _ _ x.accepted (λ m k. elim k [ inl p ↦ inl p | inr d ↦ inr (inr d) ])
              g.safe;
      }
  Step-Good {x} (sent_unacknowledged c message_id unknown) g =
      let (same, why) = handle_publish_lem c message_id x.service in
      record {
        held =
            rw same
              (Holds-sent _ message_id _ _ (rows x.store) x.broker x.position unknown why g.held);
        safe = g.safe;
      }
  Step-Good {x} (publishes topic payload result) g =
      Good-service x _ (unfold publish in ground arith) g
  Step-Good {x} (stores topic payload now) g =
      let (extra, grown) = store-grows topic payload now x.store in
      record {
        held = Holds-grown _ _ (rows x.store) _ extra x.broker x.position grown g.held;
        safe = safe-stored x topic payload now g.safe;
      }
  Step-Good {x} requests_replay g = Good-service x _ (unfold request_replay in (refl, refl)) g
  Step-Good {x} (sets_storage storage) g =
      Good-service x _ (unfold set_offline_storage in (refl, refl)) g

  Reachable-Good : {x y : System q} → Reachable q x y → Good x → Good y
  Reachable-Good start_here g = g
  Reachable-Good (and_then y z r last) g = Step-Good last (Reachable-Good r g)

  initial-Good : (c : MqttConfig) (store : Store) → Good (initial q c store)
  unfolding initial new
  initial-Good c store = record { held = tt; safe = tt }

  -- On any queue that keeps its contract, however the network, the broker, the replay thread and the
  -- forwarding threads interleave: each message that the outbox has accepted waits in it or has been
  -- acknowledged by the broker; the message that is sent is the oldest one waiting; and a message is
  -- taken out only after the broker has acknowledged that very message.
  pub no_message_lost :
      (c : MqttConfig) (store : Store) (x : System q)
      → Reachable q (initial q c store) x
      → All (λ m. IsIn m (rows x.store) ⊎ IsIn m x.broker.delivered) x.accepted
        × ((m : PendingMqttMessage) → x.position ≡ sending m → First m (rows x.store))
        × ((m : PendingMqttMessage)
            → x.position ≡ removing m
            → IsIn m x.broker.delivered × First m (rows x.store))
  no_message_lost c store x r =
      let g = Reachable-Good r (initial-Good c store) in
      (g.safe, λ m e. rw e at g.held, λ m e. rw e at g.held)
