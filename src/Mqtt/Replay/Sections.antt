-- ===== src/Mqtt/Replay/Sections.antt =====
-- src/mqtt_service.cpp: the sections of the replay thread, each at its position.
use edge_link.Prelude.{
  ℕ, ◌≡◌, refl, ap, ◌∙◌, ◌⊎◌, inl, inr, Bool, true, false, Option, none, some, List, [], ◌∷◌, arith,
  eqb, if◌then◌else◌, Bool-cases, take, IsIn,
}
use edge_link.Mqtt.{
  MqttService, ConnectAnswers, initialize_client, begin_connect, is_connected, handle_publish,
}
use edge_link.Mqtt.Replay.{
  finishing, awaiting, removing, Broker, begin_replay, check_connected, loaded_position,
  cannot_publish, begin_publish, launched, end_publish, removed_position,
}
use edge_link.Mqtt.Replay.Held.{First, Holds}
use edge_link.Prelude.Dict.{find}
use edge_link.Prelude.Keys.{text_eq, nat_eq}
use edge_link.Storage.Outbox.{PendingMqttMessage}
use edge_link.Storage.Tables.{Ascending, without_id, without_id_later}

find_front :
    (i : ℕ) (m : PendingMqttMessage) (d : List (ℕ × PendingMqttMessage))
    → find i ((i, m) ∷ d) ≡ some m
unfolding find
find_front i m d = ground arith

pub Holds-removed :
    (ok : Bool) (id : ℕ) (noted : Bool) (r : List PendingMqttMessage) (b : Broker)
    → Holds id noted r b (removed_position ok)
unfolding removed_position
Holds-removed true id noted r b = tt
Holds-removed false id noted r b = tt

pub begin_connect_keeps :
    (a : ConnectAnswers) (s : MqttService)
    → let s' = (begin_connect a s).1 in
      (s'.replay_message_id ≡ s.replay_message_id)
      × (s'.replay_publish_acknowledged ≡ s.replay_publish_acknowledged)
unfolding begin_connect initialize_client
begin_connect_keeps a s = ground arith

pub handle_publish_lem :
    (c message_id : ℕ) (s : MqttService)
    → let s' = handle_publish c message_id s in
      (s'.replay_message_id ≡ s.replay_message_id)
      × (s'.replay_publish_acknowledged ≡ true
          → (s.replay_publish_acknowledged ≡ true) ⊎ (eqb s.replay_message_id message_id ≡ true))
unfolding handle_publish
handle_publish_lem c message_id s = ground arith

pub Holds-begin_replay :
    (s : MqttService) (r : List PendingMqttMessage) (b : Broker)
    → let (p, s') = begin_replay s in
      Holds s'.replay_message_id s'.replay_publish_acknowledged r b p
unfolding begin_replay
Holds-begin_replay s r b = elim (Bool-cases s.stopping) [ inl e ↦ simp e tt | inr e ↦ simp e tt ]

pub Holds-check_connected :
    (s : MqttService) (id : ℕ) (noted : Bool) (r : List PendingMqttMessage) (b : Broker)
    → Holds id noted r b (check_connected s)
unfolding check_connected
Holds-check_connected s id noted r b = elim (Bool-cases (is_connected s)) [
  | inl e ↦ rw e tt
  | inr e ↦ rw e tt
]

pub Holds-loaded :
    (id : ℕ) (noted : Bool) (b : Broker) (ms before after : List PendingMqttMessage)
    → after ≡ before
    → (ms ≡ []) ⊎ (ms ≡ take 1 before)
    → Holds id noted after b (loaded_position ms)
unfolding loaded_position
Holds-loaded id noted b [] before after same found = tt
Holds-loaded id noted b (m ∷ ms) before after same (inl e) = cc
Holds-loaded id noted b (m ∷ ms) [] after same (inr e) = cc
Holds-loaded id noted b (m ∷ ms) (n ∷ rest) after same (inr e) = (rest, cc)

pub Holds-begin_publish :
    (m : PendingMqttMessage) (answer : Option ℕ) (s : MqttService) (b : Broker)
    (r : List PendingMqttMessage)
    → First m r
    → let (p, s') = begin_publish m answer s in
      Holds s'.replay_message_id s'.replay_publish_acknowledged r
        (record b { in_flight = launched p s'.replay_message_id b.in_flight })
        p
unfolding begin_publish
Holds-begin_publish m none s b r first = elim (Bool-cases (cannot_publish m s)) [
  | inl e ↦ rw e tt
  | inr e ↦ rw e tt
]
Holds-begin_publish m (some i) s b r first = elim (Bool-cases (cannot_publish m s)) [
  | inl e ↦ rw e tt
  | inr e ↦ rw e (inl (find_front i m b.in_flight), λ h. cc, first)
]

Holds-if :
    (c : Bool) (m : PendingMqttMessage) (b : Broker) (r : List PendingMqttMessage)
    → (c ≡ true → IsIn m b.delivered)
    → First m r
    → Holds 0 false r b (if c then removing m else finishing)
Holds-if true m b r delivered_now first = (delivered_now refl, first)
Holds-if false m b r delivered_now first = tt

pub Holds-end_publish :
    (m : PendingMqttMessage) (s : MqttService) (b : Broker) (r : List PendingMqttMessage)
    → Holds s.replay_message_id s.replay_publish_acknowledged r b (awaiting m)
    → let (p, s') = end_publish m s in
      Holds s'.replay_message_id s'.replay_publish_acknowledged r b p
unfolding end_publish
Holds-end_publish m s b r h = Holds-if _ m b r (λ e. h.1 (ground arith)) h.2

-- The oldest row is taken out, and nothing else.
pub without-First :
    (m : PendingMqttMessage) (r : List PendingMqttMessage)
    → Ascending r
    → (f : First m r) → without_id m.id r ≡ f.0
unfolding without_id
without-First m r a (rest, first) =
    let same : eqb m.id m.id ≡ true = ground arith in
    ap (without_id m.id) first ∙ rw same (without_id_later m.id rest (rw first at a).0)
