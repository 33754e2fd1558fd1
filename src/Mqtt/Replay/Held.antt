-- ===== src/Mqtt/Replay/Held.antt =====
-- src/mqtt_service.cpp: what holds of the replay thread at each of its positions.
use edge_link.Prelude.{
  some-injective, ℕ, ◌≡◌, sym, ap, ◌∙◌, ◌⊎◌, inl, inr, Bool, true, none, some, List, ◌∷◌, ◌++◌,
  arith, eqb, if◌then◌else◌, eqb_iff, Bool-cases, IsIn,
}
use edge_link.Mqtt.Replay.{Position, sending, awaiting, removing, Broker}
use edge_link.Prelude.Dict.{find, erase, find-erase}
use edge_link.Prelude.Keys.{text_eq, nat_eq}
use edge_link.Storage.Outbox.{PendingMqttMessage}

abbrev pub First : PendingMqttMessage → List PendingMqttMessage → Type 0
First m waiting_rows = (rest : List PendingMqttMessage) × (waiting_rows ≡ m ∷ rest)

-- For the ID that is waited for, whether its acknowledgement is noted, and the rows of the outbox: a
-- row that the thread works on is the oldest one, and is removed only once the broker has acknowledged
-- it; a noted acknowledgement is the one of this very row.
abbrev pub Holds : ℕ → Bool → List PendingMqttMessage → Broker → Position → Type 0
Holds id noted waiting_rows b (sending m) = First m waiting_rows
Holds id noted waiting_rows b (awaiting m) =
    ((find id b.in_flight ≡ some m) ⊎ IsIn m b.delivered)
    × (noted ≡ true → IsIn m b.delivered)
    × First m waiting_rows
Holds id noted waiting_rows b (removing m) = IsIn m b.delivered × First m waiting_rows
Holds id noted waiting_rows b p = Unit {0}

First-grown :
    (before after extra : List PendingMqttMessage) (m : PendingMqttMessage)
    → after ≡ before ++ extra
    → First m before
    → First m after
First-grown before after extra m grown (rest, first) =
    (rest ++ extra, grown ∙ ap (λ ms. ms ++ extra) first)

-- Rows that are added at the end do not disturb the thread.
pub Holds-grown :
    (id : ℕ) (noted : Bool) (before after extra : List PendingMqttMessage) (b : Broker)
    (p : Position)
    → after ≡ before ++ extra
    → Holds id noted before b p
    → Holds id noted after b p
Holds-grown id noted before after extra b (sending m) grown h =
    First-grown before after extra m grown h
Holds-grown id noted before after extra b (awaiting m) grown h =
    (h.0, h.1, First-grown before after extra m grown h.2)
Holds-grown id noted before after extra b (removing m) grown h =
    (h.0, First-grown before after extra m grown h.1)
Holds-grown id noted before after extra b _ grown h = tt

abbrev pub acknowledge : ℕ → PendingMqttMessage → Broker → Broker
acknowledge id m b = record { in_flight = erase id b.in_flight; delivered = m ∷ b.delivered }

-- The flag is set where the acknowledged ID is the awaited one.
awaited_delivered :
    (id message_id : ℕ) (n m : PendingMqttMessage) (b : Broker)
    → find message_id b.in_flight ≡ some n
    → eqb id message_id ≡ true
    → (find id b.in_flight ≡ some m) ⊎ IsIn m b.delivered
    → IsIn m (n ∷ b.delivered)
awaited_delivered id message_id n m b found same (inr d) = inr d
awaited_delivered id message_id n m b found same (inl e) = inl (
    some-injective _ _
      (sym e ∙ ap (λ k. find k b.in_flight) ((eqb_iff id message_id).0 same) ∙ found))

still_there :
    (id message_id : ℕ) (n m : PendingMqttMessage) (b : Broker)
    → find message_id b.in_flight ≡ some n
    → (find id b.in_flight ≡ some m) ⊎ IsIn m b.delivered
    → (find id (erase message_id b.in_flight) ≡ some m) ⊎ IsIn m (n ∷ b.delivered)
still_there id message_id n m b found (inr d) = inr (inr d)
still_there id message_id n m b found (inl e) = elim (Bool-cases (eqb id message_id)) [
  | inl same ↦ inr (awaited_delivered id message_id n m b found same (inl e))
  | inr other ↦
      let differs : (if eqb message_id id then none else find id b.in_flight) ≡ some m =
        ground arith in
      inl (find-erase message_id id b.in_flight ∙ differs)
]

-- The broker acknowledges a message in flight.
pub Holds-acknowledge :
    (id message_id : ℕ) (noted noted' : Bool) (n : PendingMqttMessage) (r : List PendingMqttMessage)
    (b : Broker) (p : Position)
    → find message_id b.in_flight ≡ some n
    → (noted' ≡ true → (noted ≡ true) ⊎ (eqb id message_id ≡ true))
    → Holds id noted r b p
    → Holds id noted' r (acknowledge message_id n b) p
Holds-acknowledge id message_id noted noted' n r b (sending m) found why h = h
Holds-acknowledge id message_id noted noted' n r b (awaiting m) found why h = (
  still_there id message_id n m b found h.0,
  λ e. elim (why e) [
    | inl before ↦ inr (h.1 before)
    | inr same ↦ awaited_delivered id message_id n m b found same h.0
  ],
  h.2,
)
Holds-acknowledge id message_id noted noted' n r b (removing m) found why h = (inr h.0, h.1)
Holds-acknowledge id message_id noted noted' n r b _ found why h = tt

-- A QoS 0 message is sent, whose ID is that of no message in flight.
pub Holds-sent :
    (id message_id : ℕ) (noted noted' : Bool) (r : List PendingMqttMessage) (b : Broker)
    (p : Position)
    → find message_id b.in_flight ≡ none
    → (noted' ≡ true → (noted ≡ true) ⊎ (eqb id message_id ≡ true))
    → Holds id noted r b p
    → Holds id noted' r b p
Holds-sent id message_id noted noted' r b (awaiting m) free why h = (
  h.0,
  λ e. elim (why e) [
    | inl before ↦ h.1 before
    | inr same ↦ elim h.0 [
      | inl found ↦
          let impossible : none ≡ some m =
            sym free
            ∙ ap (λ k. find k b.in_flight) (sym ((eqb_iff id message_id).0 same))
            ∙ found in
          cc
      | inr d ↦ d
    ]
  ],
  h.2,
)
Holds-sent id message_id noted noted' r b (sending m) free why h = h
Holds-sent id message_id noted noted' r b (removing m) free why h = h
Holds-sent id message_id noted noted' r b _ free why h = tt
