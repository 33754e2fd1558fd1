-- ===== src/Storage/Plain.antt =====
-- src/storage_service.cpp: the rows of the outbox as the service sees them, since it reads the text of a
-- column up to its first zero byte.
use edge_link.Prelude.{
  ℕ, zero, suc, ◌<◌, ◌≡◌, refl, ap, ap₂, inl, inr, Bool, List, [], ◌∷◌, ◌++◌, map, eqb, Bool-cases,
  Text, take, All,
}
use edge_link.Prelude.Decimal.{c_str}
use edge_link.Prelude.Keys.{text_eq, nat_eq}
use edge_link.Storage.Outbox.{PendingMqttMessage}
use edge_link.Storage.Tables.{Ascending, without_id, pending_message}

pub c_str-c_str : (s : Text) → c_str (c_str s) ≡ c_str s
unfolding c_str
c_str-c_str [] = refl
c_str-c_str (c ∷ cs) = elim (Bool-cases (eqb c 0)) [
  | inl e ↦ rw e refl
  | inr e ↦ rw (e, c_str, e) (ap (◌∷◌ c) (c_str-c_str cs))
]

abbrev pub plain : PendingMqttMessage → PendingMqttMessage
plain m = record m { topic = c_str m.topic; payload = c_str m.payload }

pub map-plain-append :
    (ms : List PendingMqttMessage) (topic payload : Text) (retain : Bool) (ms_now id : ℕ)
    → map plain (ms ++ (pending_message (c_str topic) (c_str payload) retain ms_now id ∷ []))
      ≡ map plain ms ++ (pending_message (c_str topic) (c_str payload) retain ms_now id ∷ [])
map-plain-append [] topic payload retain ms_now id =
    ap₂ (λ (t p : Text). pending_message t p retain ms_now id ∷ []) (c_str-c_str topic)
      (c_str-c_str payload)
map-plain-append (m ∷ ms) topic payload retain ms_now id =
    ap (◌∷◌ (plain m)) (map-plain-append ms topic payload retain ms_now id)

pub without_id-map-plain :
    (id : ℕ) (ms : List PendingMqttMessage)
    → without_id id (map plain ms) ≡ map plain (without_id id ms)
unfolding without_id
without_id-map-plain id [] = refl
without_id-map-plain id (m ∷ ms) = elim (Bool-cases (eqb m.id id)) [
  | inl e ↦ rw e (without_id-map-plain id ms)
  | inr e ↦ rw e (ap (◌∷◌ (plain m)) (without_id-map-plain id ms))
]

pub take-map-plain :
    (n : ℕ) (ms : List PendingMqttMessage) → take n (map plain ms) ≡ map plain (take n ms)
take-map-plain zero ms = refl
take-map-plain (suc n) [] = refl
take-map-plain (suc n) (m ∷ ms) = ap (◌∷◌ (plain m)) (take-map-plain n ms)

map-plain-Above :
    (n : ℕ) (ms : List PendingMqttMessage)
    → All (λ (m : PendingMqttMessage). n < m.id) ms
    → All (λ (m : PendingMqttMessage). n < m.id) (map plain ms)
map-plain-Above n [] h = tt
map-plain-Above n (m ∷ ms) h = (h.0, map-plain-Above n ms h.1)

pub map-plain-Ascending : (ms : List PendingMqttMessage) → Ascending ms → Ascending (map plain ms)
map-plain-Ascending [] h = tt
map-plain-Ascending (m ∷ ms) h = (map-plain-Above m.id ms h.0, map-plain-Ascending ms h.1)
