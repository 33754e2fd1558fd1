-- ===== src/MessageBus/Delivery.antt =====
-- Whom `publish` of src/message_bus.cpp reaches.
use edge_link.Prelude.{
  ℕ, suc, ◌≡◌, refl, sym, ap, ◌∙◌, inl, inr, Bool, List, [], ◌∷◌, ◌++◌, map, append-nil,
  append_assoc, if◌then◌else◌, Bool-cases, Option-cases, is_empty,
}
use edge_link.Message.{Message}
use edge_link.MessageBus.{Subscription, MessageBus, subscriptions_of, deliver, publish}
use edge_link.Prelude.Dict.{find}
use edge_link.Prelude.Keys.{nat_eq, text_eq}

abbrev pub successes : {C : Type 0} → List (C × Bool) → ℕ
successes [] = 0
successes ((c, returned) ∷ es) = if returned then suc (successes es) else successes es

-- `log` is a record that the world keeps of the callbacks run and of how each ended.
abbrev pub Logs : {C W : Type 0} → (C → Message → W → Bool × W) → (W → List (C × Bool)) → Type 0
Logs {C} {W} call log =
    (c : C) (message : Message) (w : W)
    → log (call c message w).1 ≡ log w ++ (c, (call c message w).0) ∷ []

module _ {C W : Type 0} (bus : W → MessageBus C) (call : C → Message → W → Bool × W)
    (log : W → List (C × Bool)) (logs : Logs call log) where
  deliver_log :
      (ss : List (Subscription C)) (message : Message) (w : W)
      → let (delivered, w') = deliver bus call ss message w in
        (es : List (C × Bool)) × (log w' ≡ log w ++ es)
        × (map (λ e. e.0) es ≡ map (λ s. s.callback) ss)
        × (delivered ≡ successes es)
  unfolding deliver
  deliver_log [] message w = ([], sym (append-nil (log w)), refl, refl)
  deliver_log (s ∷ ss) message w =
      let (es, l, m, d) = deliver_log ss message (call s.callback message w).1 in
      let e : C × Bool = (s.callback, (call s.callback message w).0) in
      (
        e ∷ es,
        l ∙ rw (logs s.callback message w) (append_assoc (log w) (e ∷ []) es),
        ap (◌∷◌ s.callback) m,
        rw d,
      )

  -- The world keeps a log to which each run of a callback adds itself and how it ended. A
  -- publication runs exactly the callbacks that were subscribed to its topic when it began, each
  -- once and in the order of subscription, whatever the callbacks do to the bus and whichever of
  -- them throw. It returns the number of those that returned. Without a topic it runs none.
  pub publish_log :
      (message : Message) (w : W)
      → let (delivered, w') = publish bus call message w in
        (es : List (C × Bool)) × (log w' ≡ log w ++ es)
        × (map (λ e. e.0) es ≡ (
            if is_empty message.topic
            then []
            else map (λ s. s.callback) (subscriptions_of (bus w) message.topic)))
        × (delivered ≡ successes es)
  unfolding publish subscriptions_of
  publish_log message w = elim (Bool-cases (is_empty message.topic)) [
    | inl e ↦ rw e ([], sym (append-nil (log w)), refl, refl)
    | inr e ↦ elim (Option-cases (find message.topic (bus w).subscribers)) [
      | inl f ↦ rw (e, f, publish) ([], sym (append-nil (log w)), refl, refl)
      | inr (ss, f) ↦ rw (e, f, publish) (deliver_log ss message w)
    ]
  ]
