-- ===== src/Modbus/Lifecycle.antt =====
-- plugins/modbus_plugin/modbus_plugin.cpp: the connection flag, the state machine, the device table
-- and the backoff agree.
use edge_link.Backoff.Delays.{IsValid as BackoffOk}
use edge_link.Prelude.{ℕ, ◌<◌, ◌≡◌, refl, ap, ◌∙◌, inl, inr, true, false, arith, Bool-cases, Text}
use edge_link.Backoff.Delays.{record_failure-IsValid, reset-IsValid}
use edge_link.Bridge.{new}
use edge_link.Connection.{Machine, state_beq, transition_to}
use edge_link.Connection.Graph.{rank-injective}
use edge_link.Connection.Sync.{transition_to_lem, IsSynced, transition_to-IsSynced}
use edge_link.Device.{Quality, ConnectionState, Tag}
use edge_link.DeviceManager.{DeviceManager, update_all_tag_qualities}
use edge_link.DeviceManager.States.{step_state}
use edge_link.Modbus.{Config}
use edge_link.Modbus.Client.{Session, Times, Library, connect_transport}
use edge_link.Prelude.Keys.{text_eq, nat_eq}
use edge_link.DeviceManager

pub record SessionOk (c : Config) (s : Session) (m : DeviceManager) : Type 0 where
  pub synced : IsSynced s.machine m
  pub same_id : s.machine.device_id ≡ c.device_id
  pub timeout_positive : 0 < s.machine.timeout
  pub backoff_ok : BackoffOk s.backoff
  pub agrees : s.connected ≡ state_beq s.machine.state ConnectionState.connected

-- What all transitions have in common.
pub moved :
    (s : Machine) (m : DeviceManager) (next : ConnectionState) (now : ℕ)
    → let (ok, s', m') = transition_to s m next now in
      (ok ≡ true → s'.state ≡ next)
      × (ok ≡ false → s'.state ≡ s.state)
      × (s'.device_id ≡ s.device_id)
      × (s'.timeout ≡ s.timeout)
moved s m next now =
    let facts = transition_to_lem s m next now s.device_id in
    ground (arith, rank-injective next s.state)

pub marked :
    (s : Machine) (m : DeviceManager) (id : Text) (q : Quality) (now : ℕ)
    → IsSynced s m
    → IsSynced s (update_all_tag_qualities m id q now).1
unfolding DeviceManager.step
marked s m id q now (d, f, e) =
    let (d', f', e') = step_state m (DeviceManager.Op.mark_all id q now) s.device_id d tt f in
    (d', f', e' ∙ e)

pub tagged :
    (s : Machine) (m : DeviceManager) (id : Text) (tag : Tag) (now : ℕ)
    → IsSynced s m
    → IsSynced s (DeviceManager.update_tag m id tag now).1
unfolding DeviceManager.step
tagged s m id tag now (d, f, e) =
    let (d', f', e') = step_state m (DeviceManager.Op.set_tag id tag now) s.device_id d tt f in
    (d', f', e' ∙ e)

-- The parts from which each exit of a method builds its session.
pub session_ok :
    (c : Config) (s : Session) (old new : Machine) (m : DeviceManager)
    → s.machine ≡ new
    → IsSynced new m
    → old.device_id ≡ c.device_id
    → 0 < old.timeout
    → new.device_id ≡ old.device_id
    → new.timeout ≡ old.timeout
    → BackoffOk s.backoff
    → s.connected ≡ state_beq new.state ConnectionState.connected
    → SessionOk c s m
session_ok c s old new m e y i t i' t' b a = record {
  synced = rw e y;
  same_id = ap (λ x. x.device_id) e ∙ i' ∙ i;
  timeout_positive = rw (e, t') t;
  backoff_ok = b;
  agrees = rw e a;
}

pub connect_transport-SessionOk :
    (c : Config) (s : Session) (m : DeviceManager) (lib : Library) (t : Times)
    → SessionOk c s m
    → let (ok, s', m') = connect_transport c.device_id s m lib t in
      SessionOk c s' m' × (ok ≡ s'.connected)
unfolding connect_transport
connect_transport-SessionOk c s m lib t v =
    let (began, s1, m1) = transition_to s.machine m ConnectionState.connecting t.connecting in
    let f1 = moved s.machine m ConnectionState.connecting t.connecting in
    let y1 = transition_to-IsSynced s.machine m ConnectionState.connecting t.connecting v.synced in
    let (_, s2, m2) = transition_to s1 m1 ConnectionState.error t.connected in
    let f2 = moved s1 m1 ConnectionState.error t.connected in
    let y2 = transition_to-IsSynced s1 m1 ConnectionState.error t.connected y1 in
    let y3 = marked s2 m2 c.device_id Quality.disconnected t.wall y2 in
    let (entered, s4, m4) = transition_to s1 m1 ConnectionState.connected t.connected in
    let f4 = moved s1 m1 ConnectionState.connected t.connected in
    let y4 = transition_to-IsSynced s1 m1 ConnectionState.connected t.connected y1 in
    let failing = record_failure-IsValid s.backoff t.connect_failed v.backoff_ok in
    let agrees = v.agrees in
    let ids = f1.2 in
    let build =
      λ (x : Session) (n : Machine) (table : DeviceManager). session_ok c x s.machine n table in
    elim (Bool-cases s.connected) [
      | inl a ↦ simp (a, connect_transport) (v, refl)
      | inr a ↦
          simp (a, connect_transport)
            (elim (Bool-cases began) [
              | inr b ↦
                  simp (b, connect_transport)
                    (
                      build _ s1 m1 refl y1 v.same_id v.timeout_positive f1.2 f1.3 v.backoff_ok
                          (ground arith),
                      refl,
                    )
              | inl b ↦
                  simp (b, connect_transport)
                    (elim (Bool-cases lib.connects) [
                      | inr d ↦
                          simp (d, connect_transport)
                            (
                              build _ s2
                                  (update_all_tag_qualities m2 c.device_id Quality.disconnected
                                    t.wall).1
                                  refl y3 v.same_id v.timeout_positive (f2.2 ∙ f1.2) (f2.3 ∙ f1.3)
                                  failing (ground arith),
                              refl,
                            )
                      | inl d ↦
                          simp (d, connect_transport)
                            (elim (Bool-cases entered) [
                              | inr e ↦
                                  simp (e, connect_transport)
                                    (
                                      build _ s4 m4 refl y4 v.same_id v.timeout_positive
                                          (f4.2 ∙ f1.2) (f4.3 ∙ f1.3) failing (ground arith),
                                      refl,
                                    )
                              | inl e ↦
                                  simp (e, connect_transport)
                                    (
                                      build _ s4 m4 refl y4 v.same_id v.timeout_positive
                                          (f4.2 ∙ f1.2) (f4.3 ∙ f1.3)
                                          (reset-IsValid s.backoff v.backoff_ok) (ground arith),
                                      refl,
                                    )
                            ])
                    ])
            ])
    ]
