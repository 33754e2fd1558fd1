-- ===== src/Modbus/Calls.antt =====
-- plugins/modbus_plugin/modbus_plugin.cpp: polling, starting, stopping, and any sequence of calls.
use edge_link.Prelude.{
  ℕ, suc, ◌≡◌, refl, sym, ap, ◌∙◌, inl, inr, Bool, true, false, List, [], ◌∷◌, arith, Bool-cases,
  Text,
}
use edge_link.Backoff.{can_retry}
use edge_link.Backoff.Delays.{record_failure-IsValid, reset-IsValid}
use edge_link.Connection.{Machine, state_beq, transition_to, mark_activity, check_timeout}
use edge_link.Connection.Graph.{is_transition_allowed_lem, rank-injective}
use edge_link.Connection.Idle.{check_timeout_lem}
use edge_link.Connection.Sync.{
  transition_to_lem, IsSynced, transition_to-IsSynced, check_timeout-IsSynced,
}
use edge_link.Device.{Quality, ConnectionState}
use edge_link.DeviceManager.{DeviceManager, find_device}
use edge_link.DeviceManager.Effects.{has_device-find_device}
use edge_link.Modbus.{TagConfig, Config, Floats}
use edge_link.Modbus.Client.{
  Session, Times, Response, Library, connect_transport, polled_tag, outcome, poll_tags, after_poll,
  poll_connected, poll_once, start_session, stop_session,
}
use edge_link.Modbus.Lifecycle.{
  SessionOk, moved, marked, tagged, session_ok, connect_transport-SessionOk,
}
use edge_link.Prelude.Keys.{text_eq, nat_eq}
use edge_link.DeviceManager

poll_tags-IsSynced :
    (f : Floats) (id : Text) (tags : List TagConfig) (i : ℕ) (responds : ℕ → Response) (s : Machine)
    (m : DeviceManager)
    → IsSynced s m
    → let (all_ok, answered, m') = poll_tags f id tags i responds m in IsSynced s m'
unfolding poll_tags
poll_tags-IsSynced f id [] i responds s m y = y
poll_tags-IsSynced f id (tag ∷ tags) i responds s m y =
    let r = responds i in
    let (value, quality) = outcome f tag r.registers in
    let (updated, m') = DeviceManager.update_tag m id (polled_tag tag.name value quality) r.wall in
    poll_tags-IsSynced f id tags (suc i) responds s m'
      (tagged s m id (polled_tag tag.name value quality) r.wall y)

after_poll-SessionOk :
    (c : Config) (s : Session) (m : DeviceManager) (answered : Bool) (t : Times)
    → SessionOk c s m
    → let (s', m') = after_poll c.device_id s m answered t in SessionOk c s' m'
unfolding after_poll
after_poll-SessionOk c s m true t v =
    let kept : (mark_activity s.machine t.polled).1.state ≡ s.machine.state =
      unfold mark_activity in ground arith in
    let id : (mark_activity s.machine t.polled).1.device_id ≡ s.machine.device_id =
      unfold mark_activity in ground arith in
    let limit : (mark_activity s.machine t.polled).1.timeout ≡ s.machine.timeout =
      unfold mark_activity in ground arith in
    let (d, found, same) = v.synced in
    session_ok c _ s.machine (mark_activity s.machine t.polled).1 m refl
      (d, ap (find_device m) id ∙ found, same ∙ sym kept) v.same_id v.timeout_positive id limit
      v.backoff_ok (v.agrees ∙ ap (λ x. state_beq x ConnectionState.connected) (sym kept))
after_poll-SessionOk c s m false t v =
    let (timed_out, s', m') = check_timeout s.machine m t.polled in
    let (fired, left) = check_timeout_lem s.machine m t.polled in
    let y = check_timeout-IsSynced s.machine m t.polled v.synced in
    let failing = record_failure-IsValid s.backoff t.poll_failed v.backoff_ok in
    let agrees = v.agrees in
    elim (Bool-cases timed_out) [
      | inl a ↦
          simp (a, after_poll)
            (session_ok c _ s.machine s' _ refl (marked s' m' c.device_id Quality.timeout t.wall y)
              v.same_id v.timeout_positive (ground arith) (ground arith) failing (ground arith))
      | inr a ↦
          simp (a, after_poll)
            (session_ok c _ s.machine s' _ refl y v.same_id v.timeout_positive (ground arith)
              (ground arith) v.backoff_ok (ground arith))
    ]

poll_connected-SessionOk :
    (f : Floats) (c : Config) (s : Session) (m : DeviceManager) (lib : Library) (t : Times)
    → SessionOk c s m
    → let (ok, s', m') = poll_connected f c s m lib t in SessionOk c s' m'
unfolding poll_connected
poll_connected-SessionOk f c s m lib t v =
    let (all_ok, answered, m') = poll_tags f c.device_id c.tags 0 lib.responds m in
    let y = poll_tags-IsSynced f c.device_id c.tags 0 lib.responds s.machine m v.synced in
    after_poll-SessionOk c s m' answered t (record {
      synced = y;
      same_id = v.same_id;
      timeout_positive = v.timeout_positive;
      backoff_ok = v.backoff_ok;
      agrees = v.agrees;
    })

pub poll_once-SessionOk :
    (f : Floats) (c : Config) (s : Session) (m : DeviceManager) (lib : Library) (t : Times)
    → SessionOk c s m
    → let (ok, s', m') = poll_once f c s m lib t in SessionOk c s' m'
unfolding poll_once
poll_once-SessionOk f c s m lib t v =
    let (ok, s', m') = connect_transport c.device_id s m lib t in
    let (w, _) = connect_transport-SessionOk c s m lib t v in
    elim (Bool-cases s.connected) [
      | inl a ↦ simp (a, poll_once) (poll_connected-SessionOk f c s m lib t v)
      | inr a ↦
          simp (a, poll_once)
            (elim (Bool-cases (can_retry s.backoff t.retried)) [
              | inr b ↦ simp (b, poll_once) v
              | inl b ↦
                  simp (b, poll_once)
                    (elim (Bool-cases ok) [
                      | inr d ↦ simp (d, poll_once) w
                      | inl d ↦ simp (d, poll_once) (poll_connected-SessionOk f c s' m' lib t w)
                    ])
            ])
    ]

pub start_session-SessionOk :
    (f : Floats) (c : Config) (s : Session) (m : DeviceManager) (lib : Library) (t : Times)
    → SessionOk c s m
    → let (ok, s', m') = start_session f c s m lib t in SessionOk c s' m'
unfolding start_session
start_session-SessionOk f c s m lib t v =
    let (ok, s', m') = connect_transport c.device_id s m lib t in
    let (w, _) = connect_transport-SessionOk c s m lib t v in
    elim (Bool-cases s.connected) [
      | inl a ↦ simp (a, start_session) v
      | inr a ↦
          simp (a, start_session)
            (elim (Bool-cases (can_retry s.backoff t.retried)) [
              | inr b ↦ simp (b, start_session) v
              | inl b ↦
                  simp (b, start_session)
                    (elim (Bool-cases ok) [
                      | inr d ↦ simp (d, start_session) w
                      | inl d ↦ simp (d, start_session) (poll_once-SessionOk f c s' m' lib t w)
                    ])
            ])
    ]

disconnects :
    (s : Machine) (m : DeviceManager) (now : ℕ)
    → IsSynced s m
    → (transition_to s m ConnectionState.disconnected now).1.state ≡ ConnectionState.disconnected
disconnects s m now (d, f, e) =
    let facts = transition_to_lem s m ConnectionState.disconnected now s.device_id in
    let present = has_device-find_device m s.device_id in
    let allowed = is_transition_allowed_lem s.state in
    ground (arith, rank-injective s.state ConnectionState.disconnected)

pub stop_session-SessionOk :
    (c : Config) (s : Session) (m : DeviceManager) (t : Times)
    → SessionOk c s m
    → let (s', m') = stop_session c.device_id s m t in
      SessionOk c s' m' × (s'.machine.state ≡ ConnectionState.disconnected)
unfolding stop_session
stop_session-SessionOk c s m t v =
    let state = ConnectionState.disconnected in
    let (_, s', m') = transition_to s.machine m state t.connected in
    let (_, _, ids, limits) = moved s.machine m state t.connected in
    let y =
      marked s' m' c.device_id Quality.disconnected t.wall
        (transition_to-IsSynced s.machine m state t.connected v.synced) in
    let down = disconnects s.machine m t.connected v.synced in
    let fresh = reset-IsValid s.backoff v.backoff_ok in
    elim (Bool-cases (state_beq s.machine.state state)) [
      | inl a ↦
          let there = rank-injective s.machine.state state a in
          rw (a, stop_session)
            (
              session_ok c _ s.machine s.machine m refl v.synced v.same_id v.timeout_positive refl
                  refl fresh (ground arith),
              there,
            )
      | inr a ↦
          rw (a, stop_session)
            (
              session_ok c _ s.machine s' _ refl y v.same_id v.timeout_positive ids limits fresh
                  (ground arith),
              down,
            )
    ]
