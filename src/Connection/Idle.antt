-- ===== src/Connection/Idle.antt =====
-- The timeout check of src/device_connection_state_machine.cpp.
use edge_link.Prelude.{
  ℕ, ◌+◌, ◌-◌, ◌*◌, ◌<◌, ◌≡◌, refl, true, false, ◌&&◌, arith, ltb, leb, if◌then◌else◌,
}
use edge_link.Connection.{
  Machine, ns_per_ms, state_beq, is_transition_allowed, mark_activity, check_timeout,
}
use edge_link.Connection.Graph.{rank-injective}
use edge_link.Connection.Sync.{transition_to_lem}
use edge_link.Device.{ConnectionState}
use edge_link.DeviceManager.{DeviceManager, has_device}
use edge_link.Prelude.Keys.{nat_eq, text_eq}

abbrev pub IsConnected : Machine → Type 0
IsConnected s = s.state ≡ ConnectionState.connected

-- `checkTimeout` reports a timeout exactly when the machine is connected, has been idle for at
-- least the configured time, and its device is in the table. It then is in `Timeout`; otherwise it
-- is unchanged.
pub check_timeout_lem :
    (s : Machine) (m : DeviceManager) (now : ℕ)
    → let (ok, s', m') = check_timeout s m now in
      (ok ≡ (
        state_beq s.state ConnectionState.connected
        && leb (s.timeout * ns_per_ms) (now - s.last_activity)
        && has_device m s.device_id))
      × (s' ≡ (if ok then record s { state = ConnectionState.timeout } else s))
unfolding check_timeout is_transition_allowed
check_timeout_lem s m now =
    let facts = transition_to_lem s m ConnectionState.timeout now s.device_id in
    ground (arith, rank-injective s.state ConnectionState.connected)

mark_activity_connected :
    (s : Machine) (t : ℕ)
    → IsConnected s
    → mark_activity s t ≡ (true, record s { last_activity = t })
unfolding mark_activity
mark_activity_connected s t c = ground arith

check_timeout_early :
    (s : Machine) (m : DeviceManager) (now : ℕ)
    → now - s.last_activity < s.timeout * ns_per_ms
    → check_timeout s m now ≡ (false, s, m)
unfolding check_timeout
check_timeout_early s m now h =
    let early : ltb (now - s.last_activity) (s.timeout * ns_per_ms) ≡ true = ground arith in
    rw early (ground arith)

-- Activity at the time `t` keeps a connected machine with a positive timeout from timing out before
-- `t` plus the timeout, whatever the table holds.
pub mark_activity_no_timeout :
    (s : Machine) (m : DeviceManager) (t now : ℕ)
    → IsConnected s
    → 0 < s.timeout
    → now < t + s.timeout * ns_per_ms
    → let (ok, s') = mark_activity s t in (ok ≡ true) × (check_timeout s' m now ≡ (false, s', m))
mark_activity_no_timeout s m t now c positive h =
    rw (mark_activity_connected s t c) (refl, check_timeout_early _ m now (omega arith))
