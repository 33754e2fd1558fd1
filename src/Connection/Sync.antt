-- ===== src/Connection/Sync.antt =====
-- The state of the machine of src/device_connection_state_machine.cpp and the state that the
-- device table shows for its device.
use edge_link.Connection
use edge_link.Prelude.{
  ℕ, ◌-◌, ◌*◌, ◌<◌, ◌≡◌, ◌∙◌, inl, inr, not, ◌&&◌, ◌||◌, some, List, [], ◌∷◌, arith, ltb,
  if◌then◌else◌, Bool-cases, Option-cases, Text, All,
}
use edge_link.Connection.{
  Machine, ns_per_ms, state_beq, create, is_transition_allowed, transition_to, check_timeout, Call,
  transition, activity, check, table,
}
use edge_link.Device.{ConnectionState, Device}
use edge_link.DeviceManager.{DeviceManager, find_device, has_device, update_connection_state}
use edge_link.DeviceManager.Effects.{has_device-find_device, modify_lem}
use edge_link.DeviceManager.States.{Harmless, step_state}
use edge_link.Prelude.Dict.{Option_map}
use edge_link.Prelude.Int.{ℤ}
use edge_link.Prelude.Keys.{nat_eq, text_beq, text_eq, text_beq_refl}

abbrev pub with_state : ConnectionState → Device → Device
with_state state d = record d { state = state }

-- What `transitionTo` does on every branch. It succeeds exactly when the machine is already in the
-- state asked for, or the transition is legal and the device is in the table. On success the
-- machine is in that state, and on failure it is as before. The table shows the new state for the
-- device if there was a transition; every other device, and the table of a refused or empty
-- transition, is as before. Only the entry into `Connected` restarts the activity clock.
pub transition_to_lem :
    (s : Machine) (m : DeviceManager) (next : ConnectionState) (now : ℕ) (j : Text)
    → let (ok, s', m') = transition_to s m next now in
      let same = state_beq next s.state in
      (ok ≡ (same || (is_transition_allowed s.state next && has_device m s.device_id)))
      × (s' ≡ (
          if ok && not same
          then record s {
            state = next;
            last_activity =
                if state_beq next ConnectionState.connected then now else s.last_activity;
          }
          else s))
      × (find_device m' j ≡ (
          if ok && not same && text_beq s.device_id j
          then Option_map (with_state next) (find_device m j)
          else find_device m j))
unfolding transition_to update_connection_state
transition_to_lem s m next now j = ground (arith, modify_lem m s.device_id (with_state next) j)

-- The table shows the state that the machine is in.
abbrev pub IsSynced : Machine → DeviceManager → Type 0
IsSynced s m = (d : Device) × (find_device m s.device_id ≡ some d) × (d.state ≡ s.state)

pub create-IsSynced :
    (m : DeviceManager) (id : Text) (limit : ℤ) (now : ℕ) (s : Machine)
    → create (some m) id limit now ≡ some s
    → IsSynced s m × (0 < s.timeout) × (s.device_id ≡ id)
unfolding create
create-IsSynced m id limit now s h = elim (Option-cases (find_device m id)) [
  | inl e ↦ absurd (ground arith)
  | inr (d, e) ↦ ((d, ground arith, ground arith), ground arith, ground arith)
]

pub transition_to-IsSynced :
    (s : Machine) (m : DeviceManager) (next : ConnectionState) (now : ℕ)
    → IsSynced s m
    → let (ok, s', m') = transition_to s m next now in IsSynced s' m'
transition_to-IsSynced s m next now (d, f, e) =
    let (ok, s', m') = transition_to s m next now in
    let moved = ok && not (state_beq next s.state) in
    let facts = transition_to_lem s m next now s.device_id in
    let present = has_device-find_device m s.device_id in
    let found = text_beq_refl s.device_id in
    (if moved then with_state next d else d, ground arith, ground arith)

pub check_timeout-IsSynced :
    (s : Machine) (m : DeviceManager) (now : ℕ)
    → IsSynced s m
    → let (ok, s', m') = check_timeout s m now in IsSynced s' m'
unfolding check_timeout
check_timeout-IsSynced s m now y =
    let z = transition_to-IsSynced s m ConnectionState.timeout now y in
    elim (Bool-cases (state_beq s.state ConnectionState.connected)) [
      | inl a ↦ elim (Bool-cases (ltb (now - s.last_activity) (s.timeout * ns_per_ms))) [
        | inl b ↦ rw (a, b) y
        | inr b ↦ rw (a, b) z
      ]
      | inr a ↦ rw a y
    ]

abbrev pub CallOk : ℕ × Call → Type 0
CallOk (now, table op) = Harmless op
CallOk _ = Unit {0}

step-IsSynced :
    (c : ℕ × Call) (s : Machine) (m : DeviceManager)
    → CallOk c
    → IsSynced s m
    → let (s', m') = Connection.step (s, m) c in IsSynced s' m'
unfolding Connection.step
step-IsSynced (now, transition next) s m ok y = transition_to-IsSynced s m next now y
step-IsSynced (now, activity) s m ok y = ground arith
step-IsSynced (now, check) s m ok y = check_timeout-IsSynced s m now y
step-IsSynced (now, table op) s m ok (d, f, e) =
    let (d', f', e') = step_state m op s.device_id d ok f in (d', f', e' ∙ e)

-- From a machine whose device the table shows in the machine's state: machine and table agree after
-- any sequence of calls on the machine, whatever other code does to the table between them short of
-- removing devices or setting connection states itself.
pub run-IsSynced :
    (cs : List (ℕ × Call)) (w : Machine × DeviceManager)
    → All CallOk cs
    → IsSynced w.0 w.1
    → let (s, m) = Connection.run w cs in IsSynced s m
unfolding Connection.run
run-IsSynced [] w ok y = y
run-IsSynced (c ∷ cs) w ok y =
    run-IsSynced cs (Connection.step w c) ok.1 (step-IsSynced c w.0 w.1 ok.0 y)
