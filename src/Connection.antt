-- ===== src/Connection.antt =====
-- src/device_connection_state_machine.cpp: the connection state of one device, kept in step with
-- the device table. The table is passed along, as the object holds a pointer to it. Times are
-- nanoseconds of the steady clock, which does not go back; `now` is what the clock returns in the
-- call, which reads it at most once.
pub mod Graph
pub mod Sync
pub mod Idle
use edge_link.DeviceManager
use edge_link.Prelude.{
  ℕ, ◌-◌, ◌*◌, Bool, true, false, not, ◌||◌, Option, none, some, List, [], ◌∷◌, ltb, eqb,
  if◌then◌else◌, Text, is_empty,
}
use edge_link.Device.{timeout, ConnectionState}
use edge_link.DeviceManager.{DeviceManager, find_device, update_connection_state}
use edge_link.Prelude.Int.{ℤ, pos, pos_part, leb_ℤ}
use edge_link.Prelude.Keys.{nat_eq, text_eq}

pub record Machine : Type 0 where
  pub device_id : Text
  pub timeout : ℕ  -- milliseconds
  pub last_activity : ℕ
  pub state : ConnectionState

abbrev pub ns_per_ms : ℕ
ns_per_ms = 1000000

-- `ConnectionState` as its underlying integer, by which the states are compared.
abbrev pub rank : ConnectionState → ℕ
rank ConnectionState.disconnected = 0
rank ConnectionState.connecting = 1
rank ConnectionState.connected = 2
rank ConnectionState.timeout = 3
rank ConnectionState.error = 4

abbrev pub state_beq : ConnectionState → ConnectionState → Bool
state_beq s t = eqb (rank s) (rank t)

-- The constructor; `none` where it throws. A null manager is `none`.
unfoldable pub create : Option DeviceManager → Text → ℤ → ℕ → Option Machine
create none id limit now = none
create (some m) id limit now =
    if is_empty id || leb_ℤ limit (pos 0) then none else elim (find_device m id) [
      | none ↦ none
      | some d ↦ some (record {
        device_id = id;
        timeout = pos_part limit;
        last_activity = now;
        state = d.state;
      })
    ]

unfoldable pub is_transition_allowed : ConnectionState → ConnectionState → Bool
is_transition_allowed ConnectionState.disconnected next = state_beq next ConnectionState.connecting
is_transition_allowed ConnectionState.connecting next =
    state_beq next ConnectionState.connected
    || state_beq next ConnectionState.timeout
    || state_beq next ConnectionState.error
    || state_beq next ConnectionState.disconnected
is_transition_allowed ConnectionState.connected next =
    state_beq next ConnectionState.timeout
    || state_beq next ConnectionState.error
    || state_beq next ConnectionState.disconnected
is_transition_allowed ConnectionState.timeout next =
    state_beq next ConnectionState.connecting || state_beq next ConnectionState.disconnected
is_transition_allowed ConnectionState.error next =
    state_beq next ConnectionState.connecting || state_beq next ConnectionState.disconnected

-- The writes at the end of `transitionTo`.
entered : Machine → ConnectionState → ℕ → Machine
entered s next now = record s {
  state = next;
  last_activity = if state_beq next ConnectionState.connected then now else s.last_activity;
}

commit : Machine → ConnectionState → ℕ → Bool × DeviceManager → Bool × Machine × DeviceManager
commit s next now (false, m) = (false, s, m)
commit s next now (true, m) = (true, entered s next now, m)

unfoldable pub transition_to :
    Machine → DeviceManager → ConnectionState → ℕ → Bool × Machine × DeviceManager
unfolding entered commit
transition_to s m next now =
    if state_beq next s.state
    then (true, s, m)
    else if not (is_transition_allowed s.state next)
    then (false, s, m)
    else commit s next now (update_connection_state m s.device_id next)

unfoldable pub mark_activity : Machine → ℕ → Bool × Machine
mark_activity s now =
    if not (state_beq s.state ConnectionState.connected)
    then (false, s)
    else (true, record s { last_activity = now })

unfoldable pub check_timeout : Machine → DeviceManager → ℕ → Bool × Machine × DeviceManager
unfolding transition_to
check_timeout s m now =
    if not (state_beq s.state ConnectionState.connected)
    then (false, s, m)
    else if ltb (now - s.last_activity) (s.timeout * ns_per_ms)
    then (false, s, m)
    else transition_to s m ConnectionState.timeout now

-- A call on the machine, or a call of other code on the table that it shares.
pub data Call : Type 0 where
  transition : ConnectionState → Call
  activity check : Call
  table : DeviceManager.Op → Call

unfoldable pub step : Machine × DeviceManager → ℕ × Call → Machine × DeviceManager
unfolding mark_activity
step (s, m) (now, transition next) = let (ok, s', m') = transition_to s m next now in (s', m')
step (s, m) (now, activity) = ((mark_activity s now).1, m)
step (s, m) (now, check) = let (ok, s', m') = check_timeout s m now in (s', m')
step (s, m) (now, table op) = (s, (DeviceManager.step m op).1)

unfoldable pub run : Machine × DeviceManager → List (ℕ × Call) → Machine × DeviceManager
run w [] = w
run w (c ∷ cs) = run (step w c) cs
