-- ===== src/Modbus/Client.antt =====
-- plugins/modbus_plugin/modbus_plugin.cpp: connecting, polling and stopping. The context, the state
-- machine and the backoff are made together by `initialize`; a plugin before that has no session.
use edge_link.Backoff
use edge_link.Connection
use edge_link.DeviceManager
use edge_link.Prelude.{
  ℕ, suc, Bool, true, false, not, ◌&&◌, ◌||◌, Option, none, some, List, [], ◌∷◌, if◌then◌else◌,
  is_some, ◌>>=◌, Text, codes,
}
use edge_link.Backoff.{Backoff, record_failure, reset, can_retry}
use edge_link.Connection.{Machine, state_beq, transition_to, mark_activity, check_timeout}
use edge_link.Device.{Quality, ConnectionState, TagValue, Tag, Device, is_good}
use edge_link.DeviceManager.{DeviceManager, add_device, has_device, update_all_tag_qualities}
use edge_link.Modbus.{TagConfig, Config, Floats, validate_config, engineering_value}
use edge_link.Prelude.Keys.{text_eq, nat_eq}

pub record Session : Type 0 where
  pub connected : Bool
  pub machine : Machine
  pub backoff : Backoff

pub record Plugin : Type 0 where
  pub config : Config
  pub session : Option Session

-- The readings of the steady clock in one call, in the order of the code, and of the system clock
-- where a quality is written for all tags.
pub record Times : Type 0 where
  pub created : ℕ
  pub retried : ℕ
  pub connecting : ℕ
  pub connected : ℕ
  pub connect_failed : ℕ
  pub polled : ℕ
  pub poll_failed : ℕ
  pub wall : ℕ

-- What `modbus_read_registers` read for a tag, if all that was asked for, and the system clock.
pub record Response : Type 0 where
  pub registers : Option (ℕ × ℕ)
  pub wall : ℕ

-- What the library answers in one call: whether it makes a context, takes the slave ID and connects,
-- and its response to the request for the tag of a position.
pub record Library : Type 0 where
  pub creates : Bool
  pub sets_slave : Bool
  pub connects : Bool
  pub responds : ℕ → Response

-- The end of `initialize`; `none` where a constructor throws.
unfoldable pub open_session : Config → DeviceManager → ℕ → Option (Bool × Plugin × DeviceManager)
open_session c m now = do
  machine ← Connection.create (some m) c.device_id c.communication_timeout_ms now
  backoff ← Backoff.create c.reconnect_initial_delay_ms c.reconnect_maximum_delay_ms
  some (
    true,
    record {
      config = c;
      session = some (record { connected = false; machine = machine; backoff = backoff });
    },
    m,
  )

-- The device that `initialize` adds.
abbrev pub new_device : Config → Device
new_device c = record {
  id = c.device_id;
  name = c.device_name;
  protocol = codes "modbus-tcp";
  state = ConnectionState.disconnected;
  tags = [];
}

unfoldable pub with_device : Config → DeviceManager → Bool × DeviceManager
with_device c m = if has_device m c.device_id then (true, m) else add_device m (new_device c)

unfoldable pub initialize :
    Floats → Plugin → DeviceManager → Library → ℕ → Option (Bool × Plugin × DeviceManager)
initialize f p m lib now =
    if is_some p.session
    then some (true, p, m)
    else if not (validate_config f p.config)
    then some (false, p, m)
    else if not lib.creates
    then some (false, p, m)
    else if not lib.sets_slave
    then some (false, p, m)
    else let (ok, m') = with_device p.config m in
      if not ok then some (false, p, m') else open_session p.config m' now

unfoldable pub connect_transport :
    Text → Session → DeviceManager → Library → Times → Bool × Session × DeviceManager
connect_transport id s m lib t =
    let (began, s1, m1) = transition_to s.machine m ConnectionState.connecting t.connecting in
    let (_, s2, m2) = transition_to s1 m1 ConnectionState.error t.connected in
    let (_, m3) = update_all_tag_qualities m2 id Quality.disconnected t.wall in
    let (entered, s4, m4) = transition_to s1 m1 ConnectionState.connected t.connected in
    let failed = record_failure s.backoff t.connect_failed in
    if s.connected
    then (true, s, m)
    else if not began
    then (false, record s { machine = s1 }, m1)
    else if not lib.connects
    then (false, record s { machine = s2; backoff = failed }, m3)
    else if not entered
    then (false, record s { connected = false; machine = s4; backoff = failed }, m4)
    else (true, record { connected = true; machine = s4; backoff = reset s.backoff }, m4)

abbrev pub polled_tag : Text → TagValue → Quality → Tag
polled_tag name value quality = record {
  name = name;
  value = value;
  quality = quality;
  timestamp = 0;
}

-- What a response makes of a tag.
unfoldable pub outcome : Floats → TagConfig → Option (ℕ × ℕ) → TagValue × Quality
outcome f tag none = (TagValue.monostate, Quality.timeout)
outcome f tag (some (r0, r1)) = elim (engineering_value f tag r0 r1) [
  | none ↦ (TagValue.monostate, Quality.invalid)
  | some v ↦ (TagValue.double v, Quality.good)
]

-- The loop of `pollOnce` from position `i` on: whether all succeeded, and whether any answered.
unfoldable pub poll_tags :
    Floats
    → Text
    → List TagConfig
    → ℕ
    → (ℕ → Response)
    → DeviceManager
    → Bool × Bool × DeviceManager
poll_tags f id [] i responds m = (true, false, m)
poll_tags f id (tag ∷ tags) i responds m =
    let r = responds i in
    let (value, quality) = outcome f tag r.registers in
    let (updated, m') = DeviceManager.update_tag m id (polled_tag tag.name value quality) r.wall in
    let (all_ok, answered, m'') = poll_tags f id tags (suc i) responds m' in
    (is_good quality && updated && all_ok, is_some r.registers || answered, m'')

-- The end of `pollOnce`.
unfoldable pub after_poll : Text → Session → DeviceManager → Bool → Times → Session × DeviceManager
after_poll id s m answered t =
    let (timed_out, s', m') = check_timeout s.machine m t.polled in
    let (_, m'') = update_all_tag_qualities m' id Quality.timeout t.wall in
    if answered
    then (record s { machine = (mark_activity s.machine t.polled).1 }, m)
    else if timed_out
    then (
      record { connected = false; machine = s'; backoff = record_failure s.backoff t.poll_failed },
      m'',
    )
    else (record s { machine = s' }, m')

unfoldable pub poll_connected :
    Floats → Config → Session → DeviceManager → Library → Times → Bool × Session × DeviceManager
poll_connected f c s m lib t =
    let (all_ok, answered, m') = poll_tags f c.device_id c.tags 0 lib.responds m in
    let (s', m'') = after_poll c.device_id s m' answered t in (all_ok, s', m'')

-- `pollOnce` of a plugin with a session.
unfoldable pub poll_once :
    Floats → Config → Session → DeviceManager → Library → Times → Bool × Session × DeviceManager
poll_once f c s m lib t =
    let (ok, s', m') = connect_transport c.device_id s m lib t in
    if s.connected
    then poll_connected f c s m lib t
    else if not (can_retry s.backoff t.retried)
    then (false, s, m)
    else if not ok
    then (false, s', m')
    else poll_connected f c s' m' lib t

-- `start` of a plugin with a session.
unfoldable pub start_session :
    Floats → Config → Session → DeviceManager → Library → Times → Bool × Session × DeviceManager
start_session f c s m lib t =
    let (ok, s', m') = connect_transport c.device_id s m lib t in
    let (_, s'', m'') = poll_once f c s' m' lib t in
    if s.connected
    then (true, s, m)
    else if not (can_retry s.backoff t.retried)
    then (false, s, m)
    else if not ok
    then (false, s', m')
    else (true, s'', m'')

-- `stop` of a plugin with a session.
unfoldable pub stop_session : Text → Session → DeviceManager → Times → Session × DeviceManager
stop_session id s m t =
    let (_, s', m') = transition_to s.machine m ConnectionState.disconnected t.connected in
    let (_, m'') = update_all_tag_qualities m' id Quality.disconnected t.wall in
    let closed = record s { connected = false; backoff = reset s.backoff } in
    if state_beq s.machine.state ConnectionState.disconnected
    then (closed, m)
    else (record closed { machine = s' }, m'')

-- A call on a plugin with a session, or a call of other code on the table.
pub data Call : Type 0 where
  starts : Library → Times → Call
  polls : Library → Times → Call
  stops : Times → Call
  table : DeviceManager.Op → Call

unfoldable pub step : Floats → Config → Session × DeviceManager → Call → Session × DeviceManager
step f c (s, m) (starts lib t) = let (ok, s', m') = start_session f c s m lib t in (s', m')
step f c (s, m) (polls lib t) = let (ok, s', m') = poll_once f c s m lib t in (s', m')
step f c (s, m) (stops t) = stop_session c.device_id s m t
step f c (s, m) (table op) = (s, (DeviceManager.step m op).1)

unfoldable pub run : Floats → Config → Session × DeviceManager → List Call → Session × DeviceManager
run f c w [] = w
run f c w (x ∷ xs) = run f c (step f c w x) xs
