-- ===== src/Modbus/Runs.antt =====
-- plugins/modbus_plugin/modbus_plugin.cpp: from `initialize` on, whatever is called.
use edge_link.Modbus.Client
use edge_link.Prelude.{ℕ, ◌≡◌, ◌∙◌, true, false, some, List, [], ◌∷◌, arith, All}
use edge_link.Backoff.{reset, can_retry}
use edge_link.Device.{ConnectionState, Device}
use edge_link.DeviceManager.{DeviceManager, find_device}
use edge_link.DeviceManager.States.{Harmless, step_state}
use edge_link.Modbus.{Config, Floats}
use edge_link.Modbus.Calls.{poll_once-SessionOk, start_session-SessionOk, stop_session-SessionOk}
use edge_link.Modbus.Client.{Session, Times, Library, poll_once, start_session, stop_session}
use edge_link.Modbus.Lifecycle.{SessionOk}
use edge_link.Prelude.Keys.{text_eq, nat_eq}

-- Other code leaves the connection states of the table alone.
abbrev pub CallFine : Client.Call → Type 0
CallFine (Client.Call.table op) = Harmless op
CallFine _ = Unit {0}

step-SessionOk :
    (f : Floats) (c : Config) (s : Session) (m : DeviceManager) (x : Client.Call)
    → CallFine x
    → SessionOk c s m
    → let (s', m') = Client.step f c (s, m) x in SessionOk c s' m'
unfolding Client.step
step-SessionOk f c s m (Client.Call.starts lib t) h v = start_session-SessionOk f c s m lib t v
step-SessionOk f c s m (Client.Call.polls lib t) h v = poll_once-SessionOk f c s m lib t v
step-SessionOk f c s m (Client.Call.stops t) h v = (stop_session-SessionOk c s m t v).0
step-SessionOk f c s m (Client.Call.table op) h v =
    let (d, found, same) = v.synced in
    let (d', found', same') = step_state m op s.machine.device_id d h found in
    record {
      synced = (d', found', same' ∙ same);
      same_id = v.same_id;
      timeout_positive = v.timeout_positive;
      backoff_ok = v.backoff_ok;
      agrees = v.agrees;
    }

-- From a session in order, after any calls of the plugin's methods, whatever the device and the
-- library answer and whatever other code does to the table short of removing devices or setting
-- connection states: the plugin holds a connection exactly if its state machine is in `Connected`,
-- the table shows the machine's state for the device, and the backoff's delays are in order.
pub client_run-SessionOk :
    (f : Floats) (c : Config) (xs : List Client.Call) (s : Session) (m : DeviceManager)
    → All CallFine xs
    → SessionOk c s m
    → let (s', m') = Client.run f c (s, m) xs in SessionOk c s' m'
unfolding Client.run
client_run-SessionOk f c [] s m h v = v
client_run-SessionOk f c (x ∷ xs) s m h v =
    let (s', m') = Client.step f c (s, m) x in
    client_run-SessionOk f c xs s' m' h.1 (step-SessionOk f c s m x h.0 v)

-- Of a session in order: while the plugin is not connected and its backoff has not run out, `start`
-- and `pollOnce` fail at once and change nothing. After `stop` the plugin is not connected, the
-- table shows the device as disconnected, and a new attempt is allowed at once.
pub waiting_or_stopped :
    (f : Floats) (c : Config) (s : Session) (m : DeviceManager) (lib : Library) (t : Times)
    (now : ℕ)
    → SessionOk c s m
    → (s.connected ≡ false
        → can_retry s.backoff t.retried ≡ false
        → (start_session f c s m lib t ≡ (false, s, m)) × (poll_once f c s m lib t ≡ (false, s, m)))
      × (let (s', m') = stop_session c.device_id s m t in
          (s'.connected ≡ false)
          × ((d : Device) × (find_device m' c.device_id ≡ some d)
              × (d.state ≡ ConnectionState.disconnected))
          × (can_retry s'.backoff now ≡ true))
unfolding start_session poll_once
waiting_or_stopped f c s m lib t now v =
    let (w, down) = stop_session-SessionOk c s m t v in
    let (d, found, same) = w.synced in
    let (s', m') = stop_session c.device_id s m t in
    let id : s'.machine.device_id ≡ c.device_id = w.same_id in
    let retry : can_retry s'.backoff now ≡ true =
      unfold stop_session reset can_retry in ground arith in
    let agrees = w.agrees in
    (λ a b. (ground arith, ground arith), (ground arith, (d, rw id at found, same ∙ down), retry))
