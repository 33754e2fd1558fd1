-- ===== src/Modbus/Initialize.antt =====
-- `ModbusPlugin::initialize` of plugins/modbus_plugin/modbus_plugin.cpp.
use edge_link.Backoff
use edge_link.Prelude.{
  ℕ, ◌≡◌, refl, sym, inl, inr, Bool, true, false, ◌&&◌, none, some, arith, Bool-cases, Option-cases,
  is_empty,
}
use edge_link.Backoff.{Backoff}
use edge_link.Backoff.Delays.{create-IsValid}
use edge_link.Connection.{Machine, state_beq}
use edge_link.Device.{ConnectionState, Device}
use edge_link.DeviceManager.{DeviceManager, find_device, has_device}
use edge_link.DeviceManager.Effects.{has_device-find_device, add_device_lem}
use edge_link.Modbus.{Config, Floats, validate_config}
use edge_link.Modbus.Client.{
  Session, Plugin, Library, open_session, new_device, with_device, initialize,
}
use edge_link.Modbus.Lifecycle.{SessionOk}
use edge_link.Prelude.Int.{pos, pos_part, ltb_ℤ, leb_ℤ}
use edge_link.Prelude.Keys.{text_beq_refl, text_eq, nat_eq}
use edge_link.Connection

-- What a valid configuration says of the numbers that the constructors check.
abbrev Sound : Config → Type 0
Sound c =
    (is_empty c.device_id ≡ false)
    × (leb_ℤ c.communication_timeout_ms (pos 0) ≡ false)
    × (leb_ℤ c.reconnect_initial_delay_ms (pos 0) ≡ false)
    × (ltb_ℤ c.reconnect_maximum_delay_ms c.reconnect_initial_delay_ms ≡ false)

validate_config-Sound : (f : Floats) (c : Config) → validate_config f c ≡ true → Sound c
unfolding validate_config
validate_config-Sound f c e = ground arith

create_machine :
    (m : DeviceManager) (c : Config) (now : ℕ) (d : Device)
    → Sound c
    → find_device m c.device_id ≡ some d
    → Connection.create (some m) c.device_id c.communication_timeout_ms now
      ≡ some (record {
        device_id = c.device_id;
        timeout = pos_part c.communication_timeout_ms;
        last_activity = now;
        state = d.state;
      })
unfolding Connection.create
create_machine m c now d (id, limit, _, _) e = ground arith

create_backoff :
    (c : Config)
    → Sound c
    → (b : Backoff) × (Backoff.create c.reconnect_initial_delay_ms c.reconnect_maximum_delay_ms
        ≡ some b)
unfolding Backoff.create
create_backoff c (_, _, i, m) =
    elim (Option-cases (Backoff.create c.reconnect_initial_delay_ms c.reconnect_maximum_delay_ms)) [
      | inl e ↦ absurd (ground arith)
      | inr found ↦ found
    ]

open_session_lem :
    (c : Config) (m : DeviceManager) (now : ℕ) (d : Device)
    → Sound c
    → find_device m c.device_id ≡ some d
    → state_beq d.state ConnectionState.connected ≡ false
    → (s : Session) × (open_session c m now
        ≡ some (true, record { config = c; session = some s }, m))
      × SessionOk c s m
unfolding open_session
open_session_lem c m now d sound found apart =
    let (b, made) = create_backoff c sound in
    let machine : Machine = record {
      device_id = c.device_id;
      timeout = pos_part c.communication_timeout_ms;
      last_activity = now;
      state = d.state;
    } in
    let s : Session = record { connected = false; machine = machine; backoff = b } in
    (
      s,
      rw (create_machine m c now d sound found, made) refl,
      record {
        synced = (d, found, refl);
        same_id = refl;
        timeout_positive = let l = sound.1 in ground arith;
        backoff_ok =
            create-IsValid c.reconnect_initial_delay_ms c.reconnect_maximum_delay_ms b made;
        agrees = sym apart;
      },
    )

with_device_lem :
    (c : Config) (m : DeviceManager)
    → is_empty c.device_id ≡ false
    → ((d : Device)
        → find_device m c.device_id ≡ some d
        → state_beq d.state ConnectionState.connected ≡ false)
    → let (ok, m') = with_device c m in
      (ok ≡ true)
      × ((d : Device) × (find_device m' c.device_id ≡ some d)
          × (state_beq d.state ConnectionState.connected ≡ false))
unfolding with_device
with_device_lem c m id apart =
    let present = has_device-find_device m c.device_id in
    elim (Option-cases (find_device m c.device_id)) [
      | inl e ↦
          let facts = add_device_lem m (new_device c) c.device_id in
          let same = text_beq_refl c.device_id in
          let absent : has_device m c.device_id ≡ false = ground arith in
          rw (absent, with_device) (ground arith, (new_device c, ground arith, refl))
      | inr (d, e) ↦
          let there : has_device m c.device_id ≡ true = ground arith in
          rw (there, with_device) (refl, (d, e, apart d e))
    ]

-- A plugin without a session, and a device that, if it is in the table already, is not shown as
-- connected. `initialize` never throws: a configuration that it accepts is one that the
-- constructors accept. It succeeds exactly if the configuration is valid and the library makes the
-- context and takes the slave ID; the plugin then has a session in order, over a table that holds
-- the device. Where it fails the plugin stays without one.
pub initialize_lem :
    (f : Floats) (p : Plugin) (m : DeviceManager) (lib : Library) (now : ℕ)
    → p.session ≡ none
    → ((d : Device)
        → find_device m p.config.device_id ≡ some d
        → state_beq d.state ConnectionState.connected ≡ false)
    → (ok : Bool) × (p' : Plugin) × (m' : DeviceManager) × (initialize f p m lib now
        ≡ some (ok, p', m'))
      × (ok ≡ (validate_config f p.config && lib.creates && lib.sets_slave))
      × (ok ≡ true → (s : Session) × (p'.session ≡ some s) × SessionOk p.config s m')
      × (ok ≡ false → p'.session ≡ none)
unfolding initialize
initialize_lem f p m lib now fresh apart = elim (Bool-cases (validate_config f p.config)) [
  | inr v ↦ (false, p, m, ground arith, ground arith, λ h. absurd (cc), λ h. fresh)
  | inl v ↦
      let sound = validate_config-Sound f p.config v in
      let (made, (d, found, far)) = with_device_lem p.config m sound.0 apart in
      let m' = (with_device p.config m).1 in
      let (s, opened, fine) = open_session_lem p.config m' now d sound found far in
      elim (Bool-cases (lib.creates && lib.sets_slave)) [
        | inr b ↦ (false, p, m, ground arith, ground arith, λ h. absurd (cc), λ h. fresh)
        | inl b ↦ (
          true,
          record { config = p.config; session = some s },
          m',
          ground arith,
          ground arith,
          λ h. (s, refl, fine),
          λ h. absurd (cc),
        )
      ]
]
