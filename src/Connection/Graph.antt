-- ===== src/Connection/Graph.antt =====
-- The legal transitions of src/device_connection_state_machine.cpp.
use edge_link.Prelude.{◌≡◌, true, not, ◌||◌, arith}
use edge_link.Connection.{state_beq, is_transition_allowed}
use edge_link.Device.{ConnectionState}
use edge_link.Prelude.Keys.{nat_eq, text_eq}

-- The shape of the transition table: `Connected` is entered from `Connecting` alone; `Connecting`
-- from exactly `Disconnected`, `Timeout` and `Error`; `Timeout` and `Error` from exactly
-- `Connecting` and `Connected`; `Disconnected` from every other state.
pub is_transition_allowed_lem :
    (s : ConnectionState)
    → (is_transition_allowed s ConnectionState.connected ≡ state_beq s ConnectionState.connecting)
      × (is_transition_allowed s ConnectionState.connecting
          ≡ not (state_beq s ConnectionState.connecting || state_beq s ConnectionState.connected))
      × (is_transition_allowed s ConnectionState.timeout
          ≡ (state_beq s ConnectionState.connecting || state_beq s ConnectionState.connected))
      × (is_transition_allowed s ConnectionState.error
          ≡ is_transition_allowed s ConnectionState.timeout)
      × (is_transition_allowed s ConnectionState.disconnected
          ≡ not (state_beq s ConnectionState.disconnected))
unfolding is_transition_allowed
is_transition_allowed_lem s = ground arith

pub rank-injective : (s t : ConnectionState) → state_beq s t ≡ true → s ≡ t
rank-injective s t h = ground arith
