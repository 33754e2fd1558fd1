-- ===== src/UnixServer.antt =====
-- src/unix_domain_server.cpp: the control socket, with one message in each packet. The state that it
-- shares with the kernel is that of TcpServer.antt, and the file at its path.
pub mod Clients
pub mod Replies
pub mod Path
use edge_link.Prelude.{
  ℕ, Bool, true, false, not, ◌&&◌, ◌||◌, Option, none, some, List, [], ◌∷◌, leb, if◌then◌else◌,
  is_some, Text, length, is_empty,
}
use edge_link.EventLoop.{Events, accepting_events, add_channel, remove_channel}
use edge_link.MessageBus.Index.{registered}
use edge_link.Prelude.Keys.{text_eq, nat_eq}
use edge_link.TcpServer.{Net, opens, closes}

abbrev pub max_control_message_size : ℕ
max_control_message_size = 4096

pub record UnixClient : Type 0 where
  pub events : Events
  pub output_messages : List Text

-- The handler's answer is `none` where it throws.
pub record UnixServer : Type 0 where
  pub has_loop : Bool
  pub socket_path : Text
  pub message_handler : Option (Text → Option Text)
  pub listen_fd : Option ℕ
  pub owns_socket_path : Bool
  pub clients : List (ℕ × UnixClient)

-- What is at the path: nothing, a socket with or without a process that listens, another file, or
-- something that cannot be inspected.
pub data PathFile : Type 0 where
  no_file listening_socket stale_socket other_file unknown_file : PathFile

pub record Host : Type 0 where
  pub net : Net
  pub file : PathFile

-- `isStaleSocketPath`: a connection is refused, where the probing socket can be made.
unfoldable pub is_stale_socket_path : Bool → PathFile → Bool
is_stale_socket_path probe_made stale_socket = probe_made
is_stale_socket_path probe_made other_file = probe_made
is_stale_socket_path probe_made _ = false

pub record UnixStartAnswers : Type 0 where
  pub probe_made : Bool
  pub unlinked : Bool
  pub socket : Option ℕ
  pub bound : Bool
  pub listening : Bool
  pub registered : Bool
  pub channel_removed : Bool
  pub path_removed : Bool

unfoldable pub new : Bool → Text → UnixServer
new has_loop path = record {
  has_loop = has_loop;
  socket_path = path;
  message_handler = none;
  listen_fd = none;
  owns_socket_path = false;
  clients = [];
}

unfoldable pub set_message_handler : Option (Text → Option Text) → UnixServer → UnixServer
set_message_handler handler s = record s { message_handler = handler }

unfoldable pub close_unix_clients : Bool → List (ℕ × UnixClient) → Net → Net
close_unix_clients removed [] net = net
close_unix_clients removed ((fd, c) ∷ cs) net =
    close_unix_clients removed cs
      (record (closes fd net) { loop = (remove_channel removed fd net.loop).1 })

-- `has_channel`: whether the listening channel was made before.
unfoldable pub stop : Bool → Bool → Bool → UnixServer → Host → UnixServer × Host
stop has_channel removed path_removed s h =
    let net = close_unix_clients removed s.clients h.net in
    let closed : Net = elim s.listen_fd [
      | none ↦ net
      | some fd ↦
          let unwatched =
            if has_channel
            then record net { loop = (remove_channel removed fd net.loop).1 }
            else net in
          closes fd unwatched
    ] in
    (
      record s { listen_fd = none; owns_socket_path = false; clients = [] },
      record {
        net = closed;
        file = if s.owns_socket_path && path_removed then no_file else h.file;
      },
    )

-- The rest of `start` once the path is free.
unfoldable pub listen_at : UnixStartAnswers → UnixServer → Host → Bool × UnixServer × Host
listen_at a s h = elim a.socket [
  | none ↦ (false, s, h)
  | some fd ↦
      let opened = record h { net = opens fd h.net } in
      let owner = record s { listen_fd = some fd; owns_socket_path = true } in
      let bound = record opened { file = listening_socket } in
      let (s1, h1) = stop false a.channel_removed a.path_removed owner bound in
      let (ok, loop) = add_channel a.registered fd accepting_events bound.net.loop in
      let (s2, h2) = stop true false a.path_removed owner bound in
      if not a.bound
      then (false, s, record h { net = closes fd opened.net })
      else if not a.listening
      then (false, s1, h1)
      else if not ok
      then (false, s2, h2)
      else (true, owner, record bound { net = record bound.net { loop = loop } })
]

-- `sizeof(sun_path)` is 108.
-- A socket at the path is taken away only where no process listens on it.
unfoldable pub replace_socket : UnixStartAnswers → UnixServer → Host → Bool × UnixServer × Host
replace_socket a s h =
    if not (is_stale_socket_path a.probe_made h.file) || not a.unlinked
    then (false, s, h)
    else listen_at a s (record h { file = no_file })

unfoldable pub start : UnixStartAnswers → UnixServer → Host → Bool × UnixServer × Host
start a s h =
    if is_some s.listen_fd
    then (true, s, h)
    else if not s.has_loop || is_empty s.socket_path
    then (false, s, h)
    else if leb 108 (length s.socket_path)
    then (false, s, h)
    else elim h.file [
      | no_file ↦ listen_at a s h
      | unknown_file ↦ (false, s, h)
      | other_file ↦ (false, s, h)
      | listening_socket ↦ replace_socket a s h
      | stale_socket ↦ replace_socket a s h
    ]
