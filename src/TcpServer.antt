-- ===== src/TcpServer.antt =====
-- src/tcp_server.cpp: the echo server. The server is passed along with the event loop, whose channels it
-- registers, and with the descriptors that are open. What the socket calls answer is an argument.
pub mod Loops
pub mod Echo
pub mod Resources
use edge_link.Prelude.{
  ℕ, ◌+◌, ◌-◌, min, Bool, true, false, not, ◌||◌, Option, none, some, List, [], ◌∷◌, ◌++◌, ltb, eqb,
  if◌then◌else◌, is_some, Text, length, take, drop,
}
use edge_link.EventLoop.{
  Events, reading_events, both_events, accepting_events, EventLoop, add_channel, remove_channel,
}
use edge_link.Prelude.Dict.{find, put, erase}
use edge_link.Prelude.Keys.{text_eq, nat_eq}

pub record Client : Type 0 where
  pub events : Events
  pub output_buffer : Text
  pub write_offset : ℕ

pub record TcpServer : Type 0 where
  pub port : ℕ
  pub listen_fd : Option ℕ
  pub clients : List (ℕ × Client)

-- What the server shares with the kernel: the loop, and the descriptors that it holds open.
pub record Net : Type 0 where
  pub loop : EventLoop
  pub descriptors : List ℕ

abbrev pub without_fd : ℕ → List ℕ → List ℕ
without_fd fd [] = []
without_fd fd (d ∷ ds) = if eqb d fd then without_fd fd ds else d ∷ without_fd fd ds

abbrev pub opens : ℕ → Net → Net
opens fd net = record net { descriptors = fd ∷ net.descriptors }

abbrev pub closes : ℕ → Net → Net
closes fd net = record net { descriptors = without_fd fd net.descriptors }

-- `socket`, `setsockopt`, `bind`, `listen` and the registration with epoll.
pub record StartAnswers : Type 0 where
  pub socket : Option ℕ
  pub reuse_set : Bool
  pub bound : Bool
  pub listening : Bool
  pub registered : Bool

unfoldable pub new : ℕ → TcpServer
new port = record { port = port; listen_fd = none; clients = [] }

unfoldable pub start : StartAnswers → TcpServer → Net → Bool × TcpServer × Net
start a s net = if is_some s.listen_fd then (true, s, net) else elim a.socket [
  | none ↦ (false, record s { listen_fd = none }, net)
  | some fd ↦
      if not a.reuse_set || not a.bound || not a.listening
      then (false, record s { listen_fd = none }, closes fd (opens fd net))
      else let (ok, loop) = add_channel a.registered fd accepting_events net.loop in
        if ok
        then (true, record s { listen_fd = some fd }, record (opens fd net) { loop = loop })
        else (false, record s { listen_fd = none }, closes fd (opens fd net))
]

-- `accept4`: a descriptor, with the answer of epoll to its registration.
pub data AcceptResult : Type 0 where
  accepted_client : ℕ → Bool → AcceptResult
  accept_blocked accept_interrupted accept_failed : AcceptResult

abbrev pub new_client : Client
new_client = record { events = reading_events; output_buffer = []; write_offset = 0 }

-- Where the answers run out, `accept4` would block.
unfoldable pub handle_accept : List AcceptResult → TcpServer → Net → TcpServer × Net
handle_accept [] s net = (s, net)
handle_accept (AcceptResult.accept_blocked ∷ rs) s net = (s, net)
handle_accept (AcceptResult.accept_interrupted ∷ rs) s net = handle_accept rs s net
handle_accept (AcceptResult.accept_failed ∷ rs) s net = (s, net)
handle_accept (AcceptResult.accepted_client fd registered ∷ rs) s net =
    let (ok, loop) = add_channel registered fd reading_events net.loop in
    let kept =
      handle_accept rs (record s { clients = put fd new_client s.clients })
        (record (opens fd net) { loop = loop }) in
    let refused = handle_accept rs s (closes fd (opens fd net)) in if ok then kept else refused

-- `removed` is the answer of epoll to the removal of the channel.
unfoldable pub remove_client : Bool → ℕ → TcpServer → Net → TcpServer × Net
remove_client removed fd s net = elim (find fd s.clients) [
  | none ↦ (s, net)
  | some c ↦ (
    record s { clients = erase fd s.clients },
    record (closes fd net) { loop = (remove_channel removed fd net.loop).1 },
  )
]

-- The answers of epoll in one call: to the removal and the addition of a changed channel, and to the
-- removal of a client's channel.
pub record EpollAnswers : Type 0 where
  pub taken_out : Bool
  pub put_back : Bool
  pub removed : Bool

unfoldable pub update_client_events :
    EpollAnswers → ℕ → Events → TcpServer → Net → Bool × TcpServer × Net
update_client_events a fd events s net = elim (find fd s.clients) [
  | none ↦ (false, s, net)
  | some c ↦
      let (out, loop) = remove_channel a.taken_out fd net.loop in
      if not out
      then (false, s, net)
      else let s = record s { clients = put fd (record c { events = events }) s.clients } in
        let (back, loop) = add_channel a.put_back fd events loop in
        let net = record net { loop = loop } in
        let (left, closed) = remove_client a.removed fd s net in
        if back then (true, s, net) else (false, left, closed)
]

-- `recv`: bytes, at most the size of the buffer; the end of the stream; or an error.
pub data RecvResult : Type 0 where
  received : Text → RecvResult
  recv_closed recv_interrupted recv_blocked recv_failed : RecvResult

-- The loop over `recv`: whether the client stays, and the buffer with what was read. No bytes are the
-- end of the stream.
unfoldable pub read_loop : List RecvResult → Text → Bool × Text
read_loop [] buffer = (true, buffer)
read_loop (RecvResult.received [] ∷ rs) buffer = (false, buffer)
read_loop (RecvResult.received (c ∷ cs) ∷ rs) buffer = read_loop rs (buffer ++ (c ∷ cs))
read_loop (RecvResult.recv_closed ∷ rs) buffer = (false, buffer)
read_loop (RecvResult.recv_interrupted ∷ rs) buffer = read_loop rs buffer
read_loop (RecvResult.recv_blocked ∷ rs) buffer = (true, buffer)
read_loop (RecvResult.recv_failed ∷ rs) buffer = (false, buffer)

-- `send`: it takes a number of bytes, which is at most what it is given, or gives an error.
pub data SendResult : Type 0 where
  wrote : ℕ → SendResult
  send_interrupted send_blocked send_failed : SendResult

pub data WriteEnd : Type 0 where
  all_written write_blocked write_failed : WriteEnd

-- The loop over `send`: the bytes that the kernel takes, the offset behind them, and why it ends.
unfoldable pub write_loop : List SendResult → Text → ℕ → Text × ℕ × WriteEnd
write_loop [] buffer offset = (
  [],
  offset,
  if ltb offset (length buffer) then WriteEnd.write_blocked else WriteEnd.all_written,
)
write_loop (r ∷ rs) buffer offset =
    if not (ltb offset (length buffer)) then ([], offset, WriteEnd.all_written) else elim r [
      | wrote n ↦
          let k = min n (length buffer - offset) in
          let (sent, end_offset, why) = write_loop rs buffer (offset + k) in
          if eqb k 0
          then ([], offset, WriteEnd.write_failed)
          else (take k (drop offset buffer) ++ sent, end_offset, why)
      | send_interrupted ↦ write_loop rs buffer offset
      | send_blocked ↦ ([], offset, WriteEnd.write_blocked)
      | send_failed ↦ ([], offset, WriteEnd.write_failed)
    ]

-- What follows the loop, for the client with the offset that it has reached.
unfoldable pub after_write :
    WriteEnd → EpollAnswers → ℕ → ℕ → Client → TcpServer → Net → TcpServer × Net
after_write WriteEnd.all_written a fd offset c s net =
    let emptied = record s {
      clients = put fd (record c { output_buffer = []; write_offset = 0 }) s.clients;
    } in
    let (ok, s', net') = update_client_events a fd reading_events emptied net in (s', net')
after_write WriteEnd.write_blocked a fd offset c s net =
    let written = record s { clients = put fd (record c { write_offset = offset }) s.clients } in
    let (ok, s', net') = update_client_events a fd both_events written net in (s', net')
after_write WriteEnd.write_failed a fd offset c s net =
    let written = record s { clients = put fd (record c { write_offset = offset }) s.clients } in
    remove_client a.removed fd written net

-- Gives the bytes that the kernel takes too.
unfoldable pub handle_client_write :
    List SendResult → EpollAnswers → ℕ → TcpServer → Net → Text × TcpServer × Net
handle_client_write send_results a fd s net = elim (find fd s.clients) [
  | none ↦ ([], s, net)
  | some c ↦
      let (sent, offset, why) = write_loop send_results c.output_buffer c.write_offset in
      let (s', net') = after_write why a fd offset c s net in (sent, s', net')
]

unfoldable pub handle_client_read :
    List RecvResult → List SendResult → EpollAnswers → ℕ → TcpServer → Net → Text × TcpServer × Net
handle_client_read recv_results send_results a fd s net = elim (find fd s.clients) [
  | none ↦ ([], s, net)
  | some c ↦
      let (stays, buffer) = read_loop recv_results c.output_buffer in
      let s = record s { clients = put fd (record c { output_buffer = buffer }) s.clients } in
      let (left, closed) = remove_client a.removed fd s net in
      if stays then handle_client_write send_results a fd s net else ([], left, closed)
]

-- The loop over the clients in `stop`; the channel is taken out where epoll agrees.
unfoldable pub close_clients : Bool → List (ℕ × Client) → Net → Net
close_clients removed [] net = net
close_clients removed ((fd, c) ∷ cs) net =
    close_clients removed cs
      (record (closes fd net) { loop = (remove_channel removed fd net.loop).1 })

unfoldable pub stop : Bool → TcpServer → Net → TcpServer × Net
stop removed s net =
    let net = close_clients removed s.clients net in
    (
      record s { listen_fd = none; clients = [] },
      elim s.listen_fd [
        | none ↦ net
        | some fd ↦ record (closes fd net) { loop = (remove_channel removed fd net.loop).1 }
      ],
    )
