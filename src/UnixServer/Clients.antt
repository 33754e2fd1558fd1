-- ===== src/UnixServer/Clients.antt =====
-- src/unix_domain_server.cpp: the clients of the control socket.
use edge_link.Prelude.{
  ℕ, Bool, true, false, not, ◌&&◌, Option, none, some, List, [], ◌∷◌, ◌++◌, ltb, eqb, if◌then◌else◌,
  Text, codes, length, is_empty,
}
use edge_link.EventLoop.{Events, reading_events, both_events, add_channel, remove_channel}
use edge_link.Prelude.Dict.{find, put, erase}
use edge_link.Prelude.Keys.{text_eq, nat_eq}
use edge_link.TcpServer.{
  Net, opens, closes, AcceptResult, EpollAnswers, RecvResult, SendResult, WriteEnd,
}
use edge_link.UnixServer.{max_control_message_size, UnixClient, UnixServer}

-- A new client's descriptor, with the answer of epoll to its registration.
abbrev pub new_unix_client : UnixClient
new_unix_client = record { events = reading_events; output_messages = [] }

unfoldable pub handle_accept : List AcceptResult → UnixServer → Net → UnixServer × Net
handle_accept [] s net = (s, net)
handle_accept (AcceptResult.accept_blocked ∷ rs) s net = (s, net)
handle_accept (AcceptResult.accept_interrupted ∷ rs) s net = handle_accept rs s net
handle_accept (AcceptResult.accept_failed ∷ rs) s net = (s, net)
handle_accept (AcceptResult.accepted_client fd registered ∷ rs) s net =
    let (ok, loop) = add_channel registered fd reading_events net.loop in
    let kept =
      handle_accept rs (record s { clients = put fd new_unix_client s.clients })
        (record (opens fd net) { loop = loop }) in
    let refused = handle_accept rs s (closes fd (opens fd net)) in if ok then kept else refused

unfoldable pub remove_client : Bool → ℕ → UnixServer → Net → UnixServer × Net
remove_client removed fd s net = elim (find fd s.clients) [
  | none ↦ (s, net)
  | some c ↦ (
    record s { clients = erase fd s.clients },
    record (closes fd net) { loop = (remove_channel removed fd net.loop).1 },
  )
]

abbrev pub bit_beq : Bool → Bool → Bool
bit_beq true b = b
bit_beq false b = not b

abbrev pub events_beq : Events → Events → Bool
events_beq a b =
    bit_beq a.err b.err
    && bit_beq a.hup b.hup
    && bit_beq a.input b.input
    && bit_beq a.rdhup b.rdhup
    && bit_beq a.output b.output

-- Where the channel cannot be put back, the client is closed without another removal.
unfoldable pub update_client_events :
    EpollAnswers → ℕ → Events → UnixServer → Net → Bool × UnixServer × Net
update_client_events a fd events s net = elim (find fd s.clients) [
  | none ↦ (false, s, net)
  | some c ↦
      let (out, loop) = remove_channel a.taken_out fd net.loop in
      let changed = record s { clients = put fd (record c { events = events }) s.clients } in
      let (back, loop') = add_channel a.put_back fd events loop in
      if events_beq c.events events
      then (true, s, net)
      else if not out
      then (false, s, net)
      else if back
      then (true, changed, record net { loop = loop' })
      else (
        false,
        record changed { clients = erase fd changed.clients },
        record (closes fd net) { loop = loop' },
      )
]

-- The response to one packet; `none` of the handler is an exception.
unfoldable pub respond : Option (Text → Option Text) → Text → Text
respond handler message =
    if ltb max_control_message_size (length message)
    then codes "ERROR: control message is too large"
    else elim handler [
      | none ↦ codes "ERROR: no message handler"
      | some answer ↦ elim (answer message) [
        | none ↦ codes "ERROR: handler failed"
        | some response ↦ response
      ]
    ]

-- An empty response is not sent.
unfoldable pub push_response : Text → List Text → List Text
push_response response messages =
    if is_empty response then messages else messages ++ (response ∷ [])

-- The loop over `recv`, which gives a packet at a time with its true length.
unfoldable pub read_packets :
    Option (Text → Option Text) → List RecvResult → List Text → Bool × List Text
read_packets handler [] messages = (true, messages)
read_packets handler (RecvResult.received [] ∷ rs) messages = (false, messages)
read_packets handler (RecvResult.received (c ∷ cs) ∷ rs) messages =
    read_packets handler rs (push_response (respond handler (c ∷ cs)) messages)
read_packets handler (RecvResult.recv_closed ∷ rs) messages = (false, messages)
read_packets handler (RecvResult.recv_interrupted ∷ rs) messages = read_packets handler rs messages
read_packets handler (RecvResult.recv_blocked ∷ rs) messages = (true, messages)
read_packets handler (RecvResult.recv_failed ∷ rs) messages = (false, messages)

-- The loop over `send`: the messages sent, those left, and why it ends. A part of a message is an error.
unfoldable pub write_packets : List SendResult → List Text → List Text × List Text × WriteEnd
write_packets rs [] = ([], [], WriteEnd.all_written)
write_packets [] (m ∷ ms) = ([], m ∷ ms, WriteEnd.write_blocked)
write_packets (SendResult.wrote n ∷ rs) (m ∷ ms) =
    let (sent, left, why) = write_packets rs ms in
    if eqb n (length m) then (m ∷ sent, left, why) else ([], m ∷ ms, WriteEnd.write_failed)
write_packets (SendResult.send_interrupted ∷ rs) (m ∷ ms) = write_packets rs (m ∷ ms)
write_packets (SendResult.send_blocked ∷ rs) (m ∷ ms) = ([], m ∷ ms, WriteEnd.write_blocked)
write_packets (SendResult.send_failed ∷ rs) (m ∷ ms) = ([], m ∷ ms, WriteEnd.write_failed)

-- What follows the loop, for a client with the messages that are left.
unfoldable pub after_write : WriteEnd → EpollAnswers → ℕ → UnixServer → Net → UnixServer × Net
after_write WriteEnd.all_written a fd s net =
    let (ok, s', net') = update_client_events a fd reading_events s net in (s', net')
after_write WriteEnd.write_blocked a fd s net =
    let (ok, s', net') = update_client_events a fd both_events s net in (s', net')
after_write WriteEnd.write_failed a fd s net = remove_client a.removed fd s net

-- Gives the messages that are sent too.
unfoldable pub handle_client_write :
    List SendResult → EpollAnswers → ℕ → UnixServer → Net → List Text × UnixServer × Net
handle_client_write send_results a fd s net = elim (find fd s.clients) [
  | none ↦ ([], s, net)
  | some c ↦
      let (sent, left, why) = write_packets send_results c.output_messages in
      let written = record s { clients = put fd (record c { output_messages = left }) s.clients } in
      let (s', net') = after_write why a fd written net in (sent, s', net')
]

unfoldable pub handle_client_read :
    List RecvResult
    → List SendResult
    → EpollAnswers
    → ℕ
    → UnixServer
    → Net
    → List Text × UnixServer × Net
handle_client_read recv_results send_results a fd s net = elim (find fd s.clients) [
  | none ↦ ([], s, net)
  | some c ↦
      let (stays, messages) = read_packets s.message_handler recv_results c.output_messages in
      let s = record s { clients = put fd (record c { output_messages = messages }) s.clients } in
      let (left, closed) = remove_client a.removed fd s net in
      if stays then handle_client_write send_results a fd s net else ([], left, closed)
]
