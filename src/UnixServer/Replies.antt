-- ===== src/UnixServer/Replies.antt =====
-- src/unix_domain_server.cpp: each client gets the responses to its commands, in order.
use edge_link.Prelude.{
  some-injective, ℕ, ◌≡◌, refl, sym, ap, ◌∙◌, ◌⊎◌, inl, inr, Bool, Option, none, some, List, [],
  ◌∷◌, ◌++◌, append-nil, append_assoc, arith, eqb, if◌then◌else◌, Bool-cases, Option-cases, Text,
  length, is_empty,
}
use edge_link.EventLoop.{Events, reading_events, both_events, add_channel, remove_channel}
use edge_link.Prelude.Dict.{find, put, erase, find-put, find-erase}
use edge_link.Prelude.Keys.{text_eq, nat_eq}
use edge_link.TcpServer.{Net, EpollAnswers, RecvResult, SendResult, WriteEnd}
use edge_link.UnixServer.{UnixClient, UnixServer}
use edge_link.UnixServer.Clients.{
  remove_client, update_client_events, after_write, handle_client_write, handle_client_read,
  respond, events_beq, push_response, read_packets, write_packets,
}

abbrev pub nonempty : Text → List Text → List Text
nonempty response later = if is_empty response then later else response ∷ later

push-nonempty :
    (response : Text) (messages later : List Text)
    → push_response response messages ++ later ≡ messages ++ nonempty response later
unfolding push_response
push-nonempty response messages later = elim (Bool-cases (is_empty response)) [
  | inl e ↦ rw e refl
  | inr e ↦ rw e (append_assoc messages (response ∷ []) later)
]

-- The responses to the packets that the loop over `recv` takes.
unfoldable pub responses : Option (Text → Option Text) → List RecvResult → List Text
responses handler [] = []
responses handler (RecvResult.received [] ∷ rs) = []
responses handler (RecvResult.received (c ∷ cs) ∷ rs) =
    nonempty (respond handler (c ∷ cs)) (responses handler rs)
responses handler (RecvResult.recv_interrupted ∷ rs) = responses handler rs
responses handler (RecvResult.recv_closed ∷ rs) = []
responses handler (RecvResult.recv_blocked ∷ rs) = []
responses handler (RecvResult.recv_failed ∷ rs) = []

read_packets_lem :
    (handler : Option (Text → Option Text)) (rs : List RecvResult) (messages : List Text)
    → (read_packets handler rs messages).1 ≡ messages ++ responses handler rs
unfolding read_packets responses
read_packets_lem handler [] messages = sym (append-nil messages)
read_packets_lem handler (RecvResult.received [] ∷ rs) messages = sym (append-nil messages)
read_packets_lem handler (RecvResult.received (c ∷ cs) ∷ rs) messages =
    read_packets_lem handler rs (push_response (respond handler (c ∷ cs)) messages)
    ∙ push-nonempty (respond handler (c ∷ cs)) messages (responses handler rs)
read_packets_lem handler (RecvResult.recv_interrupted ∷ rs) messages =
    read_packets_lem handler rs messages
read_packets_lem handler (RecvResult.recv_closed ∷ rs) messages = sym (append-nil messages)
read_packets_lem handler (RecvResult.recv_blocked ∷ rs) messages = sym (append-nil messages)
read_packets_lem handler (RecvResult.recv_failed ∷ rs) messages = sym (append-nil messages)

-- The first messages are sent, whole, and the others stay.
write_packets_lem :
    (rs : List SendResult) (messages : List Text)
    → let (sent, left, why) = write_packets rs messages in
      (sent ++ left ≡ messages) × (why ≡ WriteEnd.all_written → left ≡ [])
unfolding write_packets
write_packets_lem [] [] = (refl, λ why. refl)
write_packets_lem (r ∷ rs) [] = (refl, λ why. refl)
write_packets_lem [] (m ∷ ms) = (refl, λ why. cc)
write_packets_lem (SendResult.wrote n ∷ rs) (m ∷ ms) =
    let (all, whole) = write_packets_lem rs ms in
    elim (Bool-cases (eqb n (length m))) [
      | inl e ↦ rw e (ap (◌∷◌ m) all, whole)
      | inr e ↦ rw e (refl, λ why. cc)
    ]
write_packets_lem (SendResult.send_interrupted ∷ rs) (m ∷ ms) = write_packets_lem rs (m ∷ ms)
write_packets_lem (SendResult.send_blocked ∷ rs) (m ∷ ms) = (refl, λ why. cc)
write_packets_lem (SendResult.send_failed ∷ rs) (m ∷ ms) = (refl, λ why. cc)

-- What is sent is the first part of what is owed, and the rest waits as long as the client stays.
abbrev pub Answers : List Text → List Text → Option UnixClient → Type 0
Answers sent owed o =
    (rest : List Text) × (sent ++ rest ≡ owed)
    × ((c : UnixClient) → o ≡ some c → rest ≡ c.output_messages)

find-put_self :
    (fd : ℕ) (c : UnixClient) (d : List (ℕ × UnixClient)) → find fd (put fd c d) ≡ some c
find-put_self fd c d = find-put fd fd c d ∙ (ground arith)

find-erase_self : (fd : ℕ) (d : List (ℕ × UnixClient)) → find fd (erase fd d) ≡ none
find-erase_self fd d = find-erase fd fd d ∙ (ground arith)

find-remove_client :
    (removed : Bool) (fd : ℕ) (s : UnixServer) (net : Net)
    → find fd (remove_client removed fd s net).0.clients ≡ none
unfolding remove_client
find-remove_client removed fd s net = elim (Option-cases (find fd s.clients)) [
  | inl e ↦ rw (e, remove_client) e
  | inr (c, e) ↦ rw (e, remove_client) (find-erase_self fd s.clients)
]

abbrev Watched : UnixClient → Option UnixClient → Type 0
Watched c o = (o ≡ none) ⊎ ((events : Events) × (o ≡ some (record c { events = events })))

update_client_events_lem :
    (a : EpollAnswers) (fd : ℕ) (events : Events) (s : UnixServer) (net : Net) (c : UnixClient)
    → find fd s.clients ≡ some c
    → Watched c (find fd (update_client_events a fd events s net).1.clients)
unfolding update_client_events add_channel remove_channel
update_client_events_lem a fd events s net c found =
    let changed = record s { clients = put fd (record c { events = events }) s.clients } in
    elim (Bool-cases (events_beq c.events events)) [
      | inl same ↦ rw (found, update_client_events, same) (inr (c.events, found))
      | inr other ↦ elim (Bool-cases a.taken_out) [
        | inr e ↦ rw (found, update_client_events, other, e) (inr (c.events, found))
        | inl e ↦ elim (Bool-cases a.put_back) [
          | inl b ↦
              rw (found, update_client_events, other, e, b)
                (inr (events, find-put_self fd (record c { events = events }) s.clients))
          | inr b ↦
              rw (found, update_client_events, other, e, b)
                (inl (find-erase_self fd changed.clients))
        ]
      ]
    ]

Answers-Watched :
    (sent owed : List Text) (c : UnixClient) (o : Option UnixClient)
    → sent ++ c.output_messages ≡ owed
    → Watched c o
    → Answers sent owed o
Answers-Watched sent owed c o all (inl gone) = (c.output_messages, all, λ c' e. cc)
Answers-Watched sent owed c o all (inr (events, kept)) = (
  c.output_messages,
  all,
  λ c' e. ap (λ d. d.output_messages) (some-injective _ _ (sym kept ∙ e)),
)

Watched-after_write :
    (why : WriteEnd) (a : EpollAnswers) (fd : ℕ) (c : UnixClient) (s : UnixServer) (net : Net)
    → find fd s.clients ≡ some c
    → Watched c (find fd (after_write why a fd s net).0.clients)
unfolding after_write
Watched-after_write WriteEnd.all_written a fd c s net found =
    update_client_events_lem a fd reading_events s net c found
Watched-after_write WriteEnd.write_blocked a fd c s net found =
    update_client_events_lem a fd both_events s net c found
Watched-after_write WriteEnd.write_failed a fd c s net found =
    inl (find-remove_client a.removed fd s net)

handle_client_write_lem :
    (rs : List SendResult) (a : EpollAnswers) (fd : ℕ) (s : UnixServer) (net : Net) (c : UnixClient)
    → find fd s.clients ≡ some c
    → let (sent, s', net') = handle_client_write rs a fd s net in
      Answers sent c.output_messages (find fd s'.clients)
unfolding handle_client_write
handle_client_write_lem rs a fd s net c found =
    let (sent, left, why) = write_packets rs c.output_messages in
    let written = record c { output_messages = left } in
    rw (found, handle_client_write)
      (Answers-Watched sent c.output_messages written _ (write_packets_lem rs c.output_messages).0
        (Watched-after_write why a fd written _ net (find-put_self fd written s.clients)))

-- When a client is readable: the responses to all packets that are read, in their order, follow what
-- already waited for it; the first of these messages are sent, each whole, and as long as the client
-- stays, exactly the others wait. An empty response is none.
pub handle_client_read_answers :
    (packets : List RecvResult) (rs : List SendResult) (a : EpollAnswers) (fd : ℕ) (s : UnixServer)
    (net : Net) (c : UnixClient)
    → find fd s.clients ≡ some c
    → let (sent, s', net') = handle_client_read packets rs a fd s net in
      Answers sent (c.output_messages ++ responses s.message_handler packets) (find fd s'.clients)
unfolding handle_client_read
handle_client_read_answers packets rs a fd s net c found =
    let messages = (read_packets s.message_handler packets c.output_messages).1 in
    let filled = record c { output_messages = messages } in
    let owed = read_packets_lem s.message_handler packets c.output_messages in
    let s' = record s { clients = put fd filled s.clients } in
    let h = handle_client_write_lem rs a fd s' net filled (find-put_self fd filled s.clients) in
    elim (Bool-cases (read_packets s.message_handler packets c.output_messages).0) [
      | inr e ↦
          rw (found, handle_client_read, e)
            (Answers-Watched [] _ filled _ owed (inl (find-remove_client a.removed fd s' net)))
      | inl e ↦ rw (found, handle_client_read, e) (h.0, h.1 ∙ owed, h.2)
    ]
