-- ===== src/TcpServer/Echo.antt =====
-- src/tcp_server.cpp: each client gets back what it has sent, in order.
use edge_link.Prelude.{
  subst, some-injective, ℕ, ◌+◌, ◌≤◌, ◌≡◌, refl, sym, ap, ◌∙◌, ◌⊎◌, inl, inr, Bool, Option, none,
  some, List, [], ◌∷◌, ◌++◌, append-nil, append_assoc, arith, Bool-cases, Option-cases, Text,
  length, drop, length-append,
}
use edge_link.EventLoop.{Events, reading_events, both_events, add_channel, remove_channel}
use edge_link.Prelude.Dict.{find, put, find-put, find-erase}
use edge_link.Prelude.Keys.{text_eq, nat_eq}
use edge_link.TcpServer.{
  Client, TcpServer, Net, remove_client, EpollAnswers, update_client_events, RecvResult, read_loop,
  SendResult, WriteEnd, after_write, handle_client_write, handle_client_read,
}
use edge_link.TcpServer.Loops.{bytes_read, drop_all, drop-append, read_loop_lem, write_loop_lem}

abbrev pub unsent : Client → Text
unsent c = drop c.write_offset c.output_buffer

-- What is sent is the first part of what is owed; as long as the client stays, the rest is what waits
-- in its buffer.
abbrev pub Echoes : Text → Text → Option Client → Type 0
Echoes sent owed o =
    (rest : Text) × (sent ++ rest ≡ owed)
    × ((c : Client) → o ≡ some c → (rest ≡ unsent c) × (c.write_offset ≤ length c.output_buffer))

find-put_self : (fd : ℕ) (c : Client) (d : List (ℕ × Client)) → find fd (put fd c d) ≡ some c
find-put_self fd c d = find-put fd fd c d ∙ (ground arith)

pub find-remove_client :
    (removed : Bool) (fd : ℕ) (s : TcpServer) (net : Net)
    → find fd (remove_client removed fd s net).0.clients ≡ none
unfolding remove_client
find-remove_client removed fd s net = elim (Option-cases (find fd s.clients)) [
  | inl e ↦ rw (e, remove_client) e
  | inr (c, e) ↦ rw (e, remove_client) (find-erase fd fd s.clients ∙ (ground arith))
]

-- A client whose events change keeps its buffer, or is gone.
abbrev pub Watched : Client → Option Client → Type 0
Watched c o = (o ≡ none) ⊎ ((events : Events) × (o ≡ some (record c { events = events })))

update_client_events_lem :
    (a : EpollAnswers) (fd : ℕ) (events : Events) (s : TcpServer) (net : Net) (c : Client)
    → find fd s.clients ≡ some c
    → Watched c (find fd (update_client_events a fd events s net).1.clients)
unfolding update_client_events add_channel remove_channel
update_client_events_lem a fd events s net c found =
    let changed = record s { clients = put fd (record c { events = events }) s.clients } in
    elim (Bool-cases a.taken_out) [
      | inr e ↦ rw (found, update_client_events, e) (inr (c.events, found))
      | inl e ↦ elim (Bool-cases a.put_back) [
        | inl b ↦
            rw (found, update_client_events, e, b)
              (inr (events, find-put_self fd (record c { events = events }) s.clients))
        | inr b ↦
            rw (found, update_client_events, e, b) (inl (find-remove_client a.removed fd changed _))
      ]
    ]

-- The handlers end with a change of the client's events, or with its removal.
Echoes-Watched :
    (sent owed : Text) (c : Client) (o : Option Client)
    → sent ++ unsent c ≡ owed
    → c.write_offset ≤ length c.output_buffer
    → Watched c o
    → Echoes sent owed o
Echoes-Watched sent owed c o all inside (inl gone) = (unsent c, all, λ c' e. cc)
Echoes-Watched sent owed c o all inside (inr (events, kept)) = (
  unsent c,
  all,
  λ c' e.
      let same : record c { events = events } ≡ c' = some-injective _ _ (sym kept ∙ e) in
      (ap unsent same, subst (λ d. d.write_offset ≤ length d.output_buffer) same inside),
)

Echoes-after_write :
    (why : WriteEnd) (a : EpollAnswers) (fd offset : ℕ) (c : Client) (s : TcpServer) (net : Net)
    (sent : Text)
    → sent ++ drop offset c.output_buffer ≡ unsent c
    → offset ≤ length c.output_buffer
    → (why ≡ WriteEnd.all_written → offset ≡ length c.output_buffer)
    → Echoes sent (unsent c) (find fd (after_write why a fd offset c s net).0.clients)
unfolding after_write
Echoes-after_write WriteEnd.all_written a fd offset c s net sent all inside whole =
    let emptied = record c { output_buffer = []; write_offset = 0 } in
    let nothing = drop_all offset c.output_buffer (omega (arith, whole refl)) in
    Echoes-Watched sent (unsent c) emptied _ (ap (◌++◌ sent) (sym nothing) ∙ all) (omega arith) (
      update_client_events_lem a fd reading_events _ net emptied
        (find-put_self fd emptied s.clients))
Echoes-after_write WriteEnd.write_blocked a fd offset c s net sent all inside whole =
    let written = record c { write_offset = offset } in
    Echoes-Watched sent (unsent c) written _ all inside
      (update_client_events_lem a fd both_events _ net written (find-put_self fd written s.clients))
Echoes-after_write WriteEnd.write_failed a fd offset c s net sent all inside whole =
    let written = record c { write_offset = offset } in
    Echoes-Watched sent (unsent c) written _ all inside
      (inl (find-remove_client a.removed fd _ net))

handle_client_write_lem :
    (rs : List SendResult) (a : EpollAnswers) (fd : ℕ) (s : TcpServer) (net : Net) (c : Client)
    → find fd s.clients ≡ some c
    → c.write_offset ≤ length c.output_buffer
    → let (sent, s', net') = handle_client_write rs a fd s net in
      Echoes sent (unsent c) (find fd s'.clients)
unfolding handle_client_write
handle_client_write_lem rs a fd s net c found inside =
    let (taken, bound, whole) = write_loop_lem rs c.output_buffer c.write_offset inside in
    rw (found, handle_client_write) (Echoes-after_write _ a fd _ c s net _ taken bound whole)

handle_client_read_lem :
    (reads_now : List RecvResult) (rs : List SendResult) (a : EpollAnswers) (fd : ℕ) (s : TcpServer)
    (net : Net) (c : Client)
    → find fd s.clients ≡ some c
    → c.write_offset ≤ length c.output_buffer
    → let (sent, s', net') = handle_client_read reads_now rs a fd s net in
      Echoes sent (unsent c ++ bytes_read reads_now) (find fd s'.clients)
unfolding handle_client_read
handle_client_read_lem reads_now rs a fd s net c found inside =
    let buffer = (read_loop reads_now c.output_buffer).1 in
    let filled = record c { output_buffer = buffer } in
    let owed : unsent filled ≡ unsent c ++ bytes_read reads_now =
      ap (drop c.write_offset) (read_loop_lem reads_now c.output_buffer)
      ∙ drop-append c.write_offset c.output_buffer (bytes_read reads_now) inside in
    let grown : length buffer ≡ length c.output_buffer + length (bytes_read reads_now) =
      ap length (read_loop_lem reads_now c.output_buffer)
      ∙ length-append c.output_buffer (bytes_read reads_now) in
    let inside_now : c.write_offset ≤ length buffer = omega arith in
    let s' = record s { clients = put fd filled s.clients } in
    let h =
      handle_client_write_lem rs a fd s' net filled (find-put_self fd filled s.clients)
        inside_now in
    elim (Bool-cases (read_loop reads_now c.output_buffer).0) [
      | inr e ↦
          rw (found, handle_client_read, e)
            (Echoes-Watched [] (unsent c ++ bytes_read reads_now) filled _ owed inside_now
              (inl (find-remove_client a.removed fd s' net)))
      | inl e ↦ rw (found, handle_client_read, e) (h.0, h.1 ∙ owed, h.2)
    ]

-- The events of one client: it is readable, or writable.
pub data Call : Type 0 where
  readable : List RecvResult → List SendResult → EpollAnswers → Call
  writable : List SendResult → EpollAnswers → Call

unfoldable pub step : ℕ → Call → TcpServer → Net → Text × TcpServer × Net
step fd (readable reads_now rs a) s net = handle_client_read reads_now rs a fd s net
step fd (writable rs a) s net = handle_client_write rs a fd s net

-- What the call reads from a client that is there.
abbrev pub call_read : Option Client → Call → Text
call_read none call = []
call_read (some c) (readable reads_now rs a) = bytes_read reads_now
call_read (some c) (writable rs a) = []

-- What was read from the client and what was sent to it.
unfoldable pub run : ℕ → List Call → TcpServer → Net → Text × Text × TcpServer × Net
run fd [] s net = ([], [], s, net)
run fd (call ∷ calls) s net =
    let (sent, s', net') = step fd call s net in
    let (got_later, sent_later, s'', net'') = run fd calls s' net' in
    (call_read (find fd s.clients) call ++ got_later, sent ++ sent_later, s'', net'')

step_lem :
    (fd : ℕ) (call : Call) (s : TcpServer) (net : Net) (c : Client)
    → find fd s.clients ≡ some c
    → c.write_offset ≤ length c.output_buffer
    → let (sent, s', net') = step fd call s net in
      Echoes sent (unsent c ++ call_read (some c) call) (find fd s'.clients)
unfolding step
step_lem fd (readable reads_now rs a) s net c found inside =
    handle_client_read_lem reads_now rs a fd s net c found inside
step_lem fd (writable rs a) s net c found inside =
    let h = handle_client_write_lem rs a fd s net c found inside in
    (h.0, h.1 ∙ sym (append-nil (unsent c)), h.2)

step_gone :
    (fd : ℕ) (call : Call) (s : TcpServer) (net : Net)
    → find fd s.clients ≡ none
    → step fd call s net ≡ ([], s, net)
unfolding step handle_client_read handle_client_write
step_gone fd (readable reads_now rs a) s net gone = rw (gone, handle_client_read) refl
step_gone fd (writable rs a) s net gone = rw (gone, handle_client_write) refl

run_gone :
    (fd : ℕ) (calls : List Call) (s : TcpServer) (net : Net)
    → find fd s.clients ≡ none
    → run fd calls s net ≡ ([], [], s, net)
unfolding run
run_gone fd [] s net gone = refl
run_gone fd (call ∷ calls) s net gone =
    rw (step_gone fd call s net gone, gone, run_gone fd calls s net gone) refl

-- For a client of the server with its offset inside its buffer: however its data arrives in pieces,
-- is taken in pieces or is held up, and however often the client is readable or writable: what is
-- sent to it is a first part of what waited for it and was then read from it, in order and without
-- a gap; as long as the client stays, exactly the rest waits in its buffer.
pub run-Echoes :
    (fd : ℕ) (calls : List Call) (s : TcpServer) (net : Net) (c : Client)
    → find fd s.clients ≡ some c
    → c.write_offset ≤ length c.output_buffer
    → let (got, sent, s', net') = run fd calls s net in
      Echoes sent (unsent c ++ got) (find fd s'.clients)
unfolding run
run-Echoes fd [] s net c found inside = (
  unsent c,
  sym (append-nil (unsent c)),
  λ c' e.
      let same : c ≡ c' = some-injective _ _ (sym found ∙ e) in
      (ap unsent same, subst (λ d. d.write_offset ≤ length d.output_buffer) same inside),
)
run-Echoes fd (call ∷ calls) s net c found inside =
    let (sent, s', net') = step fd call s net in
    let (rest, all, kept) = step_lem fd call s net c found inside in
    let got = call_read (some c) call in
    elim (Option-cases (find fd s'.clients)) [
      | inl gone ↦
          rw (found, run_gone fd calls s' net' gone)
            (
              rest,
              ap (λ t. t ++ rest) (append-nil sent)
                  ∙ all
                  ∙ ap (◌++◌ (unsent c)) (sym (append-nil got)),
              λ c' e. let impossible : none ≡ some c' = sym gone ∙ e in cc,
            )
      | inr (c', stays) ↦
          let (same, inside') = kept c' stays in
          let (rest', all', kept') = run-Echoes fd calls s' net' c' stays inside' in
          let (got_later, sent_later, end_server, end_net) = run fd calls s' net' in
          rw found (
            rest',
            append_assoc sent sent_later rest'
                ∙ ap (◌++◌ sent) (all' ∙ ap (λ t. t ++ got_later) (sym same))
                ∙ sym (append_assoc sent rest got_later)
                ∙ ap (λ t. t ++ got_later) all
                ∙ append_assoc (unsent c) got got_later,
            kept',
          )
    ]
