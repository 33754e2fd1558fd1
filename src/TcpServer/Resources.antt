-- ===== src/TcpServer/Resources.antt =====
-- src/tcp_server.cpp: the descriptors and channels that the server takes and gives back.
use edge_link.Prelude.{
  ℕ, ◌≡◌, refl, sym, ap, ◌∙◌, inl, inr, Bool, true, false, not, ◌&&◌, ◌||◌, none, some, List, [],
  ◌∷◌, arith, eqb, if◌then◌else◌, Bool-cases, Option-cases, is_some,
}
use edge_link.EventLoop.{Events, accepting_events, add_channel, remove_channel}
use edge_link.Prelude.Dict.{find, put, find-put, find-erase}
use edge_link.Prelude.Keys.{text_eq, nat_eq}
use edge_link.TcpServer.{
  start, stop, Client, TcpServer, Net, without_fd, opens, closes, StartAnswers, close_clients,
}

abbrev pub holds : ℕ → List ℕ → Bool
holds fd [] = false
holds fd (d ∷ ds) = eqb d fd || holds fd ds

holds-without_fd :
    (fd other : ℕ) (ds : List ℕ)
    → holds other (without_fd fd ds) ≡ (if eqb fd other then false else holds other ds)
holds-without_fd fd other [] = ground arith
holds-without_fd fd other (d ∷ ds) = ground (arith, holds-without_fd fd other ds)

without_fd_absent : (fd : ℕ) (ds : List ℕ) → holds fd ds ≡ false → without_fd fd ds ≡ ds
without_fd_absent fd [] h = refl
without_fd_absent fd (d ∷ ds) h = ground (arith, without_fd_absent fd ds)

closes-opens :
    (fd : ℕ) (net : Net) → holds fd net.descriptors ≡ false → closes fd (opens fd net) ≡ net
closes-opens fd net h =
    ap (λ ds. record net { descriptors = ds })
      (let same : eqb fd fd ≡ true = ground arith in
        rw same (without_fd_absent fd net.descriptors h))

find-put_self :
    (fd : ℕ) (events : Events) (d : List (ℕ × Events)) → find fd (put fd events d) ≡ some events
find-put_self fd events d = find-put fd fd events d ∙ (ground arith)

-- A start on a stopped server, where the kernel gives a descriptor that is not in use: it succeeds
-- exactly if `socket`, `setsockopt`, `bind`, `listen` and epoll do, and then has one more descriptor,
-- the listening one, which epoll watches; or it leaves the descriptors and the channels as they were
-- and the server stopped.
pub start_all_or_nothing :
    (a : StartAnswers) (s : TcpServer) (net : Net)
    → s.listen_fd ≡ none
    → ((fd : ℕ) → a.socket ≡ some fd → holds fd net.descriptors ≡ false)
    → let (ok, s', net') = start a s net in
      (ok ≡ (is_some a.socket && a.reuse_set && a.bound && a.listening && a.registered))
      × (ok ≡ false → (s' ≡ s) × (net' ≡ net))
      × (ok ≡ true
          → (fd : ℕ) × (s'.listen_fd ≡ some fd)
            × (net'.descriptors ≡ fd ∷ net.descriptors)
            × (find fd net'.loop.channels ≡ some accepting_events))
unfolding start add_channel
start_all_or_nothing a s net stopped unused =
    let reset : record s { listen_fd = none } ≡ s =
      ap (λ l. record s { listen_fd = l }) (sym stopped) in
    elim (Option-cases a.socket) [
      | inl e ↦ simp (stopped, e, start) (refl, λ h. (reset, refl), λ h. cc)
      | inr (fd, e) ↦
          let back = closes-opens fd net (unused fd e) in
          elim (Bool-cases (not a.reuse_set || not a.bound || not a.listening)) [
            | inl f ↦ simp (stopped, e, f, start) (ground arith, λ h. (reset, back), λ h. cc)
            | inr f ↦ elim (Bool-cases a.registered) [
              | inr r ↦ simp (stopped, e, f, r, start) (ground arith, λ h. (reset, back), λ h. cc)
              | inl r ↦
                  simp (stopped, e, f, r, start)
                    (
                      ground arith,
                      λ h. cc,
                      λ h. (fd, refl, refl, find-put_self fd accepting_events net.loop.channels),
                    )
            ]
          ]
    ]

close_clients_lem :
    (fd : ℕ) (cs : List (ℕ × Client)) (net : Net)
    → let net' = close_clients true cs net in
      (find fd net'.loop.channels
        ≡ (if is_some (find fd cs) then none else find fd net.loop.channels))
      × (holds fd net'.descriptors
          ≡ (if is_some (find fd cs) then false else holds fd net.descriptors))
unfolding close_clients remove_channel find
close_clients_lem fd [] net = (refl, refl)
close_clients_lem fd ((d, c) ∷ cs) net =
    let (channels, open_fds) =
      close_clients_lem fd cs
        (record (closes d net) { loop = (remove_channel true d net.loop).1 }) in
    ground (
      arith,
      channels,
      open_fds,
      find-erase d fd net.loop.channels,
      holds-without_fd d fd net.descriptors,
    )

abbrev pub listens_on : TcpServer → ℕ → Bool
listens_on s fd = elim s.listen_fd [ none ↦ false | some d ↦ eqb d fd ]

-- `stop`, where epoll removes what it is asked to: the sockets of all clients and the listening one are
-- closed and no longer watched, and nothing else is; the server can start again.
pub stop_lem :
    (s : TcpServer) (net : Net) (fd : ℕ)
    → let (s', net') = stop true s net in
      let own = is_some (find fd s.clients) || listens_on s fd in
      (s' ≡ record s { listen_fd = none; clients = [] })
      × (holds fd net'.descriptors ≡ (if own then false else holds fd net.descriptors))
      × (find fd net'.loop.channels ≡ (if own then none else find fd net.loop.channels))
unfolding stop remove_channel
stop_lem s net fd =
    let (channels, open_fds) = close_clients_lem fd s.clients net in
    let after = close_clients true s.clients net in
    elim (Option-cases s.listen_fd) [
      | inl e ↦ ground (arith, channels, open_fds)
      | inr (d, e) ↦ ground (
        arith,
        channels,
        open_fds,
        find-erase d fd after.loop.channels,
        holds-without_fd d fd after.descriptors,
      )
    ]
