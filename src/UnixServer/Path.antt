-- ===== src/UnixServer/Path.antt =====
-- src/unix_domain_server.cpp: what `start` and `stop` do to the file at the path.
use edge_link.Prelude.{
  ◌≡◌, refl, ◌⊎◌, inl, inr, true, false, none, arith, Bool-cases, Option-cases, is_some,
}
use edge_link.EventLoop.{add_channel}
use edge_link.Prelude.Keys.{text_eq, nat_eq}
use edge_link.UnixServer.{
  start, stop, UnixServer, PathFile, no_file, listening_socket, stale_socket, other_file,
  unknown_file, Host, is_stale_socket_path, UnixStartAnswers, listen_at, replace_socket,
}

listen_at_lem :
    (a : UnixStartAnswers) (s : UnixServer) (h : Host)
    → s.listen_fd ≡ none
    → let (ok, s', h') = listen_at a s h in
      (ok ≡ true
        → (h'.file ≡ listening_socket)
          × (s'.owns_socket_path ≡ true)
          × (is_some s'.listen_fd ≡ true))
      × (ok ≡ false → s'.listen_fd ≡ none)
unfolding listen_at stop add_channel
listen_at_lem a s h stopped = elim (Option-cases a.socket) [
  | inl e ↦ rw (e, listen_at) (λ ok. cc, λ failed_now. stopped)
  | inr (fd, e) ↦ elim (Bool-cases a.bound) [
    | inr b ↦ rw (e, listen_at, b) (λ ok. cc, λ failed_now. stopped)
    | inl b ↦ elim (Bool-cases a.listening) [
      | inr l ↦ rw (e, listen_at, b, l) (λ ok. cc, λ failed_now. refl)
      | inl l ↦ elim (Bool-cases a.registered) [
        | inr r ↦ rw (e, listen_at, b, l, r) (λ ok. cc, λ failed_now. refl)
        | inl r ↦ rw (e, listen_at, b, l, r) (λ ok. (refl, refl, refl), λ failed_now. cc)
      ]
    ]
  ]
]

PathFile-cases :
    (f : PathFile)
    → (f ≡ no_file)
      ⊎ (f ≡ stale_socket)
      ⊎ (f ≡ other_file)
      ⊎ (f ≡ unknown_file)
      ⊎ (f ≡ listening_socket)
PathFile-cases f = ground arith

-- On a stopped server, whatever the system answers: `start` leaves a file that is no socket, a path
-- that cannot be inspected and the socket of a running process as they are, and fails; it succeeds
-- only with its own socket at the path and the ownership noted; and a failure leaves it stopped.
pub start_keeps_files :
    (a : UnixStartAnswers) (s : UnixServer) (h : Host)
    → s.listen_fd ≡ none
    → let (ok, s', h') = start a s h in
      ((h.file ≡ other_file) ⊎ (h.file ≡ unknown_file) ⊎ (h.file ≡ listening_socket)
        → (ok ≡ false) × (h' ≡ h))
      × (ok ≡ true
          → (h'.file ≡ listening_socket)
            × (s'.owns_socket_path ≡ true)
            × (is_some s'.listen_fd ≡ true))
      × (ok ≡ false → s'.listen_fd ≡ none)
unfolding start replace_socket is_stale_socket_path
start_keeps_files a s h stopped =
    let one = listen_at_lem a s h stopped in
    let two = listen_at_lem a s (record h { file = no_file }) stopped in ground (arith, one, two)
