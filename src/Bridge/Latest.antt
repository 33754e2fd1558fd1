-- ===== src/Bridge/Latest.antt =====
-- src/shared_memory_message_bridge.cpp: the buffer is a single slot, and a notification forwards
-- what it holds.
use edge_link.EventFd
use edge_link.Prelude.{
  ℕ, ◌+◌, ◌≡◌, refl, inl, inr, true, false, some, List, [], ◌∷◌, arith, eqb, Bool-cases,
  Option-cases, inc64, Text, length,
}
use edge_link.Bridge.{
  Bridge, Shared, write_and_notify, send, finish, handle_notification, on_readable,
}
use edge_link.Codec.Encoder.{encode}
use edge_link.Codec.RoundTrip.{MessageOk, decode-encode}
use edge_link.EventFd.{Notifier, notify}
use edge_link.Message.{Message, empty_message}
use edge_link.MessageBus.Index.{registered}
use edge_link.Prelude.Keys.{nat_eq, text_eq}
use edge_link.SharedMemory.{Kernel, Answers, Buffer, has_valid_header, segment_at, write}
use edge_link.SharedMemory.Contents.{write-valid, read-write}

-- The writer and the reader map one object, at one capacity, with a header in order.
abbrev pub Joined : Buffer → Buffer → ℕ → Kernel → Type 0
Joined writer reader o k =
    (writer.mapping ≡ some o)
    × (reader.mapping ≡ some o)
    × (writer.capacity ≡ reader.capacity)
    × (has_valid_header (segment_at k o) reader.capacity ≡ true)

write-Joined :
    (writer reader : Buffer) (o : ℕ) (k : Kernel) (answers : Answers) (bytes : Text)
    → Joined writer reader o k
    → Joined writer reader o (write writer k answers (some bytes) (length bytes)).1
write-Joined writer reader o k answers bytes (mw, mr, cap, valid) =
    (mw, mr, cap, rw⁻¹ cap (write-valid writer k answers o bytes mw (rw cap valid)))

send-Joined :
    (m : Message) (writer reader : Buffer) (n : Notifier (Unit {0})) (o : ℕ) (answers : Answers)
    (s : Shared)
    → Joined writer reader o s.kernel
    → Joined writer reader o (send m writer n answers s).1.kernel
unfolding send write_and_notify
send-Joined m writer reader n o answers s j = elim (Option-cases (encode m)) [
  | inl e ↦ rw (e, send) j
  | inr (bytes, e) ↦
      let j' = write-Joined writer reader o s.kernel answers bytes j in
      rw (e, send)
        (elim (Bool-cases (write writer s.kernel answers (some bytes) (length bytes)).0) [
          | inl f ↦ rw (f, write_and_notify) j'
          | inr f ↦ rw (f, write_and_notify) j'
        ])
]

-- A successful send has written the message's encoding and raised the counter.
send_inv :
    (m : Message) (writer : Buffer) (n : Notifier (Unit {0})) (answers : Answers) (s s' : Shared)
    → send m writer n answers s ≡ (true, s')
    → (bytes : Text) × (encode m ≡ some bytes)
      × (write writer s.kernel answers (some bytes) (length bytes) ≡ (true, s'.kernel))
      × (s'.counter ≡ s.counter + 1)
unfolding send write_and_notify notify
send_inv m writer n answers s s' e = elim (Option-cases (encode m)) [
  | inl f ↦ ground arith
  | inr (bytes, f) ↦ (bytes, f, ground arith, ground arith)
]

-- Sends one after the other, each with its answers of the kernel.
abbrev pub send_all : Buffer → Notifier (Unit {0}) → List (Message × Answers) → Shared → Shared
send_all writer n [] s = s
send_all writer n ((m, answers) ∷ ms) s = send_all writer n ms (send m writer n answers s).1

send_all-Joined :
    (writer reader : Buffer) (n : Notifier (Unit {0})) (o : ℕ) (ms : List (Message × Answers))
    (s : Shared)
    → Joined writer reader o s.kernel
    → Joined writer reader o (send_all writer n ms s).kernel
send_all-Joined writer reader n o [] s j = j
send_all-Joined writer reader n o ((m, answers) ∷ ms) s j =
    send_all-Joined writer reader n o ms (send m writer n answers s).1
      (send-Joined m writer reader n o answers s j)

module _ {W : Type 0} (publish : Message → W → W) where
  -- The sender's and the receiver's buffers map one object with a header in order, at one capacity,
  -- the receiver's bridge is registered, and the message's numbers fit their types. However many
  -- messages were sent before, and whichever of these sends failed: after a send that succeeds, the
  -- next readable event publishes exactly that last message, once, counts one forwarded message,
  -- and leaves no notification pending.
  pub on_readable-send :
      (b : Bridge) (writer reader : Buffer) (sender receiver : Notifier (Unit {0})) (o : ℕ)
      (ms : List (Message × Answers)) (m : Message) (answers : Answers) (s s' : Shared) (w : W)
      → Joined writer reader o s.kernel
      → receiver.callback ≡ some tt
      → MessageOk m
      → send m writer sender answers (send_all writer sender ms s) ≡ (true, s')
      → on_readable publish b reader receiver s' w ≡ (
        record b { forwarded_message_count = inc64 b.forwarded_message_count },
        record s' { counter = 0 },
        publish m w,
      )
  unfolding on_readable handle_notification finish EventFd.handle_read
  on_readable-send b writer reader sender receiver o ms m answers s s' w joined registered ok e =
      let before = send_all writer sender ms s in
      let (mw, mr, cap, valid) = send_all-Joined writer reader sender o ms s joined in
      let (bytes, encoded, written, raised) = send_inv m writer sender answers before s' e in
      let (got, _) =
        read-write writer reader before.kernel s'.kernel answers o bytes mw mr cap valid written in
      let decoded = decode-encode m empty_message bytes ok encoded in
      let pending : eqb s'.counter 0 ≡ false = ground arith in
      simp
        (
          pending, registered, got, decoded, on_readable, EventFd.handle_read, handle_notification,
          finish,
        )
        refl
