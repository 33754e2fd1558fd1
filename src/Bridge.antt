-- ===== src/Bridge.antt =====
-- src/shared_memory_message_bridge.cpp: messages of other processes, through one shared-memory
-- buffer and an eventfd, onto the message bus. The bus is a world `W` with a function `publish`;
-- the callback that the bridge registers is its own `handle_notification`, which the notifier of the
-- model stores as `tt`.
pub mod Latest
use edge_link.EventFd
use edge_link.Prelude.{
  ℕ, Bool, true, false, not, ◌||◌, none, some, eqb, if◌then◌else◌, inc64, Text, length,
}
use edge_link.Codec.Decoder.{decode}
use edge_link.Codec.Encoder.{encode}
use edge_link.EventFd.{Notifier, set_callback, notify}
use edge_link.Message.{Message, empty_message}
use edge_link.MessageBus.{run, publish}
use edge_link.Prelude.Keys.{nat_eq, text_eq}
use edge_link.SharedMemory.{Kernel, Answers, Buffer, is_open, write, read}

pub record Bridge : Type 0 where
  pub running : Bool
  pub forwarded_message_count : ℕ
  pub failed_message_count : ℕ

unfoldable pub new : Bridge
new = record { running = false; forwarded_message_count = 0; failed_message_count = 0 }

unfoldable pub start : Bridge → Buffer → Notifier (Unit {0}) → Bool × Bridge × Notifier (Unit {0})
start b buffer n =
    if b.running
    then (true, b, n)
    else if not (is_open buffer) || not n.has_fd
    then (false, b, n)
    else (true, record b { running = true }, set_callback n (some tt))

unfoldable pub stop : Bridge → Notifier (Unit {0}) → Bridge × Notifier (Unit {0})
stop b n = if not b.running then (b, n) else (record b { running = false }, set_callback n none)

-- What both processes share: the kernel's objects and the counter of the eventfd.
pub record Shared : Type 0 where
  pub kernel : Kernel
  pub counter : ℕ

-- `buffer.write(...) && notifier.notify()`
unfoldable pub write_and_notify :
    Buffer → Notifier (Unit {0}) → Answers → Text → Shared → Bool × Shared
write_and_notify buffer n answers bytes w =
    let (written, k) = write buffer w.kernel answers (some bytes) (length bytes) in
    let (notified, counter) = notify n 1 w.counter in
    if written
    then (notified, record { kernel = k; counter = counter })
    else (false, record w { kernel = k })

unfoldable pub send : Message → Buffer → Notifier (Unit {0}) → Answers → Shared → Bool × Shared
send message buffer n answers w = elim (encode message) [
  | none ↦ (false, w)
  | some bytes ↦ write_and_notify buffer n answers bytes w
]

module _ {W : Type 0} (publish : Message → W → W) where
  unfoldable pub finish : Bridge → W → Bool × Message → Bridge × W
  finish b w (true, message) =
      (record b { forwarded_message_count = inc64 b.forwarded_message_count }, publish message w)
  finish b w (false, message) =
      (record b { failed_message_count = inc64 b.failed_message_count }, w)

  unfoldable pub handle_notification : Bridge → Buffer → Kernel → ℕ → W → Bridge × W
  handle_notification b buffer k total w = if eqb total 0 then (b, w) else elim (read buffer k) [
    | none ↦ (record b { failed_message_count = inc64 b.failed_message_count }, w)
    | some bytes ↦ finish b w (decode bytes empty_message)
  ]

  -- The event loop finds the eventfd readable.
  unfoldable pub on_readable :
      Bridge → Buffer → Notifier (Unit {0}) → Shared → W → Bridge × Shared × W
  on_readable b buffer n s w =
      let (run, counter) = EventFd.handle_read n s.counter in
      let s' : Shared = record s { counter = counter } in
      elim run [
        | none ↦ (b, s', w)
        | some (callback, total) ↦
            let (b', w') = handle_notification b buffer s.kernel total w in (b', s', w')
      ]
