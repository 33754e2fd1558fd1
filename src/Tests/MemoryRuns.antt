-- ===== src/Tests/MemoryRuns.antt =====
-- Runs of src/shared_memory_buffer.cpp and src/shared_memory_message_bridge.cpp.
use edge_link.SharedMemory
use edge_link.SharedMemory.Sharing
use edge_link.Prelude.{
  ℕ, ◌≡◌, refl, true, false, none, some, List, [], ◌∷◌, ◌++◌, arith, Text, codes, replicate,
}
use edge_link.Bridge.{Bridge, Shared, write_and_notify, send, on_readable}
use edge_link.Bridge.Latest.{send_all, on_readable-send}
use edge_link.Codec.Bytes.{le_bytes}
use edge_link.Codec.Encoder.{quality_rank, header_of, append_header, body, encode}
use edge_link.Codec.Value.{value_index, encode_value}
use edge_link.EventFd.{Notifier, notify}
use edge_link.Message.{Message, empty_message}
use edge_link.Prelude.Dict.{find, put, erase}
use edge_link.Prelude.Keys.{text_eq, nat_eq}
use edge_link.SharedMemory.{
  Segment, Kernel, Answers, Buffer, shared_memory_magic, shared_memory_version, has_slash,
  is_valid_shared_memory_name, has_valid_header, zeroed, segment_at, store, is_open, abandon,
  create_object, open_shared, stored, write, read, data_capacity, data_size,
}
use edge_link.SharedMemory.Contents.{read-write, open-create}
use edge_link.SharedMemory.Processes.{SystemOk, shared_run-SystemOk}

abbrev all_good : Answers
all_good = record {
  opens = true;
  resizes = true;
  stats = true;
  maps = true;
  syncs = true;
  unlinks = true;
}

abbrev name_x : Text
name_x = codes "/x"

abbrev no_objects : Kernel
no_objects = record { names = []; objects = []; next_object = 0 }

-- Process 1 creates and writes, process 2 opens and reads; then both close.
abbrev shared_calls : List (ℕ × Text × Answers × Sharing.Call)
shared_calls =
    (1, name_x, all_good, Sharing.Call.creates 64)
    ∷ (2, name_x, all_good, Sharing.Call.opens_it)
    ∷ (1, name_x, all_good, Sharing.Call.writes (some (5 ∷ 6 ∷ [])) 2)
    ∷ (2, name_x, all_good, Sharing.Call.closes)
    ∷ (1, name_x, all_good, Sharing.Call.destroys)
    ∷ []

shared_run_example :
    SystemOk (Sharing.run (record { kernel = no_objects; buffers = [] }) shared_calls)
shared_run_example =
    shared_run-SystemOk (record { kernel = no_objects; buffers = [] }) shared_calls
      (tt, (tt, (refl, (tt, (tt, tt)))))
      (record {
        kernel_ok = record {
          objects_ok = λ o s e. unfold find in cc;
          names_ok = λ name o e. unfold find in cc;
        };
        buffers_ok = tt;
      })

abbrev slot : Segment
slot = record {
  size = 88;
  magic = shared_memory_magic;
  version = shared_memory_version;
  capacity = 64;
  data_size = 0;
  bytes = replicate 64 0;
}

abbrev kernel : Kernel
kernel = record { names = (name_x, 0) ∷ []; objects = (0, slot) ∷ []; next_object = 1 }

abbrev mapped : Buffer
mapped = record {
  name = name_x;
  fd = some 0;
  mapping = some 0;
  mapping_size = 88;
  capacity = 64;
  owns_name = false;
}

abbrev written : Kernel
written = record kernel {
  objects = (0, record slot { data_size = 2; bytes = 5 ∷ 6 ∷ replicate 62 0 }) ∷ [];
}

slot-valid : has_valid_header (segment_at kernel 0) 64 ≡ true
unfolding has_valid_header segment_at find
slot-valid = refl

write_two : write mapped kernel all_good (some (5 ∷ 6 ∷ [])) 2 ≡ (true, written)
unfolding write segment_at store stored find put
write_two = refl

read-write_example : (read mapped written ≡ some (5 ∷ 6 ∷ [])) × (data_size mapped written ≡ 2)
read-write_example =
    read-write mapped mapped kernel written all_good 0 (5 ∷ 6 ∷ []) refl refl refl slot-valid
      write_two

read_two : read mapped written ≡ some (5 ∷ 6 ∷ [])
unfolding read segment_at has_valid_header find
read_two = refl

abbrev closed : Buffer
closed = SharedMemory.new name_x

abbrev created : Buffer
created = record mapped { owns_name = true }

create_x : SharedMemory.create closed no_objects all_good 64 ≡ (true, created, kernel)
unfolding SharedMemory.create create_object store find put SharedMemory.new is_open
    is_valid_shared_memory_name has_slash
create_x = refl

open-create_example :
    let (ok, other') = open_shared closed kernel all_good in
    (ok ≡ true)
    × (other'.mapping ≡ some 0)
    × (is_open other' ≡ true)
    × (data_capacity created ≡ 64)
    × (data_capacity other' ≡ 64)
    × (read created kernel ≡ some [])
    × (read other' kernel ≡ some [])
open-create_example =
    open-create closed created closed no_objects kernel all_good 64 create_x
      (unfold is_open SharedMemory.new in refl) refl

-- The kernel refuses to map the object.
abbrev no_mmap : Answers
no_mmap = record all_good { maps = false }

abbrev after_failure : Kernel
after_failure = record { names = []; objects = (0, zeroed 88) ∷ []; next_object = 1 }

create_fails : SharedMemory.create closed no_objects no_mmap 64 ≡ (false, closed, after_failure)
unfolding SharedMemory.create create_object abandon SharedMemory.remove SharedMemory.close store
    find put erase SharedMemory.new is_open is_valid_shared_memory_name has_slash
create_fails = refl

abbrev sender : Notifier (Unit {0})
sender = record { has_fd = true; callback = none }

abbrev receiver : Notifier (Unit {0})
receiver = record { has_fd = true; callback = some tt }

abbrev idle_bridge : Bridge
idle_bridge = record { running = true; forwarded_message_count = 0; failed_message_count = 0 }

abbrev first : Message
first = record empty_message { topic = codes "a"; timestamp = 5 }

abbrev second : Message
second = record empty_message { topic = codes "b"; timestamp = 6 }

abbrev before : Shared
before = record { kernel = kernel; counter = 0 }

abbrev after_sends : Shared
after_sends = record {
  kernel = record kernel {
    objects =
        (
          0,
          record slot {
            data_size = 37;
            bytes =
                (83 ∷ 77 ∷ 76 ∷ 69 ∷ 1 ∷ 0 ∷ 0 ∷ 0 ∷ 3 ∷ 0 ∷ 0 ∷ 0 ∷ 6 ∷ 0 ∷ 0 ∷ 0 ∷ 0 ∷ 0 ∷ 0 ∷ 0
                  ∷ 1 ∷ 0 ∷ 0 ∷ 0 ∷ 0 ∷ 0 ∷ 0 ∷ 0 ∷ 0 ∷ 0 ∷ 0 ∷ 0 ∷ 0 ∷ 0 ∷ 0 ∷ 0 ∷ 98 ∷ [])
                ++ replicate 27 0;
          },
        )
        ∷ [];
  };
  counter = 2;
}

second_sent :
    send second mapped sender all_good (send_all mapped sender ((first, all_good) ∷ []) before)
    ≡ (true, after_sends)
unfolding send write_and_notify notify write segment_at store stored find put encode header_of
    append_header body le_bytes encode_value value_index quality_rank
second_sent = refl

on_readable_example :
    on_readable (λ m log. log ++ m ∷ []) idle_bridge mapped receiver after_sends [] ≡ (
      record idle_bridge { forwarded_message_count = 1 },
      record after_sends { counter = 0 },
      second ∷ [],
    )
on_readable_example =
    on_readable-send (λ m log. log ++ m ∷ []) idle_bridge mapped mapped sender receiver 0
      ((first, all_good) ∷ []) second all_good before after_sends [] (refl, refl, refl, slot-valid)
      refl (tt, omega arith) second_sent
