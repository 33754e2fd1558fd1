-- ===== src/SharedMemory/Sharing.antt =====
-- Processes that share the kernel of src/shared_memory_buffer.cpp, each with its buffer.
use edge_link.SharedMemory
use edge_link.Prelude.{ℕ, Option, none, some, List, [], ◌∷◌, Text}
use edge_link.Prelude.Dict.{find, put, erase}
use edge_link.Prelude.Keys.{text_eq, nat_eq}
use edge_link.SharedMemory.{Kernel, Answers, Buffer, open_shared, write, destroy}

-- A call of one of the methods, by any process.
pub data Call : Type 0 where
  creates : ℕ → Call
  opens_it : Call
  writes : Option Text → ℕ → Call
  closes : Call
  removes : Call
  destroys : Call

-- A call on the buffer of number `i`, constructed under `name` if it is not there yet; a destructor
-- leaves the number free.
pub record System : Type 0 where
  pub kernel : Kernel
  pub buffers : List (ℕ × Buffer)

abbrev pub with_buffer : System → ℕ → Buffer → Kernel → System
with_buffer w i b k = record { kernel = k; buffers = put i b w.buffers }

unfoldable pub call : System → ℕ → Buffer → Answers → Call → System
call w i b answers (creates n) =
    let (ok, b', k') = SharedMemory.create b w.kernel answers n in with_buffer w i b' k'
call w i b answers opens_it =
    let (ok, b') = open_shared b w.kernel answers in with_buffer w i b' w.kernel
call w i b answers (writes source size) =
    let (ok, k') = write b w.kernel answers source size in with_buffer w i b k'
call w i b answers closes = with_buffer w i (SharedMemory.close b) w.kernel
call w i b answers removes =
    let (ok, b', k') = SharedMemory.remove b w.kernel answers in with_buffer w i b' k'
call w i b answers destroys = record {
  kernel = destroy b w.kernel answers;
  buffers = erase i w.buffers;
}

abbrev pub buffer_at : System → ℕ → Text → Buffer
buffer_at w i name = elim (find i w.buffers) [ none ↦ SharedMemory.new name | some b ↦ b ]

unfoldable pub step : System → ℕ × Text × Answers × Call → System
step w (i, name, answers, c) = call w i (buffer_at w i name) answers c

unfoldable pub run : System → List (ℕ × Text × Answers × Call) → System
run w [] = w
run w (c ∷ cs) = run (step w c) cs
