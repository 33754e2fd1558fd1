-- ===== src/SharedMemory/Processes.antt =====
-- src/shared_memory_buffer.cpp: buffers of any number of processes over one kernel.
use edge_link.SharedMemory.Sharing
use edge_link.Prelude.{ℕ, refl, inl, inr, List, [], ◌∷◌, Option-cases, Text, All}
use edge_link.Prelude.Dict.{find, All-put, All-erase, All-find}
use edge_link.Prelude.Keys.{text_eq, nat_eq}
use edge_link.SharedMemory.{new, Kernel, Answers, Buffer, destroy}
use edge_link.SharedMemory.Layout.{
  IsValid, KernelOk, Keeps, Keeps-IsValid, close-IsValid, Sound, Keeps-refl, remove-Sound,
}
use edge_link.SharedMemory.Operations.{
  create-Sound, open-IsValid, SourceOk, write-Keeps, destroy-Keeps,
}
use edge_link.SharedMemory.Sharing.{
  Call, creates, opens_it, writes, closes, removes, destroys, System, with_buffer, call, buffer_at,
}

-- The kernel's store is in order, and every process's buffer agrees with it.
pub record SystemOk (w : System) : Type 0 where
  pub kernel_ok : KernelOk w.kernel
  pub buffers_ok : All (λ e. IsValid w.kernel e.1) w.buffers

All-Keeps :
    (k k' : Kernel) (bs : List (ℕ × Buffer))
    → Keeps k k'
    → All (λ e. IsValid k e.1) bs
    → All (λ e. IsValid k' e.1) bs
All-Keeps k k' [] keeps a = tt
All-Keeps k k' (e ∷ bs) keeps (v, a) = (Keeps-IsValid k k' e.1 keeps v, All-Keeps k k' bs keeps a)

with_buffer-SystemOk :
    (w : System) (i : ℕ) (b : Buffer) (k : Kernel)
    → SystemOk w
    → Sound w.kernel b k
    → SystemOk (with_buffer w i b k)
with_buffer-SystemOk w i b k ok (k_ok, keeps, v) = record {
  kernel_ok = k_ok;
  buffers_ok =
      All-put (λ e. IsValid k e.1) i b w.buffers v
        (All-Keeps w.kernel k w.buffers keeps ok.buffers_ok);
}

-- The caller's contract.
abbrev pub CallOk : Call → Type 0
CallOk (writes source size) = SourceOk source size
CallOk _ = Unit {0}

new-IsValid : (k : Kernel) (name : Text) → IsValid k (new name)
unfolding new
new-IsValid k name = record { closed = λ e. (refl, refl, refl); maps = λ o e. cc }

call-SystemOk :
    (w : System) (i : ℕ) (b : Buffer) (answers : Answers) (c : Call)
    → CallOk c
    → SystemOk w
    → IsValid w.kernel b
    → SystemOk (call w i b answers c)
unfolding call
call-SystemOk w i b answers (creates n) c ok v =
    with_buffer-SystemOk w i _ _ ok (create-Sound w.kernel b answers n ok.kernel_ok v)
call-SystemOk w i b answers opens_it c ok v =
    with_buffer-SystemOk w i _ _ ok
      (ok.kernel_ok, Keeps-refl w.kernel, open-IsValid w.kernel b answers v)
call-SystemOk w i b answers (writes source size) c ok v =
    let (k_ok, keeps) = write-Keeps w.kernel b answers source size c ok.kernel_ok v in
    with_buffer-SystemOk w i _ _ ok (k_ok, keeps, Keeps-IsValid w.kernel _ b keeps v)
call-SystemOk w i b answers closes c ok v =
    with_buffer-SystemOk w i _ _ ok (ok.kernel_ok, Keeps-refl w.kernel, close-IsValid w.kernel b)
call-SystemOk w i b answers removes c ok v =
    with_buffer-SystemOk w i _ _ ok (remove-Sound w.kernel b answers ok.kernel_ok v)
call-SystemOk w i b answers destroys c ok v =
    let (k_ok, keeps) = destroy-Keeps w.kernel b answers ok.kernel_ok in
    record {
      kernel_ok = k_ok;
      buffers_ok =
          All-erase (λ e. IsValid (destroy b w.kernel answers) e.1) i w.buffers
            (All-Keeps w.kernel _ w.buffers keeps ok.buffers_ok);
    }

buffer_at-IsValid :
    (w : System) (i : ℕ) (name : Text) → SystemOk w → IsValid w.kernel (buffer_at w i name)
buffer_at-IsValid w i name ok = elim (Option-cases (find i w.buffers)) [
  | inl e ↦ rw (e, buffer_at) (new-IsValid w.kernel name)
  | inr (b, e) ↦
      rw (e, buffer_at) (All-find (λ x. IsValid w.kernel x.1) i w.buffers ok.buffers_ok e)
]

-- Processes start with buffers that agree with the kernel, and write arrays of the length that they
-- announce. Whatever they call, and whatever the kernel answers: a buffer that is open maps the
-- whole of one object, whose size is that of the header and the buffer's capacity, and holds its
-- descriptor; a closed one holds no descriptor and has no capacity.
pub shared_run-SystemOk :
    (w : System) (cs : List (ℕ × Text × Answers × Call))
    → All (λ c. CallOk c.3) cs
    → SystemOk w
    → SystemOk (Sharing.run w cs)
unfolding Sharing.run Sharing.step
shared_run-SystemOk w [] c ok = ok
shared_run-SystemOk w ((i, name, answers, c) ∷ cs) (o, os) ok =
    shared_run-SystemOk (Sharing.step w (i, name, answers, c)) cs os
      (call-SystemOk w i (buffer_at w i name) answers c o ok (buffer_at-IsValid w i name ok))
