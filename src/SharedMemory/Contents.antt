-- ===== src/SharedMemory/Contents.antt =====
-- src/shared_memory_buffer.cpp: what a reader gets of what was written.
use edge_link.Prelude.{
  subst, ℕ, ◌+◌, ◌-◌, ◌≤◌, ◌<◌, ◌≡◌, refl, sym, ap, ◌∙◌, inl, inr, true, false, not, ◌&&◌, ◌||◌,
  Option, some, [], arith, ltb, leb, eqb, eqb_iff, Bool-cases, Option-cases, is_some, Text, length,
  take, drop, length-take, take-length-append, take-length,
}
use edge_link.Prelude.Dict.{find, put, find-put, find-erase}
use edge_link.Prelude.Keys.{nat_eq, text_beq_iff, text_eq, text_beq_refl}
use edge_link.SharedMemory.{
  create, remove, Segment, Kernel, Answers, Buffer, shared_memory_magic, shared_memory_version,
  header_size, is_valid_shared_memory_name, has_valid_header, zeroed, segment_at, store, is_open,
  close, abandon, create_object, open_object, open_shared, stored, write, read, data_capacity,
  data_size,
}

-- A write succeeds exactly if the buffer is open, the bytes fit, there are bytes to copy and the
-- kernel syncs them. A write that a guard refuses changes nothing.
pub write_lem :
    (b : Buffer) (k : Kernel) (answers : Answers) (source : Option Text) (size : ℕ)
    → let (ok, k') = write b k answers source size in
      let accepted = is_open b && leb size b.capacity && (eqb size 0 || is_some source) in
      (ok ≡ (accepted && answers.syncs)) × (accepted ≡ false → k' ≡ k)
unfolding write is_open
write_lem b k answers source size = ground arith

segment_at-store : (k : Kernel) (o : ℕ) (s : Segment) → segment_at (store k o s) o ≡ s
unfolding segment_at store
segment_at-store k o s = ground (arith, find-put o o s k.objects, eqb_iff o o)

stored-valid :
    (s : Segment) (source : Text) (n : ℕ)
    → has_valid_header s n ≡ true
    → length source ≤ n
    → (has_valid_header (stored s source (length source)) n ≡ true)
      × (take (length source) (stored s source (length source)).bytes ≡ source)
unfolding stored has_valid_header
stored-valid s source n h fits = (
  ground arith,
  rw (take-length source) (take-length-append source (drop (length source) s.bytes)),
)

-- No write puts the header out of order.
pub write-valid :
    (b : Buffer) (k : Kernel) (answers : Answers) (o : ℕ) (source : Text)
    → b.mapping ≡ some o
    → has_valid_header (segment_at k o) b.capacity ≡ true
    → has_valid_header (segment_at (write b k answers (some source) (length source)).1 o) b.capacity
      ≡ true
unfolding write
write-valid b k answers o source m valid =
    let t = stored (segment_at k o) source (length source) in
    let header = stored-valid (segment_at k o) source b.capacity valid in
    let refused = ltb b.capacity (length source) || (ltb 0 (length source) && not true) in
    elim (Bool-cases refused) [
      | inl e ↦ simp (m, write, e) valid
      | inr e ↦ simp (m, write, e, segment_at-store k o t) ((header (ground arith)).0)
    ]

-- Two processes map one object with a header in order, at one capacity. The bytes that a successful
-- write of the one stores, all those of its source, are exactly what the other reads.
pub read-write :
    (writer reader : Buffer) (k k' : Kernel) (answers : Answers) (o : ℕ) (source : Text)
    → writer.mapping ≡ some o
    → reader.mapping ≡ some o
    → writer.capacity ≡ reader.capacity
    → has_valid_header (segment_at k o) reader.capacity ≡ true
    → write writer k answers (some source) (length source) ≡ (true, k')
    → (read reader k' ≡ some source) × (data_size reader k' ≡ length source)
unfolding write read data_size
read-write writer reader k k' answers o source mw mr cap valid e =
    let t = stored (segment_at k o) source (length source) in
    let inv : (store k o t ≡ k') × (length source ≤ writer.capacity) = ground arith in
    let here : segment_at k' o ≡ t =
      subst (λ x. segment_at x o ≡ t) inv.0 (segment_at-store k o t) in
    let (header, bytes) =
      stored-valid (segment_at k o) source reader.capacity valid (omega arith) in
    let size : t.data_size ≡ length source = unfold stored in refl in
    let got : read reader k' ≡ some (take t.data_size t.bytes) = rw (mr, read, here, header) refl in
    let sized : data_size reader k' ≡ length source =
      simp (mr, data_size, here, header, size) (ground arith) in
    (got ∙ ap some (rw size bytes), sized)

-- A read never returns more than the capacity, whatever stands in the object.
pub read_bound :
    (b : Buffer) (k : Kernel) {xs : Text}
    → read b k ≡ some xs
    → (length xs ≤ b.capacity) × (length xs ≤ data_size b k)
unfolding read data_size has_valid_header
read_bound b k {xs} e = elim (Option-cases b.mapping) [
  | inl f ↦ ground arith
  | inr (o, f) ↦ ground (arith, length-take (segment_at k o).data_size (segment_at k o).bytes)
]

-- The object as `create` leaves it.
abbrev initial : ℕ → Segment
initial n = record (zeroed (header_size + n)) {
  magic = shared_memory_magic;
  version = shared_memory_version;
  capacity = n;
  data_size = 0;
}

abbrev yes : Answers
yes = record {
  opens = true;
  resizes = true;
  stats = true;
  maps = true;
  syncs = true;
  unlinks = true;
}

create_object_inv :
    (b b' : Buffer) (k k' : Kernel) (answers : Answers) (n : ℕ)
    → create_object b k answers n ≡ (true, b', k')
    → (find b.name k'.names ≡ some k.next_object)
      × (segment_at k' k.next_object ≡ initial n)
      × (b'.mapping ≡ some k.next_object)
      × (b'.capacity ≡ n)
unfolding create_object abandon remove segment_at store
create_object_inv b b' k k' answers n e =
    let o = k.next_object in
    ground (
      arith,
      find-put b.name b.name o k.names,
      text_beq_refl b.name,
      find-put o o (initial n) (put o (zeroed (header_size + n)) (put o (zeroed 0) k.objects)),
      eqb_iff o o,
    )

create_inv :
    (b b' : Buffer) (k k' : Kernel) (answers : Answers) (n : ℕ)
    → create b k answers n ≡ (true, b', k')
    → (is_valid_shared_memory_name b.name ≡ true)
      × (0 < n)
      × (create_object b k answers n ≡ (true, b', k'))
unfolding create
create_inv b b' k k' answers n e = ground arith

open_ready :
    (other : Buffer) (k : Kernel) (o n : ℕ)
    → is_open other ≡ false
    → is_valid_shared_memory_name other.name ≡ true
    → find other.name k.names ≡ some o
    → segment_at k o ≡ initial n
    → open_shared other k yes ≡ (
      true,
      record other { fd = some o; mapping = some o; mapping_size = header_size + n; capacity = n },
    )
unfolding open_shared open_object has_valid_header
open_ready other k o n closed valid f s =
    let size : header_size + n - header_size ≡ n = omega arith in
    let same : eqb n n ≡ true = ground arith in
    let zero_le : leb 0 n ≡ true = ground arith in
    let big : ltb (header_size + n) header_size ≡ false = ground arith in
    simp (closed, valid, f, s, size, big, same, zero_le, open_shared, open_object) refl

fresh_buffer :
    (b : Buffer) (k : Kernel) (o n : ℕ)
    → b.mapping ≡ some o
    → b.capacity ≡ n
    → segment_at k o ≡ initial n
    → (is_open b ≡ true) × (data_capacity b ≡ n) × (read b k ≡ some [])
unfolding is_open data_capacity read has_valid_header
fresh_buffer b k o n m c s =
    (rw m refl, rw (m, data_capacity) c, simp (m, c, s, read) (ground arith))

-- A buffer that `create` makes is empty and has the capacity asked for. Another process whose
-- buffer has the same name and is closed can open it, where the kernel refuses nothing: it then
-- maps the same object, at the same capacity, and reads it as empty.
pub open-create :
    (b b' other : Buffer) (k k' : Kernel) (answers : Answers) (n : ℕ)
    → create b k answers n ≡ (true, b', k')
    → is_open other ≡ false
    → other.name ≡ b.name
    → let (ok, other') = open_shared other k' yes in
      (ok ≡ true)
      × (other'.mapping ≡ b'.mapping)
      × (is_open other' ≡ true)
      × (data_capacity b' ≡ n)
      × (data_capacity other' ≡ n)
      × (read b' k' ≡ some [])
      × (read other' k' ≡ some [])
open-create b b' other k k' answers n e closed same =
    let (valid, positive, made) = create_inv b b' k k' answers n e in
    let (named, there, maps, cap) = create_object_inv b b' k k' answers n made in
    let o = k.next_object in
    let opened = open_ready other k' o n closed (rw same valid) (rw same named) there in
    let mine = fresh_buffer b' k' o n maps cap there in
    let theirs =
      fresh_buffer
        (record other {
          fd = some o;
          mapping = some o;
          mapping_size = header_size + n;
          capacity = n;
        })
        k' o n refl refl there in
    rw opened (refl, sym maps, theirs.0, mine.1, theirs.1, mine.2, theirs.2)

-- A `create` that fails leaves no name behind, if the kernel lets it unlink, and the buffer as
-- closed as it was.
pub create_failed :
    (b b' : Buffer) (k k' : Kernel) (answers : Answers) (n : ℕ) (name : Text)
    → create b k answers n ≡ (false, b', k')
    → answers.unlinks ≡ true
    → (find name k'.names ≡ find name k.names) × (is_open b' ≡ is_open b)
unfolding create create_object abandon remove close store is_open
create_failed b b' k k' answers n name e u = ground (
  arith,
  find-erase b.name name (put b.name k.next_object k.names),
  find-put b.name name k.next_object k.names,
  text_beq_iff b.name name,
)
