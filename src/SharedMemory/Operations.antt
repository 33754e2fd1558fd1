-- ===== src/SharedMemory/Operations.antt =====
-- src/shared_memory_buffer.cpp: each method leaves a valid buffer over a kernel in order.
use edge_link.Prelude.{
  ℕ, ◌+◌, ◌-◌, ◌≤◌, ◌≡◌, refl, ap, inl, inr, false, not, ◌&&◌, ◌||◌, Option, none, some, arith, ltb,
  eqb, Bool-cases, Option-cases, is_some, Text, length, take, drop, length-append, length-take,
  length-drop,
}
use edge_link.Prelude.Dict.{find}
use edge_link.Prelude.Keys.{text_eq, nat_eq}
use edge_link.SharedMemory.{
  create, Segment, Kernel, Answers, Buffer, header_size, size_max, off_max,
  is_valid_shared_memory_name, has_valid_header, from_kernel, segment_at, is_open, close,
  open_object, open_shared, or_nothing, stored, write, destroy,
}
use edge_link.SharedMemory.Layout.{
  IsValid, SegmentOk, KernelOk, Keeps, close-IsValid, store-KernelOk, store-Keeps, Sound,
  Keeps-refl, unchanged, remove-Sound, mapped-IsValid, create_object-Sound,
}

without_size :
    (k : Kernel) (b : Buffer)
    → IsValid k b
    → is_open b ≡ false
    → IsValid k (record b { mapping_size = 0 })
unfolding is_open
without_size k b v e = record {
  closed = λ m. let (d, _, c) = v.closed m in (d, refl, c);
  maps = λ o m. ground arith;
}

pub create-Sound :
    (k : Kernel) (b : Buffer) (answers : Answers) (n : ℕ)
    → KernelOk k
    → IsValid k b
    → let (ok, b', k') = create b k answers n in Sound k b' k'
unfolding create
create-Sound k b answers n ok v =
    let same = unchanged k b ok v in
    let refused = is_open b || not (is_valid_shared_memory_name b.name) || eqb n 0 in
    elim (Bool-cases refused) [
      | inl e ↦ rw (e, create) same
      | inr e ↦
          let closed : is_open b ≡ false = ground arith in
          let sized = unchanged k (record b { mapping_size = 0 }) ok (without_size k b v closed) in
          rw (e, create)
            (elim (Bool-cases (ltb (size_max - header_size) n)) [
              | inl f ↦ rw (f, create) same
              | inr f ↦
                  rw (f, create)
                    (elim (Bool-cases (ltb off_max (header_size + n))) [
                      | inl g ↦ rw (g, create) sized
                      | inr g ↦
                          rw (g, create)
                            (elim (Bool-cases
                              (not answers.opens || is_some (find b.name k.names))) [
                                | inl h ↦ rw (h, create) sized
                                | inr h ↦ rw (h, create) (create_object-Sound k b answers n ok)
                              ])
                    ])
            ])
    ]

has_object : (r : Option Segment) → header_size ≤ (from_kernel r).size → r ≡ some (from_kernel r)
has_object none h = ground arith
has_object (some s) h = refl

-- Opening an object of which nothing is known: the header and its size decide.
open_object-cases :
    (k : Kernel) (b : Buffer) (answers : Answers) (o : ℕ)
    → let s = segment_at k o in
      (find o k.objects ≡ some s
        → header_size ≤ s.size
        → IsValid k (record b {
          fd = some o;
          mapping = some o;
          mapping_size = s.size;
          capacity = s.size - header_size;
        }))
      → IsValid k (open_object b k answers o).1
unfolding open_object
open_object-cases k b answers o v =
    let s = segment_at k o in
    let found : header_size ≤ s.size → find o k.objects ≡ some s =
      unfold segment_at in has_object (find o k.objects) in
    elim (Bool-cases (not answers.stats || ltb s.size header_size)) [
      | inl e ↦ rw (e, open_object) (close-IsValid k _)
      | inr e ↦
          rw (e, open_object)
            (elim (Bool-cases answers.maps) [
              | inr f ↦ rw (f, open_object) (close-IsValid k _)
              | inl f ↦
                  rw (f, open_object)
                    (elim (Bool-cases (has_valid_header s (s.size - header_size))) [
                      | inr g ↦ rw (g, open_object) (close-IsValid k _)
                      | inl g ↦
                          let big : header_size ≤ s.size = ground arith in
                          rw (g, open_object) (v (found big) big)
                    ])
            ])
    ]

pub open-IsValid :
    (k : Kernel) (b : Buffer) (answers : Answers)
    → IsValid k b
    → IsValid k (open_shared b k answers).1
unfolding open_shared
open-IsValid k b answers v =
    elim (Bool-cases (is_open b || not (is_valid_shared_memory_name b.name))) [
      | inl e ↦ rw (e, open_shared) v
      | inr e ↦
          rw (e, open_shared)
            (elim (Option-cases (find b.name k.names)) [
              | inl f ↦ rw (f, open_shared) v
              | inr (o, f) ↦
                  rw (f, open_shared)
                    (elim (Bool-cases (not answers.opens)) [
                      | inl g ↦ rw (g, open_shared) v
                      | inr g ↦
                          rw (g, open_shared)
                            (open_object-cases k b _ o (λ there big.
                              mapped-IsValid k _ o (segment_at k o) there refl refl refl
                                (omega arith)))
                    ])
            ])
    ]

stored-Ok :
    (s : Segment) (source : Text) (size : ℕ)
    → SegmentOk s
    → size ≤ s.size - header_size
    → length source ≡ size
    → SegmentOk (stored s source size)
unfolding stored
stored-Ok s source size ok h n = omega (
  arith,
  length-append (take size source) (drop size s.bytes),
  length-take size source,
  length-drop size s.bytes,
)

-- The caller's array has the bytes that it announces.
abbrev pub SourceOk : Option Text → ℕ → Type 0
SourceOk source size = length (or_nothing source) ≡ size

pub write-Keeps :
    (k : Kernel) (b : Buffer) (answers : Answers) (source : Option Text) (size : ℕ)
    → SourceOk source size
    → KernelOk k
    → IsValid k b
    → let k' = (write b k answers source size).1 in KernelOk k' × Keeps k k'
unfolding write
write-Keeps k b answers source size n ok v = elim (Option-cases b.mapping) [
  | inl e ↦ rw (e, write) (ok, Keeps-refl k)
  | inr (o, e) ↦
      let (s, f, same, whole, fd) = v.maps o e in
      let there : segment_at k o ≡ s = unfold segment_at in ap from_kernel f in
      let (below, fits) = ok.objects_ok o s f in
      let new = stored s (or_nothing source) size in
      rw (e, write, there)
        (elim (Bool-cases (ltb b.capacity size || (ltb 0 size && not (is_some source)))) [
          | inl g ↦ rw (g, write) (ok, Keeps-refl k)
          | inr g ↦
              rw (g, write)
                (
                  store-KernelOk k o new below
                      (stored-Ok s (or_nothing source) size fits (ground arith) n) ok,
                  store-Keeps k o new f (unfold stored in refl),
                )
        ])
]

pub destroy-Keeps :
    (k : Kernel) (b : Buffer) (answers : Answers)
    → KernelOk k
    → let k' = destroy b k answers in KernelOk k' × Keeps k k'
unfolding destroy
destroy-Keeps k b answers ok =
    let (removed, keeps, _) = remove-Sound k (close b) answers ok (close-IsValid k b) in
    elim (Bool-cases b.owns_name) [
      | inl e ↦ simp (e, destroy) (removed, keeps)
      | inr e ↦ simp (e, destroy) (ok, Keeps-refl k)
    ]
