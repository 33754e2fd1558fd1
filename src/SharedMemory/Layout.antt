-- ===== src/SharedMemory/Layout.antt =====
-- src/shared_memory_buffer.cpp: a buffer's fields agree with the object that it maps, whatever any
-- buffer of any process does.
use edge_link.Prelude.{
  subst, some-injective, ℕ, ◌+◌, ◌-◌, ◌≤◌, ◌<◌, ◌≡◌, refl, sym, ◌∙◌, inl, inr, true, none, some,
  arith, eqb, eqb_iff, Bool-cases, Text, length, length-replicate,
}
use edge_link.Prelude.Dict.{find, put, find-put, find-erase}
use edge_link.Prelude.Keys.{nat_eq, text_eq}
use edge_link.SharedMemory.{
  remove, Segment, Kernel, Answers, Buffer, shared_memory_magic, shared_memory_version, header_size,
  zeroed, store, close, abandon, create_object,
}

-- An object holds its header and its data, unless it is too small for a header.
abbrev pub SegmentOk : Segment → Type 0
SegmentOk s = length s.bytes ≡ s.size - header_size

pub record KernelOk (k : Kernel) : Type 0 where
  pub objects_ok :
      (o : ℕ) (s : Segment) → find o k.objects ≡ some s → (o < k.next_object) × SegmentOk s
  pub names_ok : (name : Text) (o : ℕ) → find name k.names ≡ some o → o < k.next_object

-- Every object is still there, at its size.
abbrev pub Keeps : Kernel → Kernel → Type 0
Keeps k k' =
    (o : ℕ) (s : Segment)
    → find o k.objects ≡ some s
    → (s' : Segment) × (find o k'.objects ≡ some s') × (s'.size ≡ s.size)

-- The buffer and the object that it maps.
abbrev pub Maps : Kernel → Buffer → ℕ → Type 0
Maps k b o =
    (s : Segment) × (find o k.objects ≡ some s)
    × (s.size ≡ b.mapping_size)
    × (b.mapping_size ≡ header_size + b.capacity)
    × (b.fd ≡ some o)

-- A buffer is closed and owns no descriptor, or maps the whole of one object.
pub record IsValid (k : Kernel) (b : Buffer) : Type 0 where
  pub closed : b.mapping ≡ none → (b.fd ≡ none) × (b.mapping_size ≡ 0) × (b.capacity ≡ 0)
  pub maps : (o : ℕ) → b.mapping ≡ some o → Maps k b o

pub Keeps-IsValid : (k k' : Kernel) (b : Buffer) → Keeps k k' → IsValid k b → IsValid k' b
Keeps-IsValid k k' b keeps v = record {
  closed = v.closed;
  maps = λ o e.
      let (s, f, size, whole, fd) = v.maps o e in
      let (s', f', same) = keeps o s f in (s', f', same ∙ size, whole, fd);
}

pub close-IsValid : (k : Kernel) (b : Buffer) → IsValid k (close b)
unfolding close
close-IsValid k b = record { closed = λ e. (refl, refl, refl); maps = λ o e. cc }

-- Overwriting an object with one of its size.
pub store-KernelOk :
    (k : Kernel) (o : ℕ) (s : Segment)
    → o < k.next_object
    → SegmentOk s
    → KernelOk k
    → KernelOk (store k o s)
unfolding store
store-KernelOk k o s h ok v = record {
  objects_ok =
      λ i t e. let old = v.objects_ok i t in ground (arith, find-put o i s k.objects, eqb_iff o i);
  names_ok = v.names_ok;
}

pub store-Keeps :
    (k : Kernel) (o : ℕ) (s : Segment) {t : Segment}
    → find o k.objects ≡ some t
    → s.size ≡ t.size
    → Keeps k (store k o s)
unfolding store
store-Keeps k o s {t} e h i u f = elim (Bool-cases (eqb o i)) [
  | inl same ↦ (s, ground (arith, find-put o i s k.objects), ground (arith, eqb_iff o i))
  | inr other ↦ (u, ground (arith, find-put o i s k.objects), refl)
]

-- What every operation leaves: a kernel that is in order and has all its objects, and a valid buffer.
abbrev pub Sound : Kernel → Buffer → Kernel → Type 0
Sound k b' k' = KernelOk k' × Keeps k k' × IsValid k' b'

pub Keeps-refl : (k : Kernel) → Keeps k k
Keeps-refl k o s f = (s, f, refl)

pub unchanged : (k : Kernel) (b : Buffer) → KernelOk k → IsValid k b → Sound k b k
unchanged k b ok v = (ok, Keeps-refl k, v)

-- An object that the old kernel does not have may be overwritten at any size.
store_fresh :
    (k k' : Kernel) (o : ℕ) (s : Segment)
    → KernelOk k
    → k.next_object ≤ o
    → Keeps k k'
    → Keeps k (store k' o s)
unfolding store
store_fresh k k' o s ok h keeps i t e =
    let (t', f, same) = keeps i t e in
    let (below, _) = ok.objects_ok i t e in
    (t', ground (arith, find-put o i s k'.objects, eqb_iff o i), same)

pub remove-Sound :
    (k : Kernel) (b : Buffer) (answers : Answers)
    → KernelOk k
    → IsValid k b
    → let (ok, b', k') = remove b k answers in Sound k b' k'
unfolding remove
remove-Sound k b answers ok v = elim (Bool-cases answers.unlinks) [
  | inl e ↦ rw e (
    record {
      objects_ok = ok.objects_ok;
      names_ok = λ name o f. ok.names_ok name o (ground (arith, find-erase b.name name k.names));
    },
    Keeps-refl k,
    record { closed = v.closed; maps = v.maps },
  )
  | inr e ↦ rw e (unchanged k b ok v)
]

abandon-Sound :
    (k k' : Kernel) (b : Buffer) (answers : Answers)
    → KernelOk k'
    → Keeps k k'
    → let (ok, b'', k'') = abandon b k' answers in Sound k b'' k''
unfolding abandon
abandon-Sound k k' b answers ok keeps =
    let (ok', keeps', v) = remove-Sound k' (close b) answers ok (close-IsValid k' b) in
    (
      ok',
      λ o s e.
          let (s', f, same) = keeps o s e in
          let (s'', g, same') = keeps' o s' f in (s'', g, same' ∙ same),
      v,
    )

zeroed-SegmentOk : (size : ℕ) → SegmentOk (zeroed size)
zeroed-SegmentOk size = length-replicate (size - header_size) 0

-- A buffer that maps an object of its size.
pub mapped-IsValid :
    (k : Kernel) (b : Buffer) (o : ℕ) (s : Segment)
    → find o k.objects ≡ some s
    → b.mapping ≡ some o
    → b.fd ≡ some o
    → b.mapping_size ≡ s.size
    → s.size ≡ header_size + b.capacity
    → IsValid k b
mapped-IsValid k b o s f m d size whole = record {
  closed = λ e. cc;
  maps = λ i e.
      let same : o ≡ i = some-injective _ _ (sym m ∙ e) in
      subst (Maps k b) same (s, f, sym size, size ∙ whole, d);
}

-- The kernel with a new, empty object under a name.
abbrev with_object : Kernel → Text → Kernel
with_object k name = record k {
  names = put name k.next_object k.names;
  objects = put k.next_object (zeroed 0) k.objects;
  next_object = k.next_object + 1;
}

with_object-KernelOk : (k : Kernel) (name : Text) → KernelOk k → KernelOk (with_object k name)
with_object-KernelOk k name ok = record {
  objects_ok = λ i s e.
      let old = ok.objects_ok i s in
      ground (
        arith,
        find-put k.next_object i (zeroed 0) k.objects,
        eqb_iff k.next_object i,
        zeroed-SegmentOk 0,
      );
  names_ok = λ other i e.
      let old = ok.names_ok other i in ground (arith, find-put name other k.next_object k.names);
}

pub create_object-Sound :
    (k : Kernel) (b : Buffer) (answers : Answers) (n : ℕ)
    → KernelOk k
    → let (ok, b', k') = create_object b k answers n in Sound k b' k'
unfolding create_object store
create_object-Sound k b answers n ok =
    let o = k.next_object in
    let s1 = zeroed (header_size + n) in
    let s2 : Segment = record s1 {
      magic = shared_memory_magic;
      version = shared_memory_version;
      capacity = n;
      data_size = 0;
    } in
    let k1 = with_object k b.name in
    let k2 = store k1 o s1 in
    let k3 = store k2 o s2 in
    let ok1 = with_object-KernelOk k b.name ok in
    let ok2 = store-KernelOk k1 o s1 (omega arith) (zeroed-SegmentOk (header_size + n)) ok1 in
    let ok3 = store-KernelOk k2 o s2 (omega arith) (zeroed-SegmentOk (header_size + n)) ok2 in
    let keeps1 : Keeps k k1 = store_fresh k k o (zeroed 0) ok (omega arith) (Keeps-refl k) in
    let keeps2 = store_fresh k k1 o s1 ok (omega arith) keeps1 in
    let keeps3 = store_fresh k k2 o s2 ok (omega arith) keeps2 in
    let opened : Buffer = record b {
      mapping_size = header_size + n;
      fd = some o;
      owns_name = true;
    } in
    let mapped : Buffer = record opened { mapping = some o; capacity = n } in
    let there : find o k3.objects ≡ some s2 =
      ground (arith, find-put o o s2 k2.objects, eqb_iff o o) in
    elim (Bool-cases answers.resizes) [
      | inr e ↦ rw (e, create_object) (abandon-Sound k k1 opened _ ok1 keeps1)
      | inl e ↦ elim (Bool-cases answers.maps) [
        | inr f ↦ rw (e, f, create_object) (abandon-Sound k k2 opened _ ok2 keeps2)
        | inl f ↦ elim (Bool-cases answers.syncs) [
          | inr g ↦ rw (e, f, g, create_object) (abandon-Sound k k3 mapped _ ok3 keeps3)
          | inl g ↦
              rw (e, f, g, create_object)
                (ok3, keeps3, mapped-IsValid k3 mapped o s2 there refl refl refl refl)
        ]
      ]
    ]
