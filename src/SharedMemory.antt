-- ===== src/SharedMemory.antt =====
-- src/shared_memory_buffer.cpp: a buffer in POSIX shared memory. The kernel's objects are a store
-- that all processes share: `names` is what `shm_open` finds, and an object outlives its name. The
-- kernel's other answers are the fields of `Answers`. A pointer or descriptor of an object is its
-- number in the store; the header is a struct, so its fields are numbers of the object.
pub mod Layout
pub mod Contents
pub mod Sharing
pub mod Processes
pub mod Operations
use edge_link.Prelude.{
  ℕ, ◌+◌, ◌-◌, ◌^◌, Bool, true, false, not, ◌&&◌, ◌||◌, Option, none, some, List, [], ◌∷◌, ◌++◌,
  ltb, leb, eqb, if◌then◌else◌, is_some, Text, take, drop, replicate,
}
use edge_link.Prelude.Dict.{find, put, erase}
use edge_link.Prelude.Keys.{text_eq, nat_eq}

pub record Segment : Type 0 where
  pub size : ℕ  -- `st_size`: the header and the data
  pub magic : ℕ
  pub version : ℕ
  pub capacity : ℕ
  pub data_size : ℕ
  pub bytes : Text

pub record Kernel : Type 0 where
  pub names : List (Text × ℕ)
  pub objects : List (ℕ × Segment)
  pub next_object : ℕ

-- Whether each call of the kernel succeeds; `unlinks` is true also for a missing name.
pub record Answers : Type 0 where
  pub opens : Bool
  pub resizes : Bool
  pub stats : Bool
  pub maps : Bool
  pub syncs : Bool
  pub unlinks : Bool

pub record Buffer : Type 0 where
  pub name : Text
  pub fd : Option ℕ
  pub mapping : Option ℕ
  pub mapping_size : ℕ
  pub capacity : ℕ
  pub owns_name : Bool

abbrev pub shared_memory_magic : ℕ
shared_memory_magic = 0x45444C4B

abbrev pub shared_memory_version : ℕ
shared_memory_version = 1

-- `sizeof(SharedMemoryHeader)`
abbrev pub header_size : ℕ
header_size = 24

abbrev pub size_max : ℕ
size_max = 2 ^ 64 - 1

abbrev pub off_max : ℕ
off_max = 2 ^ 63 - 1

-- `name.find('/', 1) == npos` on what follows the first character: 47 is '/'.
unfoldable pub has_slash : Text → Bool
has_slash [] = false
has_slash (c ∷ cs) = eqb c 47 || has_slash cs

unfoldable pub is_valid_shared_memory_name : Text → Bool
is_valid_shared_memory_name [] = false
is_valid_shared_memory_name (c ∷ []) = false
is_valid_shared_memory_name (c ∷ cs) = eqb c 47 && not (has_slash cs)

unfoldable pub has_valid_header : Segment → ℕ → Bool
has_valid_header s expected_capacity =
    eqb s.magic shared_memory_magic
    && eqb s.version shared_memory_version
    && eqb s.capacity expected_capacity
    && leb s.data_size expected_capacity

-- A new object is empty; a resized one is filled with zeros.
abbrev pub zeroed : ℕ → Segment
zeroed size = record {
  size = size;
  magic = 0;
  version = 0;
  capacity = 0;
  data_size = 0;
  bytes = replicate (size - header_size) 0;
}

abbrev pub from_kernel : Option Segment → Segment
from_kernel none = zeroed 0
from_kernel (some s) = s

-- What stands at an object's address.
unfoldable pub segment_at : Kernel → ℕ → Segment
segment_at k o = from_kernel (find o k.objects)

unfoldable pub store : Kernel → ℕ → Segment → Kernel
store k o s = record k { objects = put o s k.objects }

unfoldable pub new : Text → Buffer
new name = record {
  name = name;
  fd = none;
  mapping = none;
  mapping_size = 0;
  capacity = 0;
  owns_name = false;
}

unfoldable pub is_open : Buffer → Bool
is_open b = is_some b.mapping

unfoldable pub close : Buffer → Buffer
close b = record b { mapping = none; fd = none; mapping_size = 0; capacity = 0 }

unfoldable pub remove : Buffer → Kernel → Answers → Bool × Buffer × Kernel
remove b k answers =
    if answers.unlinks
    then (true, record b { owns_name = false }, record k { names = erase b.name k.names })
    else (false, b, k)

-- `close(); remove(); return false;`
unfoldable pub abandon : Buffer → Kernel → Answers → Bool × Buffer × Kernel
abandon b k answers = let (ok, b', k') = remove (close b) k answers in (false, b', k')

-- `create` from the answer of `shm_open` on, for the new object `o`.
unfoldable pub create_object : Buffer → Kernel → Answers → ℕ → Bool × Buffer × Kernel
create_object b k answers new_capacity =
    let o = k.next_object in
    let size = header_size + new_capacity in
    let opened = record b { mapping_size = size; fd = some o; owns_name = true } in
    let mapped = record opened { mapping = some o; capacity = new_capacity } in
    let named = record k {
      names = put b.name o k.names;
      objects = put o (zeroed 0) k.objects;
      next_object = o + 1;
    } in
    let resized = store named o (zeroed size) in
    let ready = store resized o (record (zeroed size) {
      magic = shared_memory_magic;
      version = shared_memory_version;
      capacity = new_capacity;
      data_size = 0;
    }) in
    if not answers.resizes
    then abandon opened named answers
    else if not answers.maps
    then abandon opened resized answers
    else if not answers.syncs
    then abandon mapped ready answers
    else (true, mapped, ready)

unfoldable pub create : Buffer → Kernel → Answers → ℕ → Bool × Buffer × Kernel
create b k answers new_capacity =
    if is_open b || not (is_valid_shared_memory_name b.name) || eqb new_capacity 0
    then (false, b, k)
    else if ltb (size_max - header_size) new_capacity
    then (false, b, k)
    else if ltb off_max (header_size + new_capacity)
    then (false, record b { mapping_size = 0 }, k)
    else if not answers.opens || is_some (find b.name k.names)
    then (false, record b { mapping_size = 0 }, k)
    else create_object b k answers new_capacity

-- `open` from the answer of `shm_open` on.
unfoldable pub open_object : Buffer → Kernel → Answers → ℕ → Bool × Buffer
open_object b k answers o =
    let s = segment_at k o in
    let opened = record b { fd = some o } in
    let sized = record opened { mapping_size = s.size } in
    let mapped = record sized { mapping = some o } in
    if not answers.stats || ltb s.size header_size
    then (false, close opened)
    else if not answers.maps
    then (false, close sized)
    else if not (has_valid_header s (s.size - header_size))
    then (false, close mapped)
    else (true, record mapped { capacity = s.size - header_size })

-- `open`, whose name is a keyword here.
unfoldable pub open_shared : Buffer → Kernel → Answers → Bool × Buffer
open_shared b k answers =
    if is_open b || not (is_valid_shared_memory_name b.name)
    then (false, b)
    else elim (find b.name k.names) [
      | none ↦ (false, b)
      | some o ↦ if not answers.opens then (false, b) else open_object b k answers o
    ]

-- What is copied where `size` is 0.
abbrev pub or_nothing : Option Text → Text
or_nothing none = []
or_nothing (some xs) = xs

-- `memcpy` of the first `size` bytes, and the new length.
unfoldable pub stored : Segment → Text → ℕ → Segment
stored s source size = record s { bytes = take size source ++ drop size s.bytes; data_size = size }

-- A null pointer is `none`.
unfoldable pub write : Buffer → Kernel → Answers → Option Text → ℕ → Bool × Kernel
write b k answers source size = elim b.mapping [
  | none ↦ (false, k)
  | some o ↦
      if ltb b.capacity size || (ltb 0 size && not (is_some source))
      then (false, k)
      else (answers.syncs, store k o (stored (segment_at k o) (or_nothing source) size))
]

-- `none` where it fails and leaves `output` alone.
unfoldable pub read : Buffer → Kernel → Option Text
read b k = elim b.mapping [
  | none ↦ none
  | some o ↦
      let s = segment_at k o in
      if not (has_valid_header s b.capacity) then none else some (take s.data_size s.bytes)
]

unfoldable pub data_capacity : Buffer → ℕ
data_capacity b = if is_open b then b.capacity else 0

unfoldable pub data_size : Buffer → Kernel → ℕ
data_size b k = elim b.mapping [
  | none ↦ 0
  | some o ↦
      let s = segment_at k o in
      if not (has_valid_header s b.capacity)
      then 0
      else if leb s.data_size b.capacity
      then s.data_size
      else 0
]

-- The destructor.
unfoldable pub destroy : Buffer → Kernel → Answers → Kernel
destroy b k answers =
    if b.owns_name then (let (ok, b', k') = remove (close b) k answers in k') else k
