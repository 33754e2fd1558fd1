-- ===== src/Storage.antt =====
-- src/storage_service.cpp: opening and closing the database. SQLite, with the file system below it, is
-- a parameter: a value `Sqlite` of its calls, each a function of a world that holds the disk, the
-- connections and whatever decides an outcome. The one connection of the service is `database`.
pub mod Values
pub mod RoundTrip
pub mod Messages
pub mod Outbox
pub mod Tables
pub mod Plain
pub mod Stored
pub mod Opening
pub mod Contract
pub mod Refinement
use edge_link.Prelude.{
  ℕ, zero, suc, ◌%◌, ◌^◌, Bool, true, false, not, ◌&&◌, List, [], ◌∷◌, ◌++◌, if◌then◌else◌, Text,
  codes, is_empty,
}
use edge_link.EventLoop.{failed}
use edge_link.Prelude.Decimal.{c_str}
use edge_link.Prelude.Keys.{text_eq, nat_eq}

-- A bound or a stored value; an integer is the bit pattern of its 64 bits.
pub data SqlValue : Type 0 where
  integer : ℕ → SqlValue
  text : Text → SqlValue
  null : SqlValue

-- `sqlite3_step` of a statement without rows tells `SQLITE_DONE` from an error, and of a query gives
-- the rows until an end or an error.
pub record Sqlite : Type 1 where
  pub World : Type 0
  pub open_v2 : Text → World → Bool × Bool × World
  pub close_v2 : World → World
  pub busy_timeout : ℕ → World → World
  pub exec : Text → World → Bool × World
  pub prepare : Text → World → Bool × World
  pub execute : Text → List SqlValue → World → Bool × World
  pub changes : World → ℕ
  pub query : Text → List SqlValue → World → List (List SqlValue) × Bool × World
  pub text_to_integer : Text → ℕ
  pub integer_to_text : ℕ → Text

pub record Service : Type 0 where
  pub database_path : Text
  pub database : Bool

-- What the file system answers while the database is opened: the parent of the path, whether it is a
-- directory, at first and at the end, and the errors of the first question and of the creation.
pub record Directories : Type 0 where
  pub parent_path : Text
  pub is_directory : Bool
  pub directory_error : Bool
  pub create_error : Bool
  pub is_directory_after : Bool

unfoldable pub new : Text → Service
new path = record { database_path = path; database = false }

unfoldable pub is_open : Service → Bool
is_open s = s.database

-- Whether the directory of the database is there at the end.
unfoldable pub prepare_directory : Directories → Bool
prepare_directory d =
    if is_empty d.parent_path
    then true
    else let makes_it = not d.directory_error && not d.is_directory in
      let failed = if makes_it then d.create_error else d.directory_error in
      not failed && d.is_directory_after

-- Adjacent literals are one.
abbrev pub joined : List Text → Text
joined [] = []
joined (t ∷ ts) = t ++ joined ts

-- The statements of `initializeDatabaseLocked`, in order.
abbrev pub schema : List Text
schema =
    codes "PRAGMA journal_mode=WAL;"
    ∷ codes "PRAGMA synchronous=NORMAL;"
    ∷ joined (
        codes "CREATE TABLE IF NOT EXISTS tag_messages("
        ∷ codes "id INTEGER PRIMARY KEY AUTOINCREMENT,"
        ∷ codes "topic TEXT NOT NULL,"
        ∷ codes "device_id TEXT NOT NULL,"
        ∷ codes "tag_name TEXT NOT NULL,"
        ∷ codes "value_type INTEGER NOT NULL,"
        ∷ codes "value_text TEXT NOT NULL,"
        ∷ codes "quality INTEGER NOT NULL,"
        ∷ codes "timestamp_ms INTEGER NOT NULL"
        ∷ codes ");"
        ∷ [])
    ∷ joined (
        codes "CREATE INDEX IF NOT EXISTS idx_tag_messages_timestamp "
        ∷ codes "ON tag_messages(timestamp_ms);"
        ∷ [])
    ∷ joined (
        codes "CREATE TABLE IF NOT EXISTS mqtt_outbox("
        ∷ codes "id INTEGER PRIMARY KEY AUTOINCREMENT,"
        ∷ codes "topic TEXT NOT NULL,"
        ∷ codes "payload TEXT NOT NULL,"
        ∷ codes "retain INTEGER NOT NULL DEFAULT 0 CHECK(retain IN (0, 1)),"
        ∷ codes "created_at_ms INTEGER NOT NULL"
        ∷ codes ");"
        ∷ [])
    ∷ []

-- A column of a row; a missing one reads as NULL.
unfoldable pub column : List SqlValue → ℕ → SqlValue
column [] n = SqlValue.null
column (v ∷ vs) zero = v
column (v ∷ vs) (suc n) = column vs n

module _ (lib : Sqlite) where
  open lib use {World}

  -- `executeSqlLocked`
  unfoldable pub execute_sql : Text → World → Bool × World
  execute_sql sql w = lib.exec sql w

  -- `&&` of calls: the rest runs only after a success.
  unfoldable pub execute_all : List Text → World → Bool × World
  unfolding execute_sql
  execute_all [] w = (true, w)
  execute_all (sql ∷ sqls) w =
      let (good_so_far, after) = execute_sql sql w in
      let rest = execute_all sqls after in if good_so_far then rest else (false, after)

  unfoldable pub initialize_database : World → Bool × World
  initialize_database w = execute_all schema w

  unfoldable pub open_database : Directories → Service → World → Bool × Service × World
  open_database d s w =
      if s.database
      then (true, s, w)
      else if is_empty s.database_path
      then (false, s, w)
      else if not (prepare_directory d)
      then (false, s, w)
      else let (opened, handle, after_open) = lib.open_v2 (c_str s.database_path) w in
        if not opened
        then (
          false,
          record s { database = false },
          if handle then lib.close_v2 after_open else after_open,
        )
        else let (initialized, after) = initialize_database (lib.busy_timeout 3000 after_open) in
          if initialized
          then (true, record s { database = true }, after)
          else (false, record s { database = false }, lib.close_v2 after)

  unfoldable pub close_database : Service → World → Service × World
  close_database s w =
      if s.database then (record s { database = false }, lib.close_v2 w) else (s, w)

  unfoldable pub column_int64 : List SqlValue → ℕ → ℕ
  column_int64 row n = elim (column row n) [
    | SqlValue.integer v ↦ v
    | SqlValue.text t ↦ lib.text_to_integer t
    | SqlValue.null ↦ 0
  ]

  -- `sqlite3_column_int`: the low 32 bits.
  unfoldable pub column_int : List SqlValue → ℕ → ℕ
  column_int row n = column_int64 row n % 2 ^ 32

  unfoldable pub read_text_column : List SqlValue → ℕ → Text
  read_text_column row n = elim (column row n) [
    | SqlValue.integer v ↦ lib.integer_to_text v
    | SqlValue.text t ↦ c_str t
    | SqlValue.null ↦ []
  ]
