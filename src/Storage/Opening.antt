-- ===== src/Storage/Opening.antt =====
-- src/storage_service.cpp: the connection that `open` makes and `close` ends.
use edge_link.Prelude.{
  ℕ, ◌+◌, ◌-◌, ◌≡◌, refl, ◌∙◌, inl, inr, true, false, not, ◌&&◌, List, [], ◌∷◌, arith,
  if◌then◌else◌, Bool-cases, Text,
}
use edge_link.Prelude.Decimal.{c_str}
use edge_link.Prelude.Keys.{text_eq, nat_eq}
use edge_link.Storage.{
  Sqlite, Service, Directories, schema, execute_sql, execute_all, initialize_database,
  open_database, close_database,
}

module _ (lib : Sqlite) where
  open lib use {World}

  -- The number of open connections, as SQLite keeps it: `sqlite3_open_v2` may make a handle even
  -- where it fails, and makes one where it succeeds.
  pub record HandleLaws : Type 0 where
    pub handles : World → ℕ
    pub handles-open_v2 :
        (path : Text) (w : World)
        → let (opened, handle, after) = lib.open_v2 path w in
          (opened ≡ true → handle ≡ true) × (handles after ≡ handles w + (if handle then 1 else 0))
    pub handles-close_v2 : (w : World) → handles (lib.close_v2 w) ≡ handles w - 1
    pub handles-busy_timeout : (ms : ℕ) (w : World) → handles (lib.busy_timeout ms w) ≡ handles w
    pub handles-exec : (sql : Text) (w : World) → handles (lib.exec sql w).1 ≡ handles w

  module _ (h : HandleLaws) where
    open h use {handles}

    handles-execute_all :
        (sqls : List Text) (w : World) → handles (execute_all lib sqls w).1 ≡ handles w
    unfolding execute_all execute_sql
    handles-execute_all [] w = refl
    handles-execute_all (sql ∷ sqls) w =
        let one = h.handles-exec sql w in
        let rest = handles-execute_all sqls (lib.exec sql w).1 in
        elim (Bool-cases (lib.exec sql w).0) [ inl e ↦ rw e (rest ∙ one) | inr e ↦ rw e one ]

    -- With the documented count of connections: `open` succeeds exactly if the service has a
    -- connection afterwards. It opens one connection where it succeeds on a closed service, and none
    -- is left behind by any of its failures; on an open service it succeeds and does nothing.
    pub open_database_lem :
        (d : Directories) (s : Service) (w : World)
        → let (ok, s', w') = open_database lib d s w in
          (s'.database ≡ ok)
          × (s'.database_path ≡ s.database_path)
          × (handles w' ≡ handles w + (if ok && not s.database then 1 else 0))
          × (s.database ≡ true → (ok ≡ true) × (s' ≡ s) × (w' ≡ w))
    unfolding open_database initialize_database
    open_database_lem d s w =
        let (opened, handle, after_open) = lib.open_v2 (c_str s.database_path) w in
        let ready = lib.busy_timeout 3000 after_open in
        let (ok, after) = execute_all lib schema ready in
        let (made, counted) = h.handles-open_v2 (c_str s.database_path) w in
        let waited = h.handles-busy_timeout 3000 after_open in
        let initialized = handles-execute_all schema ready in
        ground (
          arith,
          made,
          counted,
          waited,
          initialized,
          h.handles-close_v2 after_open,
          h.handles-close_v2 after,
        )

    -- `close` ends the connection of an open service, and does nothing to a closed one.
    pub close_database_lem :
        (s : Service) (w : World)
        → let (s', w') = close_database lib s w in
          (s'.database ≡ false) × (handles w' ≡ handles w - (if s.database then 1 else 0))
    unfolding close_database
    close_database_lem s w = ground (arith, h.handles-close_v2 w)
