-- ===== src/Store/Migrate.antt =====
-- internal/store/store.go: `Migrate`. The embedded files and the order of sort.Slice are arguments.
pub mod Recorded
pub mod Laws
use netdata_postgres_mcp.Base.{
  ◌≡◌, Bool, true, false, not, ◌||◌, List, [], ◌∷◌, ◌++◌, Option, none, some, if◌then◌else◌,
}
use netdata_postgres_mcp.Base.Text.{Bytes, str, eq_str, has_suffix}

-- version is one of the rows of schema_migrations.
unfoldable pub is_recorded : Bytes → List Bytes → Bool
is_recorded version [] = false
is_recorded version (v ∷ vs) = eq_str v version || is_recorded version vs

-- The statements that `Migrate` runs; `none` is an error, which leaves the database as it is. A
-- migration does not write the table of the migrations; the lock is a session's, not a table's.
pub record Schema : Type 1 where
  pub Db : Type 0
  pub lock : Db → Option Db
  pub unlock : Db → Db
  pub create_table : Db → Option Db
  pub exists : Bytes → Db → Option Bool
  pub run_sql : Bytes → Db → Option Db
  pub record_version : Bytes → Db → Option Db
  pub applied : Db → List Bytes
  pub lock_applied : (d d' : Db) → lock d ≡ some d' → applied d' ≡ applied d
  pub unlock_applied : (d : Db) → applied (unlock d) ≡ applied d
  pub create_applied : (d d' : Db) → create_table d ≡ some d' → applied d' ≡ applied d
  pub exists_applied :
      (v : Bytes) (d : Db) (b : Bool) → exists v d ≡ some b → b ≡ is_recorded v (applied d)
  pub run_applied : (s : Bytes) (d d' : Db) → run_sql s d ≡ some d' → applied d' ≡ applied d
  pub record_applied :
      (v : Bytes) (d d' : Db) → record_version v d ≡ some d' → applied d' ≡ applied d ++ (v ∷ [])

pub record Entry : Type 0 where
  pub name : Bytes
  pub is_dir : Bool

pub data Error : Type 0 where
  locking_failed creating_failed listing_failed : Error
  checking_failed reading_failed applying_failed recording_failed : Bytes → Error

module _ (schema : Schema) (read_file : Bytes → Option Bytes) where
  open schema use {Db, lock, unlock, create_table, exists, run_sql, record_version}

  unfoldable pub is_skipped : Entry → Bool
  is_skipped e = e.is_dir || not (has_suffix e.name (str ".sql"))

  -- What follows each call for an entry; the database, and the error that `Migrate` returns.
  recorded : Bytes → Db → Option Db → Db × Option Error
  recorded version db none = (db, some (recording_failed version))
  recorded version db (some db') = (db', none)

  executed : Bytes → Db → Option Db → Db × Option Error
  unfolding recorded
  executed version db none = (db, some (applying_failed version))
  executed version db (some db') = recorded version db' (record_version version db')

  contents_read : Bytes → Db → Option Bytes → Db × Option Error
  unfolding executed
  contents_read version db none = (db, some (reading_failed version))
  contents_read version db (some contents) = executed version db (run_sql contents db)

  existence : Bytes → Db → Option Bool → Db × Option Error
  unfolding contents_read
  existence version db none = (db, some (checking_failed version))
  existence version db (some true) = (db, none)
  existence version db (some false) = contents_read version db (read_file version)

  unfoldable pub migrate_entry : Entry → Db → Db × Option Error
  unfolding is_skipped existence
  migrate_entry e db = if is_skipped e then (db, none) else existence e.name db (exists e.name db)

  unfoldable pub migrate_loop : List Entry → Db → Db × Option Error
  unfolding migrate_entry
  migrate_loop [] db = (db, none)
  migrate_loop (e ∷ entries) db =
      let (db', error) = migrate_entry e db in
      let rest = migrate_loop entries db' in elim error [ some x ↦ (db', some x) | none ↦ rest ]

  -- The entries of the directory, `none` for an error, and their order by name.
  module _ (read_dir : Option (List Entry)) (sort_entries : List Entry → List Entry) where
    listed : Db → Option (List Entry) → Db × Option Error
    unfolding migrate_loop
    listed db none = (db, some listing_failed)
    listed db (some entries) = migrate_loop (sort_entries entries) db

    created : Db → Option Db → Db × Option Error
    unfolding listed
    created db none = (db, some creating_failed)
    created db (some db') = listed db' read_dir

    -- The deferred unlock runs once the lock is taken.
    locked : Db → Option Db → Db × Option Error
    unfolding created
    locked db none = (db, some locking_failed)
    locked db (some db') = let r = created db' (create_table db') in (unlock r.0, r.1)

    unfoldable pub migrate : Db → Db × Option Error
    unfolding locked
    migrate db = locked db (lock db)
