-- ===== src/Store/Migrate/Laws.antt =====
-- What `Migrate` of internal/store/store.go leaves recorded.
use mathlib.Core.List.{append_assoc, append-nil}
use mathlib.Core.Path.{subst}
use netdata_postgres_mcp.Base.{
  ◌≡◌, refl, ◌∙◌, ap, sym, ◌⊎◌, inl, inr, Bool, true, false, List, [], ◌∷◌, ◌++◌, All, Option, none,
  some, Option-cases, Bool-cases,
}
use netdata_postgres_mcp.Base.Text.{Bytes}
use netdata_postgres_mcp.Store.Migrate.Recorded.{is_recorded-left, is_recorded_last}
use netdata_postgres_mcp.Store.Migrate.{
  is_recorded, Schema, Entry, Error, is_skipped, recorded, executed, contents_read, existence,
  migrate_entry, migrate_loop, listed, created, locked, migrate,
}

module _ (schema : Schema) (read_file : Bytes → Option Bytes) where
  open schema use {Db, lock, unlock, create_table, exists, run_sql, record_version, applied}

  -- The versions recorded are those from before, with others after them.
  abbrev pub Extends : Db → Db → Type 0
  Extends db db' = (new : List Bytes) × (applied db' ≡ applied db ++ new)

  Extends-refl : (db : Db) → Extends db db
  Extends-refl db = ([], sym (append-nil (applied db)))

  Extends-trans : (a b c : Db) → Extends a b → Extends b c → Extends a c
  Extends-trans a b c (xs, e) (ys, f) = (xs ++ ys, f ∙ rw e (append_assoc (applied a) xs ys))

  Extends-is_recorded :
      (v : Bytes) (db db' : Db)
      → Extends db db'
      → is_recorded v (applied db) ≡ true
      → is_recorded v (applied db') ≡ true
  Extends-is_recorded v db db' (new, e) h = rw e (is_recorded-left v (applied db) new h)

  -- An entry that is left without an error is recorded.
  abbrev pub EntryDone : Bytes → Db → Db × Option Error → Type 0
  EntryDone v db (db', some x) = Extends db db'
  EntryDone v db (db', none) = Extends db db' × (is_recorded v (applied db') ≡ true)

  recorded-EntryDone :
      (v : Bytes) (db db' : Db) (o : Option Db)
      → record_version v db' ≡ o
      → applied db' ≡ applied db
      → EntryDone v db (recorded schema read_file v db' o)
  unfolding recorded
  recorded-EntryDone v db db' none e a = ([], a ∙ sym (append-nil (applied db)))
  recorded-EntryDone v db db' (some db'') e a =
      let r : applied db'' ≡ applied db ++ (v ∷ []) =
        schema.record_applied v db' db'' e ∙ ap (λ (xs : List Bytes). xs ++ (v ∷ [])) a in
      ((v ∷ [], r), rw r (is_recorded_last v (applied db)))

  executed-EntryDone :
      (v s : Bytes) (db : Db) (o : Option Db)
      → run_sql s db ≡ o
      → EntryDone v db (executed schema read_file v db o)
  unfolding executed
  executed-EntryDone v s db none e = Extends-refl db
  executed-EntryDone v s db (some db') e =
      recorded-EntryDone v db db' _ refl (schema.run_applied s db db' e)

  existence-EntryDone :
      (v : Bytes) (db : Db) (o : Option Bool)
      → exists v db ≡ o
      → EntryDone v db (existence schema read_file v db o)
  unfolding existence contents_read
  existence-EntryDone v db none e = Extends-refl db
  existence-EntryDone v db (some true) e =
      (Extends-refl db, sym (schema.exists_applied v db true e))
  existence-EntryDone v db (some false) e = elim (Option-cases (read_file v)) [
    | inl r ↦ rw (existence, r, contents_read) (Extends-refl db)
    | inr (s, r) ↦ rw (existence, r, contents_read) (executed-EntryDone v s db _ refl)
  ]

  -- Every file of a migration among the entries is recorded.
  abbrev pub IsMigratedIn : List Bytes → Entry → Type 0
  IsMigratedIn versions e =
      (is_skipped schema read_file e ≡ true) ⊎ (is_recorded e.name versions ≡ true)

  abbrev pub IsMigrated : Db → Entry → Type 0
  IsMigrated db = IsMigratedIn (applied db)

  abbrev pub LoopDone : List Entry → Db → Db × Option Error → Type 0
  LoopDone entries db (db', some x) = Extends db db'
  LoopDone entries db (db', none) = Extends db db' × All (IsMigrated db') entries

  abbrev pub EntryOk : Entry → Db → Db × Option Error → Type 0
  EntryOk e db (db', some x) = Extends db db'
  EntryOk e db (db', none) = Extends db db' × IsMigrated db' e

  EntryDone-EntryOk :
      (e : Entry) (db : Db) (r : Db × Option Error) → EntryDone e.name db r → EntryOk e db r
  EntryDone-EntryOk e db (db', some x) h = h
  EntryDone-EntryOk e db (db', none) h = (h.0, inr h.1)

  migrate_entry-EntryOk : (e : Entry) (db : Db) → EntryOk e db (migrate_entry schema read_file e db)
  unfolding migrate_entry
  migrate_entry-EntryOk e db = elim (Bool-cases (is_skipped schema read_file e)) [
    | inl skipped ↦ rw skipped (Extends-refl db, inl skipped)
    | inr s ↦ rw s (EntryDone-EntryOk e db _ (existence-EntryDone e.name db _ refl))
  ]

  combine :
      (e : Entry) (entries : List Entry) (db db' : Db) (r : Db × Option Error)
      → Extends db db'
      → IsMigrated db' e
      → LoopDone entries db' r
      → LoopDone (e ∷ entries) db r
  combine e entries db db' (db'', some x) g m h = Extends-trans db db' db'' g h
  combine e entries db db' (db'', none) g (inl s) h =
      (Extends-trans db db' db'' g h.0, (inl s, h.1))
  combine e entries db db' (db'', none) g (inr i) h =
      (Extends-trans db db' db'' g h.0, (inr (Extends-is_recorded e.name db' db'' h.0 i), h.1))

  EntryOk-none :
      (e : Entry) (db : Db) (r : Db × Option Error)
      → r.1 ≡ none
      → EntryOk e db r
      → Extends db r.0 × IsMigrated r.0 e
  EntryOk-none e db (db', some x) n h = absurd cc
  EntryOk-none e db (db', none) n h = h

  EntryOk-Extends : (e : Entry) (db : Db) (r : Db × Option Error) → EntryOk e db r → Extends db r.0
  EntryOk-Extends e db (db', some x) h = h
  EntryOk-Extends e db (db', none) h = h.0

  migrate_loop-LoopDone :
      (entries : List Entry) (db : Db)
      → LoopDone entries db (migrate_loop schema read_file entries db)
  unfolding migrate_loop
  migrate_loop-LoopDone [] db = (Extends-refl db, tt)
  migrate_loop-LoopDone (e ∷ entries) db =
      let ok = migrate_entry-EntryOk e db in
      elim (Option-cases (migrate_entry schema read_file e db).1) [
        | inl n ↦
            let next = EntryOk-none e db _ n ok in
            rw (migrate_loop, n)
              (combine e entries db _ _ next.0 next.1
                (migrate_loop-LoopDone entries (migrate_entry schema read_file e db).0))
        | inr (x, s) ↦ rw (migrate_loop, s) (EntryOk-Extends e db _ ok)
      ]

  module _ (read_dir : Option (List Entry)) (sort_entries : List Entry → List Entry) where
    -- A call that returns no error has recorded the entries, if they are listed.
    abbrev pub Migrated : Option (List Entry) → Db → Db × Option Error → Type 0
    Migrated dir db (db', some x) = Extends db db'
    Migrated none db (db', none) = ⊥
    Migrated (some entries) db (db', none) =
        Extends db db' × All (IsMigrated db') (sort_entries entries)

    LoopDone-Migrated :
        (entries : List Entry) (db db' : Db) (r : Db × Option Error)
        → applied db' ≡ applied db
        → LoopDone (sort_entries entries) db' r
        → Migrated (some entries) db r
    LoopDone-Migrated entries db db' (db'', some x) a (new, e) = (new, rw (← a) e)
    LoopDone-Migrated entries db db' (db'', none) a ((new, e), all) = ((new, rw (← a) e), all)

    listed-Migrated :
        (db db' : Db) (dir : Option (List Entry))
        → applied db' ≡ applied db
        → Migrated dir db (listed schema read_file read_dir sort_entries db' dir)
    unfolding listed
    listed-Migrated db db' none a = ([], a ∙ sym (append-nil (applied db)))
    listed-Migrated db db' (some entries) a =
        LoopDone-Migrated entries db db' _ a (migrate_loop-LoopDone (sort_entries entries) db')

    created-Migrated :
        (db db' : Db) (o : Option Db)
        → create_table db' ≡ o
        → applied db' ≡ applied db
        → Migrated read_dir db (created schema read_file read_dir sort_entries db' o)
    unfolding created
    created-Migrated db db' none e a = ([], a ∙ sym (append-nil (applied db)))
    created-Migrated db db' (some db'') e a =
        listed-Migrated db db'' read_dir (schema.create_applied db' db'' e ∙ a)

    unlocked-Migrated :
        (db : Db) (dir : Option (List Entry)) (r : Db × Option Error)
        → Migrated dir db r
        → Migrated dir db (unlock r.0, r.1)
    unlocked-Migrated db dir (db', some x) (new, e) = (new, schema.unlock_applied db' ∙ e)
    unlocked-Migrated db none (db', none) h = h
    unlocked-Migrated db (some entries) (db', none) ((new, e), all) = (
      (new, schema.unlock_applied db' ∙ e),
      subst (λ (vs : List Bytes). All (IsMigratedIn vs) (sort_entries entries))
          (sym (schema.unlock_applied db')) all,
    )

    locked-Migrated :
        (db : Db) (o : Option Db)
        → lock db ≡ o
        → Migrated read_dir db (locked schema read_file read_dir sort_entries db o)
    unfolding locked
    locked-Migrated db none e = Extends-refl db
    locked-Migrated db (some db') e =
        unlocked-Migrated db read_dir _
          (created-Migrated db db' _ refl (schema.lock_applied db db' e))

    -- `Migrate` never removes a version from those recorded, and if it returns no error, the directory was
    -- listed and each of its entries is recorded, but for directories and files that are no SQL.
    pub migrate-Migrated :
        (db : Db) → Migrated read_dir db (migrate schema read_file read_dir sort_entries db)
    unfolding migrate
    migrate-Migrated db = locked-Migrated db _ refl
