-- ===== src/Directory/Databases.antt =====
-- CREATE DATABASE, USE and DROP DATABASE.
use tinydbpp.Base.{
  ℕ, ◌<◌, ◌≡◌, refl, ◌∙◌, Bool, true, false, Option, none, some, List, [], ◌∷◌, ◌++◌, subst, arith,
  length, ◌==◌, if◌then◌else◌, Bool-cases, inl, inr, ok, undefined, ◌>>=◌, elim_some,
}
use tinydbpp.Pager.{Pager, has, is_zero}
use tinydbpp.Pager.Lifetime.{clean_destroyed, destroy_pager-undefined}
use tinydbpp.Query.{Text, same_text, Field}
use tinydbpp.Query.Names.{same_text_refl}
use tinydbpp.Files.{Os, slash, last_char, create_file, delete_dir}
use tinydbpp.Files.Path.{MakesDirs, NoFile, CreatesFiles, create_file-readable}
use tinydbpp.Directory.{
  Description, Manager, in_dir, sys_table_name, sys_table, close_file, clear_tables, has_db,
  sys_table_made, change_db, create_db, drop_db,
}
use tinydbpp.Directory.Exec.{
  succeed, no_database, no_such_database, create_db_of, use_db_of, drop_db_of, show_tables,
  create_table_of, describe_table_of, exec,
}

-- No page of the pager is in use or has changes.
pub record IsClean (p : Pager) : Type 0 where
  pub dirty : (k : ℕ) → has k p.keys ≡ true → (p.page k).dirty ≡ false
  pub users : (k : ℕ) → has k p.keys ≡ true → is_zero (p.page k).ref_count ≡ true

abbrev pub PagerIsClean : Option Pager → Type 0
PagerIsClean none = Unit {0}
PagerIsClean (some p) = IsClean p

abbrev pub AllClean : List Description → Type 0
AllClean [] = Unit {0}
AllClean (d ∷ ds) = PagerIsClean d.pager × AllClean ds

module _ {S : Type 0} (os : Os S) where
  close_file-IsClean :
      (s : S) (path : Text) (p : Pager)
      → IsClean p
      → close_file os s path p ≡ ok (os.store s path p.file_size p.file)
  unfolding close_file
  close_file-IsClean s path p c = rw (clean_destroyed p c.dirty c.users) refl

  closed_first :
      (s : S) (d : Description) (ds : List Description) (o : Option Pager)
      → PagerIsClean o
      → (t : S) × ((elim o [
        | none ↦ clear_tables os s ds
        | some p ↦ close_file os s d.path p >>= λ t. clear_tables os t ds
      ])
          ≡ clear_tables os t ds)
  closed_first s d ds none c = (s, refl)
  closed_first s d ds (some p) c =
      (os.store s d.path p.file_size p.file, rw (close_file-IsClean s d.path p c) refl)

  -- The cache can be cleared.
  clear_tables-ok :
      (s : S) (ds : List Description) → AllClean ds → (t : S) × (clear_tables os s ds ≡ ok t)
  unfolding clear_tables
  clear_tables-ok s [] c = (s, refl)
  clear_tables-ok s (d ∷ ds) c =
      let (t, first) = closed_first s d ds d.pager c.0 in
      let (u, later) = clear_tables-ok t ds c.1 in (u, first ∙ later)

  -- The cache has a table with changes that are not in its file.
  dirty_first :
      (s : S) (d : Description) (ds : List Description) (p : Pager) (k : ℕ)
      → d.pager ≡ some p
      → has k p.keys ≡ true
      → (p.page k).dirty ≡ true
      → clear_tables os s (d ∷ ds) ≡ undefined
  unfolding clear_tables close_file
  dirty_first s d ds p k e h dirty =
      elim_some (λ q. close_file os s d.path q >>= λ t. clear_tables os t ds) (clear_tables os s ds)
        d.pager p e
      ∙ rw (destroy_pager-undefined p k h dirty) refl

  -- The file SYSTABLE is there, or can be made.
  sys_table_made-ok :
      (m : Manager S) (c : ℕ) (cs db : Text)
      → (makes : MakesDirs os) → CreatesFiles os makes
      → m.base_dir ≡ c ∷ cs
      → length (in_dir (c ∷ cs) db) < 255
      → (last_char c (in_dir cs db) == slash) ≡ false
      → NoFile os makes m.files (c ∷ []) (in_dir cs db ++ slash ∷ [])
      → os.accessible m.files (sys_table m db) ≡ os.readable m.files (sys_table m db)
      → (t : S) × (sys_table_made os m db true ≡ ok (some t))
        × (os.readable t (sys_table m db) ≡ true)
  sys_table_made-ok m c cs db makes creates base short plain free seen =
      elim (Bool-cases (os.readable m.files (sys_table m db))) [
        | inl there ↦ (m.files, rw there refl, there)
        | inr missing ↦
            let name : sys_table m db ≡ in_dir (in_dir (c ∷ cs) db) sys_table_name = rw base refl in
            let gone : os.accessible m.files (in_dir (in_dir (c ∷ cs) db) sys_table_name) ≡ false =
              subst (λ x. os.accessible m.files x ≡ false) name (seen ∙ missing) in
            let (t, runs, readable) =
              create_file-readable os m.files c (in_dir cs db) sys_table_name makes creates short
                plain refl (omega arith) free gone in
            let creates' : create_file os m.files (sys_table m db) ≡ ok t = rw name runs in
            (t, rw (missing, creates') refl, rw name readable)
      ]

  module _ (node_size : ℕ) where
    -- USE of another database that is there uses a deleted PagerPerfMon where the first cached table
    -- has a page with changes.
    pub use_db-undefined :
        (m : Manager S) (db : Text) (d : Description) (ds : List Description) (p : Pager) (k : ℕ)
        → same_text db m.dbname ≡ false
        → os.readable m.files (sys_table m db) ≡ true
        → m.table_map ≡ d ∷ ds
        → d.pager ≡ some p
        → has k p.keys ≡ true
        → (p.page k).dirty ≡ true
        → exec os node_size m (use_db_of db) ≡ undefined
    unfolding exec change_db
    use_db-undefined m db d ds p k other there opened pager h dirty =
        rw (exec, change_db, other, there, opened, dirty_first m.files d ds p k pager h dirty) refl

    -- Where mkdir makes what is missing in a directory, a missing file can be made in a directory, no
    -- part of the path of the database is a file, its SYSTABLE can be read if it is there, the path of
    -- the database has at most 254 characters and does not end in a '/', its name is neither empty nor
    -- that of the current database, and no cached table has pages in use or with changes, CREATE
    -- DATABASE succeeds, and USE after it succeeds: the database is the current one, with its
    -- directory, and no table is cached.
    pub create_db-use_db :
        (m : Manager S) (c : ℕ) (cs db : Text)
        → (makes : MakesDirs os) → CreatesFiles os makes
        → m.base_dir ≡ c ∷ cs
        → length (in_dir (c ∷ cs) db) < 255
        → (last_char c (in_dir cs db) == slash) ≡ false
        → NoFile os makes m.files (c ∷ []) (in_dir cs db ++ slash ∷ [])
        → os.accessible m.files (sys_table m db) ≡ os.readable m.files (sys_table m db)
        → same_text db m.dbname ≡ false
        → same_text db [] ≡ false
        → AllClean m.table_map
        → (n k : Manager S) × (exec os node_size m (create_db_of db) ≡ ok (n, succeed))
          × (exec os node_size n (use_db_of db) ≡ ok (k, succeed))
          × (k.dbname ≡ db)
          × (k.dir ≡ in_dir m.base_dir db)
          × (k.table_map ≡ [])
          × (has_db k ≡ true)
    unfolding exec create_db change_db
    create_db-use_db m c cs db makes creates base short plain free seen other named clean =
        let (t, made, there) =
          sys_table_made-ok m c cs db makes creates base short plain free seen in
        let (u, clears) = clear_tables-ok t m.table_map clean in
        let n = record m { files = t } in
        (
          n,
          record n { table_map = []; dbname = db; dir = in_dir m.base_dir db; files = u },
          rw (exec, create_db, made) refl,
          rw (exec, change_db, other, there, clears) refl,
          refl,
          refl,
          refl,
          rw named refl,
        )

    -- Where a removed directory is gone and no cached table has pages in use or with changes, DROP
    -- DATABASE of the current database returns: its directory is not there, no table is cached, and
    -- SHOW TABLES, CREATE TABLE and DESCRIBE answer that no database was specified.
    pub drop_db-no_database :
        (m : Manager S) (table : Text) (fs : List Field)
        → ((s : S) (p : Text) → os.exists (os.remove_all s p) p ≡ false)
        → AllClean m.table_map
        → (n : Manager S) × (b : Bool) × (exec os node_size m (drop_db_of m.dbname)
            ≡ ok (n, if b then succeed else no_such_database))
          × (os.exists n.files (in_dir m.base_dir m.dbname) ≡ false)
          × (n.table_map ≡ [])
          × (exec os node_size n show_tables ≡ ok (n, no_database))
          × (exec os node_size n (create_table_of table fs) ≡ ok (n, no_database))
          × (exec os node_size n (describe_table_of table) ≡ ok (n, no_database))
    unfolding exec drop_db
    drop_db-no_database m table fs removed clean =
        let (t, clears) = clear_tables-ok m.files m.table_map clean in
        let path = in_dir m.base_dir m.dbname in
        let left = delete_dir os t path in
        (
          record m { table_map = []; dbname = []; files = left.0 },
          left.1,
          rw (exec, drop_db, same_text_refl m.dbname, clears) refl,
          elim (Bool-cases (os.exists t path)) [
            | inl there ↦ rw there (removed t path)
            | inr missing ↦ rw missing missing
          ],
          refl,
          refl,
          refl,
          refl,
        )
