-- ===== src/Directory/Examples.antt =====
-- A database "d" on a small disk, in which a table is made, and dropped.
use tinydbpp.Base.{
  ◌≡◌, refl, [], ◌∷◌, true, false, some, arith, ok, Outcome, undefined, List, Bool, if◌then◌else◌,
}
use tinydbpp.Query.{Text, check_primary_key}
use tinydbpp.Query.Names.{same_text_refl}
use tinydbpp.Schema.{columns_of, scheme}
use tinydbpp.Schema.RoundTrip.{described as described_columns}
use tinydbpp.Schema.Examples.{fields, fields-AllFit}
use tinydbpp.Files.Disk.{Disk, disk, empty_disk, disk_dirs, disk-CreatesFiles, disk-removed}
use tinydbpp.Files.{list_files, make_dirs, create_dir, create_parent, create_file}
use tinydbpp.Pager.Client.Examples.{changed_pager, changed_pager-has}
use tinydbpp.Directory.{
  Manager, Description, undescribed, in_dir, sys_table, has_db, get_instance, clear_tables,
  create_db, change_db, new_description, get_table_description,
}
use tinydbpp.Directory.Statements.{IsCache, session, session-IsCache}
use tinydbpp.Directory.Exec.{
  SysStatement, succeed, described, no_database, no_such_database, show_tables, create_db_of,
  use_db_of, drop_db_of, create_table_of, drop_table_of, describe_table_of, exec,
}
use tinydbpp.Directory.Create.{KeepsFiles}
use tinydbpp.Directory.Describe.{create_table-describe_table}
use tinydbpp.Directory.Repeat.{describe_table-again, describe_table-drop_table}
use tinydbpp.Directory.Databases.{use_db-undefined, create_db-use_db, drop_db-no_database}

-- "d"
abbrev db : Text
db = 100 ∷ []

disk-KeepsFiles : (dir : Text) → KeepsFiles disk dir
disk-KeepsFiles dir = record {
  opened = λ s name.
      (_, refl, λ h. rw (h, same_text_refl (in_dir dir name)) refl, λ h. rw h refl, λ h. rw h refl);
  stored = λ s path size file.
      (rw (same_text_refl path) refl, rw (same_text_refl path) refl, rw (same_text_refl path) refl);
}

abbrev manager : Manager Disk
manager = record { table_map = []; base_dir = 46 ∷ []; dbname = db; dir = db; files = empty_disk }

abbrev made :
    (n k : Manager Disk) × (d : Description) × (exec disk 808 manager
        (create_table_of (98 ∷ []) fields)
      ≡ ok (n, succeed))
    × (exec disk 808 n (describe_table_of (98 ∷ [])) ≡ ok (k, described d))
    × (d.columns ≡ described_columns (columns_of (check_primary_key fields)))
unfolding check_primary_key scheme
made =
    create_table-describe_table disk 808 manager (98 ∷ []) fields (disk-KeepsFiles db) refl refl
      refl refl fields-AllFit (omega arith) (omega arith) refl

create_table-describe_table_example :
    (n k : Manager Disk) × (d : Description) × (exec disk 808 manager
        (create_table_of (98 ∷ []) fields)
      ≡ ok (n, succeed))
    × (exec disk 808 n (describe_table_of (98 ∷ [])) ≡ ok (k, described d))
    × (d.columns ≡ described_columns (columns_of (check_primary_key fields)))
unfolding check_primary_key scheme
create_table-describe_table_example =
    create_table-describe_table disk 808 manager (98 ∷ []) fields (disk-KeepsFiles db) refl refl
      refl refl fields-AllFit (omega arith) (omega arith) refl

describe_table-again_example :
    exec disk 808 made.1 (describe_table_of (98 ∷ [])) ≡ ok (made.1, described made.2)
describe_table-again_example =
    describe_table-again disk 808 made.0 made.1 (98 ∷ []) (described made.2) made.4

describe_table-drop_table_example : exec disk 808 made.1 (drop_table_of (98 ∷ [])) ≡ undefined
describe_table-drop_table_example =
    describe_table-drop_table disk 808 made.0 made.1 (98 ∷ []) made.2 made.4

-- The database "e" is there, and the table of the manager has changes that are not in its file.
abbrev changed_table : Description
changed_table = record (undescribed (in_dir db (98 ∷ [])) (98 ∷ [])) { pager = some changed_pager }

abbrev busy_manager : Manager Disk
busy_manager = record manager {
  table_map = changed_table ∷ [];
  files = record empty_disk { names = sys_table manager (101 ∷ []) ∷ [] };
}

use_db-undefined_example : exec disk 808 busy_manager (use_db_of (101 ∷ [])) ≡ undefined
use_db-undefined_example =
    use_db-undefined disk 808 busy_manager (101 ∷ []) changed_table [] changed_pager 3 refl refl
      refl refl changed_pager-has refl

create_db-use_db_example :
    (n k : Manager Disk) × (exec disk 808 manager (create_db_of (101 ∷ [])) ≡ ok (n, succeed))
    × (exec disk 808 n (use_db_of (101 ∷ [])) ≡ ok (k, succeed))
    × (k.dbname ≡ 101 ∷ [])
    × (k.dir ≡ in_dir manager.base_dir (101 ∷ []))
    × (k.table_map ≡ [])
    × (has_db k ≡ true)
unfolding disk_dirs
create_db-use_db_example =
    create_db-use_db disk 808 manager 46 [] (101 ∷ []) disk_dirs disk-CreatesFiles refl
      (omega arith) refl (λ m p e h. h) refl refl refl tt

drop_db-no_database_example :
    (n : Manager Disk) × (b : Bool) × (exec disk 808 manager (drop_db_of db)
      ≡ ok (n, if b then succeed else no_such_database))
    × (disk.exists n.files (in_dir manager.base_dir db) ≡ false)
    × (n.table_map ≡ [])
    × (exec disk 808 n show_tables ≡ ok (n, no_database))
    × (exec disk 808 n (create_table_of (98 ∷ []) fields) ≡ ok (n, no_database))
    × (exec disk 808 n (describe_table_of (98 ∷ [])) ≡ ok (n, no_database))
drop_db-no_database_example = drop_db-no_database disk 808 manager (98 ∷ []) fields disk-removed tt

-- The files "b", "b.n", "c" and "bb.n" in the directory of the database.
abbrev four_files : Manager Disk
four_files = record manager {
  files = record empty_disk {
    names =
        in_dir db (98 ∷ [])
        ∷ in_dir db (98 ∷ 46 ∷ 110 ∷ [])
        ∷ in_dir db (99 ∷ [])
        ∷ in_dir db (98 ∷ 98 ∷ 46 ∷ 110 ∷ [])
        ∷ [];
  };
}

abbrev listing : List Text
listing = (98 ∷ []) ∷ (98 ∷ 46 ∷ 110 ∷ []) ∷ (99 ∷ []) ∷ (98 ∷ 98 ∷ 46 ∷ 110 ∷ []) ∷ []

-- A session on a disk that has the file "./e/b.n": the table of that index is cached in the end.
abbrev index_disk : Disk
index_disk = record empty_disk { names = (46 ∷ 47 ∷ 101 ∷ 47 ∷ 98 ∷ 46 ∷ 110 ∷ []) ∷ [] }

abbrev statements : List SysStatement
statements =
    create_db_of (101 ∷ [])
    ∷ use_db_of (101 ∷ [])
    ∷ describe_table_of (98 ∷ 46 ∷ 110 ∷ [])
    ∷ show_tables
    ∷ []

abbrev value : Outcome (Manager Disk) → Manager Disk
value (ok m) = m
value m = manager

abbrev started : Manager Disk
unfolding get_instance create_dir make_dirs
started = value (get_instance disk index_disk (46 ∷ []))

started-ok : get_instance disk index_disk (46 ∷ []) ≡ ok started
unfolding get_instance create_dir make_dirs
started-ok = refl

abbrev ended : Manager Disk
ended = value (session disk 808 started statements)

ended-ok : session disk 808 started statements ≡ ok ended
unfolding session exec create_db change_db clear_tables create_file create_parent create_dir
    make_dirs get_table_description new_description list_files get_instance
ended-ok = refl

session-IsCache_example : IsCache ended
session-IsCache_example =
    session-IsCache disk 808 index_disk (46 ∷ []) started ended statements started-ok ended-ok
