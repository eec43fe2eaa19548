-- ===== src/Directory.antt =====
-- TableManager of src/RecordManage/TableManager.cpp and TableManager.h: the databases, the tables of
-- the current one, and the cache of their descriptions. The file of an open pager is the pager's own
-- until it is closed.
pub mod Exec
pub mod PageZero
pub mod Create
pub mod Describe
pub mod Databases
pub mod Dropped
pub mod Cache
pub mod Repeat
pub mod Statements
pub mod Examples
use tinydbpp.Base.{
  ℕ, zero, suc, ◌+◌, Bool, true, false, not, ◌&&◌, ◌||◌, Option, none, some, List, [], ◌∷◌, ◌++◌,
  ◌==◌, if◌then◌else◌, length, take, Outcome, ok, assert_failed, undefined, ◌>>=◌,
}
use tinydbpp.Base.Bytes.{Bytes, memcpy, int_bytes}
use tinydbpp.Pager.{
  Pager, granted, out_of_memory, get_page, get_buf, release_buf, modify, write_back, write_back_all,
}
use tinydbpp.Pager.Lifetime.{open_pager, destroy_pager}
use tinydbpp.Query.{Text, same_text, dot, find_dot, create_index_name, Field}
use tinydbpp.Schema.{Described, write_scheme, parse_scheme}
use tinydbpp.Files.{
  Os, slash, is_exist, create_dir, create_file, list_files, delete_dir, delete_file,
}

-- A TableDescription in the cache: the columns that its page 0 describes, col_has_index, and
-- my_pager.
pub record Description : Type 0 where
  pub name : Text
  pub path : Text
  pub columns : List Described
  pub has_index : List Bool
  pub pager : Option Pager

pub record Manager (S : Type 0) : Type 0 where
  pub table_map : List Description
  pub base_dir : Text
  pub dbname : Text
  pub dir : Text
  pub files : S

-- "SYSTABLE"
abbrev pub sys_table_name : Text
sys_table_name = 83 ∷ 89 ∷ 83 ∷ 84 ∷ 65 ∷ 66 ∷ 76 ∷ 69 ∷ []

-- "./database"
abbrev pub default_database_dir : Text
default_database_dir = 46 ∷ 47 ∷ 100 ∷ 97 ∷ 116 ∷ 97 ∷ 98 ∷ 97 ∷ 115 ∷ 101 ∷ []

abbrev pub in_dir : Text → Text → Text
in_dir dir name = dir ++ slash ∷ name

-- The text of a buffer up to its first zero; a page without one is read past its end.
unfoldable pub c_string : ℕ → Bytes → ℕ → Outcome Text
c_string zero b i = undefined
c_string (suc n) b i = elim (b i == 0) [
  | true ↦ ok []
  | false ↦ c_string n b (i + 1) >>= λ rest. ok (b i ∷ rest)
]

-- getPage(0) and getBuf: the pager, and the bytes of the buffer.
unfoldable pub page_zero : Pager → Outcome (Pager × Bytes)
page_zero p = get_buf (get_page p 0) 0 >>= λ quota. elim quota [
  | out_of_memory ↦ assert_failed
  | granted q ↦ elim (q.page 0).buf [ none ↦ undefined | some b ↦ ok (q, b) ]
]

-- The change of page 0 by a memcpy to its start, with markDirty and releaseBuf.
unfoldable pub write_page_zero : Text → Pager → Outcome Pager
unfolding page_zero
write_page_zero text p = page_zero p >>= λ r. release_buf (modify r.0 0 (memcpy r.1 0 text)) 0

abbrev pub undescribed : Text → Text → Description
undescribed path name = record {
  name = name;
  path = path;
  columns = [];
  has_index = [];
  pager = none;
}

abbrev pub cached : Text → List Description → Option Description
cached name [] = none
cached name (d ∷ ds) = let rest = cached name ds in if same_text d.name name then some d else rest

-- find(sub) != npos
abbrev pub starts_with : Text → Text → Bool
starts_with [] t = true
starts_with (x ∷ xs) [] = false
starts_with (x ∷ xs) (y ∷ ys) = x == y && starts_with xs ys

abbrev pub contains : Text → Text → Bool
contains sub [] = starts_with sub []
contains sub (y ∷ ys) = starts_with sub (y ∷ ys) || contains sub ys

-- A table, and the indexes of the table: any name in which the table's name and a dot occur.
unfoldable pub belongs : Text → Text → Bool
belongs table name = same_text name table || contains (table ++ dot ∷ []) name

abbrev pub any_belongs : Text → List Description → Bool
any_belongs table [] = false
any_belongs table (d ∷ ds) = belongs table d.name || any_belongs table ds

module _ {S : Type 0} where
  abbrev pub has_db : Manager S → Bool
  has_db m = not (same_text m.dbname [])

  abbrev pub sys_table : Manager S → Text → Text
  sys_table m db = in_dir (in_dir m.base_dir db) sys_table_name

module _ {S : Type 0} (os : Os S) where
  -- new Pager(path, ReadWrite)
  unfoldable pub open_file : S → Text → Outcome (S × Pager)
  unfolding open_pager
  open_file s path = elim (os.open_create s path) [
    | none ↦ assert_failed
    | some t ↦ open_pager true (os.size t path) (os.pages t path) 102400 true >>= λ p. ok (t, p)
  ]

  -- delete of a Pager
  unfoldable pub close_file : S → Text → Pager → Outcome S
  unfolding destroy_pager
  close_file s path p = destroy_pager p >>= λ r. ok (os.store s path r.0 r.1)

  -- table_map.clear(), which no one else's pointer outlives.
  unfoldable pub clear_tables : S → List Description → Outcome S
  unfolding close_file
  clear_tables s [] = ok s
  clear_tables s (d ∷ ds) = elim d.pager [
    | none ↦ clear_tables s ds
    | some p ↦ close_file s d.path p >>= λ t. clear_tables t ds
  ]

  abbrev pub index_files : S → Text → Text → List Described → List Bool
  index_files s dir table [] = []
  index_files s dir table (c ∷ cs) =
      is_exist os s (in_dir dir (create_index_name table c.name)) ∷ index_files s dir table cs

  -- parse_func of getTableDescription.
  unfoldable pub read_description : S → Text → Text → Outcome (S × Description)
  unfolding open_file page_zero c_string
  read_description s dir name = do
    (t, p) ← open_file s (in_dir dir name)
    (q, buf) ← page_zero p
    text ← c_string 4096 buf 0
    columns ← parse_scheme text
    r ← release_buf q 0
    ok (
      t,
      record {
        name = name;
        path = in_dir dir name;
        columns = columns;
        has_index = index_files t dir name columns;
        pager = some r;
      },
    )

  -- A new description; a name with a dot is an index, of which nothing is read.
  unfoldable pub new_description : Manager S → Text → Outcome (S × Description)
  unfolding read_description
  new_description m name = elim (find_dot name) [
    | none ↦ read_description m.files m.dir name
    | some i ↦ ok (m.files, undescribed (in_dir m.dir name) name)
  ]

  -- TableManager::getTableDescription
  unfoldable pub get_table_description : Manager S → Text → Outcome (Manager S × Option Description)
  unfolding new_description
  get_table_description m name = elim (cached name m.table_map) [
    | some d ↦ ok (m, some d)
    | none ↦ elim (is_exist os m.files (in_dir m.dir name)) [
      | false ↦ ok (m, none)
      | true ↦ do
        (t, d) ← new_description m name
        ok (record m { table_map = m.table_map ++ d ∷ []; files = t }, some d)
    ]
  ]

  -- getPager of a description.
  abbrev pub pager_of : S → Description → Outcome (S × Pager)
  pager_of s d = elim d.pager [ some p ↦ ok (s, p) | none ↦ open_file s d.path ]

  -- TableManager::writeBackTableDescription: the pattern of a column is printed from a variable that
  -- has no value.
  unfoldable pub write_back_table_description : S → Description → Outcome (S × Description)
  unfolding page_zero open_file
  write_back_table_description s d = elim d.columns [
    | c ∷ cs ↦ undefined
    | [] ↦ do
      (t, p) ← pager_of s d
      (q, buf) ← page_zero p
      r ← write_back (modify q 0 (memcpy buf 0 (32 ∷ 32 ∷ 32 ∷ 32 ∷ 48 ∷ []))) 0
      u ← release_buf r 0
      ok (t, record d { pager = some u })
  ]

  -- TableManager::getInstance, at its first call, for the base directory that setBaseDir has set.
  unfoldable pub get_instance : S → Text → Outcome (Manager S)
  get_instance s base =
      let base_dir : Text = elim base [ [] ↦ default_database_dir | c ∷ cs ↦ c ∷ cs ] in
      do
        (t, made) ← create_dir os s base_dir
        ok (record { table_map = []; base_dir = base_dir; dbname = []; dir = []; files = t })

  -- The file SYSTABLE of a database, made where it is missing and this is asked for.
  abbrev pub sys_table_made : Manager S → Text → Bool → Outcome (Option S)
  sys_table_made m db auto_create =
      if is_exist os m.files (sys_table m db)
      then ok (some m.files)
      else (if auto_create
          then (create_file os m.files (sys_table m db) >>= λ s. ok (some s))
          else ok none)

  -- TableManager::changeDB
  unfoldable pub change_db : Manager S → Text → Bool → Outcome (Manager S × Bool)
  unfolding clear_tables
  change_db m db auto_create = elim (same_text db m.dbname) [
    | true ↦ ok (m, true)
    | false ↦ sys_table_made m db auto_create >>= λ made. elim made [
      | none ↦ ok (m, false)
      | some s ↦ clear_tables s m.table_map >>= λ t.
          ok (record m { table_map = []; dbname = db; dir = in_dir m.base_dir db; files = t }, true)
    ]
  ]

  -- TableManager::createDB
  unfoldable pub create_db : Manager S → Text → Outcome (Manager S)
  create_db m db = sys_table_made m db true >>= λ made. elim made [
    | none ↦ ok m
    | some s ↦ ok (record m { files = s })
  ]

  -- TableManager::DropDB
  unfoldable pub drop_db : Manager S → Text → Outcome (Manager S × Bool)
  unfolding clear_tables
  drop_db m db = do
    n ←
        if same_text m.dbname db
        then (clear_tables m.files m.table_map >>= λ s.
            ok (record m { table_map = []; dbname = []; files = s }))
        else ok m
    let (s, done) = delete_dir os n.files (in_dir n.base_dir db)
    ok (record n { files = s }, done)

  -- TableManager::buildTable. The callback may make other files.
  unfoldable pub build_table :
      Manager S → Text → (S → Pager → Outcome (S × Pager)) → Outcome (Manager S × Bool)
  unfolding open_file close_file
  build_table m name callback = elim (is_exist os m.files (in_dir m.dir name)) [
    | true ↦ ok (m, false)
    | false ↦ do
      (s, p) ← open_file m.files (in_dir m.dir name)
      (t, q) ← callback s p
      r ← write_back_all q
      u ← close_file t (in_dir m.dir name) r
      ok (record m { files = u }, true)
  ]

  -- The loop of dropTable over the files of the directory: whether any belongs to the table.
  unfoldable pub drop_files : S → Text → Text → List Text → S × Bool
  unfolding belongs
  drop_files s dir table [] = (s, false)
  drop_files s dir table (f ∷ fs) = elim (belongs table f) [
    | false ↦ drop_files s dir table fs
    | true ↦
        let (t, done) = delete_file os s (in_dir dir f) in ((drop_files t dir table fs).0, true)
  ]

  -- TableManager::dropTable: the iterator that the vector's `erase` leaves is used.
  unfoldable pub drop_table : Manager S → Text → Outcome (Manager S × Bool)
  unfolding drop_files
  drop_table m name = if any_belongs name m.table_map then undefined else (do
    fs ← list_files os m.files m.dir
    let (s, dropped) = drop_files m.files m.dir name fs
    ok (record m { files = s }, dropped))
