-- ===== src/Directory/Exec.antt =====
-- The statements on databases and on whole tables in Statement::exec of src/Parser/AST/Nodes.cpp, and
-- setupBTree of src/BTree/BTree.h. The size of a node's format is a parameter.
use tinydbpp.Base.{
  ℕ, Bool, true, false, not, ◌&&◌, none, some, List, [], ◌∷◌, ◌++◌, if◌then◌else◌, Outcome, ok,
  ◌>>=◌,
}
use tinydbpp.Base.Bytes.{memcpy}
use tinydbpp.BTree.Root.{new_header}
use tinydbpp.Pager.{Pager, release_buf, modify}
use tinydbpp.Query.{Text, same_text, find_dot, Field}
use tinydbpp.Schema.{write_scheme}
use tinydbpp.Files.{Os, list_files}
use tinydbpp.Directory.{
  Description, Manager, sys_table_name, page_zero, write_page_zero, has_db, build_table, change_db,
  create_db, drop_db, drop_table, get_table_description,
}

-- The statements on databases and whole tables.
pub data SysStatement : Type 0 where
  show_dbs show_tables : SysStatement
  create_db_of drop_db_of use_db_of drop_table_of describe_table_of : Text → SysStatement
  create_table_of : Text → List Field → SysStatement

-- "Succeed.", "No such Database.", "No Database was specified.", "Create table failed.", "There's no
-- this table.", a list of names, a table's description, and the null value.
pub data Result : Type 0 where
  succeed no_such_database no_database create_failed no_such_table no_result : Result
  names : List Text → Result
  described : Description → Result

abbrev pub table_names : List Text → List Text
table_names [] = []
table_names (f ∷ fs) =
    let rest = table_names fs in
    let plain : Bool = elim (find_dot f) [ none ↦ true | some i ↦ false ] in
    if plain && not (same_text f sys_table_name) then f ∷ rest else rest

module _ {S : Type 0} (os : Os S) (node_size : ℕ) where
  -- setupBTree: a tree without a root.
  unfoldable pub set_up_b_tree : Manager S → Text → Outcome (Manager S)
  unfolding build_table write_page_zero
  set_up_b_tree m index =
      build_table os m index (λ s p. write_page_zero (new_header node_size) p >>= λ q. ok (s, q))
      >>= λ r. ok r.0

  unfoldable pub set_up_b_trees : Manager S → List Text → Outcome (Manager S)
  unfolding set_up_b_tree
  set_up_b_trees m [] = ok m
  set_up_b_trees m (i ∷ is) = set_up_b_tree m i >>= λ n. set_up_b_trees n is

  -- The callback of CREATE TABLE: it makes the indexes of the keys, and writes the description.
  unfoldable pub write_scheme_page : Manager S → Text → List Field → S → Pager → Outcome (S × Pager)
  unfolding write_scheme set_up_b_trees page_zero
  write_scheme_page m table fields s p = do
    (q, buf) ← page_zero p
    (text, indexes) ← write_scheme table fields
    n ← set_up_b_trees (record m { files = s }) indexes
    r ← release_buf (modify q 0 (memcpy buf 0 (text ++ 0 ∷ []))) 0
    ok (n.files, r)

  unfoldable pub create_table : Manager S → Text → List Field → Outcome (Manager S × Result)
  unfolding write_scheme_page build_table
  create_table m table fields = build_table os m table (write_scheme_page m table fields) >>= λ r.
      ok (r.0, if r.1 then succeed else create_failed)

  -- Statement::exec. A table that has been dropped gives no result.
  unfoldable pub exec : Manager S → SysStatement → Outcome (Manager S × Result)
  unfolding list_files create_db drop_db change_db create_table drop_table get_table_description
  exec m show_dbs = list_files os m.files m.base_dir >>= λ fs. ok (m, names fs)
  exec m (create_db_of db) = create_db os m db >>= λ n. ok (n, succeed)
  exec m (drop_db_of db) =
      drop_db os m db >>= λ r. ok (r.0, if r.1 then succeed else no_such_database)
  exec m (use_db_of db) =
      change_db os m db false >>= λ r. ok (r.0, if r.1 then succeed else no_such_database)
  exec m show_tables =
      if has_db m
      then (list_files os m.files m.dir >>= λ fs. ok (m, names (table_names fs)))
      else ok (m, no_database)
  exec m (create_table_of table fields) =
      if has_db m then create_table m table fields else ok (m, no_database)
  exec m (drop_table_of table) =
      drop_table os m table >>= λ r. ok (r.0, if r.1 then no_result else no_such_table)
  exec m (describe_table_of table) =
      if has_db m
      then (get_table_description os m table >>= λ r. elim r.1 [
        | none ↦ ok (r.0, no_such_table)
        | some d ↦ ok (r.0, described d)
      ])
      else ok (m, no_database)
