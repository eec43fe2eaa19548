-- ===== src/Statement/Index.antt =====
-- The statements CREATE INDEX and DROP INDEX of Statement::exec, in src/Parser/AST/Nodes.cpp.
use tinydbpp.Base.{
  ℕ, Bool, true, false, Option, none, some, if◌then◌else◌, get_elem?, set, Outcome, ok, undefined,
  ◌>>=◌,
}
use tinydbpp.Description.{Item}
use tinydbpp.Query.{Text, get_offset}
use tinydbpp.Query.Clause.{elem}
use tinydbpp.Record.Table.{Location}
use tinydbpp.Record.Scan.{traverse_with_location}
use tinydbpp.BTree.Plus.{location_to_string}
use tinydbpp.Table.{Indexes, Column, Table, column_names, set_index}

-- "Index already exists.", "Index does not exists.", "Column name does not exists.", and the end of a
-- statement that has done its work.
pub data IndexResult : Type 0 where
  index_exists no_such_index no_such_column succeed : IndexResult

module _ {I : Type 0} where
  -- The first column with the name, with its place.
  abbrev pub column_named : Table I → Text → Outcome (Option (ℕ × Column))
  column_named t name = elim (get_offset name (column_names t.columns)) [
    | none ↦ ok none
    | some i ↦ elim (get_elem? t.columns i) [ none ↦ undefined | some c ↦ ok (some (i, c)) ]
  ]

  -- col_has_index[i] = has
  abbrev pub with_flag : Table I → ℕ → Column → Bool → Table I
  with_flag t i c has = record t { columns = set t.columns i (record c { has_index = has }) }

  -- CreateIdx. The tree is a new one where its file is not there: setupBTree leaves a file that is.
  unfoldable pub create_index :
      Indexes I → (Text → ℕ) → I → Table I → Text → Outcome (Table I × IndexResult)
  unfolding traverse_with_location
  create_index indexes hash new t name = do
    found ← column_named t name
    elim found [
      | none ↦ ok (t, no_such_column)
      | some (i, c) ↦ if c.has_index then ok (t, index_exists) else (do
        let start : I = elim (t.index i) [ none ↦ new | some x ↦ x ]
        let add = λ (x : I) (item : Item) (loc : Location).
            elem item i >>= λ v. indexes.insert x (hash v) (location_to_string loc)
        (f, x) ← traverse_with_location t.pattern add t.file start
        ok (record (with_flag t i c true) { file = f; index = set_index i x t.index }, succeed))
    ]

  -- DropIdx: the file that it deletes is not that of the index.
  unfoldable pub drop_index : Table I → Text → Outcome (Table I × IndexResult)
  drop_index t name = do
    found ← column_named t name
    elim found [
      | none ↦ ok (t, no_such_column)
      | some (i, c) ↦
          if c.has_index then ok (with_flag t i c false, succeed) else ok (t, no_such_index)
    ]
