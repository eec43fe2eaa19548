-- ===== src/Statement.antt =====
-- Statement::exec in src/Parser/AST/Nodes.cpp, where it makes items of values and changes a table, and
-- WhereClause::getNextAssignTableName.
pub mod Values
pub mod Next
pub mod Execute
pub mod Index
pub mod Result
pub mod Arrays
pub mod Examples
use tinydbpp.Base.{
  ℕ, zero, suc, ◌+◌, ◌-◌, Bool, true, false, not, ◌&&◌, ◌||◌, Option, none, some, List, [], ◌∷◌,
  ◌++◌, leb, ◌==◌, if◌then◌else◌, length, get_elem?, take, replicate, Outcome, ok, undefined, ◌>>=◌,
  ◌>>◌, in_bounds,
}
use tinydbpp.Description.{Width, bytes, varying, Item}
use tinydbpp.Query.{
  Text, same_text, split, ValueType, int, varchar, col, null_type, same_type, Value, int_text,
  Reply, reply, type_error, no_this_column, Op, eq, Condition, WhereClause, Columns, get_offset,
}
use tinydbpp.Query.Clause.{offset_or}
use tinydbpp.Table.{Indexes, Column, Table, insert_in_table}

-- string v_str(td->pattern[i] > 0 ? td->pattern[i] : 1, 0) has this size.
abbrev pub room : Width → ℕ
room (bytes zero) = 1
room (bytes (suc n)) = suc n
room varying = 1

-- The bytes that an insert statement makes of a value in a column; none where it throws TypeError.
unfoldable pub item_value : ValueType → Width → Value → Outcome (Option Text)
item_value t w v =
    if not (same_type t v.type) && not (same_type v.type null_type) then ok none else (elim v.type [
      | null_type ↦ ok (some (replicate (room w - 1) 0 ++ 1 ∷ []))
      | int ↦
          in_bounds (leb 4 (room w))
          >> ok (some (take 4 (int_text v.i_val) ++ replicate (room w - 4) 0))
      | varchar ↦ ok (some (v.str_val ++ 0 ∷ []))
      | col ↦ ok (some (replicate (room w) 0))
    ])

-- The item of a list of values, as long as the columns.
unfoldable pub item_of_values : List Column → List Width → List Value → Outcome (Option Item)
unfolding item_value
item_of_values cs ws [] = ok (some [])
item_of_values [] ws (v ∷ vs) = undefined
item_of_values (c ∷ cs) [] (v ∷ vs) = undefined
item_of_values (c ∷ cs) (w ∷ ws) (v ∷ vs) = do
  first ← item_value c.type w v
  elim first [
    | none ↦ ok none
    | some text ↦ do
      rest ← item_of_values cs ws vs
      elim rest [ none ↦ ok none | some item ↦ ok (some (text ∷ item)) ]
  ]

-- The results "Succeed.", "Wrong Dimension.", "Insert failed." and that of a TypeError.
pub data Inserted : Type 0 where
  succeed wrong_dimension insert_failed no_such_type : Inserted

-- The result of updateItems: it throws DoubleFault where the old item is refused as well.
pub data Updated : Type 0 where
  finished double_fault : Updated

module _ {I : Type 0} (indexes : Indexes I) (hash : Text → ℕ)
    (tables : Table I → Text → Option (Table I)) where
  -- InsertItem, on the lists of values that are left: the rows before a failure stay in the table.
  -- The tables are those that a reference finds, given the state of the changed one.
  unfoldable pub insert_items : Table I → List (List Value) → Outcome (Table I × Inserted)
  unfolding item_of_values
  insert_items t [] = ok (t, succeed)
  insert_items t (vs ∷ lists) = elim (length vs == length t.columns) [
    | false ↦ ok (t, wrong_dimension)
    | true ↦ do
      made ← item_of_values t.columns t.pattern.widths vs
      elim made [
        | none ↦ ok (t, no_such_type)
        | some item ↦ do
          done ← insert_in_table indexes hash (tables t) t item
          elim done [ none ↦ ok (t, insert_failed) | some u ↦ insert_items u lists ]
      ]
  ]

  -- TableDescription::updateItems, of items that have been deleted.
  unfoldable pub update_items : (Item → Item) → Table I → List Item → Outcome (Table I × Updated)
  update_items changer t [] = ok (t, finished)
  update_items changer t (item ∷ items) = do
    done ← insert_in_table indexes hash (tables t) t (changer item)
    elim done [
      | some u ↦ update_items changer u items
      | none ↦ do
        back ← insert_in_table indexes hash (tables t) t item
        elim back [ none ↦ ok (t, double_fault) | some u ↦ update_items changer u items ]
    ]

-- What getNextAssignTableName gives: a table and, where an index can be used, the column and the
-- value's bytes.
pub record NextTable : Type 0 where
  pub table : Text
  pub index : Option (ℕ × Text)

-- The columns of a table, with col_has_index.
pub record Known : Type 0 where
  pub columns : Columns
  pub has_index : List Bool

pub data Search : Type 0 where
  found : NextTable → Search
  go_on : Text → Search

abbrev pub is_eq : Op → Bool
is_eq eq = true
is_eq o = false

abbrev pub known : (Text → Option Known) → Text → Outcome Known
known tables name = elim (tables name) [ none ↦ undefined | some td ↦ ok td ]

-- td->col_has_index[j]
abbrev pub index_at : Known → ℕ → Outcome Bool
index_at td j = elim (get_elem? td.has_index j) [ none ↦ undefined | some b ↦ ok b ]

-- td->col_has_index[td->getOffset(col_name)]
abbrev pub index_of_column : Known → Text → Outcome Bool
index_of_column td name = offset_or name td.columns.col_name >>= λ j. index_at td j

abbrev pub index_value : Value → Text
index_value v = if same_type v.type int then int_text v.i_val else v.str_val ++ 0 ∷ []

-- A condition `column = value`, for this table.
unfoldable pub value_condition :
    (Text → Option Known) → Text → Text → Text → Condition → Outcome (Reply Search)
unfolding split
value_condition tables default_table table_name rank2 c =
    let (this_table, col_name) = split c.name default_table in
    if not (same_text table_name this_table) then ok (reply (go_on rank2)) else (do
      td ← known tables table_name
      elim (get_offset col_name td.columns.col_name) [
        | none ↦ ok no_this_column
        | some j ↦ do
          can_index ← index_at td j
          ok (
              reply (
                if can_index
                then found (record { table = table_name; index = some (j, index_value c.expr) })
                else go_on rank2))
      ])

-- A condition `column = column`, for this table: the table of rank 2.
unfoldable pub column_condition :
    (Text → Option Known) → Text → Text → Text → Condition → Outcome Text
unfolding split
column_condition tables default_table table_name rank2 c =
    let (this_table, col_name) = split c.name default_table in
    let (this_table2, col_name2) = split c.expr.str_val default_table in
    let mine = same_text table_name this_table in
    let mine2 = same_text table_name this_table2 in
    if mine && not mine2
    then (do
      td2 ← known tables this_table2
      b ← index_of_column td2 col_name2
      ok (if b then table_name else rank2))
    else if not mine && mine2
    then (do
      td ← known tables this_table
      b ← index_of_column td col_name
      ok (if b then table_name else rank2))
    else ok rank2

-- The loop over the conditions, for one table.
unfoldable pub search_conditions :
    (Text → Option Known) → Text → Text → Text → WhereClause → Outcome (Reply Search)
unfolding value_condition column_condition
search_conditions tables default_table table_name rank2 [] = ok (reply (go_on rank2))
search_conditions tables default_table table_name rank2 (c ∷ cs) = elim (is_eq c.op) [
  | false ↦ search_conditions tables default_table table_name rank2 cs
  | true ↦ elim (same_type c.expr.type col) [
    | true ↦ column_condition tables default_table table_name rank2 c >>= λ r.
        search_conditions tables default_table table_name r cs
    | false ↦ do
      one ← value_condition tables default_table table_name rank2 c
      elim one [
        | type_error ↦ ok type_error
        | no_this_column ↦ ok no_this_column
        | reply (found n) ↦ ok (reply (found n))
        | reply (go_on r) ↦ search_conditions tables default_table table_name r cs
      ]
  ]
]

-- The loop over the tables.
unfoldable pub search_tables :
    (Text → Option Known) → Text → Text → WhereClause → List Text → Outcome (Reply NextTable)
unfolding search_conditions
search_tables tables default_table rank2 w [] = ok (reply (record { table = rank2; index = none }))
search_tables tables default_table rank2 w (name ∷ names) = do
  one ← search_conditions tables default_table name rank2 w
  elim one [
    | type_error ↦ ok type_error
    | no_this_column ↦ ok no_this_column
    | reply (found n) ↦ ok (reply n)
    | reply (go_on r) ↦ search_tables tables default_table r w names
  ]

-- WhereClause::getNextAssignTableName
unfoldable pub next_table :
    (Text → Option Known) → WhereClause → List Text → Outcome (Reply NextTable)
unfolding search_tables
next_table tables w [] = undefined
next_table tables w (name ∷ names) = search_tables tables name name w (name ∷ names)

-- next_table_names of WhereClause::dfs: the tables that are left.
abbrev pub other_tables : Text → List Text → List Text
other_tables table [] = []
other_tables table (name ∷ names) =
    let rest = other_tables table names in if same_text name table then rest else name ∷ rest
