-- ===== src/Statement/Execute.antt =====
-- The select, update and delete statements of Statement::exec, with WhereClause::dfs, in
-- src/Parser/AST/Nodes.cpp. regex_match and the hash are parameters. A select leaves the tables as
-- they are, so its results alone are kept.
use tinydbpp.Base.{
  ℕ, zero, suc, ◌-◌, Bool, Option, none, some, List, [], ◌∷◌, ◌++◌, ltb, if◌then◌else◌, length,
  get_elem?, set, replicate, Outcome, ok, undefined, out_of_fuel, ◌>>=◌,
}
use tinydbpp.Description.{Item}
use tinydbpp.Query.{
  Text, ValueType, Value, Reply, reply, type_error, no_this_column, WhereClause, Columns,
}
use tinydbpp.Query.Clause.{no_check, Check, checks, meets_from, assign, changes, apply_changes}
use tinydbpp.Query.Select.{selector}
use tinydbpp.Record.Scan.{select_use_checker}
use tinydbpp.Table.{
  Indexes, Column, Table, column_names, select_use_index, delete_and_collect_items,
  delete_and_collect_use_index,
}
use tinydbpp.Statement.{Known, NextTable, next_table, other_tables, Updated, update_items}

-- The next step of a chain of calls that may throw TypeError or NoThisColumnError.
infixl 5 ◌>=>◌
abbrev pub ◌>=>◌ : {A B : Type 0} → Outcome (Reply A) → (A → Outcome (Reply B)) → Outcome (Reply B)
m >=> k = m >>= λ r. elim r [
  | reply a ↦ k a
  | type_error ↦ ok type_error
  | no_this_column ↦ ok no_this_column
]

abbrev pub column_types : List Column → List ValueType
column_types [] = []
column_types (c ∷ cs) = c.type ∷ column_types cs

abbrev pub index_flags : List Column → List Bool
index_flags [] = []
index_flags (c ∷ cs) = c.has_index ∷ index_flags cs

-- The answers, and the tables in the order in which they were assigned, from the back.
abbrev pub Found : Type 0
Found = List (List Value) × List Text

abbrev pub each_item :
    (Item → Found → Outcome (Reply Found)) → List Item → Found → Outcome (Reply Found)
each_item visit [] s = ok (reply s)
each_item visit (item ∷ items) s = visit item s >=> λ u. each_item visit items u

-- The slot of a call with so many tables takes the table's name where it is empty.
abbrev pub assigned_with : Text → ℕ → List Text → Outcome (List Text)
assigned_with table size assigned = elim (get_elem? assigned (size - 1)) [
  | none ↦ undefined
  | some [] ↦ ok (set assigned (size - 1) table)
  | some (x ∷ xs) ↦ ok assigned
]

module _ {I : Type 0} (indexes : Indexes I) (hash : Text → ℕ) (regex_match : Text → Text → Bool)
    (tables : Text → Option (Table I)) where
  abbrev pub columns_in : Text → Table I → Columns
  columns_in name t = record {
    name = name;
    col_name = column_names t.columns;
    col_type = column_types t.columns;
  }

  abbrev pub known_tables : Text → Option Known
  known_tables name = elim (tables name) [
    | none ↦ none
    | some t ↦ some (record { columns = columns_in name t; has_index = index_flags t.columns })
  ]

  -- getTableDescription, of a table that is used.
  abbrev pub table_of : Text → Outcome (Reply (Table I))
  table_of name = elim (tables name) [ none ↦ undefined | some t ↦ ok (reply t) ]

  -- getChecker.
  abbrev pub checker_of : Text → Table I → WhereClause → Outcome (Reply (List Check))
  checker_of name t w = ok (checks (columns_in name t) w (replicate (length t.columns) no_check))

  abbrev pub select_items : Table I → NextTable → List Check → Outcome (Reply (List Item))
  select_items t next ks = elim next.index [
    | some (j, v) ↦
        select_use_index indexes hash t j v (λ item. meets_from regex_match item 0 ks) >>= λ items.
        ok (reply items)
    | none ↦ select_use_checker t.pattern (λ item. meets_from regex_match item 0 ks) t.file >>= λ r.
        ok (reply r.1)
  ]

  -- WhereClause::dfs. The fuel counts the calls inside each other.
  unfoldable pub dfs :
      ℕ
      → (Text → Table I → Item → Outcome (List Value))
      → WhereClause
      → List Text
      → List Value
      → Found
      → Outcome (Reply Found)
  unfolding next_table checks assign
  dfs zero select w names prefix s = out_of_fuel
  dfs (suc fuel) select w names prefix s =
      let deeper = dfs fuel select in
      (next_table known_tables w names >=> λ next.
      assigned_with next.table (length names) s.1 >>= λ assigned. table_of next.table >=> λ t.
      checker_of next.table t w >=> λ ks. select_items t next ks >=> λ items.
      each_item
        (λ item u. select next.table t item >>= λ values.
          if ltb 1 (length names)
          then (assign (columns_in next.table t) item w >>= λ w'.
              deeper w' (other_tables next.table names) (prefix ++ values) u)
          else ok (reply (u.0 ++ (prefix ++ values) ∷ [], u.1)))
        items (s.0, assigned))

  abbrev pub no_names : List Text → List Text
  no_names [] = []
  no_names (name ∷ names) = [] ∷ no_names names

  abbrev pub all_columns : List Text → Outcome (Reply (List Columns))
  all_columns [] = ok (reply [])
  all_columns (name ∷ names) =
      table_of name >=> λ t. all_columns names >=> λ tds. ok (reply (columns_in name t ∷ tds))

  -- SelectItem, up to the answers: the selector is made first.
  unfoldable pub select_statement :
      Bool → List Text → List Text → WhereClause → Outcome (Reply Found)
  unfolding dfs selector
  select_statement is_all cols names w = all_columns names >=> λ tds.
      dfs (length names) (λ name t item. selector tds is_all cols (columns_in name t) item) w names
        [] ([], no_names names)

  -- The deletion of DeleteItem and UpdateItem.
  unfoldable pub delete_chosen :
      Table I → NextTable → List Check → Outcome (Reply (Table I × List Item))
  unfolding delete_and_collect_items delete_and_collect_use_index
  delete_chosen t next ks =
      let checker = λ (item : Item). meets_from regex_match item 0 ks in
      (elim next.index [
        | some (j, v) ↦ delete_and_collect_use_index indexes hash t j v checker
        | none ↦ delete_and_collect_items indexes hash t checker
      ])
      >>= λ r. ok (reply r)

  -- DeleteItem: the table and the deleted items.
  unfoldable pub delete_statement : Text → WhereClause → Outcome (Reply (Table I × List Item))
  unfolding delete_chosen
  delete_statement name w = next_table known_tables w (name ∷ []) >=> λ next.
      table_of next.table >=> λ t. checker_of next.table t w >=> λ ks. delete_chosen t next ks

  -- UpdateItem: the chosen items are deleted, changed and inserted again.
  unfoldable pub update_statement :
      (Table I → Text → Option (Table I))
      → Text
      → List (Text × Value)
      → WhereClause
      → Outcome (Reply (Table I × Updated))
  unfolding delete_chosen changes update_items
  update_statement others name settings w = next_table known_tables w (name ∷ []) >=> λ next.
      table_of next.table >=> λ t. checker_of next.table t w >=> λ ks.
      changes (columns_in next.table t) settings >=> λ cs. delete_chosen t next ks >=> λ r.
      update_items indexes hash others (apply_changes cs) r.0 r.1 >>= λ u. ok (reply u)
