-- ===== src/Statement/Result.antt =====
-- The JSON of a select statement in Statement::exec of src/Parser/AST/Nodes.cpp: an object of arrays,
-- one for each column, from the answers and the assigned tables.
use tinydbpp.Base.{
  ℕ, ◌+◌, Bool, Option, none, some, List, [], ◌∷◌, ◌++◌, get_elem?, if◌then◌else◌, Outcome, ok,
  assert_failed, undefined, ◌>>=◌,
}
use tinydbpp.Query.{Text, same_text, dot, split, int, varchar, col, null_type, Value}

pub data JsonValue : Type 0 where
  number : ℕ → JsonValue
  string : Text → JsonValue

-- "NULL"
abbrev pub null_text : Text
null_text = 78 ∷ 85 ∷ 76 ∷ 76 ∷ []

unfoldable pub json_value : Value → Outcome JsonValue
json_value v = elim v.type [
  | int ↦ ok (number v.i_val)
  | varchar ↦ ok (string v.str_val)
  | null_type ↦ ok (string null_text)
  | col ↦ assert_failed
]

-- The array of column `i`.
unfoldable pub json_column : ℕ → List (List Value) → Outcome (List JsonValue)
unfolding json_value
json_column i [] = ok []
json_column i (item ∷ ans) = elim (get_elem? item i) [
  | none ↦ undefined
  | some v ↦ json_value v >>= λ x. json_column i ans >>= λ xs. ok (x ∷ xs)
]

-- An object, and ret["result"][name] = a.
abbrev pub Json : Type 0
Json = List (Text × List JsonValue)

unfoldable pub put : Text → List JsonValue → Json → Json
put name a [] = (name, a) ∷ []
put name a (e ∷ es) =
    let rest = put name a es in if same_text e.0 name then (name, a) ∷ es else e ∷ rest

-- The loop over the assigned columns, from column `i` on.
unfoldable pub put_columns : ℕ → List Text → List (List Value) → Json → Outcome Json
unfolding json_column put
put_columns i [] ans ret = ok ret
put_columns i (name ∷ names) ans ret =
    json_column i ans >>= λ a. put_columns (i + 1) names ans (put name a ret)

-- The columns that a list of columns names in a table.
unfoldable pub named_in : Text → Text → List Text → List Text
unfolding split
named_in default_table ts [] = []
named_in default_table ts (name ∷ names) =
    let rest = named_in default_table ts names in
    if same_text (split name default_table).0 ts then name ∷ rest else rest

abbrev pub qualified : Text → List Text → List Text
qualified table [] = []
qualified table (c ∷ cs) = (table ++ dot ∷ c) ∷ qualified table cs

abbrev pub backwards : List Text → List Text
backwards [] = []
backwards (t ∷ ts) = backwards ts ++ t ∷ []

-- The names of the columns, for the assigned tables from the last one on. The tables are given with
-- the names of their columns.
unfoldable pub assigned_cols :
    (Text → Option (List Text)) → Bool → List Text → Text → List Text → Outcome (List Text)
unfolding named_in
assigned_cols tables is_all cols default_table [] = ok []
assigned_cols tables is_all cols default_table (ts ∷ rest) = do
  first ←
      if is_all
      then (elim (tables ts) [ none ↦ undefined | some cs ↦ ok (qualified ts cs) ])
      else ok (named_in default_table ts cols)
  others ← assigned_cols tables is_all cols default_table rest
  ok (first ++ others)

-- The result of SelectItem, of the answers and the tables that dfs has assigned.
unfoldable pub select_result :
    (Text → Option (List Text))
    → Bool
    → List Text
    → Text
    → List (List Value)
    → List Text
    → Outcome Json
unfolding assigned_cols put_columns
select_result tables is_all cols default_table ans assigned = do
  names ← assigned_cols tables is_all cols default_table (backwards assigned)
  put_columns 0 names ans []

-- The array under a name.
abbrev pub array_of : Text → Json → Option (List JsonValue)
array_of name [] = none
array_of name (e ∷ es) =
    let rest = array_of name es in if same_text e.0 name then some e.1 else rest

-- A value of a column that holds ints, strings or NULL.
abbrev pub json_of : Value → JsonValue
json_of v = elim v.type [
  | int ↦ number v.i_val
  | varchar ↦ string v.str_val
  | null_type ↦ string null_text
  | col ↦ string []
]
