-- ===== src/Statement/Examples.antt =====
-- A query of two tables, and a value.
use tinydbpp.Base.{
  ℕ, Bool, false, ◌≡◌, refl, true, Option, none, some, List, [], ◌∷◌, length, Outcome, ok,
  assert_failed, arith,
}
use tinydbpp.Description.{bytes, Item}
use tinydbpp.Table.{Indexes, Column, Table}
use tinydbpp.Record.Scan.{select, select_use_checker, scan_pages, scan_page}
use tinydbpp.Query.Clause.{checks}
use tinydbpp.Statement.Execute.{dfs}
use tinydbpp.Statement.Result.{Json, assigned_cols, backwards, array_of, select_result}
use tinydbpp.Statement.Arrays.{column_of, select_result-column_of}
use tinydbpp.Query.{varchar, null_value, Value, Text, int, reply, eq, WhereClause, split}
use tinydbpp.Query.Values.{int_value}
use tinydbpp.Statement.{
  Known, NextTable, next_table, search_tables, search_conditions, value_condition,
}
use tinydbpp.Statement.Values.{given_int, read_back, item_value-value_of}

abbrev book : Text
book = 98 ∷ []

abbrev author : Text
author = 97 ∷ []

abbrev id : Text
id = 105 ∷ []

abbrev author_table : Known
author_table = record {
  columns = record { name = author; col_name = id ∷ []; col_type = int ∷ [] };
  has_index = true ∷ [];
}

abbrev tables : Text → Option Known
tables name = some author_table

-- a.i = 7
abbrev author_is_7 : WhereClause
author_is_7 = record { name = 97 ∷ 46 ∷ 105 ∷ []; op = eq; expr = int_value 7 } ∷ []

abbrev next : NextTable
next = record { table = author; index = some (0, 7 ∷ 0 ∷ 0 ∷ 0 ∷ 0 ∷ []) }

author_first : next_table tables author_is_7 (book ∷ author ∷ []) ≡ ok (reply next)
unfolding next_table search_tables search_conditions value_condition split
author_first = refl

item_value-value_of_example :
    read_back int (bytes 5) (int_value 70000) ≡ ok (some (int_value 70000))
item_value-value_of_example =
    item_value-value_of int (bytes 5) (int_value 70000) (given_int 70000 (omega arith))

-- A table without records and without indexes.
abbrev no_index : Indexes ℕ
no_index = record {
  get = λ x h. assert_failed;
  insert = λ x h s. assert_failed;
  remove = λ x h check. assert_failed;
}

abbrev key : Column
key = record { name = id; type = int; not_null = true; unique = true; has_index = false }

abbrev empty_table : Table ℕ
empty_table = record {
  columns = key ∷ [];
  pattern = record { len = 5; widths = bytes 5 ∷ [] };
  file = record { pages = 2; page = λ p i. 0 };
  index = λ i. none;
}

abbrev all_tables : Text → Option (Table ℕ)
all_tables name = some empty_table

abbrev no_values : Text → Table ℕ → Item → Outcome (List Value)
no_values name t item = ok []

abbrev never : Text → Text → Bool
never a b = false

abbrev start : List (List Value) × List Text
start = ([], [] ∷ [] ∷ [])

-- The search of both tables ends, without an answer.
no_answers :
    dfs no_index length never all_tables 2 no_values [] (book ∷ author ∷ []) [] start
    ≡ ok (reply ([], [] ∷ book ∷ []))
unfolding dfs next_table search_tables search_conditions checks select_use_checker select scan_pages
    scan_page
no_answers = refl

-- Two answers of a table "b" with the columns "id" and "n".
abbrev answers : List (List Value)
answers =
    (record { type = int; str_val = []; i_val = 7 }
      ∷ record { type = varchar; str_val = 120 ∷ []; i_val = 0 }
      ∷ [])
    ∷ (record { type = int; str_val = []; i_val = 8 } ∷ null_value ∷ [])
    ∷ []

abbrev answer_names : List Text
answer_names = (98 ∷ 46 ∷ 105 ∷ 100 ∷ []) ∷ (98 ∷ 46 ∷ 110 ∷ []) ∷ []

abbrev catalog : Text → Option (List Text)
catalog t = some ((105 ∷ 100 ∷ []) ∷ (110 ∷ []) ∷ [])

answer_names-ok :
    assigned_cols catalog true [] (98 ∷ []) (backwards ((98 ∷ []) ∷ [])) ≡ ok answer_names
unfolding assigned_cols
answer_names-ok = refl

select_result-column_of_example :
    (ret : Json) × (select_result catalog true [] (98 ∷ []) answers ((98 ∷ []) ∷ []) ≡ ok ret)
    × (array_of (98 ∷ 46 ∷ 110 ∷ []) ret ≡ some (column_of 1 answers))
select_result-column_of_example =
    select_result-column_of catalog true [] (98 ∷ []) answers ((98 ∷ []) ∷ []) answer_names 1
      (98 ∷ 46 ∷ 110 ∷ []) answer_names-ok (refl, (refl, tt))
      (refl, (refl, (refl, tt)), (refl, (refl, (refl, tt)), tt)) refl
