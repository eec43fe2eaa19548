-- ===== src/Query/Select.antt =====
-- SelectCols::getSelector of src/Parser/AST/Nodes.h and WhereClause::becomeLike of Nodes.cpp.
use tinydbpp.Base.{
  ℕ, ◌+◌, ◌≡◌, refl, ap, Bool, false, ◌&&◌, ◌||◌, Option, some, List, [], ◌∷◌, ◌++◌, leb, ◌==◌,
  if◌then◌else◌, length, Outcome, ok, arith, ◌>>=◌,
}
use tinydbpp.Query.{
  Text, Item, same_text, split, varchar, Value, WhereClause, like, Columns, get_offset,
}
use tinydbpp.Query.Clause.{column_value}

abbrev pub count_from : ℕ → List Text → List (Option ℕ)
count_from i [] = []
count_from i (c ∷ cs) = some i ∷ count_from (i + 1) cs

abbrev pub named_offsets : Columns → List Text → List (Option ℕ)
named_offsets td [] = []
named_offsets td (full ∷ names) =
    let (this_table, this_col) = split full td.name in
    let rest = named_offsets td names in
    if same_text this_table td.name then get_offset this_col td.col_name ∷ rest else rest

-- this_offsets of one table.
unfoldable pub offsets : Bool → List Text → Columns → List (Option ℕ)
offsets is_all names td = if is_all then count_from 0 td.col_name else named_offsets td names

-- The inner loop of the selector: `j` counts the offsets, which are not read.
abbrev pub select_values : Columns → Item → ℕ → List (Option ℕ) → Outcome (List Value)
select_values td item j [] = ok []
select_values td item j (o ∷ os) = do
  v ← column_value td item j
  rest ← select_values td item (j + 1) os
  ok (v ∷ rest)

-- The selector for these tables, applied to an item of the table `td`.
unfoldable pub selector : List Columns → Bool → List Text → Columns → Item → Outcome (List Value)
unfolding offsets
selector [] is_all names td item = ok []
selector (t ∷ ts) is_all names td item = do
  here ←
      if same_text td.name t.name then select_values td item 0 (offsets is_all names t) else ok []
  rest ← selector ts is_all names td item
  ok (here ++ rest)

select_values-length :
    (td : Columns) (item : Item) (j : ℕ) (os ps : List (Option ℕ))
    → length os ≡ length ps
    → select_values td item j os ≡ select_values td item j ps
select_values-length td item j [] [] e = refl
select_values-length td item j [] (p ∷ ps) e = absurd (omega (arith, e))
select_values-length td item j (o ∷ os) [] e = absurd (omega (arith, e))
select_values-length td item j (o ∷ os) (p ∷ ps) e =
    ap (λ m. column_value td item j >>= (λ v. m >>= (λ rest. ok (v ∷ rest))))
      (select_values-length td item (j + 1) os ps (omega (arith, e)))

-- The selector of a list of columns of one table gives the same values as that of any other list
-- with as many columns of the table: it does not read which columns are named.
pub selector-length :
    (t : Columns) (names others : List Text) (td : Columns) (item : Item)
    → length (offsets false names t) ≡ length (offsets false others t)
    → selector (t ∷ []) false names td item ≡ selector (t ∷ []) false others td item
unfolding selector
selector-length t names others td item e =
    ap
      (λ m.
        (if same_text td.name t.name then m else ok [])
        >>= (λ here. ok [] >>= (λ rest. ok (here ++ rest))))
      (select_values-length td item 0 (offsets false names t) (offsets false others t) e)

-- isdigit, isalpha, '%' and '_'.
abbrev pub is_plain : ℕ → Bool
is_plain c =
    (leb 48 c && leb c 57)
    || (leb 65 c && leb c 90)
    || (leb 97 c && leb c 122)
    || c == 37
    || c == 95

-- The escapes, and then the two replacements.
abbrev pub escaped : Text → Text
escaped [] = []
escaped (c ∷ cs) = if is_plain c then c ∷ escaped cs else 92 ∷ c ∷ escaped cs

abbrev pub replaced : Text → Text
replaced [] = []
replaced (c ∷ cs) =
    if c == 37 then 46 ∷ 42 ∷ replaced cs else if c == 95 then 46 ∷ replaced cs else c ∷ replaced cs

unfoldable pub become_like : WhereClause → Text → Text → WhereClause
become_like w name pattern_text =
    w
    ++ record {
      name = name;
      op = like;
      expr = record { type = varchar; str_val = replaced (escaped pattern_text); i_val = 0 };
    }
      ∷ []
