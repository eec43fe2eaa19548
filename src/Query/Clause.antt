-- ===== src/Query/Clause.antt =====
-- WhereClause::getChecker and assign, and SetClause::getChanger, of src/Parser/AST/Nodes.h and
-- Nodes.cpp. The regular expressions of the standard library are a parameter.
use tinydbpp.Base.{
  ℕ, ◌+◌, Bool, true, false, not, ◌&&◌, ◌||◌, Option, none, some, List, [], ◌∷◌, ◌++◌, leb, ◌==◌,
  if◌then◌else◌, length, get_elem?, set, take, drop, replicate, Outcome, ok, undefined, ◌>>=◌, ◌>>◌,
  in_bounds,
}
use tinydbpp.Query.{
  Text, Item, same_text, dot, find_dot, split, ValueType, int, varchar, col, null_type, same_type,
  Value, null_value, last_byte, but_last, int_of, int_text, value_of, Reply, reply, type_error,
  no_this_column, to_string, Op, no_op, eq, lt, gt, ne, le, ge, like, is_null, is_not_null,
  Condition, WhereClause, flip, int_meets, text_meets, Columns, get_offset,
}

abbrev pub starts_with : Text → Text → Bool
starts_with s [] = true
starts_with [] (y ∷ ys) = false
starts_with (x ∷ xs) (y ∷ ys) = x == y && starts_with xs ys

-- find(sub) != npos
abbrev pub contains : Text → Text → Bool
contains [] sub = starts_with [] sub
contains (x ∷ xs) sub = starts_with (x ∷ xs) sub || contains xs sub

-- The column of this table that a name means, or none where it names another table.
abbrev pub column_of : Text → Text → Option Text
column_of table name = elim (find_dot name) [
  | none ↦ some name
  | some pos ↦ if contains name (table ++ dot ∷ []) then some (drop (pos + 1) name) else none
]

-- The column of this table that the other side of a condition means.
abbrev pub other_column_of : Text → Text → Option Text
other_column_of table name = elim (find_dot name) [
  | none ↦ some name
  | some pos ↦ if same_text (take pos name) table then some (drop (pos + 1) name) else none
]

-- The last column with a name.
abbrev pub last_offset : Text → List Text → Option ℕ
last_offset name [] = none
last_offset name (c ∷ cs) = elim (last_offset name cs) [
  | some i ↦ some (i + 1)
  | none ↦ if same_text c name then some 0 else none
]

-- An entry of check_ops and check_value.
pub record Check : Type 0 where
  pub op : Op
  pub value : Value

abbrev pub no_check : Check
no_check = record { op = no_op; value = null_value }

-- "int", "varchar", "col" and "NULL".
abbrev pub type_text : ValueType → Text
type_text int = 105 ∷ 110 ∷ 116 ∷ []
type_text varchar = 118 ∷ 97 ∷ 114 ∷ 99 ∷ 104 ∷ 97 ∷ 114 ∷ []
type_text col = 99 ∷ 111 ∷ 108 ∷ []
type_text null_type = 78 ∷ 85 ∷ 76 ∷ 76 ∷ []

-- The value that a condition leaves at a column of this type: for another column, the type and that
-- column's offset.
abbrev pub value_at : Value → ValueType → ℕ → Value
value_at v t offset =
    if same_type v.type col then record v { str_val = type_text t; i_val = offset } else v

-- The loop over the columns: each one with the name takes the condition.
abbrev pub put_checks : Text → Condition → ℕ → List Text → List ValueType → List Check → List Check
put_checks name c offset [] ts ks = ks
put_checks name c offset (n ∷ ns) [] ks = ks
put_checks name c offset (n ∷ ns) (t ∷ ts) [] = []
put_checks name c offset (n ∷ ns) (t ∷ ts) (k ∷ ks) =
    (if same_text n name then record { op = c.op; value = value_at c.expr t offset } else k)
    ∷ put_checks name c offset ns ts ks

-- One condition of the first loop of getChecker.
unfoldable pub register : Columns → Condition → List Check → Reply (List Check)
register td c ks = elim (column_of td.name c.name) [
  | none ↦ reply ks
  | some name ↦
      let known : Bool = elim (get_offset name td.col_name) [ none ↦ false | some i ↦ true ] in
      let put = λ (offset : ℕ). put_checks name c offset td.col_name td.col_type ks in
      if same_type c.expr.type col
      then (elim (other_column_of td.name c.expr.str_val) [
        | none ↦ reply ks
        | some other ↦ elim (last_offset other td.col_name) [
          | none ↦ no_this_column
          | some offset ↦ if known then reply (put offset) else no_this_column
        ]
      ])
      else if known
      then reply (put 0)
      else no_this_column
]

unfoldable pub checks : Columns → WhereClause → List Check → Reply (List Check)
unfolding register
checks td [] ks = reply ks
checks td (c ∷ cs) ks = elim (register td c ks) [
  | reply more ↦ checks td cs more
  | type_error ↦ type_error
  | no_this_column ↦ no_this_column
]

abbrev pub elem : Item → ℕ → Outcome Text
elem item i = elim (get_elem? item i) [ none ↦ undefined | some s ↦ ok s ]

abbrev pub flag_of : Text → Outcome ℕ
flag_of s = elim (last_byte s) [ none ↦ undefined | some b ↦ ok b ]

abbrev pub is_of : Value → ValueType → Bool
is_of v t = same_type v.type t || (same_type v.type col && same_text v.str_val (type_text t))

-- The checker at one column: its own bytes, and those of the other column where the value is one.
unfoldable pub meets : (Text → Text → Bool) → Item → Text → Check → Outcome Bool
meets regex_match item mine k =
    let v = k.value in
    (do
      a_null ← flag_of mine
      if is_of v int
          then (do
            other ← if same_type v.type col then elem item v.i_val else ok (int_text v.i_val)
            b_null ← if same_type v.type col then flag_of other else ok 0
            in_bounds (leb 4 (length mine) && leb 4 (length other))
            ok (not (a_null == 1 || b_null == 1) && int_meets k.op (int_of mine) (int_of other)))
          else if is_of v varchar
          then (do
            other ← if same_type v.type col then elem item v.i_val else ok (v.str_val ++ 0 ∷ [])
            b_null ← if same_type v.type col then flag_of other else ok 0
            ok (
                not (a_null == 1 || b_null == 1)
                && text_meets regex_match k.op (but_last mine) (but_last other)))
          else (elim k.op [
            | is_null ↦ ok (a_null == 1)
            | is_not_null ↦ ok (a_null == 0)
            | no_op ↦ ok true
            | eq ↦ ok true
            | lt ↦ ok true
            | gt ↦ ok true
            | ne ↦ ok true
            | le ↦ ok true
            | ge ↦ ok true
            | like ↦ ok true
          ]))

abbrev pub is_no_op : Op → Bool
is_no_op no_op = true
is_no_op o = false

-- The checker: the columns from `i` on, up to the first that is not met.
unfoldable pub meets_from : (Text → Text → Bool) → Item → ℕ → List Check → Outcome Bool
unfolding meets
meets_from regex_match item i [] = ok true
meets_from regex_match item i (k ∷ ks) =
    let rest = meets_from regex_match item (i + 1) ks in
    if is_no_op k.op
    then rest
    else elem item i
      >>= (λ mine. meets regex_match item mine k >>= (λ m. if m then rest else ok false))

-- getChecker, and the checker it gives applied to an item.
unfoldable pub check : (Text → Text → Bool) → Columns → WhereClause → Item → Outcome (Reply Bool)
unfolding checks meets_from
check regex_match td w item = elim (checks td w (replicate (length td.col_name) no_check)) [
  | reply ks ↦ meets_from regex_match item 0 ks >>= (λ b. ok (reply b))
  | type_error ↦ ok type_error
  | no_this_column ↦ ok no_this_column
]

-- getOffset's -1 as an index.
abbrev pub offset_or : Text → List Text → Outcome ℕ
offset_or name cs = elim (get_offset name cs) [ none ↦ undefined | some i ↦ ok i ]

-- Value(td->col_type[offset], item[offset])
abbrev pub column_value : Columns → Item → ℕ → Outcome Value
column_value td item offset = do
  t ← elim (get_elem? td.col_type offset) [ none ↦ undefined | some t ↦ ok t ]
  s ← elem item offset
  value_of t s

-- One condition of WhereClause::assign: what is left of it when the table's item is known.
unfoldable pub assign_one : Columns → Item → Condition → Outcome WhereClause
unfolding split
assign_one td item c =
    let (this_table, col_name) = split c.name td.name in
    let (this_table2, col_name2) = split c.expr.str_val td.name in
    let mine = same_text this_table td.name in
    let theirs = same_text this_table2 td.name in
    if not (same_type c.expr.type col)
    then ok (if mine then [] else c ∷ [])
    else if mine && theirs
    then ok []
    else if theirs
    then (do
      offset ← offset_or col_name2 td.col_name
      v ← column_value td item offset
      ok (record c { expr = v } ∷ []))
    else if not mine
    then ok (c ∷ [])
    else (do
      offset ← offset_or col_name td.col_name
      v ← column_value td item offset
      ok (record { name = c.expr.str_val; op = flip c.op; expr = v } ∷ []))

unfoldable pub assign : Columns → Item → WhereClause → Outcome WhereClause
unfolding assign_one
assign td item [] = ok []
assign td item (c ∷ cs) = do one ← assign_one td item c; rest ← assign td item cs; ok (one ++ rest)

-- SetClause::getChanger: the offsets and the embedded values, or an exception.
unfoldable pub changes : Columns → List (Text × Value) → Outcome (Reply (List (ℕ × Text)))
unfolding to_string
changes td [] = ok (reply [])
changes td (s ∷ ss) =
    let rest = changes td ss in
    elim (get_offset s.0 td.col_name) [
      | none ↦ ok no_this_column
      | some offset ↦ do
        t ← elim (get_elem? td.col_type offset) [ none ↦ undefined | some t ↦ ok t ]
        v ← to_string s.1 t
        elim v [
          | type_error ↦ ok type_error
          | no_this_column ↦ ok no_this_column
          | reply text ↦ rest >>= (λ r. elim r [
            | reply more ↦ ok (reply ((offset, text) ∷ more))
            | type_error ↦ ok type_error
            | no_this_column ↦ ok no_this_column
          ])
        ]
    ]

-- The changer.
unfoldable pub apply_changes : List (ℕ × Text) → Item → Item
apply_changes [] item = item
apply_changes (c ∷ cs) item = apply_changes cs (set item c.0 c.1)
