-- ===== src/Query.antt =====
-- src/Parser/AST/Nodes.h and Nodes.cpp: the fields of a new table, values, the conditions of a where
-- clause and the changes of a set clause. A string is the list of its bytes. A type and an operator
-- are the strings that the parser gives, as constructors.
pub mod Names
pub mod Values
pub mod Keys
pub mod Flip
pub mod Clause
pub mod Select
pub mod Examples
use tinydbpp.Base.{
  ℕ, zero, suc, ◌+◌, ◌-◌, ◌*◌, ◌/◌, ◌%◌, ◌^◌, Bool, true, false, not, ◌&&◌, ◌||◌, Option, none,
  some, List, [], ◌∷◌, ◌++◌, ltb, leb, ◌==◌, if◌then◌else◌, length, get_elem?, get_or, set, take,
  drop, replicate, Outcome, ok, assert_failed, undefined, ◌>>=◌, ◌>>◌, boost_assert, in_bounds,
}

abbrev pub Text : Type 0
Text = List ℕ

abbrev pub Item : Type 0
Item = List Text

abbrev pub same_text : Text → Text → Bool
same_text [] [] = true
same_text [] (y ∷ ys) = false
same_text (x ∷ xs) [] = false
same_text (x ∷ xs) (y ∷ ys) = x == y && same_text xs ys

-- std::string::operator<, byte by byte.
abbrev pub text_less : Text → Text → Bool
text_less xs [] = false
text_less [] (y ∷ ys) = true
text_less (x ∷ xs) (y ∷ ys) = let rest = text_less xs ys in ltb x y || (x == y && rest)

-- find(".")
abbrev pub dot : ℕ
dot = 46

abbrev pub find_dot : Text → Option ℕ
find_dot [] = none
find_dot (x ∷ xs) =
    let rest = find_dot xs in
    if x == dot then some 0 else elim rest [ none ↦ none | some i ↦ some (i + 1) ]

-- ColList::split: the table and the column.
unfoldable pub split : Text → Text → Text × Text
split full default_table = elim (find_dot full) [
  | none ↦ (default_table, full)
  | some pos ↦ (take pos full, drop (pos + 1) full)
]

-- TableManager::createIndexName
unfoldable pub create_index_name : Text → Text → Text
create_index_name table col = table ++ dot ∷ col

-- TableManager::parseIndex
unfoldable pub parse_index : Text → Text → Option Text
parse_index index table =
    if ltb (length table) (length index) && same_text (take (length table) index) table
    then some (take (length index - (length table + 1)) (drop (length table + 1) index))
    else none

pub data ValueType : Type 0 where
  int varchar col null_type : ValueType

abbrev pub same_type : ValueType → ValueType → Bool
same_type int int = true
same_type varchar varchar = true
same_type col col = true
same_type null_type null_type = true
same_type a b = false

pub record Field : Type 0 where
  pub name : Text
  pub type : ValueType
  pub size : ℕ
  pub can_null : Bool
  pub is_key : Bool
  pub is_primary_key_stmt : Bool

-- The inner loop of FieldList::checkPrimaryKey, for the field `f`.
abbrev pub mark_keys : Field → List Field → List Field
mark_keys f [] = []
mark_keys f (t ∷ ts) =
    (if same_text t.name f.name && not t.is_primary_key_stmt then record t { is_key = true } else t)
    ∷ mark_keys f ts

-- The outer loop, over the fields that are still to come.
abbrev pub mark_each : List Field → List Field → List Field
mark_each [] all = all
mark_each (f ∷ fs) all = mark_each fs (if f.is_primary_key_stmt then mark_keys f all else all)

unfoldable pub check_primary_key : List Field → List Field
check_primary_key fs = mark_each fs fs

-- An `int` is its 32 bits.
pub record Value : Type 0 where
  pub type : ValueType
  pub str_val : Text
  pub i_val : ℕ

abbrev pub null_value : Value
null_value = record { type = null_type; str_val = []; i_val = 0 }

-- The last byte, and the bytes before it; there are none in an empty string.
abbrev pub last_byte : Text → Option ℕ
last_byte [] = none
last_byte (x ∷ []) = some x
last_byte (x ∷ y ∷ ys) = last_byte (y ∷ ys)

abbrev pub but_last : Text → Text
but_last [] = []
but_last (x ∷ []) = []
but_last (x ∷ y ∷ ys) = x ∷ but_last (y ∷ ys)

abbrev pub int_of : Text → ℕ
int_of s = get_or s 0 0 + 256 * get_or s 1 0 + 65536 * get_or s 2 0 + 16777216 * get_or s 3 0

-- Value(type, colv): the value that a column holds. What the code leaves uninitialised is zero here.
unfoldable pub value_of : ValueType → Text → Outcome Value
value_of t colv = elim (last_byte colv) [
  | none ↦ undefined
  | some flag ↦ if flag == 1 then ok null_value else (elim t [
    | int ↦
        in_bounds (leb 4 (length colv))
        >> ok (record { type = int; str_val = []; i_val = int_of colv })
    | varchar ↦ ok (record { type = varchar; str_val = but_last colv; i_val = 0 })
    | col ↦ ok (record { type = col; str_val = []; i_val = 0 })
    | null_type ↦ ok (record { type = null_type; str_val = []; i_val = 0 })
  ])
]

-- An answer, or one of the exceptions TypeError and NoThisColumnError.
pub data Reply {ℓ} (A : Type ℓ) : Type ℓ where
  reply : A → Reply A
  type_error no_this_column : Reply A

abbrev pub int_text : ℕ → Text
int_text v = v % 256 ∷ v / 256 % 256 ∷ v / 65536 % 256 ∷ v / 16777216 % 256 ∷ 0 ∷ []

-- Value::toString. Its second test of "varchar" is the code's.
unfoldable pub to_string : Value → ValueType → Outcome (Reply Text)
to_string v req =
    if not (same_type v.type null_type) && not (same_type req v.type)
    then ok type_error
    else (elim v.type [
      | null_type ↦
          if same_type req varchar
          then ok (reply (1 ∷ []))
          else if same_type req varchar
          then ok (reply (0 ∷ 0 ∷ 0 ∷ 0 ∷ 1 ∷ []))
          else assert_failed
      | int ↦ ok (reply (int_text v.i_val))
      | varchar ↦ ok (reply (v.str_val ++ 0 ∷ []))
      | col ↦ assert_failed
    ])

pub data Op : Type 0 where
  no_op eq lt gt ne le ge like is_null is_not_null : Op

-- The vectors names, ops and exprs of a where clause, as one list.
pub record Condition : Type 0 where
  pub name : Text
  pub op : Op
  pub expr : Value

abbrev pub WhereClause : Type 0
WhereClause = List Condition

unfoldable pub become_compare : WhereClause → Text → Op → Value → WhereClause
become_compare w name op v = w ++ record { name = name; op = op; expr = v } ∷ []

unfoldable pub become_is_null : WhereClause → Text → WhereClause
become_is_null w name = w ++ record { name = name; op = is_null; expr = null_value } ∷ []

unfoldable pub become_is_not_null : WhereClause → Text → WhereClause
become_is_not_null w name = w ++ record { name = name; op = is_not_null; expr = null_value } ∷ []

unfoldable pub become_and : WhereClause → WhereClause → WhereClause
become_and a b = a ++ b

-- The operator that WhereClause::assign gives a condition whose two sides change places.
abbrev pub flip : Op → Op
flip lt = gt
flip gt = lt
flip le = ge
flip ge = le
flip no_op = no_op
flip eq = eq
flip ne = ne
flip like = like
flip is_null = is_null
flip is_not_null = is_not_null

-- The tests of the checker: a signed comparison of ints and one of strings. An operator that the code
-- does not test is met.
abbrev pub int_less : ℕ → ℕ → Bool
int_less a b = ltb ((a + 2 ^ 31) % 2 ^ 32) ((b + 2 ^ 31) % 2 ^ 32)

unfoldable pub int_meets : Op → ℕ → ℕ → Bool
int_meets eq a b = a == b
int_meets lt a b = int_less a b
int_meets gt a b = int_less b a
int_meets ne a b = not (a == b)
int_meets le a b = not (int_less b a)
int_meets ge a b = not (int_less a b)
int_meets o a b = true

unfoldable pub text_meets : (Text → Text → Bool) → Op → Text → Text → Bool
text_meets regex_match eq a b = same_text a b
text_meets regex_match lt a b = text_less a b
text_meets regex_match gt a b = text_less b a
text_meets regex_match ne a b = not (same_text a b)
text_meets regex_match le a b = not (text_less b a)
text_meets regex_match ge a b = not (text_less a b)
text_meets regex_match like a b = regex_match a b
text_meets regex_match o a b = true

-- The columns of a table: their names and types.
pub record Columns : Type 0 where
  pub name : Text
  pub col_name : List Text
  pub col_type : List ValueType

-- TableDescription::getOffset; none is its -1.
abbrev pub get_offset : Text → List Text → Option ℕ
get_offset name [] = none
get_offset name (c ∷ cs) =
    let rest = get_offset name cs in
    if same_text name c then some 0 else elim rest [ none ↦ none | some i ↦ some (i + 1) ]
