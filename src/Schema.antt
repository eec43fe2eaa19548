-- ===== src/Schema.antt =====
-- The description of a table in its page 0: what CREATE TABLE writes there in Statement::exec of
-- src/Parser/AST/Nodes.cpp, and what TableManager::getTableDescription reads, in
-- src/RecordManage/TableManager.cpp.
pub mod RoundTrip
pub mod Examples
use tinydbpp.Base.{
  ℕ, zero, suc, ◌+◌, ◌-◌, ◌*◌, ◌/◌, ◌%◌, ◌^◌, Bool, true, false, not, ◌&&◌, ◌||◌, Option, none,
  some, List, [], ◌∷◌, ◌++◌, ltb, leb, ◌==◌, if◌then◌else◌, length, Outcome, ok, undefined, ◌>>=◌,
  ◌>>◌, in_bounds,
}
use tinydbpp.Description.{Width, bytes, varying}
use tinydbpp.Query.{
  Text, same_text, ValueType, varchar, same_type, Field, create_index_name, check_primary_key,
}
use tinydbpp.Query.Clause.{type_text}

-- sprintf("%d") of an int that is not negative, which has ten digits at most.
abbrev pub digits : ℕ → ℕ → Text
digits zero n = []
digits (suc fuel) n =
    let rest = digits fuel (n / 10) in (if ltb n 10 then [] else rest) ++ (48 + n % 10) ∷ []

abbrev pub decimal : ℕ → Text
decimal n = digits 10 n

-- isspace
abbrev pub is_space : ℕ → Bool
is_space x = x == 32 || (leb 9 x && leb x 13)

-- Each word, with a space behind it.
abbrev pub spaced : List Text → Text
spaced [] = []
spaced (w ∷ ws) = w ++ 32 ∷ spaced ws

-- "1" and "0"
abbrev pub bit : Bool → Text
bit true = 49 ∷ []
bit false = 48 ∷ []

-- "-1" and "5"
abbrev pub pattern_text : ValueType → Text
pattern_text t = if same_type t varchar then 45 ∷ 49 ∷ [] else 53 ∷ []

abbrev pub columns_of : List Field → List Field
columns_of [] = []
columns_of (f ∷ fs) = if f.is_primary_key_stmt then columns_of fs else f ∷ columns_of fs

abbrev pub field_words : List Field → List Text
field_words [] = []
field_words (f ∷ fs) =
    f.name
    ∷ type_text f.type
    ∷ pattern_text f.type
    ∷ bit (f.is_key || not f.can_null)
    ∷ bit f.is_key
    ∷ decimal f.size
    ∷ field_words fs

unfoldable pub scheme : List Field → Text
scheme fs =
    let columns = columns_of fs in
    32 ∷ 32 ∷ 32 ∷ 32 ∷ spaced (decimal (length columns) ∷ field_words columns)

-- The indexes that are set up for the columns which are keys.
abbrev pub key_indexes : Text → List Field → List Text
key_indexes table [] = []
key_indexes table (f ∷ fs) =
    if f.is_key then create_index_name table f.name ∷ key_indexes table fs else key_indexes table fs

-- writeScheme: the text in page 0, with the zero behind it inside the page, and the new indexes.
unfoldable pub write_scheme : Text → List Field → Outcome (Text × List Text)
unfolding scheme
write_scheme table fs =
    let text = scheme (check_primary_key fs) in
    in_bounds (ltb (length text) 4096)
    >> ok (text, key_indexes table (columns_of (check_primary_key fs)))

-- The words that `>>` takes out of a stream: the first one, still open, and the ones behind it.
abbrev pub close : Text × List Text → List Text
close ([], ws) = ws
close ((c ∷ w), ws) = (c ∷ w) ∷ ws

abbrev pub open_words : Text → Text × List Text
open_words [] = ([], [])
open_words (x ∷ xs) =
    let rest = open_words xs in if is_space x then ([], close rest) else (x ∷ rest.0, rest.1)

abbrev pub words : Text → List Text
words s = close (open_words s)

-- An int read by `>>`, of digits only. What a stream that has failed leaves is not read.
abbrev pub value_from : ℕ → Text → Option ℕ
value_from acc [] = some acc
value_from acc (d ∷ ds) =
    let rest = value_from (acc * 10 + (d - 48)) ds in if leb 48 d && leb d 57 then rest else none

unfoldable pub read_int : Text → Outcome ℕ
read_int w = elim (value_from 0 w) [
  | none ↦ undefined
  | some n ↦ in_bounds (ltb n (2 ^ 31)) >> ok n
]

-- A pattern: "-1" or a number of bytes.
abbrev pub read_width : Text → Outcome Width
read_width w = if same_text w (45 ∷ 49 ∷ []) then ok varying else read_int w >>= λ n. ok (bytes n)

-- What is read of a column: col_name, col_type, pattern, col_not_null, col_unique and col_width.
pub record Described : Type 0 where
  pub name : Text
  pub type : Text
  pub pattern : Width
  pub not_null : ℕ
  pub unique : ℕ
  pub width : ℕ

unfoldable pub read_columns : ℕ → List Text → Outcome (List Described)
unfolding read_int
read_columns zero ws = ok []
read_columns (suc num) (name ∷ t ∷ pat ∷ b1 ∷ b2 ∷ w ∷ ws) = do
  pattern ← read_width pat
  not_null ← read_int b1
  unique ← read_int b2
  width ← read_int w
  rest ← read_columns num ws
  ok (
      record {
        name = name;
        type = t;
        pattern = pattern;
        not_null = not_null;
        unique = unique;
        width = width;
      }
      ∷ rest)
read_columns (suc num) _ = undefined

-- parse_func of getTableDescription, without its look for index files.
unfoldable pub parse_scheme : Text → Outcome (List Described)
unfolding read_int read_columns
parse_scheme text = elim (words text) [
  | [] ↦ undefined
  | w ∷ ws ↦ read_int w >>= λ num. read_columns num ws
]
