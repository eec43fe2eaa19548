-- ===== src/Statement/Values.antt =====
-- The bytes that an insert statement makes of a value, and the constructor of Value on them.
use tinydbpp.Base.{ℕ, ◌^◌, ◌<◌, ◌≡◌, refl, ap, Option, none, some, arith, Outcome, ok, ◌>>=◌}
use tinydbpp.Description.{Width, bytes, varying}
use tinydbpp.Query.{Text, ValueType, int, varchar, Value, null_value, value_of}
use tinydbpp.Query.Values.{int_value, varchar_value, last-snoc, but_last-snoc}
use tinydbpp.Statement.{item_value}

-- The values that a column which CREATE TABLE made can be given: an int has five bytes, and a string
-- varies.
pub data Given : ValueType → Width → Value → Type 0 where
  given_int : (n : ℕ) → n < 2 ^ 32 → Given int (bytes 5) (int_value n)
  given_varchar : (s : Text) → Given varchar varying (varchar_value s)
  null_int : Given int (bytes 5) null_value
  null_varchar : Given varchar varying null_value

abbrev pub read_back : ValueType → Width → Value → Outcome (Option Value)
unfolding item_value value_of
read_back t w v = do
  made ← item_value t w v
  elim made [ none ↦ ok none | some s ↦ value_of t s >>= λ x. ok (some x) ]

-- The bytes that an insert statement makes of a value for a column of ints of five bytes or of
-- strings, NULL included, are read back by the constructor of `Value` as the value.
pub item_value-value_of :
    (t : ValueType) (w : Width) (v : Value) → Given t w v → read_back t w v ≡ ok (some v)
unfolding item_value value_of
item_value-value_of t w v (given_int n small) = ap (λ m. ok (some (int_value m))) (omega arith)
item_value-value_of t w v (given_varchar s) = rw (last-snoc s 0, but_last-snoc s 0) refl
item_value-value_of t w v null_int = refl
item_value-value_of t w v null_varchar = refl
