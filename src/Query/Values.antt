-- ===== src/Query/Values.antt =====
-- Values as the bytes of a column.
use tinydbpp.Base.{
  ℕ, ◌^◌, ◌<◌, ◌≡◌, refl, ◌∙◌, ap, Option, none, some, [], ◌∷◌, ◌++◌, arith, Outcome, ok, undefined,
  ◌>>=◌, if◌then◌else◌, ◌==◌,
}
use tinydbpp.Query.{
  Text, ValueType, int, varchar, Value, null_value, value_of, to_string, Reply, reply, type_error,
  no_this_column, last_byte, but_last,
}

pub last-snoc : (s : Text) (b : ℕ) → last_byte (s ++ b ∷ []) ≡ some b
last-snoc [] b = refl
last-snoc (x ∷ []) b = refl
last-snoc (x ∷ y ∷ ys) b = last-snoc (y ∷ ys) b

pub but_last-snoc : (s : Text) (b : ℕ) → but_last (s ++ b ∷ []) ≡ s
but_last-snoc [] b = refl
but_last-snoc (x ∷ []) b = refl
but_last-snoc (x ∷ y ∷ ys) b = ap (λ zs. x ∷ zs) (but_last-snoc (y ∷ ys) b)

-- A value as toString writes it for a column of its type, read back by the constructor.
abbrev pub reread : ValueType → Value → Outcome (Reply Value)
unfolding to_string value_of
reread t v = to_string v t >>= (λ r. elim r [
  | reply s ↦ value_of t s >>= (λ w. ok (reply w))
  | type_error ↦ ok type_error
  | no_this_column ↦ ok no_this_column
])

abbrev pub int_value : ℕ → Value
int_value n = record { type = int; str_val = []; i_val = n }

abbrev pub varchar_value : Text → Value
varchar_value s = record { type = varchar; str_val = s; i_val = 0 }

-- The values that a column of a type can hold, but for NULL in a column of ints.
pub data Holdable : ValueType → Value → Type 0 where
  int_column : (n : ℕ) → n < 2 ^ 32 → Holdable int (int_value n)
  varchar_column : (s : Text) → Holdable varchar (varchar_value s)
  null_column : Holdable varchar null_value

-- An int of 32 bits, a string, or NULL in a column of strings is read back by the constructor of
-- `Value` from what `toString` writes.
pub value_of-to_string : (t : ValueType) (v : Value) → Holdable t v → reread t v ≡ ok (reply v)
unfolding to_string value_of
value_of-to_string t v (int_column n small) = ap (λ m. ok (reply (int_value m))) (omega arith)
value_of-to_string t v (varchar_column s) =
    let back = but_last-snoc s 0 in
    flag_zero (last_byte (s ++ 0 ∷ [])) (s ++ 0 ∷ []) (last-snoc s 0)
    ∙ ap (λ b. ok (reply (varchar_value b))) back
  where
    flag_zero :
        (o : Option ℕ) (c : Text)
        → o ≡ some 0
        → ((elim o [
          | none ↦ undefined
          | some flag ↦
              if flag == 1
              then ok null_value
              else ok (record { type = varchar; str_val = but_last c; i_val = 0 })
        ])
            >>= (λ w. ok (reply w)))
          ≡ ok (reply (varchar_value (but_last c)))
    flag_zero o c e = rw e refl
value_of-to_string t v null_column = refl
