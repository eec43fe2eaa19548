-- ===== src/Statement/Arrays.antt =====
-- The arrays of a select statement's result.
use tinydbpp.Base.{
  ℕ, zero, suc, ◌+◌, ◌<◌, ◌≡◌, refl, ◌∙◌, ap, subst, Bool, false, Option, some, List, [], ◌∷◌,
  length, get_elem?, get_or, if◌then◌else◌, arith, Bool-cases, inl, inr, ok,
}
use tinydbpp.Query.{Text, same_text, col, same_type, Value, null_value}
use tinydbpp.Query.Names.{same_text_refl, same_text_eq, same_text_swap}
use tinydbpp.Statement.Next.{named}
use tinydbpp.Statement.Result.{
  JsonValue, json_value, json_column, Json, put, put_columns, backwards, assigned_cols,
  select_result, array_of, json_of,
}

-- No name is repeated.
abbrev pub NoRepeats : List Text → Type 0
NoRepeats [] = Unit {0}
NoRepeats (n ∷ ns) = (named n ns ≡ false) × NoRepeats ns

-- The values are ints, strings or NULL.
abbrev pub AllPlain : List Value → Type 0
AllPlain [] = Unit {0}
AllPlain (v ∷ vs) = (same_type v.type col ≡ false) × AllPlain vs

-- Every answer has so many values, all plain.
abbrev pub AllRows : ℕ → List (List Value) → Type 0
AllRows n [] = Unit {0}
AllRows n (item ∷ ans) = (length item ≡ n) × AllPlain item × AllRows n ans

abbrev pub column_of : ℕ → List (List Value) → List JsonValue
column_of j [] = []
column_of j (item ∷ ans) = json_of (get_or item j null_value) ∷ column_of j ans

json_value-json_of : (v : Value) → same_type v.type col ≡ false → json_value v ≡ ok (json_of v)
unfolding json_value
json_value-json_of v plain = ground (arith, plain)

value_at :
    (item : List Value) (j : ℕ)
    → j < length item
    → AllPlain item
    → (get_elem? item j ≡ some (get_or item j null_value))
      × (same_type (get_or item j null_value).type col ≡ false)
value_at [] j h p = absurd (omega arith)
value_at (v ∷ vs) zero h p = (refl, p.0)
value_at (v ∷ vs) (suc j) h p = value_at vs j (omega arith) p.1

json_column-column_of :
    (n j : ℕ) (ans : List (List Value))
    → j < n
    → AllRows n ans
    → json_column j ans ≡ ok (column_of j ans)
unfolding json_column
json_column-column_of n j [] h rows = refl
json_column-column_of n j (item ∷ ans) h rows =
    let (at, plain) = value_at item j (omega (arith, rows.0)) rows.1 in
    rw
      (
        json_column,
        at,
        json_value-json_of (get_or item j null_value) plain,
        json_column-column_of n j ans h rows.2,
      )
      refl

array_of-put :
    (name n : Text) (a : List JsonValue) (es : Json)
    → array_of n (put name a es) ≡ (if same_text name n then some a else array_of n es)
unfolding put
array_of-put name n a [] = refl
array_of-put name n a (e ∷ es) = elim (Bool-cases (same_text e.0 name)) [
  | inl same ↦
      rw (same, same_text_eq e.0 name same)
        (elim (Bool-cases (same_text name n)) [
          | inl found ↦ rw found refl
          | inr missed ↦ rw missed refl
        ])
  | inr other ↦
      rw (other, array_of-put name n a es)
        (elim (Bool-cases (same_text e.0 n)) [
          | inl found ↦
              let differs : same_text name n ≡ false =
                same_text_swap n name
                  (subst (λ x. same_text x name ≡ false) (same_text_eq e.0 n found) other) in
              rw (found, differs) refl
          | inr missed ↦ rw missed refl
        ])
]

-- What the loop over the columns leaves.
record Arrays (i : ℕ) (names : List Text) (ans : List (List Value)) (acc ret : Json) : Type 0 where
  others : (n : Text) → named n names ≡ false → array_of n ret ≡ array_of n acc
  columns :
      (j : ℕ) (name : Text)
      → get_elem? names j ≡ some name
      → array_of name ret ≡ some (column_of (i + j) ans)

column_at :
    (name : Text) (names : List Text) (ans : List (List Value)) (acc ret : Json) (i : ℕ)
    → named name names ≡ false
    → Arrays (i + 1) names ans (put name (column_of i ans) acc) ret
    → (j : ℕ) (m : Text) → get_elem? (name ∷ names) j ≡ some m
    → array_of m ret ≡ some (column_of (i + j) ans)
column_at name names ans acc ret i once r zero m e =
    let same : name ≡ m = some_name e in
    subst (λ x. array_of x ret ≡ some (column_of (i + 0) ans)) same
      (r.others name once
        ∙ array_of-put name name (column_of i ans) acc
        ∙ rw (same_text_refl name) (ap (λ k. some (column_of k ans)) (omega arith)))
  where
    some_name : {a b : Text} → some a ≡ some b → a ≡ b
    some_name q = cc (q)
column_at name names ans acc ret i once r (suc j) m e =
    r.columns j m e ∙ ap (λ k. some (column_of k ans)) (omega arith)

put_columns-Arrays :
    (n i : ℕ) (names : List Text) (ans : List (List Value)) (acc : Json)
    → i + length names ≡ n
    → NoRepeats names
    → AllRows n ans
    → (ret : Json) × (put_columns i names ans acc ≡ ok ret) × Arrays i names ans acc ret
unfolding put_columns
put_columns-Arrays n i [] ans acc size once rows =
    (acc, refl, record { others = λ m h. refl; columns = λ j name e. absurd (cc) })
put_columns-Arrays n i (name ∷ names) ans acc size once rows =
    let now = json_column-column_of n i ans (omega arith) rows in
    let a = column_of i ans in
    let (ret, runs, rest) =
      put_columns-Arrays n (i + 1) names ans (put name a acc) (omega arith) once.1 rows in
    (
      ret,
      rw (now, runs) refl,
      record {
        others = λ m h.
            rest.others m (ground (arith, h))
            ∙ array_of-put name m a acc
            ∙ (let z : same_text name m ≡ false = ground (arith, h) in rw z refl);
        columns = column_at name names ans acc ret i once.0 rest;
      },
    )

-- Where the assigned tables give the names of the columns, none of them twice, and every answer of
-- a select statement has as many values, each an int, a string or NULL, the result is an object
-- that has under the name of each column the array of the answers' values in that place, in their
-- order.
pub select_result-column_of :
    (tables : Text → Option (List Text)) (is_all : Bool) (cols : List Text) (default_table : Text)
    (ans : List (List Value)) (assigned names : List Text) (j : ℕ) (name : Text)
    → assigned_cols tables is_all cols default_table (backwards assigned) ≡ ok names
    → NoRepeats names
    → AllRows (length names) ans
    → get_elem? names j ≡ some name
    → (ret : Json) × (select_result tables is_all cols default_table ans assigned ≡ ok ret)
      × (array_of name ret ≡ some (column_of j ans))
unfolding select_result
select_result-column_of tables is_all cols default_table ans assigned names j name cs once rows e =
    let (ret, runs, arrays) =
      put_columns-Arrays (length names) 0 names ans [] (omega arith) once rows in
    (
      ret,
      rw (cs, runs) refl,
      arrays.columns j name e ∙ ap (λ k. some (column_of k ans)) (omega arith),
    )
