-- ===== src/Statement/Next.antt =====
-- The table that getNextAssignTableName gives, and the tables that dfs has left after it.
use tinydbpp.Base.{
  ◌≤◌, ◌<◌, ◌≡◌, refl, sym, ◌∙◌, ap, subst, Bool, true, false, ◌||◌, Bool-cases, inl, inr, Option,
  List, [], ◌∷◌, ◌⊎◌, length, Outcome, ok, arith, ◌>>=◌,
}
use tinydbpp.Query.Names.{same_text_refl}
use tinydbpp.Query.{
  Text, same_text, col, same_type, Reply, reply, type_error, no_this_column, Condition, WhereClause,
}
use tinydbpp.Statement.{
  NextTable, Known, Search, found, go_on, is_eq, value_condition, column_condition,
  search_conditions, search_tables, next_table, other_tables,
}
use tinydbpp.Table.Allowed.{>>=-ok}

-- The tables that a search can end with: the one it looks at, or that of rank 2.
EndsWith : Text → Text → Search → Type 0
EndsWith name rank2 (found n) = n.table ≡ name
EndsWith name rank2 (go_on r) = (r ≡ name) ⊎ (r ≡ rank2)

value_condition-EndsWith :
    (tables : Text → Option Known) (default_table name rank2 : Text) (c : Condition) (s : Search)
    → value_condition tables default_table name rank2 c ≡ ok (reply s)
    → EndsWith name rank2 s
unfolding value_condition EndsWith
value_condition-EndsWith tables default_table name rank2 c (found n) e = ground arith
value_condition-EndsWith tables default_table name rank2 c (go_on r) e = ground arith

column_condition-name :
    (tables : Text → Option Known) (default_table name rank2 : Text) (c : Condition) (r : Text)
    → column_condition tables default_table name rank2 c ≡ ok r
    → (r ≡ name) ⊎ (r ≡ rank2)
unfolding column_condition
column_condition-name tables default_table name rank2 c r e = ground arith

-- A table of rank 2 that was found on the way.
EndsWith-from :
    (name rank2 r : Text)
    → (r ≡ name) ⊎ (r ≡ rank2)
    → (s : Search) → EndsWith name r s
    → EndsWith name rank2 s
unfolding EndsWith
EndsWith-from name rank2 r h (found n) e = e
EndsWith-from name rank2 r h (go_on q) (inl a) = inl a
EndsWith-from name rank2 r (inl b) (go_on q) (inr a) = inl (a ∙ b)
EndsWith-from name rank2 r (inr b) (go_on q) (inr a) = inr (a ∙ b)

-- How a search goes on after a condition on a value.
abbrev continued : Reply Search → (Text → Outcome (Reply Search)) → Outcome (Reply Search)
continued one rest = elim one [
  | type_error ↦ ok type_error
  | no_this_column ↦ ok no_this_column
  | reply (found n) ↦ ok (reply (found n))
  | reply (go_on r) ↦ rest r
]

continued-reply :
    (one : Reply Search) (rest : Text → Outcome (Reply Search)) (s : Search)
    → continued one rest ≡ ok (reply s)
    → ((n : NextTable) × (one ≡ reply (found n)) × (s ≡ found n))
      ⊎ ((r : Text) × (one ≡ reply (go_on r)) × (rest r ≡ ok (reply s)))
continued-reply (reply (found n)) rest s e = inl (n, refl, ground arith)
continued-reply (reply (go_on r)) rest s e = inr (r, refl, e)
continued-reply type_error rest s e = ground arith
continued-reply no_this_column rest s e = ground arith

search_conditions-EndsWith :
    (tables : Text → Option Known) (default_table name rank2 : Text) (w : WhereClause) (s : Search)
    → search_conditions tables default_table name rank2 w ≡ ok (reply s)
    → EndsWith name rank2 s
unfolding search_conditions EndsWith
search_conditions-EndsWith tables default_table name rank2 [] (found n) e = ground arith
search_conditions-EndsWith tables default_table name rank2 [] (go_on r) e = ground arith
search_conditions-EndsWith tables default_table name rank2 (c ∷ cs) s e =
    let rest = λ (r : Text). search_conditions tables default_table name r cs in
    let all = search_conditions tables default_table name rank2 (c ∷ cs) in
    let skip : is_eq c.op ≡ false → all ≡ rest rank2 =
      λ other. rw (search_conditions, other) refl in
    let at_column : is_eq c.op ≡ true
        → same_type c.expr.type col ≡ true
        → all ≡ (column_condition tables default_table name rank2 c >>= rest) =
      λ equal column. rw (search_conditions, equal, column) refl in
    let at_value : is_eq c.op ≡ true
        → same_type c.expr.type col ≡ false
        → all ≡ (value_condition tables default_table name rank2 c >>= λ one. continued one rest) =
      λ equal value. rw (search_conditions, equal, value) refl in
    let continue = λ (r : Text) (h : (r ≡ name) ⊎ (r ≡ rank2)) (e' : rest r ≡ ok (reply s)).
      EndsWith-from name rank2 r h s
        (search_conditions-EndsWith tables default_table name r cs s e') in
    elim (Bool-cases (is_eq c.op)) [
      | inr other ↦ continue rank2 (inr refl) (sym (skip other) ∙ e)
      | inl equal ↦ elim (Bool-cases (same_type c.expr.type col)) [
        | inl column ↦
            let (r, step, e') =
              >>=-ok (column_condition tables default_table name rank2 c) rest (reply s)
                (sym (at_column equal column) ∙ e) in
            continue r (column_condition-name tables default_table name rank2 c r step) e'
        | inr value ↦
            let (one, step, e') =
              >>=-ok (value_condition tables default_table name rank2 c) (λ one. continued one rest)
                (reply s) (sym (at_value equal value) ∙ e) in
            elim (continued-reply one rest s e') [
              | inl (n, is, same) ↦ subst (EndsWith name rank2) (sym same) (
                  value_condition-EndsWith tables default_table name rank2 c (found n)
                    (step ∙ ap ok is))
              | inr (r, is, later) ↦
                  continue r
                    (value_condition-EndsWith tables default_table name rank2 c (go_on r)
                      (step ∙ ap ok is))
                    later
            ]
      ]
    ]

-- The name is in this list.
abbrev pub named : Text → List Text → Bool
named name [] = false
named name (n ∷ ns) = same_text n name || named name ns

named_later : (name n : Text) (ns : List Text) → named name ns ≡ true → named name (n ∷ ns) ≡ true
named_later name n ns h = ground arith

-- How the search goes on after a table.
abbrev next_search : Reply Search → (Text → Outcome (Reply NextTable)) → Outcome (Reply NextTable)
next_search one rest = elim one [
  | type_error ↦ ok type_error
  | no_this_column ↦ ok no_this_column
  | reply (found n) ↦ ok (reply n)
  | reply (go_on r) ↦ rest r
]

next_search-reply :
    (one : Reply Search) (rest : Text → Outcome (Reply NextTable)) (n : NextTable)
    → next_search one rest ≡ ok (reply n)
    → (one ≡ reply (found n)) ⊎ ((r : Text) × (one ≡ reply (go_on r)) × (rest r ≡ ok (reply n)))
next_search-reply (reply (found m)) rest n e = inl (ground arith)
next_search-reply (reply (go_on r)) rest n e = inr (r, refl, e)
next_search-reply type_error rest n e = ground arith
next_search-reply no_this_column rest n e = ground arith

named_here : (name n : Text) (ns : List Text) → name ≡ n → named name (n ∷ ns) ≡ true
named_here name n ns e =
    subst (λ m. (same_text m name || named name ns) ≡ true) e
      (ap (λ b. b || named name ns) (same_text_refl name))

search_tables-named :
    (tables : Text → Option Known) (default_table rank2 : Text) (w : WhereClause)
    (names : List Text) (n : NextTable)
    → search_tables tables default_table rank2 w names ≡ ok (reply n)
    → (n.table ≡ rank2) ⊎ (named n.table names ≡ true)
unfolding search_tables EndsWith
search_tables-named tables default_table rank2 w [] n e = inl (ground arith)
search_tables-named tables default_table rank2 w (name ∷ names) n e =
    let rest = λ (r : Text). search_tables tables default_table r w names in
    let (one, step, e') =
      >>=-ok (search_conditions tables default_table name rank2 w) (λ one. next_search one rest)
        (reply n) e in
    let ends = search_conditions-EndsWith tables default_table name rank2 w in
    elim (next_search-reply one rest n e') [
      | inl is ↦ inr (named_here n.table name names (ends (found n) (step ∙ ap ok is)))
      | inr (r, is, later) ↦ elim (search_tables-named tables default_table r w names n later) [
        | inr known ↦ inr (named_later n.table name names known)
        | inl same ↦ elim (ends (go_on r) (step ∙ ap ok is)) [
          | inl here ↦ inr (named_here n.table name names (same ∙ here))
          | inr before ↦ inl (same ∙ before)
        ]
      ]
    ]

other_tables-length :
    (name : Text) (names : List Text) → length (other_tables name names) ≤ length names
other_tables-length name [] = omega arith
other_tables-length name (n ∷ ns) = ground (arith, other_tables-length name ns)

other_tables-shorter :
    (name : Text) (names : List Text)
    → named name names ≡ true
    → length (other_tables name names) < length names
other_tables-shorter name [] h = ground arith
other_tables-shorter name (n ∷ ns) h =
    ground (arith, other_tables-length name ns, other_tables-shorter name ns)

-- A table that `getNextAssignTableName` returns is one of those that it was given, and with its
-- name taken out fewer are left.
pub next_table-shorter :
    (tables : Text → Option Known) (w : WhereClause) (names : List Text) (n : NextTable)
    → next_table tables w names ≡ ok (reply n)
    → (named n.table names ≡ true) × (length (other_tables n.table names) < length names)
unfolding next_table
next_table-shorter tables w [] n e = ground arith
next_table-shorter tables w (name ∷ names) n e =
    let known : named n.table (name ∷ names) ≡ true =
      elim (search_tables-named tables name name w (name ∷ names) n e) [
        | inl first ↦ named_here n.table name names first
        | inr known ↦ known
      ] in
    (known, other_tables-shorter n.table (name ∷ names) known)
