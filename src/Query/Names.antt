-- ===== src/Query/Names.antt =====
-- Qualified names and the names of index files.
use tinydbpp.Base.{
  ℕ, suc, ◌+◌, ◌-◌, ◌≡◌, refl, ◌∙◌, ap, ap₂, Bool, true, false, Bool-cases, inl, inr, subst, sym,
  Option, none, some, [], ◌∷◌, ◌++◌, ltb, ◌==◌, ==_refl, if◌then◌else◌, length, length-append, take,
  drop, take-append, arith,
}
use tinydbpp.Query.{Text, same_text, dot, find_dot, split, create_index_name, parse_index}

pub same_text_refl : (s : Text) → same_text s s ≡ true
same_text_refl [] = refl
same_text_refl (x ∷ xs) = rw (==_refl x) (same_text_refl xs)

pub same_text_eq : (s t : Text) → same_text s t ≡ true → s ≡ t
same_text_eq [] [] e = refl
same_text_eq [] (y ∷ ys) e = absurd (cc)
same_text_eq (x ∷ xs) [] e = absurd (cc)
same_text_eq (x ∷ xs) (y ∷ ys) e =
    let first : x ≡ y = ground (arith, e) in ap₂ ◌∷◌ first (same_text_eq xs ys (ground (arith, e)))

pub same_text_swap : (s t : Text) → same_text s t ≡ false → same_text t s ≡ false
same_text_swap s t h = elim (Bool-cases (same_text t s)) [
  | inr other ↦ other
  | inl same ↦
      absurd
        (cc (subst (λ x. same_text x t ≡ false) (sym (same_text_eq t s same)) h, same_text_refl t))
]

-- One step of the search, for what the search finds in the rest with and without the end.
find_step :
    (b : Bool) (o o' : Option ℕ) (n : ℕ)
    → (if b then some 0 else elim o [ none ↦ none | some i ↦ some (i + 1) ]) ≡ none
    → (o ≡ none → o' ≡ some n)
    → (if b then some 0 else elim o' [ none ↦ none | some i ↦ some (i + 1) ]) ≡ some (suc n)
find_step true o o' n h k = absurd (cc)
find_step false (some i) o' n h k = absurd (cc)
find_step false none o' n h k = rw (k refl) (ap some (omega arith))

find_dot-append :
    (table rest : Text)
    → find_dot table ≡ none
    → find_dot (table ++ dot ∷ rest) ≡ some (length table)
find_dot-append [] rest e = refl
find_dot-append (x ∷ xs) rest e =
    find_step (x == dot) (find_dot xs) (find_dot (xs ++ dot ∷ rest)) (length xs) e
      (find_dot-append xs rest)

split_at :
    (o : Option ℕ) (pos : ℕ) (full default_table : Text)
    → o ≡ some pos
    → ◌≡◌ {A = Text × Text}
        (elim o [ none ↦ (default_table, full) | some p ↦ (take p full, drop (p + 1) full) ])
        (take pos full, drop (pos + 1) full)
split_at o pos full default_table e = rw e

drop_after : (table rest : Text) → drop (length table + 1) (table ++ dot ∷ rest) ≡ rest
drop_after [] rest = refl
drop_after (x ∷ xs) rest =
    let one : suc (length xs) + 1 ≡ suc (length xs + 1) = omega arith in rw one (drop_after xs rest)

-- `ColList::split` of a table without a dot, a dot and a column gives the table and the column.
pub split-append :
    (table column default_table : Text)
    → find_dot table ≡ none
    → split (table ++ dot ∷ column) default_table ≡ (table, column)
unfolding split
split-append table column default_table e =
    split_at (find_dot (table ++ dot ∷ column)) (length table) (table ++ dot ∷ column) default_table
      (find_dot-append table column e)
    ∙ (ap₂ (λ t c. (t, c)) (take-append table (dot ∷ column)) (drop_after table column))

take_all : (s : Text) → take (length s) s ≡ s
take_all [] = refl
take_all (x ∷ xs) = ap (λ ys. x ∷ ys) (take_all xs)

-- `parseIndex` finds the column in the index name that `createIndexName` makes of a table and a
-- column.
pub parse_index-create_index_name :
    (table column : Text) → parse_index (create_index_name table column) table ≡ some column
unfolding parse_index create_index_name
parse_index-create_index_name table column =
    let size : length (table ++ dot ∷ column) ≡ length table + (length column + 1) =
      omega (arith, length-append table (dot ∷ column)) in
    let longer : ltb (length table) (length table + (length column + 1)) ≡ true = ground arith in
    let left : length table + (length column + 1) - (length table + 1) ≡ length column =
      omega arith in
    rw
      (
        size,
        longer,
        take-append table (dot ∷ column),
        same_text_refl table,
        drop_after table column,
        left,
      )
      (ap some (take_all column))
