-- ===== src/Table/Allowed.antt =====
-- insertInTable: what holds of the values that it accepts.
use tinydbpp.Base.{
  ℕ, ◌+◌, ◌≡◌, ◌≢◌, ◌⊎◌, refl, ◌∙◌, ap, subst, Bool, true, false, not, ◌&&◌, ◌||◌, inl, inr, Option,
  none, some, List, [], ◌∷◌, ◌==◌, ==_iff, if◌then◌else◌, get_elem?, Outcome, ok, assert_failed,
  undefined, out_of_fuel, arith, ◌>>=◌,
}
use tinydbpp.Description.{Item}
use tinydbpp.Query.{Text, same_text, last_byte}
use tinydbpp.Query.Clause.{elem, flag_of}
use tinydbpp.Table.{
  Indexes, Column, Table, gender, is_gender, select_use_index, accepts_value, accepts_from,
  insert_in_table,
}

-- A step that ends with a value has had a value before.
pub >>=-ok :
    {A B : Type 0} (m : Outcome A) (k : A → Outcome B) (b : B)
    → (m >>= k) ≡ ok b
    → (a : A) × (m ≡ ok a) × (k a ≡ ok b)
>>=-ok (ok a) k b e = (a, refl, e)
>>=-ok assert_failed k b e = ground arith
>>=-ok undefined k b e = ground arith
>>=-ok out_of_fuel k b e = ground arith

abbrev no_other : List Item → Outcome Bool
no_other [] = ok true
no_other (s ∷ ss) = ok false

-- The last checks of a column, of the flag of its value and of what its index finds.
abbrev flags : Bool → Bool → Bool → Outcome ℕ → Outcome (List Item) → Outcome Bool
flags not_null unique has_index flag same = do
  null ← if not_null || unique then flag else ok 0
  if not_null && null == 1
      then ok false
      else if unique && not (null == 1) && has_index
      then same >>= (λ found. elim found [ [] ↦ ok true | s ∷ ss ↦ ok false ])
      else ok true

flags_not_null :
    (unique has_index : Bool) (flag : Outcome ℕ) (same : Outcome (List Item))
    → flags true unique has_index flag same ≡ ok true
    → (b : ℕ) × (flag ≡ ok b) × (b ≢ 1)
flags_not_null unique has_index (ok b) same e = (b, refl, ground arith)
flags_not_null unique has_index assert_failed same e = ground arith
flags_not_null unique has_index undefined same e = ground arith
flags_not_null unique has_index out_of_fuel same e = ground arith

none_same :
    (same : Outcome (List Item))
    → (same >>= λ found. elim found [ [] ↦ ok true | s ∷ ss ↦ ok false ]) ≡ ok true
    → same ≡ ok []
none_same (ok []) e = refl
none_same (ok (s ∷ ss)) e = ground arith
none_same assert_failed e = ground arith
none_same undefined e = ground arith
none_same out_of_fuel e = ground arith

null_or_none :
    (not_null null : Bool) (same : Outcome (List Item))
    → (if not_null && null
        then ok false
        else if not null && true
        then same >>= (λ found. elim found [ [] ↦ ok true | s ∷ ss ↦ ok false ])
        else ok true)
      ≡ ok true
    → (null ≡ true) ⊎ (same ≡ ok [])
null_or_none not_null true same e = inl refl
null_or_none true false same e = inr (none_same same e)
null_or_none false false same e = inr (none_same same e)

flags_unique :
    (not_null : Bool) (flag : Outcome ℕ) (same : Outcome (List Item))
    → flags not_null true true flag same ≡ ok true
    → (flag ≡ ok 1) ⊎ (same ≡ ok [])
flags_unique true (ok b) same e = elim (null_or_none true (b == 1) same e) [
  | inl one ↦ inl (ap ok ((==_iff b 1).0 one))
  | inr empty ↦ inr empty
]
flags_unique false (ok b) same e = elim (null_or_none false (b == 1) same e) [
  | inl one ↦ inl (ap ok ((==_iff b 1).0 one))
  | inr empty ↦ inr empty
]
flags_unique true assert_failed same e = ground arith
flags_unique true undefined same e = ground arith
flags_unique true out_of_fuel same e = ground arith
flags_unique false assert_failed same e = ground arith
flags_unique false undefined same e = ground arith
flags_unique false out_of_fuel same e = ground arith

-- The first checks end with true where the last ones are reached.
flags_after :
    (known : Outcome Bool) (rest : Outcome Bool)
    → (known >>= λ k. if not k then ok false else rest) ≡ ok true
    → (known ≡ ok true) × (rest ≡ ok true)
flags_after (ok true) rest e = (refl, e)
flags_after (ok false) rest e = ground arith
flags_after assert_failed rest e = ground arith
flags_after undefined rest e = ground arith
flags_after out_of_fuel rest e = ground arith

then_or_false : (b : Bool) (m : Outcome Bool) → (if b then m else ok false) ≡ ok true → b ≡ true
then_or_false true m e = refl
then_or_false false m e = ground arith

some_accepted :
    {A : Type 0} (b : Bool) (m : Outcome (Option A)) (u : A)
    → (if not b then ok none else m) ≡ ok (some u)
    → b ≡ true
some_accepted true m u e = refl
some_accepted false m u e = ground arith

of_flag : (v : Text) (b : ℕ) → flag_of v ≡ ok b → last_byte v ≡ some b
of_flag v b e = ground arith

module _ {I : Type 0} (indexes : Indexes I) (hash : Text → ℕ) where
  -- A gender is M or F, a value that must not be null is not, and one that must be unique is not
  -- found by its index.
  pub record Allowed (t : Table I) (i : ℕ) (c : Column) (v : Text) : Type 0 where
    pub gender : same_text c.name gender ≡ true → is_gender v ≡ true
    pub not_null : c.not_null ≡ true → (b : ℕ) × (last_byte v ≡ some b) × (b ≢ 1)
    pub unique :
        c.unique ≡ true
        → c.has_index ≡ true
        → (last_byte v ≡ some 1) ⊎ (select_use_index indexes hash t i v (λ item. ok true) ≡ ok [])

  accepts_value-Allowed :
      (tables : Text → Option (Table I)) (t : Table I) (i : ℕ) (c : Column) (v : Text)
      → accepts_value indexes hash tables t i c v ≡ ok true
      → Allowed t i c v
  unfolding accepts_value
  accepts_value-Allowed tables t i c v e =
      let same = select_use_index indexes hash t i v (λ item. ok true) in
      let (known, rest) =
        flags_after _ (flags c.not_null c.unique c.has_index (flag_of v) same) e in
      let sex = then_or_false (not (same_text c.name gender) || is_gender v) _ known in
      record {
        gender = λ g. subst (λ b. (not b || is_gender v) ≡ true) g sex;
        not_null = λ n.
            let (b, flag, other) =
              flags_not_null c.unique c.has_index (flag_of v) same
                (subst (λ x. flags x c.unique c.has_index (flag_of v) same ≡ ok true) n rest) in
            (b, of_flag v b flag, other);
        unique = λ u h.
            elim (flags_unique c.not_null (flag_of v) same (
              subst (λ x. flags c.not_null x true (flag_of v) same ≡ ok true) u
                (subst (λ x. flags c.not_null c.unique x (flag_of v) same ≡ ok true) h rest))) [
                  | inl flag ↦ inl (of_flag v 1 flag)
                  | inr none_found ↦ inr none_found
                ];
      }

  -- Each of these columns has a value of the item that is allowed.
  abbrev pub AllAllowed : Table I → Item → ℕ → List Column → Type 0
  AllAllowed t item i [] = Unit {0}
  AllAllowed t item i (c ∷ cs) =
      ((v : Text) × (get_elem? item i ≡ some v) × Allowed t i c v) × AllAllowed t item (i + 1) cs

  of_elem : (item : Item) (i : ℕ) (v : Text) → elem item i ≡ ok v → get_elem? item i ≡ some v
  of_elem item i v e = ground arith

  accepts_from-AllAllowed :
      (tables : Text → Option (Table I)) (t : Table I) (item : Item) (i : ℕ) (cs : List Column)
      → accepts_from indexes hash tables t item i cs ≡ ok true
      → AllAllowed t item i cs
  unfolding accepts_from
  accepts_from-AllAllowed tables t item i [] e = tt
  accepts_from-AllAllowed tables t item i (c ∷ cs) e =
      let (v, at, e1) = >>=-ok (elem item i) _ true e in
      let (good, passes, e2) = >>=-ok (accepts_value indexes hash tables t i c v) _ true e1 in
      let yes = then_or_false good _ e2 in
      (
        (v, of_elem item i v at, accepts_value-Allowed tables t i c v (passes ∙ ap ok yes)),
        accepts_from-AllAllowed tables t item (i + 1) cs (
            subst
              (λ b.
                (if b then accepts_from indexes hash tables t item (i + 1) cs else ok false)
                ≡ ok true)
              yes e2),
      )

  -- Where `insertInTable` returns true, every column has a value in the item; a column named gender
  -- has M or F, one that must not be null has a value that is not, and for one that is unique and
  -- has an index, and whose value is not null, `selectUseIndex` found no item with that value
  -- before.
  pub insert_in_table-AllAllowed :
      (tables : Text → Option (Table I)) (t : Table I) (item : Item) (u : Table I)
      → insert_in_table indexes hash tables t item ≡ ok (some u)
      → AllAllowed t item 0 t.columns
  unfolding insert_in_table
  insert_in_table-AllAllowed tables t item u e =
      let (good, passes, e1) =
        >>=-ok (accepts_from indexes hash tables t item 0 t.columns) _ (some u) e in
      accepts_from-AllAllowed tables t item 0 t.columns (passes ∙ ap ok (some_accepted good _ u e1))
