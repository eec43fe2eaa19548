-- ===== src/Table.antt =====
-- The operations of TableDescription, in src/RecordManage/TableManager.cpp, on the items of a table
-- and the indexes of its columns. An index (BTreePlus) is an interface: it keeps strings by their
-- hash. An exception of an index has no result, and stands as a failed assertion does.
pub mod Stored
pub mod Allowed
pub mod Trees
pub mod Examples
use tinydbpp.Base.{
  ℕ, zero, suc, ◌+◌, ◌-◌, Bool, true, false, not, ◌&&◌, ◌||◌, Option, none, some, List, [], ◌∷◌,
  ◌++◌, map, ltb, ◌==◌, if◌then◌else◌, length, take, drop, Outcome, ok, assert_failed, undefined,
  ◌>>=◌, ◌>>◌, boost_assert,
}
use tinydbpp.Description.{Item, Pattern, embed}
use tinydbpp.Query.{Text, ValueType, same_text, last_byte, get_offset, create_index_name}
use tinydbpp.Query.Clause.{elem, flag_of}
use tinydbpp.Record.Table.{File, Location, insert, delete_record}
use tinydbpp.Record.Scan.{del, get_embed_record}
use tinydbpp.BTree.Plus.{location_to_string, string_to_location}

-- get, insert and remove of BTreePlus, with `false` for `fixed`.
pub record Indexes (I : Type 0) : Type 0 where
  pub get : I → ℕ → Outcome (List Text)
  pub insert : I → ℕ → Text → Outcome I
  pub remove : I → ℕ → (Text → Bool) → Outcome I

-- An entry of col_name, col_type, col_not_null, col_unique and col_has_index.
pub record Column : Type 0 where
  pub name : Text
  pub type : ValueType
  pub not_null : Bool
  pub unique : Bool
  pub has_index : Bool

-- The index of a column is the tree in the file that createIndexName names, where there is one.
pub record Table (I : Type 0) : Type 0 where
  pub columns : List Column
  pub pattern : Pattern
  pub file : File
  pub index : ℕ → Option I

abbrev pub column_names : List Column → List Text
column_names [] = []
column_names (c ∷ cs) = c.name ∷ column_names cs

abbrev pub gender : Text
gender = 103 ∷ 101 ∷ 110 ∷ 100 ∷ 101 ∷ 114 ∷ []

-- string("M", 2) and string("F", 2)
abbrev pub is_gender : Text → Bool
is_gender v = same_text v (77 ∷ 0 ∷ []) || same_text v (70 ∷ 0 ∷ [])

abbrev pub id_column : Text
id_column = 105 ∷ 100 ∷ []

-- The table that a column whose name ends in "_id" refers to.
abbrev pub reference : Text → Option Text
reference name =
    let stem = length name - 3 in
    if ltb 3 (length name) && same_text (drop stem name) (95 ∷ id_column)
    then some (take stem name)
    else none

module _ {I : Type 0} where
  abbrev pub set_index : ℕ → I → (ℕ → Option I) → ℕ → Option I
  set_index i x index j = if j == i then some x else index j

  -- A loop over the columns from `i` on that changes each index by the item's value.
  unfoldable pub each_index :
      (I → Text → Outcome I) → Item → ℕ → List Column → (ℕ → Option I) → Outcome (ℕ → Option I)
  each_index change item i [] index = ok index
  each_index change item i (c ∷ cs) index = elim c.has_index [
    | false ↦ each_index change item (i + 1) cs index
    | true ↦ do
      x ← elim (index i) [ none ↦ assert_failed | some x ↦ ok x ]
      v ← elem item i
      y ← change x v
      each_index change item (i + 1) cs (set_index i y index)
  ]

module _ {I : Type 0} (indexes : Indexes I) (hash : Text → ℕ) where
  -- getIndex: the tree's constructor asserts that its table exists.
  abbrev pub get_index : Table I → ℕ → Outcome I
  get_index t offset = elim (t.index offset) [ none ↦ assert_failed | some x ↦ ok x ]

  -- The loop of selectUseIndex.
  abbrev pub select_locations :
      Table I → ℕ → Text → (Item → Outcome Bool) → List Text → Outcome (List Item)
  select_locations t offset v checker [] = ok []
  select_locations t offset v checker (l ∷ ls) = do
    item ← get_embed_record t.pattern t.file (string_to_location l)
    mine ← elem item offset
    accepted ← if same_text v mine then checker item else ok false
    rest ← select_locations t offset v checker ls
    ok (if accepted then item ∷ rest else rest)

  -- TableDescription::selectUseIndex
  unfoldable pub select_use_index : Table I → ℕ → Text → (Item → Outcome Bool) → Outcome (List Item)
  select_use_index t offset v checker = do
    x ← get_index t offset
    ls ← indexes.get x (hash v)
    select_locations t offset v checker ls

  -- One of these items has this value at the offset.
  abbrev pub found_in : ℕ → Text → List Item → Outcome Bool
  found_in offset v [] = ok false
  found_in offset v (item ∷ items) = do
    mine ← elem item offset
    if same_text mine v then ok true else found_in offset v items

  -- The check of a foreign key. The table is used before the test that it was found.
  unfoldable pub refers : Option (Table I) → Text → Outcome Bool
  unfolding select_use_index
  refers none v = undefined
  refers (some other) v = elim (get_offset id_column (column_names other.columns)) [
    | none ↦ ok false
    | some k ↦ do
      null ← flag_of v
      if null == 0
          then select_use_index other k v (λ item. ok true) >>= (λ items. found_in k v items)
          else ok true
  ]

  -- The checks of insertInTable on the column `i`.
  unfoldable pub accepts_value :
      (Text → Option (Table I)) → Table I → ℕ → Column → Text → Outcome Bool
  unfolding select_use_index refers
  accepts_value tables t i c v = do
    let female_or_male = not (same_text c.name gender) || is_gender v
    known ←
        if female_or_male
        then (elim (reference c.name) [ none ↦ ok true | some other ↦ refers (tables other) v ])
        else ok false
    if not known then ok false else (do
      null ← if c.not_null || c.unique then flag_of v else ok 0
      if c.not_null && null == 1
          then ok false
          else if c.unique && not (null == 1) && c.has_index
          then select_use_index t i v (λ item. ok true)
            >>= (λ same. elim same [ [] ↦ ok true | s ∷ ss ↦ ok false ])
          else ok true)

  -- The loop over the columns from `i` on.
  unfoldable pub accepts_from :
      (Text → Option (Table I)) → Table I → Item → ℕ → List Column → Outcome Bool
  unfolding accepts_value
  accepts_from tables t item i [] = ok true
  accepts_from tables t item i (c ∷ cs) = do
    v ← elem item i
    good ← accepts_value tables t i c v
    if good then accepts_from tables t item (i + 1) cs else ok false

  -- The second loop of insertInTable: the location goes to each index.
  abbrev pub to_index : Text → I → Text → Outcome I
  to_index loc x v = indexes.insert x (hash v) loc

  -- The loop of the solver of deleteAndCollectItems.
  abbrev pub from_index : Text → I → Text → Outcome I
  from_index loc x v = indexes.remove x (hash v) (λ s. same_text s loc)

  -- TableDescription::insertInTable: none where it returns false.
  unfoldable pub insert_in_table :
      (Text → Option (Table I)) → Table I → Item → Outcome (Option (Table I))
  unfolding accepts_from each_index
  insert_in_table tables t item = do
    good ← accepts_from tables t item 0 t.columns
    if not good then ok none else (do
      (rec, fixed_res) ← embed t.pattern item
      (g, loc) ← insert t.file rec fixed_res
      index ← each_index (to_index (location_to_string loc)) item 0 t.columns t.index
      ok (some (record t { file = g; index = index })))

  -- TableDescription::deleteAndCollectItems
  unfoldable pub delete_and_collect_items :
      Table I → (Item → Outcome Bool) → Outcome (Table I × List Item)
  unfolding each_index
  delete_and_collect_items t checker = do
    let solver = λ (a : List Item × (ℕ → Option I)) (item : Item) (loc : Location).
        each_index (from_index (location_to_string loc)) item 0 t.columns a.1
        >>= (λ index. ok (a.0 ++ item ∷ [], index))
    (g, (ret, index)) ← del t.pattern checker solver t.file ([], t.index)
    ok (record t { file = g; index = index }, ret)

  -- The loop of deleteAndCollectUseIndex: the file, the items and their locations.
  abbrev pub delete_locations :
      Table I
      → ℕ
      → Text
      → (Item → Outcome Bool)
      → File
      → List Text
      → Outcome (File × List Item × List Text)
  delete_locations t offset v checker f [] = ok (f, [], [])
  delete_locations t offset v checker f (l ∷ ls) = do
    item ← get_embed_record t.pattern f (string_to_location l)
    mine ← elem item offset
    chosen ← if same_text v mine then checker item else ok false
    h ← if chosen then delete_record t.pattern.len f (string_to_location l) else ok f
    (g, ret, correct) ← delete_locations t offset v checker h ls
    ok (g, if chosen then item ∷ ret else ret, if chosen then l ∷ correct else correct)

  abbrev pub is_in : Text → List Text → Bool
  is_in s [] = false
  is_in s (l ∷ ls) = same_text l s || is_in s ls

  -- TableDescription::deleteAndCollectUseIndex: the other indexes keep the locations.
  unfoldable pub delete_and_collect_use_index :
      Table I → ℕ → Text → (Item → Outcome Bool) → Outcome (Table I × List Item)
  delete_and_collect_use_index t offset v checker = do
    x ← get_index t offset
    ls ← indexes.get x (hash v)
    (g, ret, correct) ← delete_locations t offset v checker t.file ls
    y ← indexes.remove x (hash v) (λ s. is_in s correct)
    ok (record t { file = g; index = set_index offset y t.index }, ret)
