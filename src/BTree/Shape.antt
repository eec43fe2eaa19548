-- ===== src/BTree/Shape.antt =====
-- What a tree in a table file stands for: its entries by levels, in the order of their keys.
use tinydbpp.Base.{
  ℕ, zero, suc, ◌≤◌, ◌<◌, Option, none, some, List, [], ◌∷◌, ◌++◌, ◌==◌, if◌then◌else◌,
}
use tinydbpp.Record.Table.{Location}
use tinydbpp.BTree.Search.{Sorted}

-- A leaf has keys with the locations of their data; an inner node has a child, and keys with a child
-- each.
mutual
  pub data Shape : Type 0 where
    leaf : List (ℕ × Location) → Shape
    inner : Shape → Rest → Shape

  pub data Rest : Type 0 where
    end : Rest
    more : ℕ → Shape → Rest → Rest

abbrev pub keys_of : List (ℕ × Location) → List ℕ
keys_of [] = []
keys_of ((k, l) ∷ es) = k ∷ keys_of es

abbrev pub places_of : List (ℕ × Location) → List Location
places_of [] = []
places_of ((k, l) ∷ es) = l ∷ places_of es

abbrev pub separators : Rest → List ℕ
separators end = []
separators (more k c r) = k ∷ separators r

-- All keys with their locations, from left to right.
unfoldable mutual
  pub entries : Shape → List (ℕ × Location)
  entries (leaf es) = es
  entries (inner s r) = entries s ++ entries_rest r

  pub entries_rest : Rest → List (ℕ × Location)
  entries_rest end = []
  entries_rest (more k c r) = entries c ++ entries_rest r

-- The location that a list of entries gives a key.
abbrev pub assoc : ℕ → List (ℕ × Location) → Option Location
assoc key [] = none
assoc key ((k, l) ∷ es) = if k == key then some l else assoc key es

abbrev pub AllBelow : ℕ → List (ℕ × Location) → Type 0
AllBelow k [] = Unit {0}
AllBelow k ((j, l) ∷ es) = (j < k) × AllBelow k es

abbrev pub AllFrom : ℕ → List (ℕ × Location) → Type 0
AllFrom k [] = Unit {0}
AllFrom k ((j, l) ∷ es) = (k ≤ j) × AllFrom k es

abbrev pub Ascending : List ℕ → Type 0
Ascending [] = ⊥
Ascending (k ∷ ks) = Sorted k ks

-- Each separator stands between the entries to its left and to its right.
abbrev pub Splits : List (ℕ × Location) → Rest → Type 0
Splits before end = Unit {0}
Splits before (more k c r) =
    AllBelow k before × AllFrom k (entries c ++ entries_rest r) × Splits (entries c) r

-- No node is empty, the keys of each go up, and the separators split the entries.
unfoldable mutual
  pub IsOrdered : Shape → Type 0
  IsOrdered (leaf es) = Ascending (keys_of es)
  IsOrdered (inner s r) =
      Ascending (separators r) × Splits (entries s) r × IsOrdered s × AreOrdered r

  pub AreOrdered : Rest → Type 0
  AreOrdered end = Unit {0}
  AreOrdered (more k c r) = IsOrdered c × AreOrdered r

-- At most so many levels.
unfoldable mutual
  pub Within : ℕ → Shape → Type 0
  Within zero s = ⊥
  Within (suc d) (leaf es) = Unit {0}
  Within (suc d) (inner s r) = Within d s × AllWithin d r

  pub AllWithin : ℕ → Rest → Type 0
  AllWithin d end = Unit {0}
  AllWithin d (more k c r) = Within d c × AllWithin d r
