-- ===== src/Table/Examples.antt =====
-- A table of one column with an index, and an item with a value of 65 bytes.
use tinydbpp.Base.{
  ℕ, ◌≡◌, refl, true, false, Option, none, some, List, [], ◌∷◌, ◌++◌, replicate, ◌==◌,
  if◌then◌else◌, length, inl, ok, assert_failed, arith,
}
use tinydbpp.Description.{Item, varying}
use tinydbpp.Description.RoundTrip.{encode, short_values}
use tinydbpp.Query.{Text, varchar}
use tinydbpp.Record.Page.Blocks.{Block, free}
use tinydbpp.Record.Table.{Location}
use tinydbpp.Record.Table.Dictionary.{IsTable}
use tinydbpp.Record.Scan.{get_embed_record}
use tinydbpp.BTree.Plus.{location_to_string}
use tinydbpp.Table.{Indexes, Column, Table, to_index, accepts_value, accepts_from, insert_in_table}
use tinydbpp.Table.Allowed.{AllAllowed, insert_in_table-AllAllowed}
use tinydbpp.Table.Stored.{Indexed, insert_in_table-Indexed}

-- An index as the list of its hashes and strings.
abbrev Pairs : Type 0
Pairs = List (ℕ × Text)

abbrev strings : ℕ → Pairs → List Text
strings h [] = []
strings h ((k, s) ∷ ps) = if k == h then s ∷ strings h ps else strings h ps

abbrev by_list : Indexes Pairs
by_list = record {
  get = λ ps h. ok (strings h ps);
  insert = λ ps h s. ok ((h, s) ∷ ps);
  remove = λ ps h check. assert_failed;
}

abbrev hash : Text → ℕ
hash s = length s

abbrev name : Column
name = record { name = 110 ∷ []; type = varchar; not_null = true; unique = false; has_index = true }

abbrev empty_page : List Block
empty_page = free 4093 ∷ []

abbrev pages : ℕ → ℕ → ℕ
pages p i =
    if p == 1 then (if i == 0 then 1 else 0) else if i == 1 then 253 else if i == 2 then 15 else 0

abbrev table : Table Pairs
table = record {
  columns = name ∷ [];
  pattern = record { len = 68; widths = varying ∷ [] };
  file = record { pages = 3; page = pages };
  index = λ i. some [];
}

abbrev item : Item
item = (replicate 64 7 ++ 0 ∷ []) ∷ []

abbrev blocks : ℕ → List Block
blocks p = empty_page

abbrev no_tables : Text → Option (Table Pairs)
no_tables other = none

table-IsTable : IsTable table.file blocks
table-IsTable p (low, high, data_page, var) =
    let other : (p == 1) ≡ false = ground arith in rw other (refl, refl, refl)

item_accepted : accepts_from by_list hash no_tables table item 0 table.columns ≡ ok true
unfolding accepts_from accepts_value
item_accepted = refl

stored :
    (u : Table Pairs) × (at : Location) × (blocks' : ℕ → List Block) × (insert_in_table by_list hash
        no_tables table item
      ≡ ok (some u))
    × IsTable u.file blocks'
    × (get_embed_record u.pattern u.file at ≡ ok item)
    × Indexed
        (to_index by_list hash (location_to_string at))
        item
        0
        table.columns
        table.index
        u.index
unfolding encode short_values
stored =
    insert_in_table-Indexed by_list hash no_tables table blocks item table-IsTable (omega arith, tt)
      refl (inl (omega arith)) (omega arith)
      (λ loc. ((λ has. ((65, loc) ∷ [], ([], replicate 64 7 ++ 0 ∷ [], refl, refl, refl))), tt))
      item_accepted

insert_in_table-AllAllowed_example : AllAllowed by_list hash table item 0 table.columns
insert_in_table-AllAllowed_example =
    insert_in_table-AllAllowed by_list hash no_tables table item stored.0 stored.3
