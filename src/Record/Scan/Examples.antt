-- ===== src/Record/Scan/Examples.antt =====
-- A table of one page with one record, whose item has a value of 65 bytes.
use tinydbpp.Base.{
  ℕ, ◌+◌, ◌≡◌, refl, Bool, true, false, List, [], ◌∷◌, replicate, ltb, ◌==◌, if◌then◌else◌, inl, ok,
  ◌>>=◌, arith,
}
use tinydbpp.Base.Bytes.{Bytes, slice}
use tinydbpp.Description.{Item, Pattern, varying, embed}
use tinydbpp.Description.RoundTrip.{Conforms, encode, short_values}
use tinydbpp.Record.Page.Blocks.{Block, free, used, Tiles}
use tinydbpp.Record.Table.{File, Location, location, insert, get_page}
use tinydbpp.Record.Table.Dictionary.{IsTable}
use tinydbpp.Record.Scan.{returns, del, select_use_checker, get_embed_record}
use tinydbpp.Record.Scan.Pages.{
  AllVar, HasItems, chosen_pages, visited_pages, select_use_checker-chosen_pages,
}
use tinydbpp.Record.Scan.Items.{embed-insert-get_embed_record}
use tinydbpp.Record.Scan.Removal.{freed, kept}
use tinydbpp.Record.Scan.Deletion.{del-kept}

abbrev sevens : List ℕ
sevens = replicate 65 7

abbrev columns : Pattern
columns = record { len = 68; widths = varying ∷ [] }

abbrev item : Item
item = sevens ∷ []

-- The record, and the rest free.
abbrev one_record : Bytes
one_record i =
    if i == 0
    then 1
    else if i == 1
    then 69
    else if i == 3
    then 65
    else if i == 73
    then 181
    else if i == 74
    then 15
    else if ltb 6 i
    then (if ltb i 72 then 7 else 0)
    else 0

abbrev one_flag : Bytes
one_flag i = if i == 0 then 1 else 0

abbrev table : File
table = record { pages = 3; page = λ p. if p == 1 then one_flag else one_record }

abbrev stored : List ℕ
stored = 65 ∷ 0 ∷ 0 ∷ 0 ∷ sevens

abbrev blocks : ℕ → List Block
blocks p = used stored ∷ free 4021 ∷ []

abbrev items : ℕ → List (ℕ × Item)
items p = (0, item) ∷ []

one_record-Tiles : Tiles one_record 0 (used stored ∷ free 4021 ∷ [])
unfolding slice
one_record-Tiles = ((λ e. absurd (omega (arith, e))), refl, refl, (refl, refl, refl))

table-IsTable : IsTable table blocks
table-IsTable p (low, high, data_page, var) =
    let other : (p == 1) ≡ false = ground arith in rw other one_record-Tiles

table-AllVar : AllVar table
table-AllVar q low high page = let two : q ≡ 2 = omega arith in rw two refl

item-Conforms : Conforms columns.widths item
item-Conforms = (omega arith, tt)

table-HasItems : HasItems columns table blocks items
unfolding encode
table-HasItems q v = (refl, refl, item-Conforms, refl)

abbrev anything : Item → Bool
anything vs = true

select_use_checker-chosen_pages_example :
    select_use_checker columns (returns anything) table
    ≡ ok (get_page table 1, chosen_pages anything items 1 2)
select_use_checker-chosen_pages_example =
    select_use_checker-chosen_pages columns anything table blocks items table-IsTable table-AllVar
      table-HasItems

abbrev count : ℕ → Item → Location → ℕ
count n vs l = n + 1

del-kept_example :
    (g : File) × (del columns (returns anything) (λ b vs l. ok (count b vs l)) table 0
      ≡ ok (g, visited_pages anything (λ b vs i o. count b vs (location i o)) items 1 2 0))
    × (g.pages ≡ 3)
    × IsTable g (λ q. freed anything (blocks q) (items q))
    × AllVar g
    × HasItems columns g (λ q. freed anything (blocks q) (items q)) (λ q. kept anything (items q))
del-kept_example =
    del-kept columns anything count table 0 blocks items table-IsTable table-AllVar table-HasItems
      (omega arith) (omega arith)

embed-insert-get_embed_record_example :
    (g : File) × (at : Location) × (blocks' : ℕ → List Block) × ((embed columns item
        >>= (λ r. insert table r.0 r.1))
      ≡ ok (g, at))
    × IsTable g blocks'
    × (get_embed_record columns g at ≡ ok item)
unfolding encode short_values
embed-insert-get_embed_record_example =
    embed-insert-get_embed_record columns table blocks item table-IsTable item-Conforms refl
      (inl (omega arith)) (omega arith)
