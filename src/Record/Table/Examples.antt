-- ===== src/Record/Table/Examples.antt =====
-- The record manager on a table of one page, with one record.
use tinydbpp.Base.{
  ℕ, ◌≡◌, refl, Bool, true, false, some, List, [], ◌∷◌, inl, inr, length, ok, undefined,
  assert_failed, arith, ◌==◌, if◌then◌else◌, replicate, length-replicate,
}
use tinydbpp.Base.Bytes.{Bytes, slice}
use tinydbpp.Record.Page.{try_insert_var}
use tinydbpp.Record.Page.Blocks.{Block, free, used, Tiles, first_fit, record_at}
use tinydbpp.Record.Page.Access.{replace}
use tinydbpp.Record.Table.{
  File, Location, location, insert, get_record, delete_record, update_record_no_resize, flag,
}
use tinydbpp.Record.Table.Dictionary.{IsTable, Stored}
use tinydbpp.Record.Table.Changes.{with_blocks}
use tinydbpp.Record.Table.Limits.{insert-undefined}
use tinydbpp.Record.Table.Records.{
  insert-get_record, insert_keeps, delete_record-get_record, update_record_no_resize-get_record,
  update_record_no_resize_keeps, Placed, try_insert_var-Placed,
}

-- A page with the records 7 8 and 9, and the rest free.
abbrev two_records : Bytes
two_records i =
    if i == 0
    then 1
    else if i == 1
    then 2
    else if i == 3
    then 7
    else if i == 4
    then 8
    else if i == 5
    then 1
    else if i == 6
    then 1
    else if i == 8
    then 9
    else if i == 10
    then 244
    else if i == 11
    then 15
    else 0

abbrev two_blocks : List Block
two_blocks = used (7 ∷ 8 ∷ []) ∷ used (9 ∷ []) ∷ free 4084 ∷ []

abbrev one_flag : Bytes
one_flag i = if i == 0 then 1 else 0

abbrev table : File
table = record { pages = 3; page = λ p. if p == 1 then one_flag else two_records }

abbrev table_blocks : ℕ → List Block
table_blocks p = two_blocks

two_records-Tiles : Tiles two_records 0 two_blocks
unfolding slice
two_records-Tiles = (
  (λ e. absurd (omega (arith, e))),
  refl,
  refl,
  ((λ e. absurd (omega (arith, e))), refl, refl, (refl, refl, refl)),
)

table-IsTable : IsTable table table_blocks
table-IsTable p (low, high, data_page, var) =
    let other : (p == 1) ≡ false = ground arith in rw other two_records-Tiles

table-Stored : Stored table table_blocks 2 0 (7 ∷ 8 ∷ [])
unfolding record_at
table-Stored = ((omega arith, omega arith, (λ e. absurd (omega (arith, e))), refl), refl)

table-Stored_second : Stored table table_blocks 2 5 (9 ∷ [])
unfolding record_at
table-Stored_second = ((omega arith, omega arith, (λ e. absurd (omega (arith, e))), refl), refl)

abbrev incremented : List ℕ → Bool × List ℕ
incremented r = (true, 8 ∷ 9 ∷ [])

insert-get_record_example :
    (g : File) × (at : Location) × (blocks' : ℕ → List Block) × (insert table (1 ∷ 2 ∷ []) false
      ≡ ok (g, at))
    × IsTable g blocks'
    × (get_record g at ≡ ok (1 ∷ 2 ∷ []))
insert-get_record_example =
    insert-get_record table table_blocks (1 ∷ 2 ∷ []) table-IsTable (inl (omega arith))
      (omega arith)

abbrev inserted :
    (g : File) × (at : Location) × (blocks' : ℕ → List Block) × (insert table (1 ∷ 2 ∷ []) false
      ≡ ok (g, at))
    × IsTable g blocks'
    × (get_record g at ≡ ok (1 ∷ 2 ∷ []))
inserted =
    insert-get_record table table_blocks (1 ∷ 2 ∷ []) table-IsTable (inl (omega arith))
      (omega arith)

insert_keeps_example : get_record inserted.0 (location 2 5) ≡ ok (9 ∷ [])
insert_keeps_example =
    insert_keeps table table_blocks (1 ∷ 2 ∷ []) inserted.0 inserted.1 2 5 (9 ∷ []) table-IsTable
      (inl (omega arith)) inserted.3 table-Stored_second

delete_record-get_record_example :
    (g : File) × (delete_record 0 table (location 2 0) ≡ ok g)
    × IsTable g (with_blocks table_blocks 2 (replace 0 two_blocks 0 (free 2)))
    × (get_record g (location 2 0) ≡ assert_failed)
    × ((q : ℕ) → flag g q ≡ flag table q)
delete_record-get_record_example =
    delete_record-get_record 0 table table_blocks 2 0 (7 ∷ 8 ∷ []) table-IsTable table-Stored

update_record_no_resize-get_record_example :
    (g : File) × (update_record_no_resize table (location 2 0) incremented ≡ ok g)
    × IsTable g (with_blocks table_blocks 2 (replace 0 two_blocks 0 (used (8 ∷ 9 ∷ []))))
    × (get_record g (location 2 0) ≡ ok (8 ∷ 9 ∷ []))
update_record_no_resize-get_record_example =
    update_record_no_resize-get_record table table_blocks 2 0 (7 ∷ 8 ∷ []) (8 ∷ 9 ∷ []) incremented
      table-IsTable table-Stored refl refl

abbrev updated :
    (g : File) × (update_record_no_resize table (location 2 0) incremented ≡ ok g)
    × IsTable g (with_blocks table_blocks 2 (replace 0 two_blocks 0 (used (8 ∷ 9 ∷ []))))
    × (get_record g (location 2 0) ≡ ok (8 ∷ 9 ∷ []))
updated =
    update_record_no_resize-get_record table table_blocks 2 0 (7 ∷ 8 ∷ []) (8 ∷ 9 ∷ []) incremented
      table-IsTable table-Stored refl refl

update_record_no_resize_keeps_example : get_record updated.0 (location 2 5) ≡ ok (9 ∷ [])
update_record_no_resize_keeps_example =
    update_record_no_resize_keeps table table_blocks 2 0 (7 ∷ 8 ∷ []) (8 ∷ 9 ∷ []) incremented
      updated.0 2 5 (9 ∷ []) table-IsTable table-Stored refl refl updated.1 table-Stored_second
      (inr (λ e. absurd (omega (arith, e))))

abbrev third :
    (d : Bytes) × (try_insert_var two_records (1 ∷ []) ≡ ok (some (9, d)))
    × Tiles d 0 (used (7 ∷ 8 ∷ []) ∷ used (9 ∷ []) ∷ used (1 ∷ []) ∷ free 4080 ∷ [])
unfolding first_fit
third = try_insert_var-Placed two_records two_blocks (1 ∷ []) two_records-Tiles

second_record : record_at 0 two_blocks 5 ≡ some (9 ∷ [])
unfolding record_at
second_record = refl

try_insert_var-Placed_example :
    Placed (first_fit 0 two_blocks (1 ∷ [])) (try_insert_var two_records (1 ∷ []))
try_insert_var-Placed_example =
    try_insert_var-Placed two_records two_blocks (1 ∷ []) two_records-Tiles

abbrev too_long : List ℕ
too_long = replicate 4091 0

zeros : length too_long ≡ 4091
zeros = length-replicate {A = ℕ} 4091 0

insert-undefined_example : insert table too_long false ≡ undefined
insert-undefined_example =
    insert-undefined table table_blocks too_long table-IsTable (omega (arith, zeros))
      (λ e. absurd (omega (arith, e, zeros))) (omega arith)
