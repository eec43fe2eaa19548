-- ===== src/Record/Table/Records.antt =====
-- What the record manager promises of insert, getRecord, deleteRecord and updateRecordNoResize.
use tinydbpp.Base.{
  ℕ, ◌<◌, inl, inr, ◌≡◌, ◌≢◌, subst, Bool, true, false, Option, none, some, List, ◌⊎◌, length,
  Outcome, ok, assert_failed,
}
use tinydbpp.Base.Bytes.{Bytes}
use tinydbpp.Record.Page.{read_record, try_insert_var}
use tinydbpp.Record.Page.Blocks.{Block, free, used, Tiles, first_fit, record_at}
use tinydbpp.Record.Page.Insert.{Fits, try_insert_var-first_fit}
use tinydbpp.Record.Page.Access.{try_insert_var-Keeps, replace}
use tinydbpp.Record.Table.{
  File, Location, location, insert, get_record, delete_record, update_record_no_resize, flag,
}
use tinydbpp.Record.Table.Dictionary.{IsTable, Stored}
use tinydbpp.Record.Table.Insert.{FitsEmpty, insert-Inserted, insert-InsertedOr}
use tinydbpp.Record.Table.Changes.{with_blocks, delete_record-free, update_record_no_resize-used}

-- On a well-formed table of fewer than 524286 pages, `insert` of a variable-length record that an
-- empty page can hold returns; the table is well formed again and `getRecord` at the location
-- returned gives the record.
pub insert-get_record :
    (f : File) (blocks : ℕ → List Block) (r : List ℕ)
    → IsTable f blocks
    → FitsEmpty r
    → f.pages < 524286
    → (g : File) × (at : Location) × (blocks' : ℕ → List Block) × (insert f r false ≡ ok (g, at))
      × IsTable g blocks'
      × (get_record g at ≡ ok r)
insert-get_record f blocks r t fits room =
    let (g, at, blocks', runs, table, new, keeps) = insert-Inserted f blocks r t fits room in
    (g, at, blocks', runs, table, new)

-- A record that a well-formed table holds reads back unchanged after an `insert`.
pub insert_keeps :
    (f : File) (blocks : ℕ → List Block) (r : List ℕ) (g : File) (at : Location) (p o : ℕ)
    (s : List ℕ)
    → IsTable f blocks
    → FitsEmpty r
    → insert f r false ≡ ok (g, at)
    → Stored f blocks p o s
    → get_record g (location p o) ≡ ok s
insert_keeps f blocks r g at p o s t fits runs stored = elim (insert-InsertedOr f blocks r t fits) [
  | inl (g', at', blocks', runs', table, new, keeps) ↦
      let same : g' ≡ g = cc (runs, runs') in
      subst (λ h. get_record h (location p o) ≡ ok s) same (keeps p o s stored)
  | inr (fails, full) ↦ absurd (cc (runs, fails))
]

-- `deleteRecord` of a record that a well-formed table holds returns; the table is well formed with
-- the record's block free, `getRecord` at its location fails its assertion, and no dictionary flag
-- of the file has changed.
pub delete_record-get_record :
    (len : ℕ) (f : File) (blocks : ℕ → List Block) (p o : ℕ) (r : List ℕ)
    → IsTable f blocks
    → Stored f blocks p o r
    → (g : File) × (delete_record len f (location p o) ≡ ok g)
      × IsTable g (with_blocks blocks p (replace 0 (blocks p) o (free (length r))))
      × (get_record g (location p o) ≡ assert_failed)
      × ((q : ℕ) → flag g q ≡ flag f q)
delete_record-get_record len f blocks p o r t stored =
    let (g, runs, table, gone, others, flags) = delete_record-free len f blocks p o r t stored in
    (g, runs, table, gone, flags)

-- `deleteRecord` of one record of a well-formed table leaves every record at another location as
-- it was.
pub delete_record_keeps :
    (len : ℕ) (f : File) (blocks : ℕ → List Block) (p o : ℕ) (r : List ℕ) (q x : ℕ) (s : List ℕ)
    → IsTable f blocks
    → Stored f blocks p o r
    → Stored f blocks q x s
    → (q ≢ p) ⊎ (x ≢ o)
    → (g : File) × (delete_record len f (location p o) ≡ ok g)
      × (get_record g (location q x) ≡ ok s)
delete_record_keeps len f blocks p o r q x s t stored other apart =
    let (g, runs, table, gone, others, flags) = delete_record-free len f blocks p o r t stored in
    (g, runs, others q x s other apart)

-- `updateRecordNoResize` with a callback that changes a record of a well-formed table to one of
-- the same length returns; the table is well formed, and `getRecord` gives the new record.
pub update_record_no_resize-get_record :
    (f : File) (blocks : ℕ → List Block) (p o : ℕ) (r x : List ℕ)
    (callback : List ℕ → Bool × List ℕ)
    → IsTable f blocks
    → Stored f blocks p o r
    → callback r ≡ (true, x)
    → length x ≡ length r
    → (g : File) × (update_record_no_resize f (location p o) callback ≡ ok g)
      × IsTable g (with_blocks blocks p (replace 0 (blocks p) o (used x)))
      × (get_record g (location p o) ≡ ok x)
update_record_no_resize-get_record f blocks p o r x callback t stored c same =
    let (g, runs, table, new, others) =
      update_record_no_resize-used f blocks p o r x callback t stored c same in
    (g, runs, table, new)

-- `updateRecordNoResize` of a record of a well-formed table to one of the same length leaves every
-- record at another location as it was.
pub update_record_no_resize_keeps :
    (f : File) (blocks : ℕ → List Block) (p o : ℕ) (r x : List ℕ)
    (callback : List ℕ → Bool × List ℕ) (g : File) (q y : ℕ) (s : List ℕ)
    → IsTable f blocks
    → Stored f blocks p o r
    → callback r ≡ (true, x)
    → length x ≡ length r
    → update_record_no_resize f (location p o) callback ≡ ok g
    → Stored f blocks q y s
    → (q ≢ p) ⊎ (y ≢ o)
    → get_record g (location q y) ≡ ok s
update_record_no_resize_keeps f blocks p o r x callback g q y s t stored c same runs other apart =
    let (g', runs', table, new, others) =
      update_record_no_resize-used f blocks p o r x callback t stored c same in
    let g-g' : g' ≡ g = cc (runs, runs') in
    subst (λ h. get_record h (location q y) ≡ ok s) g-g' (others q y s other apart)

-- What an insertion into a page does, by what first fit does to its blocks.
abbrev pub Placed : Option (ℕ × List Block) → Outcome (Option (ℕ × Bytes)) → Type 0
Placed none out = out ≡ ok none
Placed (some (at, bs)) out = (d : Bytes) × (out ≡ ok (some (at, d))) × Tiles d 0 bs

placed :
    (d : Bytes) (f : Option (ℕ × List Block)) (out : Outcome (Option (ℕ × Bytes)))
    → Fits d 0 f out
    → Placed f out
placed d none out h = h
placed d (some (at, bs)) out (e, runs, tiles, low) = (e, runs, tiles)

-- On a page that blocks tile, `tryInsert` of a variable-length record does what first fit does on
-- the sequence of blocks: it refuses, or it puts the record at that offset and leaves those
-- blocks.
pub try_insert_var-Placed :
    (d : Bytes) (bs : List Block) (r : List ℕ)
    → Tiles d 0 bs
    → Placed (first_fit 0 bs r) (try_insert_var d r)
try_insert_var-Placed d bs r t =
    placed d (first_fit 0 bs r) (try_insert_var d r) (try_insert_var-first_fit d bs r t)

-- Where `tryInsert` puts a variable-length record on a page that blocks tile, the record reads
-- back.
pub try_insert_var-read_record :
    (d : Bytes) (bs : List Block) (r : List ℕ) (at : ℕ) (d' : Bytes)
    → Tiles d 0 bs
    → try_insert_var d r ≡ ok (some (at, d'))
    → read_record d' at ≡ ok r
try_insert_var-read_record d bs r at d' t runs = (try_insert_var-Keeps d bs r at d' t runs).0

-- Every record that stood in a page that blocks tile before a successful `tryInsert` reads back
-- unchanged after it.
pub try_insert_var-read_others :
    (d : Bytes) (bs : List Block) (r : List ℕ) (at : ℕ) (d' : Bytes) (o : ℕ) (s : List ℕ)
    → Tiles d 0 bs
    → try_insert_var d r ≡ ok (some (at, d'))
    → record_at 0 bs o ≡ some s
    → read_record d' o ≡ ok s
try_insert_var-read_others d bs r at d' o s t runs =
    (try_insert_var-Keeps d bs r at d' t runs).1 o s
