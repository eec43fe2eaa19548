-- ===== src/Record/Scan/Items.antt =====
-- An item through `embed`, `insert` and `getEmbedRecord`.
use tinydbpp.Base.{
  ℕ, ◌+◌, ◌-◌, ◌%◌, ◌≤◌, ◌<◌, ◌≡◌, refl, sym, ◌∙◌, ap, true, false, List, leb, length, ok, arith,
  ◌>>=◌,
}
use tinydbpp.Base.Bytes.{Bytes, short_at, slice, length-slice}
use tinydbpp.Description.{Item, Pattern, embed}
use tinydbpp.Description.RoundTrip.{Conforms, encode, short_values, embed_values-encode}
use tinydbpp.Record.Page.{read_record}
use tinydbpp.Record.Page.Blocks.{Block}
use tinydbpp.Record.Table.{File, Location, insert, get_record, flag, is_fixed}
use tinydbpp.Record.Table.Dictionary.{IsTable}
use tinydbpp.Record.Table.Insert.{FitsEmpty}
use tinydbpp.Record.Table.Records.{insert-get_record}
use tinydbpp.Record.Scan.{get_embed_record}
use tinydbpp.Record.Scan.Reads.{read-used}

-- What the success of `getRecord` says of the page.
record_shape :
    (d : Bytes) (o : ℕ) (r : List ℕ)
    → read_record d o ≡ ok r
    → (slice d (o + 3) (short_at d (o + 1)) ≡ r) × (o + 3 + short_at d (o + 1) ≤ 4096)
unfolding read_record
record_shape d o r e = ground arith

get_record_shape :
    (f : File) (at : Location) (r : List ℕ)
    → get_record f at ≡ ok r
    → (leb 1 ((at.page_number - 1) % 4097) ≡ true)
      × (is_fixed (flag f at.page_number) ≡ false)
      × (read_record (f.page at.page_number) at.loc ≡ ok r)
unfolding get_record
get_record_shape f at r e = ground arith

-- A record that `getRecord` returns is read by `getEmbedRecord` as the item it is made of.
pub get_embed_record-get_record :
    (p : Pattern) (f : File) (at : Location) (vs : Item)
    → Conforms p.widths vs
    → get_record f at ≡ ok (encode p.widths vs)
    → get_embed_record p f at ≡ ok vs
unfolding get_embed_record
get_embed_record-get_record p f at vs c e =
    let r = encode p.widths vs in
    let (slot, varying, got) = get_record_shape f at r e in
    let d = f.page at.page_number in
    let (body, fits) = record_shape d at.loc r got in
    let size : length r ≡ short_at d (at.loc + 1) =
      ap length (sym body) ∙ length-slice d (at.loc + 3) (short_at d (at.loc + 1)) in
    rw (slot, varying, read-used p vs d (at.loc + 3) r refl c (rw size body) (rw size fits)) refl

-- On a well-formed table, for values that conform to the pattern, of which some value of varying
-- width is longer than 64 bytes, and whose bytes an empty page can hold, and a file of fewer than
-- 524286 pages, `embed` and `insert` return a location, the table is well formed again, and
-- `getEmbedRecord` at that location gives the values.
pub embed-insert-get_embed_record :
    (p : Pattern) (f : File) (blocks : ℕ → List Block) (vs : Item)
    → IsTable f blocks
    → Conforms p.widths vs
    → short_values p.widths vs ≡ false
    → FitsEmpty (encode p.widths vs)
    → f.pages < 524286
    → (g : File) × (at : Location) × (blocks' : ℕ → List Block) × ((embed p vs
          >>= (λ r. insert f r.0 r.1))
        ≡ ok (g, at))
      × IsTable g blocks'
      × (get_embed_record p g at ≡ ok vs)
unfolding embed
embed-insert-get_embed_record p f blocks vs t c long fits room =
    let (g, at, blocks', runs, table, new) =
      insert-get_record f blocks (encode p.widths vs) t fits room in
    (
      g,
      at,
      blocks',
      rw (embed_values-encode p.widths vs c, long) runs,
      table,
      get_embed_record-get_record p g at vs c new,
    )
