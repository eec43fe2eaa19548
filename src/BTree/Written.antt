-- ===== src/BTree/Written.antt =====
-- A node that writeBack puts into a new record, and parseNodeFromPage of that record, over the record
-- manager of Record.Table.
use tinydbpp.Base.{
  ℕ, zero, suc, ◌+◌, ◌-◌, ◌*◌, ◌^◌, ◌≤◌, ◌<◌, ◌≡◌, refl, ◌∙◌, List, [], ◌∷◌, true, false,
  Bool-cases, inl, inr, if◌then◌else◌, ltb, leb, not, ◌==◌, ==_refl, length, get_or, Option, none,
  some, ok, arith,
}
use tinydbpp.Record.Page.{read_record}
use tinydbpp.Record.Page.Blocks.{Block}
use tinydbpp.Record.Table.{File, Location, location, get_record}
use tinydbpp.Record.Table.Dictionary.{IsTable}
use tinydbpp.Record.Table.Records.{insert-get_record}
use tinydbpp.BTree.Node.{
  parent_no, parent_off, child_entry, Node, NodeFormat, init_from_buf, first_of,
}
use tinydbpp.BTree.Layout.{number_at, node_size, node_bytes, node_of}
use tinydbpp.BTree.Formats.{
  IsWritable, parent_location, format, to_buf-format, init_from_buf-format, first_of_same,
}
use tinydbpp.BTree.Bytes.{
  FormatFits, length-node_bytes, parent_page_back, parent_offset_back, key_back, child_back,
}
use tinydbpp.BTree.Tree.{Tree, parent_loc_of, parse_node_from_page, write_back}
use tinydbpp.BTree.Manager.{record_manager}

abbrev pub KeysFit : List ℕ → Type 0
KeysFit [] = Unit {0}
KeysFit (k ∷ ks) = (k < 2 ^ 64) × KeysFit ks

key_fits : (ks : List ℕ) (i : ℕ) → KeysFit ks → get_or ks i 0 < 2 ^ 64
key_fits [] i h = omega arith
key_fits (k ∷ ks) zero h = h.0
key_fits (k ∷ ks) (suc i) h = key_fits ks i h.1

-- The format that stands in the bytes of a record.
abbrev from_bytes : ℕ → List ℕ → NodeFormat
from_bytes rank r = record {
  n_key_count = number_at r 0 1;
  is_leaf = number_at r 1 1;
  parent_pg_no = number_at r 4 4;
  parent_pg_off = number_at r 8 2;
  keys = λ i. number_at r (16 + 8 * i) 8;
  children =
      λ i. let at = 8 + 8 * rank + 8 * i in location (number_at r at 4) (number_at r (at + 4) 2);
}

node_of-from_bytes :
    (rank : ℕ) (r : List ℕ) → length r ≡ node_size rank → node_of rank r ≡ ok (from_bytes rank r)
unfolding node_of
node_of-from_bytes rank r h =
    let z : (length r == 8 + 16 * rank) ≡ true = ground (arith, h) in rw z refl

-- initFromBuf reads nothing else than these fields.
init_from_buf-same :
    (parent : Option Location) (l : Location) (a b : NodeFormat)
    → a.n_key_count ≡ b.n_key_count
    → a.is_leaf ≡ b.is_leaf
    → a.parent_pg_no ≡ b.parent_pg_no
    → a.parent_pg_off ≡ b.parent_pg_off
    → first_of b.n_key_count a.keys ≡ first_of b.n_key_count b.keys
    → first_of b.n_key_count a.children ≡ first_of b.n_key_count b.children
    → ((not (b.is_leaf == 0)) ≡ false → a.children b.n_key_count ≡ b.children b.n_key_count)
    → init_from_buf parent l a ≡ init_from_buf parent l b
unfolding init_from_buf
init_from_buf-same none l a b count leaf page off keys cs last =
    elim (Bool-cases (b.is_leaf == 0)) [
      | inl inner ↦
          let same : a.children b.n_key_count ≡ b.children b.n_key_count = last (rw inner refl) in
          rw (count, leaf, page, off, keys, cs, same, inner) refl
      | inr outer ↦ rw (count, leaf, page, off, keys, cs, outer) refl
    ]
init_from_buf-same (some q) l a b count leaf page off keys cs last =
    elim (Bool-cases (b.is_leaf == 0)) [
      | inl inner ↦
          let same : a.children b.n_key_count ≡ b.children b.n_key_count = last (rw inner refl) in
          rw (count, leaf, page, off, keys, cs, same, inner) refl
      | inr outer ↦ rw (count, leaf, page, off, keys, cs, outer) refl
    ]

parent_no_fits : (parent : Option Location) → parent_no parent < 2 ^ 32
parent_no_fits none = omega arith
parent_no_fits (some l) = omega arith

parent_off_fits : (parent : Option Location) → parent_off parent < 2 ^ 16
parent_off_fits none = omega arith
parent_off_fits (some l) = omega arith

child_entry_fits :
    (used : ℕ) (cs : List Location) (i : ℕ)
    → ((child_entry used cs i).page_number < 2 ^ 32) × ((child_entry used cs i).loc < 2 ^ 16)
child_entry_fits used cs i = elim (Bool-cases (ltb i used)) [
  | inl e ↦ rw e (omega arith, omega arith)
  | inr e ↦ rw e (omega arith, omega arith)
]

format-FormatFits :
    (rank : ℕ) (parent : Option Location) (n : Node)
    → 1 ≤ rank
    → KeysFit n.keys
    → FormatFits rank (format parent n)
format-FormatFits rank parent n low keys = record {
  low = low;
  parent_pg_no = parent_no_fits parent;
  parent_pg_off = parent_off_fits parent;
  keys = λ i h. key_fits n.keys i keys;
  pages = λ i. (child_entry_fits _ n.children i).0;
  offsets = λ i. (child_entry_fits _ n.children i).1;
}

-- The bytes of a node's format are read as the format.
from_bytes-init_from_buf :
    (rank : ℕ) (parent : Option Location) (l : Location) (nf : NodeFormat)
    → FormatFits rank nf
    → nf.n_key_count ≤ rank - 1
    → init_from_buf parent l (from_bytes rank (node_bytes rank nf)) ≡ init_from_buf parent l nf
unfolding node_bytes
from_bytes-init_from_buf rank parent l nf fits room =
    let a = from_bytes rank (node_bytes rank nf) in
    init_from_buf-same parent l a nf (omega arith) (omega arith) (parent_page_back rank nf fits)
      (parent_offset_back rank nf fits)
      (first_of_same nf.n_key_count a.keys nf.keys (λ i lt. key_back rank nf fits i (omega arith)))
      (first_of_same nf.n_key_count a.children nf.children
        (λ i lt. child_back rank nf fits i (omega (arith, fits.low))))
      (λ inner. child_back rank nf fits nf.n_key_count (omega (arith, fits.low)))

get_record_low : (f : File) (at : Location) (r : List ℕ) → get_record f at ≡ ok r → at.loc < 4096
unfolding get_record read_record
get_record_low f at r e = ground arith

first_byte :
    (rank : ℕ) (nf : NodeFormat)
    → nf.n_key_count ≤ rank - 1
    → leb (number_at (node_bytes rank nf) 0 1) (rank - 1) ≡ true
unfolding node_bytes
first_byte rank nf few = ground arith

module _ (len rank_min rank : ℕ) where
  -- parseNodeFromPage where a node's record is.
  parse_written :
      (t : Tree File) (above : List Node) (n : Node) (at : Location)
      → 1 ≤ rank
      → KeysFit n.keys
      → IsWritable rank (parent_loc_of above) n
      → get_record t.store at ≡ ok (node_bytes rank (format (parent_loc_of above) n))
      → parse_node_from_page rank_min rank (record_manager len) t above at
        ≡ ok (record n { loc = at; parent_loc = parent_location (parent_loc_of above) })
  unfolding parse_node_from_page
  parse_written t above n at low keys w stored =
      let parent = parent_loc_of above in
      let nf = format parent n in
      let fits = format-FormatFits rank parent n low keys in
      let few : nf.n_key_count ≤ rank - 1 = omega (arith, w.room, w.byte) in
      let inside : ltb at.loc 4096 ≡ true = ground (arith, get_record_low t.store at _ stored) in
      let size = length-node_bytes rank nf fits in
      let a = from_bytes rank (node_bytes rank nf) in
      let bound : leb (number_at (node_bytes rank nf) 0 1) (rank - 1) ≡ true =
        first_byte rank nf few in
      let n' : Node = record n { loc = at } in
      let w' : IsWritable rank parent n' = record {
        byte = w.byte;
        room = w.room;
        counts = w.counts;
        children = w.children;
        above = w.above;
      } in
      rw (inside, stored, node_of-from_bytes rank (node_bytes rank nf) size, bound)
        (from_bytes-init_from_buf rank parent at nf fits few
          ∙ init_from_buf-format rank parent n' w')

  -- For a node without a location yet, with as many children as its kind asks for, keys of eight
  -- bytes that fit the rank and a byte, and locations inside pages, of a rank of at most 255,
  -- `writeBack` through the record manager on a well-formed file of fewer than 524286 pages returns
  -- with the location of a new record; the file is well formed again, and `parseNodeFromPage` at
  -- that location gives the node, with its location and that of its parent.
  pub write_back-parse_node_from_page :
      (t : Tree File) (blocks : ℕ → List Block) (above : List Node) (n : Node)
      → IsTable t.store blocks
      → t.store.pages < 524286
      → 1 ≤ rank
      → rank ≤ 255
      → n.loc.page_number ≡ 0
      → KeysFit n.keys
      → IsWritable rank (parent_loc_of above) n
      → (u : Tree File) × (at : Location) × (blocks' : ℕ → List Block) × (write_back rank_min rank
            (record_manager len)
            t
            above
            n
          ≡ ok (u, record n { loc = at }))
        × IsTable u.store blocks'
        × (parse_node_from_page rank_min rank (record_manager len) u above at
            ≡ ok (record n { loc = at; parent_loc = parent_location (parent_loc_of above) }))
  unfolding write_back
  write_back-parse_node_from_page t blocks above n table room low high fresh keys w =
      let parent = parent_loc_of above in
      let nf = format parent n in
      let size : length (node_bytes rank nf) ≡ 8 + 16 * rank =
        length-node_bytes rank nf (format-FormatFits rank parent n low keys) in
      let (g, at, blocks', runs, table', reads) =
        insert-get_record t.store blocks (node_bytes rank nf) table (inl (omega (arith, size)))
          room in
      let u = record t { store = g } in
      let counts : (length n.keys + (if n.is_leaf then 0 else 1) == length n.children) ≡ true =
        rw w.counts (==_refl (length n.keys + (if n.is_leaf then 0 else 1))) in
      let new : (n.loc.page_number == 0) ≡ true = rw fresh refl in
      (
        u,
        at,
        blocks',
        rw (counts, to_buf-format rank parent n w, new, runs) refl,
        table',
        parse_written u above n at low keys w reads,
      )
