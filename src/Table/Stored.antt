-- ===== src/Table/Stored.antt =====
-- insertInTable: the record and the indexes of its columns.
use tinydbpp.Base.{
  ℕ, ◌+◌, ◌≤◌, ◌<◌, ◌≡◌, refl, sym, ◌∙◌, true, false, Bool-cases, inl, inr, Option, some, List, [],
  ◌∷◌, bind_assoc, ◌==◌, ==_refl, get_elem?, Outcome, ok, arith, ◌>>=◌,
}
use mathlib.Core.Bool.{false≢true}
use tinydbpp.Description.{Item, embed}
use tinydbpp.Description.RoundTrip.{Conforms, encode, short_values}
use tinydbpp.Query.{Text}
use tinydbpp.Query.Clause.{elem}
use tinydbpp.Record.Page.Blocks.{Block}
use tinydbpp.Record.Table.{File, Location, insert}
use tinydbpp.Record.Table.Dictionary.{IsTable}
use tinydbpp.Record.Table.Insert.{FitsEmpty}
use tinydbpp.Record.Scan.{get_embed_record}
use tinydbpp.Record.Scan.Items.{embed-insert-get_embed_record}
use tinydbpp.BTree.Plus.{location_to_string}
use tinydbpp.Table.{
  Indexes, Column, Table, set_index, each_index, to_index, accepts_from, insert_in_table,
}

module _ {I : Type 0} (change : I → Text → Outcome I) (item : Item) where
  -- A change of the index of the column `i` by the item's value there.
  abbrev pub Changed : ℕ → Option I → I → Type 0
  Changed i before y =
      (x : I) × (v : Text) × (before ≡ some x) × (get_elem? item i ≡ some v) × (change x v ≡ ok y)

  -- Each of these columns that has an index can have it changed.
  abbrev pub Ready : ℕ → List Column → (ℕ → Option I) → Type 0
  Ready i [] index = Unit {0}
  Ready i (c ∷ cs) index =
      (c.has_index ≡ true → (y : I) × Changed i (index i) y) × Ready (i + 1) cs index

  -- Each of these columns that has an index has had it changed, and no other index is another.
  abbrev pub Indexed : ℕ → List Column → (ℕ → Option I) → (ℕ → Option I) → Type 0
  Indexed i [] before after = Unit {0}
  Indexed i (c ∷ cs) before after =
      (c.has_index ≡ true → (y : I) × Changed i (before i) y × (after i ≡ some y))
      × (c.has_index ≡ false → after i ≡ before i)
      × Indexed (i + 1) cs before after

  Ready-same :
      (i : ℕ) (cs : List Column) (p q : ℕ → Option I)
      → ((j : ℕ) → i ≤ j → p j ≡ q j)
      → Ready i cs p
      → Ready i cs q
  Ready-same i [] p q same r = tt
  Ready-same i (c ∷ cs) p q same r = (
    (λ has.
        let (y, (x, v, e, at, runs)) = r.0 has in
        (y, (x, v, sym (same i (omega arith)) ∙ e, at, runs))),
    Ready-same (i + 1) cs p q (λ j le. same j (omega arith)) r.1,
  )

  Indexed-same :
      (i : ℕ) (cs : List Column) (p q after : ℕ → Option I)
      → ((j : ℕ) → i ≤ j → p j ≡ q j)
      → Indexed i cs p after
      → Indexed i cs q after
  Indexed-same i [] p q after same r = tt
  Indexed-same i (c ∷ cs) p q after same r = (
    (λ has.
        let (y, (x, v, e, at, runs), new) = r.0 has in
        (y, (x, v, sym (same i (omega arith)) ∙ e, at, runs), new)),
    (λ without. r.1 without ∙ same i (omega arith)),
    Indexed-same (i + 1) cs p q after (λ j le. same j (omega arith)) r.2,
  )

  set_index-other :
      (i : ℕ) (y : I) (index : ℕ → Option I) (j : ℕ) → i + 1 ≤ j → index j ≡ set_index i y index j
  set_index-other i y index j le = let other : (j == i) ≡ false = ground arith in rw other refl

  each_index-Indexed :
      (i : ℕ) (cs : List Column) (index : ℕ → Option I)
      → Ready i cs index
      → (after : ℕ → Option I) × (each_index change item i cs index ≡ ok after)
        × Indexed i cs index after
        × ((j : ℕ) → j < i → after j ≡ index j)
  unfolding each_index
  each_index-Indexed i [] index r = (index, refl, tt, (λ j lt. refl))
  each_index-Indexed i (c ∷ cs) index r = elim (Bool-cases c.has_index) [
    | inr without ↦
        let (after, runs, indexed, below) = each_index-Indexed (i + 1) cs index r.1 in
        (
          after,
          rw without runs,
          (
            (λ has. absurd (false≢true (sym without ∙ has))),
            (λ none_here. below i (omega arith)),
            indexed,
          ),
          (λ j lt. below j (omega arith)),
        )
    | inl has ↦
        let (y, (x, v, e, at, runs)) = r.0 has in
        let more = set_index i y index in
        let (after, rest, indexed, below) =
          each_index-Indexed (i + 1) cs more
            (Ready-same (i + 1) cs index more (set_index-other i y index) r.1) in
        let value : elem item i ≡ ok v = rw (elem, at) refl in
        let here : more i ≡ some y = rw (==_refl i) refl in
        (
          after,
          rw (has, e, value, runs) rest,
          (
            (λ h. (y, (x, v, e, at, runs), below i (omega arith) ∙ here)),
            (λ without. absurd (false≢true (sym without ∙ has))),
            Indexed-same (i + 1) cs more index after (λ j le. sym (set_index-other i y index j le))
                indexed,
          ),
          (λ j lt.
              let other : (j == i) ≡ false = ground arith in below j (omega arith) ∙ rw other refl),
        )
  ]

module _ {I : Type 0} (indexes : Indexes I) (hash : Text → ℕ) where
  -- On a well-formed table, for an item that passes the checks of `insertInTable`, conforms to the
  -- pattern, has some value of varying width longer than 64 bytes and whose bytes an empty page can
  -- hold, and where every column with an index has one whose insert returns, `insertInTable` returns
  -- true: `getEmbedRecord` at the new location gives the item, each index has been given that
  -- location under the hash of its column's value, and the indexes of the other columns are
  -- unchanged.
  pub insert_in_table-Indexed :
      (tables : Text → Option (Table I)) (t : Table I) (blocks : ℕ → List Block) (item : Item)
      → IsTable t.file blocks
      → Conforms t.pattern.widths item
      → short_values t.pattern.widths item ≡ false
      → FitsEmpty (encode t.pattern.widths item)
      → t.file.pages < 524286
      → ((loc : Text) → Ready (to_index indexes hash loc) item 0 t.columns t.index)
      → accepts_from indexes hash tables t item 0 t.columns ≡ ok true
      → (u : Table I) × (at : Location) × (blocks' : ℕ → List Block) × (insert_in_table indexes hash
            tables t item
          ≡ ok (some u))
        × IsTable u.file blocks'
        × (get_embed_record u.pattern u.file at ≡ ok item)
        × Indexed (to_index indexes hash (location_to_string at)) item 0 t.columns t.index u.index
  unfolding insert_in_table
  insert_in_table-Indexed tables t blocks item is conforms long fits room ready good =
      let (g, at, blocks', stored, table, reads) =
        embed-insert-get_embed_record t.pattern t.file blocks item is conforms long fits room in
      let finish = λ (r : File × Location).
        each_index (to_index indexes hash (location_to_string r.1)) item 0 t.columns t.index
        >>= λ index. ok (some (record t { file = r.0; index = index })) in
      let loc = location_to_string at in
      let (after, runs, indexed, below) =
        each_index-Indexed (to_index indexes hash loc) item 0 t.columns t.index (ready loc) in
      (
        record t { file = g; index = after },
        at,
        blocks',
        rw
            (
              good,
              bind_assoc (embed t.pattern item) (λ r. insert t.file r.0 r.1) finish,
              stored,
              runs,
            )
            refl,
        table,
        reads,
        indexed,
      )
