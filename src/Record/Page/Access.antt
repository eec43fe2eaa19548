-- ===== src/Record/Page/Access.antt =====
-- Reading, updating and deleting the record at an offset of a variable-length page, and what an
-- insertion leaves at every offset.
use tinydbpp.Base.{
  ℕ, ◌+◌, ◌-◌, ◌≤◌, ◌<◌, ◌≡◌, ◌≢◌, refl, sym, ◌∙◌, subst, Bool, true, false, Option, none, some,
  List, [], ◌∷◌, leb, ◌==◌, length, arith, Outcome, ok, Bool-cases, inl, inr, if◌then◌else◌,
}
use tinydbpp.Base.Bytes.{
  Bytes, poke, short_at, memcpy, slice, slice_same, slice-memcpy, memcpy_below, memcpy_above,
}
use tinydbpp.Record.Page.{read_record, update_no_resize, del_one, try_insert_var}
use tinydbpp.Record.Page.Blocks.{
  Block, free, used, size, Tiles, Tiles_bound, Tiles_same, behind, first_fit, record_at,
}
use tinydbpp.Record.Page.Insert.{Fits, try_insert_var-first_fit}

-- A record found lies behind `now` and inside the page.
record_at_bounds :
    (d : Bytes) (now : ℕ) (bs : List Block) (at : ℕ) (r : List ℕ)
    → Tiles d now bs
    → record_at now bs at ≡ some r
    → (now ≤ at) × (at + 3 + length r ≤ 4096)
unfolding record_at
record_at_bounds d now [] at r t e = absurd (cc)
record_at_bounds d now (free n ∷ bs) at r t e =
    ground (arith, record_at_bounds d (now + 3 + n) bs at r t.2)
record_at_bounds d now (used s ∷ bs) at r t e = ground (
  arith,
  record_at_bounds d (now + 3 + length s) bs at r t.3,
  Tiles_bound d (now + 3 + length s) bs t.3,
)

-- The header and the bytes of the record at an offset.
record_at_bytes :
    (d : Bytes) (now : ℕ) (bs : List Block) (at : ℕ) (r : List ℕ)
    → Tiles d now bs
    → record_at now bs at ≡ some r
    → (d at ≢ 0) × (short_at d (at + 1) ≡ length r) × (slice d (at + 3) (length r) ≡ r)
unfolding record_at
record_at_bytes d now [] at r t e = absurd (cc)
record_at_bytes d now (free n ∷ bs) at r t e =
    ground (arith, record_at_bytes d (now + 3 + n) bs at r t.2)
record_at_bytes d now (used s ∷ bs) at r t e = elim (Bool-cases (now == at)) [
  | inl here ↦
      let p : now ≡ at = ground arith in
      let q : s ≡ r = ground arith in rw (← p, ← q) (t.0, t.1, t.2)
  | inr later ↦ record_at_bytes d (now + 3 + length s) bs at r t.3 (ground arith)
]

-- `getRecord` returns the record of a used block.
pub read_record-record_at :
    (d : Bytes) (bs : List Block) (at : ℕ) (r : List ℕ)
    → Tiles d 0 bs
    → record_at 0 bs at ≡ some r
    → read_record d at ≡ ok r
unfolding read_record
read_record-record_at d bs at r t e =
    let (full, len, body) = record_at_bytes d 0 bs at r t e in
    let bound = record_at_bounds d 0 bs at r t e in
    let occupied : (d at == 0) ≡ false = ground arith in
    let fits : leb (at + 3 + length r) 4096 ≡ true = ground arith in rw (occupied, len, fits, body)

record_at_le :
    (now : ℕ) (bs : List Block) (at : ℕ) (r : List ℕ) → record_at now bs at ≡ some r → now ≤ at
unfolding record_at
record_at_le now [] at r e = absurd (cc)
record_at_le now (free n ∷ bs) at r e = ground (arith, record_at_le (now + 3 + n) bs at r)
record_at_le now (used s ∷ bs) at r e = ground (arith, record_at_le (now + 3 + length s) bs at r)

-- What an allocation that gives `f` leaves: the record, and every other record.
abbrev Adds : ℕ → List Block → List ℕ → Option (ℕ × List Block) → Type 0
Adds now bs r none = Unit {0}
Adds now bs r (some (at, bs')) =
    (record_at now bs' at ≡ some r)
    × ((o : ℕ) (s : List ℕ) → record_at now bs o ≡ some s → record_at now bs' o ≡ some s)

Adds-behind :
    (now : ℕ) (b : Block) (bs : List Block) (r : List ℕ) (f : Option (ℕ × List Block))
    → Adds (now + 3 + size b) bs r f
    → Adds now (b ∷ bs) r (behind b f)
unfolding record_at
Adds-behind now b bs r none h = tt
Adds-behind now (free n) bs r (some (at, bs')) (new, old) =
    (ground (arith, record_at_le (now + 3 + n) bs' at r new), λ o s e. ground (arith, old o s))
Adds-behind now (used s) bs r (some (at, bs')) (new, old) = (
  ground (arith, record_at_le (now + 3 + length s) bs' at r new),
  λ o q e. ground (arith, old o q),
)

Adds-split :
    (now n : ℕ) (bs : List Block) (r : List ℕ)
    → length r + 3 ≤ n
    → Adds now (free n ∷ bs) r (some (now, used r ∷ free (n - length r - 3) ∷ bs))
unfolding record_at
Adds-split now n bs r h =
    let next : now + 3 + length r + 3 + (n - length r - 3) ≡ now + 3 + n = omega arith in
    (ground arith, λ o s e. rw next (ground (arith, record_at_le (now + 3 + n) bs o s)))

Adds-exact :
    (now : ℕ) (bs : List Block) (r : List ℕ)
    → Adds now (free (length r) ∷ bs) r (some (now, used r ∷ bs))
unfolding record_at
Adds-exact now bs r =
    (ground arith, λ o s e. ground (arith, record_at_le (now + 3 + length r) bs o s))

first_fit-Adds : (now : ℕ) (bs : List Block) (r : List ℕ) → Adds now bs r (first_fit now bs r)
unfolding first_fit
first_fit-Adds now [] r = tt
first_fit-Adds now (used s ∷ bs) r =
    Adds-behind now (used s) bs r _ (first_fit-Adds (now + 3 + length s) bs r)
first_fit-Adds now (free n ∷ bs) r = elim (Bool-cases (leb 4096 (now + 3))) [
  | inl end ↦ rw end tt
  | inr more ↦ rw more (elim (Bool-cases (leb (length r + 3) n)) [
    | inl split ↦ rw split (Adds-split now n bs r (ground arith))
    | inr small ↦ rw small (elim (Bool-cases (n == length r)) [
      | inl exact ↦
          let e : n ≡ length r = ground arith in
          rw exact (
            subst (λ k. Adds now (free k ∷ bs) r (some (now, used r ∷ bs))) (sym e)
              (Adds-exact now bs r))
      | inr other ↦ rw other (Adds-behind now (free n) bs r _ (first_fit-Adds (now + 3 + n) bs r))
    ])
  ])
]

-- What a page promises of an insertion: the location reads back as the record, no other record is
-- lost or changed, and the page is well formed again.
abbrev pub Keeps : Bytes → List Block → List ℕ → ℕ → Bytes → Type 0
Keeps d bs r at d' =
    (read_record d' at ≡ ok r)
    × ((o : ℕ) (s : List ℕ) → record_at 0 bs o ≡ some s → read_record d' o ≡ ok s)
    × ((bs' : List Block) × Tiles d' 0 bs')

Keeps-Fits :
    (d : Bytes) (bs : List Block) (r : List ℕ) (f : Option (ℕ × List Block))
    (out : Outcome (Option (ℕ × Bytes))) (at : ℕ) (d' : Bytes)
    → Adds 0 bs r f
    → Fits d 0 f out
    → out ≡ ok (some (at, d'))
    → Keeps d bs r at d'
Keeps-Fits d bs r none out at d' a h e = absurd (cc)
Keeps-Fits d bs r (some (at', bs')) out at d' (new, old) (d₁, e₁, t, _) e =
    let p : at' ≡ at = ground arith in
    let q : d₁ ≡ d' = cc in
    rw (← p, ← q)
      (
        read_record-record_at d₁ bs' at' r t new,
        λ o s f. read_record-record_at d₁ bs' o s t (old o s f),
        (bs', t),
      )

-- An insertion that succeeds can be read back, and every other record reads as before.
pub try_insert_var-Keeps :
    (d : Bytes) (bs : List Block) (r : List ℕ) (at : ℕ) (d' : Bytes)
    → Tiles d 0 bs
    → try_insert_var d r ≡ ok (some (at, d'))
    → Keeps d bs r at d'
try_insert_var-Keeps d bs r at d' t =
    Keeps-Fits d bs r (first_fit 0 bs r) (try_insert_var d r) at d' (first_fit-Adds 0 bs r)
      (try_insert_var-first_fit d bs r t)

-- The blocks with the one at `at` changed.
unfoldable pub replace : ℕ → List Block → ℕ → Block → List Block
replace now [] at b = []
replace now (x ∷ bs) at b = if now == at then b ∷ bs else x ∷ replace (now + 3 + size x) bs at b

-- The header and the bytes of one block.
abbrev BlockAt : Bytes → ℕ → Block → Type 0
BlockAt d at (free n) = (d at ≡ 0) × (short_at d (at + 1) ≡ n)
BlockAt d at (used r) =
    (d at ≢ 0) × (short_at d (at + 1) ≡ length r) × (slice d (at + 3) (length r) ≡ r)

Block_Tiles :
    (e : Bytes) (now : ℕ) (b : Block) (bs : List Block)
    → BlockAt e now b
    → Tiles e (now + 3 + size b) bs
    → Tiles e now (b ∷ bs)
Block_Tiles e now (free n) bs h t = (h.0, h.1, t)
Block_Tiles e now (used r) bs h t = (h.0, h.1, h.2, t)

-- A write inside the block at `at` that leaves a block of the same size.
replace_Tiles :
    (d e : Bytes) (now : ℕ) (bs : List Block) (at : ℕ) (r : List ℕ) (b : Block)
    → Tiles d now bs
    → record_at now bs at ≡ some r
    → size b ≡ length r
    → BlockAt e at b
    → ((i : ℕ) → i < at → e i ≡ d i)
    → ((i : ℕ) → at + 3 + length r ≤ i → e i ≡ d i)
    → Tiles e now (replace now bs at b)
unfolding replace record_at
replace_Tiles d e now [] at r b t f same h below above = absurd (cc)
replace_Tiles d e now (free n ∷ bs) at r b t f same h below above = elim (Bool-cases (now == at)) [
  | inl here ↦ absurd (ground arith)
  | inr later ↦
      let f' : record_at (now + 3 + n) bs at ≡ some r = ground arith in
      let far = record_at_le (now + 3 + n) bs at r f' in
      rw later (
        below now (omega arith) ∙ t.0,
        ground (arith, below (now + 1), below (now + 1 + 1)),
        replace_Tiles d e (now + 3 + n) bs at r b t.2 f' same h below above,
      )
]
replace_Tiles d e now (used s ∷ bs) at r b t f same h below above = elim (Bool-cases (now == at)) [
  | inl here ↦
      let p : now ≡ at = ground arith in
      let q : length s ≡ length r = ground arith in
      let rest = Tiles_same d e (now + 3 + length s) bs (λ i a. sym (above i (omega arith))) t.3 in
      rw here (
        Block_Tiles e now b bs (subst (λ k. BlockAt e k b) (sym p) h)
          (subst (λ k. Tiles e k bs) (omega arith) rest))
  | inr later ↦
      let f' : record_at (now + 3 + length s) bs at ≡ some r = ground arith in
      let far = record_at_le (now + 3 + length s) bs at r f' in
      rw later (
        ground (arith, below now),
        ground (arith, below (now + 1), below (now + 1 + 1)),
        slice_same e d (now + 3) (length s) (λ i a c. below i (omega arith)) ∙ t.2,
        replace_Tiles d e (now + 3 + length s) bs at r b t.3 f' same h below above,
      )
]

record_at-replace :
    (now : ℕ) (bs : List Block) (at : ℕ) (r : List ℕ) (b : Block) (o : ℕ) (s : List ℕ)
    → record_at now bs at ≡ some r
    → size b ≡ length r
    → o ≢ at
    → record_at now bs o ≡ some s
    → record_at now (replace now bs at b) o ≡ some s
unfolding replace record_at
record_at-replace now [] at r b o s f same ne g = absurd (cc)
record_at-replace now (free n ∷ bs) at r b o s f same ne g =
    ground (arith, record_at-replace (now + 3 + n) bs at r b o s)
record_at-replace now (used q ∷ bs) at r (free n) o s f same ne g =
    ground (arith, record_at-replace (now + 3 + length q) bs at r (free n) o s)
record_at-replace now (used q ∷ bs) at r (used x) o s f same ne g =
    ground (arith, record_at-replace (now + 3 + length q) bs at r (used x) o s)

record_at-replace_self :
    (now : ℕ) (bs : List Block) (at : ℕ) (r x : List ℕ)
    → record_at now bs at ≡ some r
    → record_at now (replace now bs at (used x)) at ≡ some x
unfolding replace record_at
record_at-replace_self now [] at r x f = absurd (cc)
record_at-replace_self now (free n ∷ bs) at r x f =
    ground (arith, record_at-replace_self (now + 3 + n) bs at r x)
record_at-replace_self now (used q ∷ bs) at r x f =
    ground (arith, record_at-replace_self (now + 3 + length q) bs at r x)

-- Deleting a record frees its block, and every other record reads as before.
pub del_one-replace :
    (len : ℕ) (d : Bytes) (bs : List Block) (at : ℕ) (r : List ℕ)
    → Tiles d 0 bs
    → record_at 0 bs at ≡ some r
    → Tiles (del_one len d at false) 0 (replace 0 bs at (free (length r)))
      × ((o : ℕ) (s : List ℕ)
          → o ≢ at
          → record_at 0 bs o ≡ some s
          → read_record (del_one len d at false) o ≡ ok s)
unfolding del_one
del_one-replace len d bs at r t f =
    let (full, header, body) = record_at_bytes d 0 bs at r t f in
    let t' =
      replace_Tiles d (poke d at 0) 0 bs at r (free (length r)) t f refl
        (ground arith, ground arith) (λ i a. ground arith) (λ i a. ground arith) in
    (
      t',
      λ o s ne g.
          read_record-record_at _ _ o s t'
            (record_at-replace 0 bs at r (free (length r)) o s f refl ne g),
    )

-- updateRecordNoResize: what the callback leaves, when it changed the record to one of the same
-- length; other records read as before.
pub update_no_resize-replace :
    (d : Bytes) (bs : List Block) (at : ℕ) (r x : List ℕ) (callback : List ℕ → Bool × List ℕ)
    → Tiles d 0 bs
    → record_at 0 bs at ≡ some r
    → callback r ≡ (true, x)
    → length x ≡ length r
    → (d' : Bytes) × (update_no_resize d at callback ≡ ok d')
      × Tiles d' 0 (replace 0 bs at (used x))
      × (read_record d' at ≡ ok x)
      × ((o : ℕ) (s : List ℕ) → o ≢ at → record_at 0 bs o ≡ some s → read_record d' o ≡ ok s)
unfolding update_no_resize
update_no_resize-replace d bs at r x callback t f c same = (
  d',
  rw (read_record-record_at d bs at r t f, c, bytes.1, fits),
  t',
  read_record-record_at d' _ at x t' (record_at-replace_self 0 bs at r x f),
  λ o s ne g.
      read_record-record_at d' _ o s t' (record_at-replace 0 bs at r (used x) o s f same ne g),
)
  where
    d' : Bytes
    d' = memcpy d (at + 3) x

    bytes : (d at ≢ 0) × (short_at d (at + 1) ≡ length r) × (slice d (at + 3) (length r) ≡ r)
    bytes = record_at_bytes d 0 bs at r t f

    fits : (length x == length r) ≡ true
    fits = ground arith

    t' : Tiles d' 0 (replace 0 bs at (used x))
    t' =
        replace_Tiles d d' 0 bs at r (used x) t f same
          (
            ground (arith, bytes, memcpy_below d (at + 3) x at),
            ground (
              arith,
              bytes,
              memcpy_below d (at + 3) x (at + 1),
              memcpy_below d (at + 3) x (at + 1 + 1),
            ),
            slice-memcpy d (at + 3) x,
          )
          (λ i a. memcpy_below d (at + 3) x i (omega arith))
          (λ i a. memcpy_above d (at + 3) x i (omega arith))
