-- ===== src/Record/Page/Insert.antt =====
-- `tryInsert` on a variable-length page is a first fit over the page's blocks.
use tinydbpp.Base.{
  ℕ, zero, suc, ◌+◌, ◌-◌, ◌*◌, ◌%◌, ◌≤◌, ◌<◌, ◌≡◌, sym, ◌∙◌, subst, true, false, Option, none, some,
  List, [], ◌∷◌, ltb, leb, ◌==◌, length, arith, Outcome, ok, Bool-cases, ==_iff, inl, inr,
  if◌then◌else◌,
}
use tinydbpp.Base.Bytes.{
  Bytes, poke, short_at, put_short, memcpy, slice, slice_same, slice-memcpy, memcpy_below,
  memcpy_above,
}
use native.Mathlib.Decide.{dec_le}
use tinydbpp.Record.Page.{
  to_size_t, fits, next_block, split_rest, place, try_insert_from, try_insert_var,
}
use tinydbpp.Record.Page.Blocks.{
  size, Block, free, used, Tiles, Tiles_bound, Tiles_same, behind, first_fit, first_fit_end,
}

-- The page after the record and its header are written at `now`.
abbrev written : Bytes → ℕ → List ℕ → Bytes
written d now r = poke (put_short (memcpy d (now + 3) r) (now + 1) (length r)) now 1

module _ (d : Bytes) (now : ℕ) (r : List ℕ) where
  written_below : (i : ℕ) → i < now → written d now r i ≡ d i
  written_below i h = ground (arith, memcpy_below d (now + 3) r i)

  written_above : (i : ℕ) → now + 3 + length r ≤ i → written d now r i ≡ d i
  written_above i h = ground (arith, memcpy_above d (now + 3) r i)

  written_header : length r < 65536 → short_at (written d now r) (now + 1) ≡ length r
  written_header h = ground arith

  written_body : slice (written d now r) (now + 3) (length r) ≡ r
  written_body =
      slice_same (written d now r) (memcpy d (now + 3) r) (now + 3) (length r)
        (λ i a b. ground arith)
      ∙ slice-memcpy d (now + 3) r

-- What a placement in the page `d` at `now` leaves: the blocks, and the bytes before them.
abbrev Placed : Bytes → ℕ → List Block → Bytes → Type 0
Placed d now bs d' = Tiles d' now bs × ((i : ℕ) → i < now → d' i ≡ d i)

place_exact :
    (d : Bytes) (now : ℕ) (bs : List Block) (r : List ℕ)
    → Tiles d now (free (length r) ∷ bs)
    → (d' : Bytes) × (place d now r ≡ ok d') × Placed d now (used r ∷ bs) d'
unfolding place split_rest
place_exact d now bs r t =
    let bound = Tiles_bound d (now + 3 + length r) bs t.2 in
    (
      written d now r,
      ground arith,
      (
        (
          ground arith,
          written_header d now r (omega arith),
          written_body d now r,
          Tiles_same d (written d now r) (now + 3 + length r) bs
              (λ i a. sym (written_above d now r i a)) t.2,
        ),
        written_below d now r,
      ),
    )

-- The page after the header of the rest is written too.
abbrev divided : Bytes → ℕ → List ℕ → ℕ → Bytes
divided e now r m = put_short (poke e (now + 3 + length r) 0) (now + 3 + length r + 1) m

divided_Tiles :
    (e : Bytes) (now : ℕ) (r : List ℕ) (m : ℕ) (bs : List Block)
    → m < 65536
    → Tiles e (now + 3 + length r + 3 + m) bs
    → Tiles (divided e now r m) (now + 3 + length r) (free m ∷ bs)
divided_Tiles e now r m bs h t = (
  ground arith,
  ground arith,
  Tiles_same e (divided e now r m) (now + 3 + length r + 3 + m) bs (λ i a. ground arith) t,
)

split_rest_divides :
    (e : Bytes) (now n : ℕ) (r : List ℕ)
    → length r + 3 ≤ n
    → now + 3 + n ≤ 4096
    → split_rest e now n r ≡ ok (divided e now r (n - length r - 3))
unfolding split_rest
split_rest_divides e now n r h bound =
    let wrap : (n + 2 * 65536 - length r - 3) % 65536 ≡ n - length r - 3 = omega arith in
    let small : leb (length r + 3) (to_size_t n) ≡ true = ground arith in
    let room : leb (now + 3 + length r + 3) 4096 ≡ true = ground arith in rw (small, room, wrap)

place_split :
    (d : Bytes) (now n : ℕ) (bs : List Block) (r : List ℕ)
    → Tiles d now (free n ∷ bs)
    → length r + 3 ≤ n
    → (d' : Bytes) × (place d now r ≡ ok d')
      × Placed d now (used r ∷ free (n - length r - 3) ∷ bs) d'
unfolding place
place_split d now n bs r t h =
    let bound = Tiles_bound d (now + 3 + n) bs t.2 in
    let m : ℕ = n - length r - 3 in
    let same : now + 3 + n ≡ now + 3 + length r + 3 + m = omega arith in
    let e = written d now r in
    let d' = divided e now r m in
    (
      d',
      place_ok,
      (
        (
          ground (arith),
          ground (arith, written_header d now r),
          slice_same d' e (now + 3) (length r) (λ i a b. ground arith) ∙ written_body d now r,
          divided_Tiles e now r m bs (omega arith) (
              Tiles_same d e (now + 3 + length r + 3 + m) bs
                (λ i a. sym (written_above d now r i (omega arith)))
                (subst (λ x. Tiles d x bs) same t.2)),
        ),
        (λ i a. ground (arith, written_below d now r i)),
      ),
    )
  where
    place_ok : place d now r ≡ ok (divided (written d now r) now r (n - length r - 3))
    place_ok =
        let bound = Tiles_bound d (now + 3 + n) bs t.2 in
        let room : leb (now + 3 + length r) 4096 ≡ true = ground arith in
        rw (room, t.1) (split_rest_divides (written d now r) now n r h bound)

-- The result of the loop at `now` against that of the allocation on the blocks.
abbrev pub Fits : Bytes → ℕ → Option (ℕ × List Block) → Outcome (Option (ℕ × Bytes)) → Type 0
Fits d now none out = out ≡ ok none
Fits d now (some (at, bs)) out =
    (d' : Bytes) × (out ≡ ok (some (at, d'))) × Tiles d' now bs × ((i : ℕ) → i < now → d' i ≡ d i)

Fits-behind :
    (d : Bytes) (now : ℕ) (b : Block) (bs : List Block) (f : Option (ℕ × List Block))
    (out : Outcome (Option (ℕ × Bytes)))
    → Tiles d now (b ∷ bs)
    → Fits d (now + 3 + size b) f out
    → Fits d now (behind b f) out
Fits-behind d now b bs none out t h = h
Fits-behind d now (free n) bs (some (at, bs')) out t (d', e, t', same) = (
  d',
  e,
  (same now (omega arith) ∙ t.0, ground (arith, same (now + 1), same (now + 1 + 1)), t'),
  λ i a. same i (omega arith),
)
Fits-behind d now (used s) bs (some (at, bs')) out t (d', e, t', same) = (
  d',
  e,
  (
    ground (arith, same now),
    ground (arith, same (now + 1), same (now + 1 + 1)),
    slice_same d' d (now + 3) (length s) (λ i a b. same i b) ∙ t.2,
    t',
  ),
  λ i a. same i (omega arith),
)

next_block-ok : (now len : ℕ) → len < 32768 → next_block now len ≡ ok (now + 3 + len)
next_block-ok now len h = ground arith

-- One round on a block that does not take the record.
round_moves :
    (fuel : ℕ) (d : Bytes) (r : List ℕ) (now n : ℕ)
    → now + 3 < 4096
    → n < 32768
    → short_at d (now + 1) ≡ n
    → fits d now r ≡ false
    → try_insert_from (suc fuel) d r now ≡ try_insert_from fuel d r (now + 3 + n)
unfolding try_insert_from
round_moves fuel d r now n h small e unfit =
    let more : ltb (now + 3) 4096 ≡ true = ground arith in
    rw (try_insert_from, more, unfit, e, next_block-ok now n small)

-- One round on a block that takes it.
round_places :
    (fuel : ℕ) (d d' : Bytes) (r : List ℕ) (now : ℕ)
    → now + 3 < 4096
    → fits d now r ≡ true
    → place d now r ≡ ok d'
    → try_insert_from (suc fuel) d r now ≡ ok (some (now, d'))
unfolding try_insert_from
round_places fuel d d' r now h fit e =
    let more : ltb (now + 3) 4096 ≡ true = ground arith in rw (try_insert_from, more, fit, e)

round_ends :
    (fuel : ℕ) (d : Bytes) (r : List ℕ) (now : ℕ)
    → 4096 ≤ now + 3
    → try_insert_from (suc fuel) d r now ≡ ok none
unfolding try_insert_from
round_ends fuel d r now h =
    let done : ltb (now + 3) 4096 ≡ false = ground arith in rw (try_insert_from, done)

-- The loop, from any block on, with three bytes of progress for each unit of fuel.
try_insert_from-first_fit :
    (fuel : ℕ) (d : Bytes) (r : List ℕ) (now : ℕ) (bs : List Block)
    → Tiles d now bs
    → 4096 < now + 3 * fuel
    → Fits d now (first_fit now bs r) (try_insert_from fuel d r now)
unfolding first_fit
try_insert_from-first_fit zero d r now bs t h = absurd (omega (arith, Tiles_bound d now bs t))
try_insert_from-first_fit (suc fuel) d r now [] t h = round_ends fuel d r now (omega arith)
try_insert_from-first_fit (suc fuel) d r now (used s ∷ bs) t h = elim (dec_le 4096 (now + 3)) [
  | yes end ↦
      rw (round_ends fuel d r now end, first_fit_end d (now + 3 + length s) bs r t.3 (omega arith))
  | no more ↦
      let bound = Tiles_bound d (now + 3 + length s) bs t.3 in
      rw (round_moves fuel d r now (length s) (omega arith) (omega arith) t.1 (ground arith)) (
        Fits-behind d now (used s) bs _ _ t
          (try_insert_from-first_fit fuel d r (now + 3 + length s) bs t.3 (omega arith)))
]
try_insert_from-first_fit (suc fuel) d r now (free n ∷ bs) t h = elim (dec_le 4096 (now + 3)) [
  | yes end ↦
      let e : leb 4096 (now + 3) ≡ true = ground arith in rw (e, round_ends fuel d r now end)
  | no more ↦
      let e : leb 4096 (now + 3) ≡ false = ground arith in
      rw e (
        free_round (omega arith)
          (try_insert_from-first_fit fuel d r (now + 3 + n) bs t.2 (omega arith)))
]
  where
    free_round :
        now + 3 < 4096
        → Fits d
            (now + 3 + n)
            (first_fit (now + 3 + n) bs r)
            (try_insert_from fuel d r (now + 3 + n))
        → Fits d now
            (if leb (length r + 3) n
              then some (now, used r ∷ free (n - length r - 3) ∷ bs)
              else if n == length r
              then some (now, used r ∷ bs)
              else behind (free n) (first_fit (now + 3 + n) bs r))
            (try_insert_from (suc fuel) d r now)
    free_round more rest = elim (Bool-cases (leb (length r + 3) n)) [
      | inl split ↦
          let (d', e, placed) = place_split d now n bs r t (ground arith) in
          rw split (d', round_places fuel d d' r now more (ground arith) e, placed.0, placed.1)
      | inr small ↦ rw small (elim (Bool-cases (n == length r)) [
        | inl exact ↦
            let (d', e, placed) =
              place_exact d now bs r
                (subst (λ k. Tiles d now (free k ∷ bs)) ((==_iff n (length r)).0 exact) t) in
            rw exact (d', round_places fuel d d' r now more (ground arith) e, placed.0, placed.1)
        | inr other ↦
            let bound = Tiles_bound d (now + 3 + n) bs t.2 in
            rw (other, round_moves fuel d r now n more (omega arith) t.1 (ground arith))
              (Fits-behind d now (free n) bs _ _ t rest)
      ])
    ]

-- `tryInsert` on a well-formed page ends without a fault, and is the first fit over its blocks.
pub try_insert_var-first_fit :
    (d : Bytes) (bs : List Block) (r : List ℕ)
    → Tiles d 0 bs
    → Fits d 0 (first_fit 0 bs r) (try_insert_var d r)
unfolding try_insert_var
try_insert_var-first_fit d bs r t = try_insert_from-first_fit 4096 d r 0 bs t (omega arith)
