-- ===== src/Record/Page/Blocks.antt =====
-- A variable-length page as a sequence of blocks that tile it: what the page promises, and the
-- first-fit allocation that `tryInsert` performs on the sequence.
use tinydbpp.Base.{
  ℕ, ◌+◌, ◌-◌, ◌≤◌, ◌≡◌, ◌≢◌, refl, sym, ◌∙◌, Option, none, some, List, [], ◌∷◌, leb, ◌==◌,
  if◌then◌else◌, length, arith, ap,
}
use tinydbpp.Base.Bytes.{Bytes, short_at, slice, slice_same}

-- A free block has a size, a used one the bytes of its record.
pub data Block : Type 0 where
  free : ℕ → Block
  used : List ℕ → Block

abbrev pub size : Block → ℕ
size (free n) = n
size (used r) = length r

-- The blocks lie one behind the other from `now` up to the end of the page.
abbrev pub Tiles : Bytes → ℕ → List Block → Type 0
Tiles d now [] = now ≡ 4096
Tiles d now (free n ∷ bs) = (d now ≡ 0) × (short_at d (now + 1) ≡ n) × Tiles d (now + 3 + n) bs
Tiles d now (used r ∷ bs) =
    (d now ≢ 0)
    × (short_at d (now + 1) ≡ length r)
    × (slice d (now + 3) (length r) ≡ r)
    × Tiles d (now + 3 + length r) bs

pub Tiles_bound : (d : Bytes) (now : ℕ) (bs : List Block) → Tiles d now bs → now ≤ 4096
Tiles_bound d now [] t = omega arith
Tiles_bound d now (free n ∷ bs) t = omega (arith, Tiles_bound d (now + 3 + n) bs t.2)
Tiles_bound d now (used r ∷ bs) t = omega (arith, Tiles_bound d (now + 3 + length r) bs t.3)

-- The blocks from `now` on depend on no byte before `now`.
pub Tiles_same :
    (d e : Bytes) (now : ℕ) (bs : List Block)
    → ((i : ℕ) → now ≤ i → d i ≡ e i)
    → Tiles d now bs
    → Tiles e now bs
Tiles_same d e now [] h t = t
Tiles_same d e now (free n ∷ bs) h t = (
  ground (arith, h now),
  ground (arith, h (now + 1), h (now + 1 + 1)),
  Tiles_same d e (now + 3 + n) bs (λ i a. h i (omega arith)) t.2,
)
Tiles_same d e now (used r ∷ bs) h t = (
  ground (arith, h now),
  ground (arith, h (now + 1), h (now + 1 + 1)),
  slice_same e d (now + 3) (length r) (λ i a b. sym (h i (omega arith))) ∙ t.2,
  Tiles_same d e (now + 3 + length r) bs (λ i a. h i (omega arith)) t.3,
)

abbrev pub behind : Block → Option (ℕ × List Block) → Option (ℕ × List Block)
behind b none = none
behind b (some (at, bs)) = some (at, b ∷ bs)

-- First fit: the first free block that holds the record exactly, or that leaves room for another
-- header. A last block of size zero is never used.
unfoldable pub first_fit : ℕ → List Block → List ℕ → Option (ℕ × List Block)
first_fit now [] r = none
first_fit now (used s ∷ bs) r = behind (used s) (first_fit (now + 3 + length s) bs r)
first_fit now (free n ∷ bs) r =
    let later = behind (free n) (first_fit (now + 3 + n) bs r) in
    if leb 4096 (now + 3)
    then none
    else if leb (length r + 3) n
    then some (now, used r ∷ free (n - length r - 3) ∷ bs)
    else if n == length r
    then some (now, used r ∷ bs)
    else later

pub first_fit_end :
    (d : Bytes) (now : ℕ) (bs : List Block) (r : List ℕ)
    → Tiles d now bs
    → 4096 ≤ now + 3
    → first_fit now bs r ≡ none
unfolding first_fit
first_fit_end d now [] r t h = refl
first_fit_end d now (free n ∷ bs) r t h = ground arith
first_fit_end d now (used s ∷ bs) r t h =
    ap (behind (used s)) (first_fit_end d (now + 3 + length s) bs r t.3 (omega arith))

-- The record at an offset.
unfoldable pub record_at : ℕ → List Block → ℕ → Option (List ℕ)
record_at now [] at = none
record_at now (free n ∷ bs) at = if now == at then none else record_at (now + 3 + n) bs at
record_at now (used r ∷ bs) at = if now == at then some r else record_at (now + 3 + length r) bs at
