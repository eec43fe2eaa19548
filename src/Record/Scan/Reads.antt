-- ===== src/Record/Scan/Reads.antt =====
-- The records of a page of variable-length records as items, and the loop over such a page.
use tinydbpp.Base.{
  ℕ, zero, suc, ◌+◌, ◌*◌, ◌≤◌, ◌<◌, ◌≡◌, ◌≢◌, refl, ◌∙◌, subst, Bool, true, false, Bool-cases, inl,
  inr, List, [], ◌∷◌, ltb, leb, ◌==◌, if◌then◌else◌, length, Outcome, ok, arith,
}
use tinydbpp.Base.Bytes.{Bytes, slice, short_at, Holds}
use tinydbpp.Description.{Item, Pattern, read}
use tinydbpp.Description.RoundTrip.{Conforms, encode, read_values-encode}
use tinydbpp.Record.Page.Blocks.{Block, free, used, Tiles, Tiles_bound}
use tinydbpp.Record.Table.{File}
use tinydbpp.Record.Scan.{returns, scan_page}

-- The used blocks from `now` on are the bytes of these items, at these offsets.
abbrev pub Reads : Pattern → ℕ → List Block → List (ℕ × Item) → Type 0
Reads p now [] its = its ≡ []
Reads p now (free n ∷ bs) its = Reads p (now + 3 + n) bs its
Reads p now (used r ∷ bs) [] = ⊥
Reads p now (used r ∷ bs) ((o, vs) ∷ its) =
    (o ≡ now)
    × (r ≡ encode p.widths vs)
    × Conforms p.widths vs
    × Reads p (now + 3 + length r) bs its

-- What is collected from the items at these offsets of the page `i`.
abbrev pub visited :
    {A : Type 0} → (Item → Bool) → (A → Item → ℕ → ℕ → A) → ℕ → List (ℕ × Item) → A → A
visited check g i [] a = a
visited check g i ((o, vs) ∷ its) a = visited check g i its (if check vs then g a vs i o else a)

pub slice-Holds : (d : Bytes) (o : ℕ) (xs : List ℕ) → slice d o (length xs) ≡ xs → Holds d o xs
unfolding slice
slice-Holds d o [] e = tt
slice-Holds d o (x ∷ xs) e = (cc, slice-Holds d (o + 1) xs (cc))

-- Reading at a used block.
pub read-used :
    (p : Pattern) (vs : Item) (d : Bytes) (at : ℕ) (r : List ℕ)
    → r ≡ encode p.widths vs
    → Conforms p.widths vs
    → slice d at (length r) ≡ r
    → at + length r ≤ 4096
    → read p d 4096 at false ≡ ok (vs, at + length r)
unfolding read
read-used p vs d at r e c body fits =
    let here =
      slice-Holds d at (encode p.widths vs) (subst (λ x. slice d at (length x) ≡ x) e body) in
    rw
      (
        e,
        read_values-encode p.widths vs d 4096 at c here (subst (λ x. at + length x ≤ 4096) e fits),
      )
      refl

pub blocks_bound :
    (d : Bytes) (now : ℕ) (bs : List Block) → Tiles d now bs → now + length bs * 3 ≤ 4096
blocks_bound d now [] t = omega arith
blocks_bound d now (free n ∷ bs) t = omega (arith, blocks_bound d (now + 3 + n) bs t.2)
blocks_bound d now (used r ∷ bs) t = omega (arith, blocks_bound d (now + 3 + length r) bs t.3)

module _ {A : Type 0} (p : Pattern) (check : Item → Bool) (g : A → Item → ℕ → ℕ → A) (f : File)
    (i : ℕ) where
  abbrev gather : File → A → Item → ℕ → ℕ → Outcome (File × A)
  gather h a vs j o = ok (h, g a vs j o)

  scan_free :
      (fuel : ℕ) (a : A) (now n : ℕ)
      → (f.page i now ≡ 0)
      → short_at (f.page i) (now + 1) ≡ n
      → now + 3 + n ≤ 4096
      → scan_page (suc fuel) p (returns check) gather f a i false now
        ≡ scan_page fuel p (returns check) gather f a i false (now + 3 + n)
  unfolding scan_page
  scan_free fuel a now n z e bound =
      let more : ltb now 4096 ≡ true = ground arith in
      let empty : (f.page i now == 0) ≡ true = ground arith in
      let room : leb (now + 3) 4096 ≡ true = ground arith in
      let small : ltb n 32768 ≡ true = ground arith in
      rw (scan_page, more, empty, room, e, small) refl

  scan_used :
      (fuel : ℕ) (a : A) (now : ℕ) (r : List ℕ) (vs : Item)
      → (f.page i now ≢ 0)
      → slice (f.page i) (now + 3) (length r) ≡ r
      → r ≡ encode p.widths vs
      → Conforms p.widths vs
      → now + 3 + length r ≤ 4096
      → scan_page (suc fuel) p (returns check) gather f a i false now
        ≡ scan_page fuel p
            (returns check)
            gather
            f
            (if check vs then g a vs i now else a)
            i
            false
            (now + 3 + length r)
  unfolding scan_page
  scan_used fuel a now r vs nz body e c bound =
      let more : ltb now 4096 ≡ true = ground arith in
      let full : (f.page i now == 0) ≡ false = ground arith in
      elim (Bool-cases (check vs)) [
        | inl chosen ↦
            rw (scan_page, more, full, read-used p vs (f.page i) (now + 3) r e c body bound, chosen)
              refl
        | inr passed ↦
            rw (scan_page, more, full, read-used p vs (f.page i) (now + 3) r e c body bound, passed)
              refl
      ]

  -- The loop visits exactly the items of the page, in their order, and ends.
  pub scan_page-visited :
      (fuel : ℕ) (a : A) (now : ℕ) (bs : List Block) (its : List (ℕ × Item))
      → Tiles (f.page i) now bs
      → Reads p now bs its
      → length bs < fuel
      → scan_page fuel p (returns check) gather f a i false now ≡ ok (f, visited check g i its a)
  unfolding scan_page
  scan_page-visited zero a now bs its t h enough = absurd (omega arith)
  scan_page-visited (suc fuel) a now [] its t h enough =
      let done : ltb now 4096 ≡ false = ground arith in rw (scan_page, done, h) refl
  scan_page-visited (suc fuel) a now (free n ∷ bs) its t h enough =
      scan_free fuel a now n t.0 t.1 (Tiles_bound (f.page i) (now + 3 + n) bs t.2)
      ∙ scan_page-visited fuel a (now + 3 + n) bs its t.2 h (omega arith)
  scan_page-visited (suc fuel) a now (used r ∷ bs) [] t h enough = absurd h
  scan_page-visited (suc fuel) a now (used r ∷ bs) ((o, vs) ∷ its) t h enough = rw h.0 (
      scan_used fuel a now r vs t.0 t.2 h.1 h.2 (Tiles_bound (f.page i) (now + 3 + length r) bs t.3)
      ∙ scan_page-visited fuel (if check vs then g a vs i now else a) (now + 3 + length r) bs its
          t.3 h.3 (omega arith))
