-- ===== src/Record/Scan/Removed.antt =====
-- The loop of `select` with the solver of `del`, on one page of variable-length records.
use tinydbpp.Base.{
  ℕ, zero, suc, ◌+◌, ◌-◌, ◌%◌, ◌≤◌, ◌<◌, ◌≡◌, ◌≢◌, refl, sym, ◌∙◌, ap, Bool, true, false,
  Bool-cases, inl, inr, List, [], ◌∷◌, ltb, leb, ◌==◌, ==_refl, length, Outcome, ok, arith,
}
use tinydbpp.Base.Bytes.{Bytes, poke, slice, short_at, slice_same}
use tinydbpp.Description.{Item, Pattern}
use tinydbpp.Description.RoundTrip.{Conforms, encode}
use tinydbpp.Record.Page.{del_one}
use tinydbpp.Record.Page.Blocks.{Block, free, used, Tiles, Tiles_bound, Tiles_same}
use tinydbpp.Record.Table.{File, Location, location, flag, is_fixed, del_one_record}
use tinydbpp.Record.Scan.{returns, scan_page, del_func}
use tinydbpp.Record.Scan.Reads.{Reads, visited, read-used}
use tinydbpp.Record.Scan.Removal.{
  freed, SameBut, SameBut-refl, SameBut-trans, removed_at, removed_at-SameBut, removed_at-page,
}

short_same : (d e : Bytes) (o : ℕ) → d o ≡ e o → d (o + 1) ≡ e (o + 1) → short_at d o ≡ short_at e o
short_same d e o h k = rw (h, k) refl

module _ {A : Type 0} (p : Pattern) (check : Item → Bool) (s : A → Item → Location → A) (i : ℕ)
    (low : 2 ≤ i) (high : i ≤ 4097) (data_page : i % 4097 ≢ 1) where
  -- The solver of `del` for a callback that collects.
  abbrev pub removing : File → A → Item → ℕ → ℕ → Outcome (File × A)
  removing = del_func p (λ a vs l. ok (s a vs l))

  removing-removed_at :
      (f : File) (a : A) (vs : Item) (now : ℕ)
      → i < f.pages
      → flag f i % 2 ≡ 1
      → removing f a vs i now ≡ ok (removed_at f i now, s a vs (location i now))
  unfolding del_func del_one_record del_one
  removing-removed_at f a vs now inside odd =
      let there : ltb f.pages (i + 1) ≡ false = ground arith in
      let varying : is_fixed (flag f i) ≡ false = rw odd refl in
      let slot : ltb (i - 2) 4096 ≡ true = ground arith in rw (varying, slot, there) refl

  -- What the loop leaves from `now` on.
  abbrev pub Removed : File → ℕ → List Block → List (ℕ × Item) → A → Outcome (File × A) → Type 0
  Removed f now bs its a out =
      (g : File) × (out ≡ ok (g, visited check (λ b vs j o. s b vs (location j o)) i its a))
      × SameBut i f g
      × Tiles (g.page i) now (freed check bs its)
      × ((j : ℕ) → j < now → g.page i j ≡ f.page i j)

  scan_end :
      (fuel : ℕ) (f : File) (a : A) (now : ℕ) (its : List (ℕ × Item))
      → now ≡ 4096
      → its ≡ []
      → scan_page (suc fuel) p (returns check) removing f a i false now
        ≡ ok (f, visited check (λ b vs j o. s b vs (location j o)) i its a)
  unfolding scan_page
  scan_end fuel f a now its t h =
      let done : ltb now 4096 ≡ false = ground arith in rw (scan_page, done, h) refl

  round_free :
      (fuel : ℕ) (f : File) (a : A) (now n : ℕ)
      → f.page i now ≡ 0
      → short_at (f.page i) (now + 1) ≡ n
      → now + 3 + n ≤ 4096
      → scan_page (suc fuel) p (returns check) removing f a i false now
        ≡ scan_page fuel p (returns check) removing f a i false (now + 3 + n)
  unfolding scan_page
  round_free fuel f a now n z e bound =
      let more : ltb now 4096 ≡ true = ground arith in
      let empty : (f.page i now == 0) ≡ true = ground arith in
      let room : leb (now + 3) 4096 ≡ true = ground arith in
      let small : ltb n 32768 ≡ true = ground arith in
      rw (scan_page, more, empty, room, e, small) refl

  module _ (fuel : ℕ) (f : File) (a : A) (now : ℕ) (r : List ℕ) (vs : Item) (nz : f.page i now ≢ 0)
      (body : slice (f.page i) (now + 3) (length r) ≡ r) (e : r ≡ encode p.widths vs)
      (c : Conforms p.widths vs) (bound : now + 3 + length r ≤ 4096) where
    round_kept :
        check vs ≡ false
        → scan_page (suc fuel) p (returns check) removing f a i false now
          ≡ scan_page fuel p (returns check) removing f a i false (now + 3 + length r)
    unfolding scan_page
    round_kept passed =
        let more : ltb now 4096 ≡ true = ground arith in
        let full : (f.page i now == 0) ≡ false = ground arith in
        rw (scan_page, more, full, read-used p vs (f.page i) (now + 3) r e c body bound, passed)
          refl

    round_removed :
        check vs ≡ true
        → i < f.pages
        → flag f i % 2 ≡ 1
        → scan_page (suc fuel) p (returns check) removing f a i false now
          ≡ scan_page fuel p
              (returns check)
              removing
              (removed_at f i now)
              (s a vs (location i now))
              i
              false
              (now + 3 + length r)
    unfolding scan_page
    round_removed chosen inside odd =
        let more : ltb now 4096 ≡ true = ground arith in
        let full : (f.page i now == 0) ≡ false = ground arith in
        rw
          (
            scan_page,
            more,
            full,
            read-used p vs (f.page i) (now + 3) r e c body bound,
            chosen,
            removing-removed_at f a vs now inside odd,
          )
          refl

  module _ (f : File) (now : ℕ) (bs : List Block) where
    -- The blocks behind a record that is removed are as they were.
    behind_removed :
        (n : ℕ) → now < n → Tiles (f.page i) n bs → Tiles ((removed_at f i now).page i) n bs
    behind_removed n h t =
        Tiles_same (f.page i) ((removed_at f i now).page i) n bs
          (λ j le. sym (ap (λ d. d j) (removed_at-page f i now low data_page) ∙ other j le)) t
      where
        other : (j : ℕ) → n ≤ j → poke (f.page i) now 0 j ≡ f.page i j
        other j le = let z : (j == now) ≡ false = ground arith in rw z refl

    pub before_removed : (j : ℕ) → j ≢ now → (removed_at f i now).page i j ≡ f.page i j
    before_removed j ne =
        let z : (j == now) ≡ false = ground arith in
        ap (λ d. d j) (removed_at-page f i now low data_page) ∙ rw z refl

  step_free :
      (fuel : ℕ) (f : File) (a : A) (now n : ℕ) (bs : List Block) (its : List (ℕ × Item))
      → Tiles (f.page i) now (free n ∷ bs)
      → Removed f
          (now + 3 + n)
          bs
          its
          a
          (scan_page fuel p (returns check) removing f a i false (now + 3 + n))
      → Removed f now
          (free n ∷ bs)
          its
          a
          (scan_page (suc fuel) p (returns check) removing f a i false now)
  step_free fuel f a now n bs its t (g, runs, same, tiles, low_bytes) = (
    g,
    round_free fuel f a now n t.0 t.1 (Tiles_bound (f.page i) (now + 3 + n) bs t.2) ∙ runs,
    same,
    (
      low_bytes now (omega arith) ∙ t.0,
      short_same (g.page i) (f.page i) (now + 1) (low_bytes (now + 1) (omega arith))
            (low_bytes (now + 1 + 1) (omega arith))
          ∙ t.1,
      tiles,
    ),
    λ j lt. low_bytes j (omega arith),
  )

  module _ (fuel : ℕ) (f : File) (a : A) (now : ℕ) (r : List ℕ) (bs : List Block) (vs : Item)
      (its : List (ℕ × Item)) (t : Tiles (f.page i) now (used r ∷ bs)) (e : r ≡ encode p.widths vs)
      (c : Conforms p.widths vs) where
    bound : now + 3 + length r ≤ 4096
    bound = Tiles_bound (f.page i) (now + 3 + length r) bs t.3

    step_kept :
        check vs ≡ false
        → Removed f
            (now + 3 + length r)
            bs
            its
            a
            (scan_page fuel p (returns check) removing f a i false (now + 3 + length r))
        → Removed f now
            (used r ∷ bs)
            ((now, vs) ∷ its)
            a
            (scan_page (suc fuel) p (returns check) removing f a i false now)
    step_kept passed (g, runs, same, tiles, low_bytes) = rw passed (
      g,
      round_kept fuel f a now r vs t.0 t.2 e c bound passed ∙ runs,
      same,
      (
        (λ z. t.0 (sym (low_bytes now (omega arith)) ∙ z)),
        short_same (g.page i) (f.page i) (now + 1) (low_bytes (now + 1) (omega arith))
              (low_bytes (now + 1 + 1) (omega arith))
            ∙ t.1,
        slice_same (g.page i) (f.page i) (now + 3) (length r) (λ j le lt. low_bytes j lt) ∙ t.2,
        tiles,
      ),
      λ j lt. low_bytes j (omega arith),
    )

    step_one :
        check vs ≡ true
        → i < f.pages
        → flag f i % 2 ≡ 1
        → Removed (removed_at f i now) (now + 3 + length r) bs its (s a vs (location i now)) (
            scan_page fuel p
              (returns check)
              removing
              (removed_at f i now)
              (s a vs (location i now))
              i
              false
              (now + 3 + length r))
        → Removed f now
            (used r ∷ bs)
            ((now, vs) ∷ its)
            a
            (scan_page (suc fuel) p (returns check) removing f a i false now)
    step_one chosen inside odd (g, runs, same, tiles, low_bytes) =
        let old = λ (j : ℕ) (ne : j ≢ now). before_removed f now bs j ne in
        rw chosen (
          g,
          round_removed fuel f a now r vs t.0 t.2 e c bound chosen inside odd ∙ runs,
          SameBut-trans (removed_at-SameBut f i now low data_page) same,
          (
            low_bytes now (omega arith)
                ∙ ap (λ d. d now) (removed_at-page f i now low data_page)
                ∙ rw (==_refl now) refl,
            short_same (g.page i) (f.page i) (now + 1)
                  (low_bytes (now + 1) (omega arith) ∙ old (now + 1) (omega arith))
                  (low_bytes (now + 1 + 1) (omega arith) ∙ old (now + 1 + 1) (omega arith))
                ∙ t.1,
            tiles,
          ),
          λ j lt. low_bytes j (omega arith) ∙ old j (omega arith),
        )

  pub scan_page-Removed :
      (fuel : ℕ) (f : File) (a : A) (now : ℕ) (bs : List Block) (its : List (ℕ × Item))
      → i < f.pages
      → flag f i % 2 ≡ 1
      → Tiles (f.page i) now bs
      → Reads p now bs its
      → length bs < fuel
      → Removed f now bs its a (scan_page fuel p (returns check) removing f a i false now)
  scan_page-Removed zero f a now bs its inside odd t h enough = absurd (omega arith)
  scan_page-Removed (suc fuel) f a now [] its inside odd t h enough =
      (f, scan_end fuel f a now its t h, SameBut-refl i f, t, λ j lt. refl)
  scan_page-Removed (suc fuel) f a now (free n ∷ bs) its inside odd t h enough =
      step_free fuel f a now n bs its t
        (scan_page-Removed fuel f a (now + 3 + n) bs its inside odd t.2 h (omega arith))
  scan_page-Removed (suc fuel) f a now (used r ∷ bs) [] inside odd t h enough = absurd h
  scan_page-Removed (suc fuel) f a now (used r ∷ bs) ((o, vs) ∷ its) inside odd t h enough =
      let same = removed_at-SameBut f i now low data_page in
      let kept =
        scan_page-Removed fuel f a (now + 3 + length r) bs its inside odd t.3 h.3 (omega arith) in
      let gone =
        scan_page-Removed fuel (removed_at f i now) (s a vs (location i now)) (now + 3 + length r)
          bs its (rw same.pages inside) (same.flags i ∙ odd)
          (behind_removed f now bs (now + 3 + length r) (omega arith) t.3) h.3 (omega arith) in
      rw h.0 (elim (Bool-cases (check vs)) [
        | inl chosen ↦ step_one fuel f a now r bs vs its t h.1 h.2 chosen inside odd gone
        | inr passed ↦ step_kept fuel f a now r bs vs its t h.1 h.2 passed kept
      ])
