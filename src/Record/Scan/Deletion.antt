-- ===== src/Record/Scan/Deletion.antt =====
-- `del` over a table of pages of variable-length records.
use tinydbpp.Base.{
  ℕ, zero, suc, ◌+◌, ◌-◌, ◌%◌, ◌≤◌, ◌<◌, ◌≡◌, ◌≢◌, refl, sym, ◌∙◌, ap, subst, Bool, true, false,
  Bool-cases, inl, inr, List, ltb, ◌==◌, ==_iff, Outcome, ok, arith,
}
use tinydbpp.Description.{Item, Pattern}
use tinydbpp.Record.Page.Blocks.{Block, Tiles}
use tinydbpp.Record.Table.{File, Location, location, get_page, flag, is_fixed}
use tinydbpp.Record.Table.Dictionary.{IsTable, IsAt, IsAt-start, IsAt-dictionary, IsAt-next}
use tinydbpp.Record.Scan.{returns, scan_pages, del, del_func}
use tinydbpp.Record.Scan.Reads.{Reads, visited, blocks_bound}
use tinydbpp.Record.Scan.Pages.{AllVar, HasItems, visited_pages}
use tinydbpp.Record.Scan.Removal.{freed, kept, Reads-freed, SameBut}
use tinydbpp.Record.Scan.Removed.{scan_page-Removed}

module _ {A : Type 0} (p : Pattern) (check : Item → Bool) (s : A → Item → Location → A) (n : ℕ)
    (blocks : ℕ → List Block) (its : ℕ → List (ℕ × Item)) (few : n ≤ 4098)
    (reads : (q : ℕ) → 2 ≤ q → q < n → q % 4097 ≢ 1 → Reads p 0 (blocks q) (its q)) where
  abbrev collect : A → Item → ℕ → ℕ → A
  collect b vs i o = s b vs (location i o)

  abbrev delete : File → A → Item → ℕ → ℕ → Outcome (File × A)
  delete = del_func p (λ b vs l. ok (s b vs l))

  -- The loop's state at the page `i`: the pages from there on are as they were at first.
  record Untouched (f : File) (i : ℕ) : Type 0 where
    pages : f.pages ≡ n
    odd : (q : ℕ) → 2 ≤ q → q < n → q % 4097 ≢ 1 → flag f q % 2 ≡ 1
    tiles : (q : ℕ) → i ≤ q → 2 ≤ q → q < n → q % 4097 ≢ 1 → Tiles (f.page q) 0 (blocks q)

  record Done (f : File) (i : ℕ) (g : File) : Type 0 where
    pub pages : g.pages ≡ n
    pub odd : (q : ℕ) → 2 ≤ q → q < n → q % 4097 ≢ 1 → flag g q % 2 ≡ 1
    pub tiles :
        (q : ℕ)
        → i ≤ q
        → 2 ≤ q
        → q < n
        → q % 4097 ≢ 1
        → Tiles (g.page q) 0 (freed check (blocks q) (its q))
    pub before : (q : ℕ) → q < i → q % 4097 ≢ 1 → g.page q ≡ f.page q

  abbrev Deleted : File → ℕ → ℕ → A → Outcome (File × A) → Type 0
  Deleted f left i a out =
      (g : File) × (out ≡ ok (g, visited_pages check collect its left i a)) × Done f i g

  Untouched-SameBut : {f g : File} {i : ℕ} → Untouched f i → SameBut i f g → Untouched g (i + 1)
  Untouched-SameBut {f} {g} {i} u b = record {
    pages = b.pages ∙ u.pages;
    odd = λ q low high d. b.flags q ∙ u.odd q low high d;
    tiles = λ q from low high d.
        subst (λ x. Tiles x 0 (blocks q)) (sym (b.page q (λ e. absurd (omega arith)) d))
          (u.tiles q (omega arith) low high d);
  }

  Untouched-skip : {f : File} {i : ℕ} → Untouched f i → Untouched f (i + 1)
  Untouched-skip u = record {
    pages = u.pages;
    odd = u.odd;
    tiles = λ q from low high d. u.tiles q (omega arith) low high d;
  }

  Done-skip : {f g : File} {i : ℕ} → i % 4097 ≡ 1 → Done f (i + 1) g → Done f i g
  Done-skip {f} {g} {i} h d = record {
    pages = d.pages;
    odd = d.odd;
    tiles = λ q from low high data_page.
        d.tiles q (omega (arith, other q data_page)) low high data_page;
    before = λ q lt data_page. d.before q (omega arith) data_page;
  }
    where
      other : (q : ℕ) → q % 4097 ≢ 1 → q ≢ i
      other q data_page e = data_page (ap (λ x. x % 4097) e ∙ h)

  Done-page :
      {f g h : File} {i : ℕ}
      → SameBut i f g
      → Tiles (g.page i) 0 (freed check (blocks i) (its i))
      → Done g (i + 1) h
      → Done f i h
  Done-page {f} {g} {h} {i} b t d = record {
    pages = d.pages;
    odd = d.odd;
    tiles = λ q from low high data_page. elim (Bool-cases (q == i)) [
      | inl e ↦
          let q-i : q ≡ i = (==_iff q i).0 e in
          subst (λ x. Tiles (h.page x) 0 (freed check (blocks x) (its x))) (sym q-i)
            (subst (λ x. Tiles x 0 (freed check (blocks i) (its i)))
              (sym (d.before i (omega arith) (λ k. data_page (ap (λ x. x % 4097) q-i ∙ k)))) t)
      | inr e ↦ let ne : q ≢ i = ground arith in d.tiles q (omega (arith, ne)) low high data_page
    ];
    before = λ q lt data_page.
        d.before q (omega arith) data_page ∙ b.page q (λ e. absurd (omega arith)) data_page;
  }

  scan_pages-Deleted :
      (left : ℕ) (f : File) (a : A) (i index dic : ℕ)
      → i + left ≡ n
      → Untouched f i
      → IsAt i index dic
      → Deleted f left i a (scan_pages left p (returns check) delete f a i index dic)
  unfolding scan_pages
  scan_pages-Deleted zero f a i index dic end u at = (
    f,
    refl,
    record {
      pages = u.pages;
      odd = u.odd;
      tiles = λ q from low high d. absurd (omega arith);
      before = λ q lt d. refl;
    },
  )
  scan_pages-Deleted (suc left) f a i index dic end u (low, inl (e, page)) =
      let skip : (i % 4097 == 1) ≡ true = ground arith in
      let (g, runs, d) =
        scan_pages-Deleted left f a (i + 1) 0 i (omega arith) (Untouched-skip u)
          (IsAt-dictionary i dic (low, inl (refl, page))) in
      (g, rw (e, skip) runs, Done-skip page d)
  scan_pages-Deleted (suc left) f a i index dic end u (low, inr (small, slot, d, page)) =
      let more : (index == 4096) ≡ false = ground arith in
      let visit : (i % 4097 == 1) ≡ false = ground arith in
      let odd : flag f i % 2 ≡ 1 = u.odd i low (omega arith) page in
      let varying : is_fixed (f.page dic index) ≡ false = rw (slot, d, odd) refl in
      let t = u.tiles i (omega arith) low (omega arith) page in
      let (g, step, same, tiles, low_bytes) =
        scan_page-Removed p check s i low (omega arith) page 4097 f a 0 (blocks i) (its i)
          (omega (arith, u.pages)) odd t (reads i low (omega arith) page)
          (omega (arith, blocks_bound (f.page i) 0 (blocks i) t)) in
      let (h, runs, done) =
        scan_pages-Deleted left g (visited check collect i (its i) a) (i + 1) (index + 1) dic
          (omega arith) (Untouched-SameBut u same) (IsAt-next i index dic low slot d page) in
      (h, rw (scan_pages, more, visit, varying, step) runs, Done-page same tiles done)

-- On a well-formed table of 2 to 4098 pages, all of variable-length records, each the bytes of
-- values that conform to the pattern, and with a solver that returns, `del` ends: the solver has
-- had each item that the checker accepts once, in order and with its location; the blocks of these
-- items are free, and the others hold the items they held.
pub del-kept :
    {A : Type 0} (p : Pattern) (check : Item → Bool) (s : A → Item → Location → A) (f : File)
    (a : A) (blocks : ℕ → List Block) (its : ℕ → List (ℕ × Item))
    → IsTable f blocks
    → AllVar f
    → HasItems p f blocks its
    → 2 ≤ f.pages
    → f.pages ≤ 4098
    → (g : File) × (del p (returns check) (λ b vs l. ok (s b vs l)) f a
        ≡ ok (g, visited_pages check (λ b vs i o. s b vs (location i o)) its (f.pages - 2) 2 a))
      × (g.pages ≡ f.pages)
      × IsTable g (λ q. freed check (blocks q) (its q))
      × AllVar g
      × HasItems p g (λ q. freed check (blocks q) (its q)) (λ q. kept check (its q))
unfolding del
del-kept p check s f a blocks its t var has big few =
    let reads = λ (q : ℕ) (low : 2 ≤ q) (high : q < f.pages) (d : q % 4097 ≢ 1).
      has q (low, high, d, var q low high d) in
    let same : ltb f.pages (1 + 1) ≡ false = ground arith in
    let start : Untouched p check s f.pages blocks its few reads (get_page f 1) 2 = record {
      pages = rw same refl;
      odd = var;
      tiles = λ q from low high d. t q (low, high, d, var q low high d);
    } in
    let (g, runs, done) =
      scan_pages-Deleted p check s f.pages blocks its few reads (f.pages - 2) (get_page f 1) a 2 0 1
        (omega arith) start IsAt-start in
    (
      g,
      runs,
      done.pages,
      λ q v. done.tiles q v.0 v.0 (subst (λ m. q < m) done.pages v.1) v.2,
      λ q low high d. done.odd q low (subst (λ m. q < m) done.pages high) d,
      λ q v.
          let high : q < f.pages = subst (λ m. q < m) done.pages v.1 in
          Reads-freed p check 0 (blocks q) (its q) (reads q v.0 high v.2),
    )
