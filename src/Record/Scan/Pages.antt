-- ===== src/Record/Scan/Pages.antt =====
-- `select` over a table of pages of variable-length records.
use tinydbpp.Base.{
  ℕ, zero, suc, ◌+◌, ◌-◌, ◌%◌, ◌≤◌, ◌<◌, ◌≡◌, ◌≢◌, refl, sym, ◌∙◌, ap, Bool, true, false,
  Bool-cases, inl, inr, List, [], ◌∷◌, ◌++◌, append-nil, append_assoc, ◌==◌, if◌then◌else◌, ok,
  arith,
}
use tinydbpp.Description.{Item, Pattern}
use tinydbpp.Record.Page.Blocks.{Block}
use tinydbpp.Record.Table.{File, get_page, flag, is_fixed}
use tinydbpp.Record.Table.Dictionary.{IsVar, IsTable, IsAt, IsAt-start, IsAt-dictionary, IsAt-next}
use tinydbpp.Record.Table.Insert.{get_page-IsVar}
use tinydbpp.Record.Scan.{returns, scan_page, scan_pages, select, select_use_checker}
use tinydbpp.Record.Scan.Reads.{Reads, visited, blocks_bound, scan_page-visited}

-- Every page but the dictionary pages is one of variable-length records.
abbrev pub AllVar : File → Type 0
AllVar f = (q : ℕ) → 2 ≤ q → q < f.pages → q % 4097 ≢ 1 → flag f q % 2 ≡ 1

-- The records of each page, with their offsets, as items.
abbrev pub HasItems : Pattern → File → (ℕ → List Block) → (ℕ → List (ℕ × Item)) → Type 0
HasItems p f blocks its = (q : ℕ) → IsVar f q → Reads p 0 (blocks q) (its q)

-- What is collected from the pages `i`, `i + 1`, …, in order.
abbrev pub visited_pages :
    {A : Type 0} → (Item → Bool) → (A → Item → ℕ → ℕ → A) → (ℕ → List (ℕ × Item)) → ℕ → ℕ → A → A
visited_pages check g its zero i a = a
visited_pages check g its (suc left) i a =
    visited_pages check g its left (i + 1)
      (if i % 4097 == 1 then a else visited check g i (its i) a)

module _ {A : Type 0} (p : Pattern) (check : Item → Bool) (g : A → Item → ℕ → ℕ → A) (f : File)
    (blocks : ℕ → List Block) (its : ℕ → List (ℕ × Item)) (t : IsTable f blocks) (var : AllVar f)
    (has : HasItems p f blocks its) where
  page_step :
      (a : A) (i : ℕ)
      → 2 ≤ i
      → i < f.pages
      → i % 4097 ≢ 1
      → scan_page 4097 p (returns check) (λ h b vs j o. ok (h, g b vs j o)) f a i false 0
        ≡ ok (f, visited check g i (its i) a)
  page_step a i low high page =
      let v : IsVar f i = (low, high, page, var i low high page) in
      scan_page-visited p check g f i 4097 a 0 (blocks i) (its i) (t i v) (has i v)
        (omega (arith, blocks_bound (f.page i) 0 (blocks i) (t i v)))

  scan_pages-visited :
      (left : ℕ) (a : A) (i index dic : ℕ)
      → i + left ≤ f.pages
      → IsAt i index dic
      → scan_pages left p (returns check) (λ h b vs j o. ok (h, g b vs j o)) f a i index dic
        ≡ ok (f, visited_pages check g its left i a)
  unfolding scan_pages
  scan_pages-visited zero a i index dic fits at = refl
  scan_pages-visited (suc left) a i index dic fits (low, inl (e, page)) =
      let skip : (i % 4097 == 1) ≡ true = ground arith in
      rw (e, skip)
        (scan_pages-visited left a (i + 1) 0 i (omega arith)
          (IsAt-dictionary i dic (low, inl (refl, page))))
  scan_pages-visited (suc left) a i index dic fits (low, inr (small, slot, d, page)) =
      let more : (index == 4096) ≡ false = ground arith in
      let visit : (i % 4097 == 1) ≡ false = ground arith in
      let odd : flag f i % 2 ≡ 1 = var i low (omega arith) page in
      let varying : is_fixed (f.page dic index) ≡ false = rw (slot, d, odd) refl in
      rw (scan_pages, more, visit, varying, page_step a i low (omega arith) page)
        (scan_pages-visited left (visited check g i (its i) a) (i + 1) (index + 1) dic (omega arith)
          (IsAt-next i index dic low slot d page))

--
pub select-visited_pages :
    {A : Type 0} (p : Pattern) (check : Item → Bool) (g : A → Item → ℕ → ℕ → A) (f : File) (a : A)
    (blocks : ℕ → List Block) (its : ℕ → List (ℕ × Item))
    → IsTable f blocks
    → AllVar f
    → HasItems p f blocks its
    → select p (returns check) (λ h b vs i o. ok (h, g b vs i o)) f a
      ≡ ok (get_page f 1, visited_pages check g its (f.pages - 2) 2 a)
unfolding select
select-visited_pages p check g f a blocks its t var has =
    let h = get_page f 1 in
    scan_pages-visited p check g h blocks its (λ q v. t q (get_page-IsVar f q v))
      (λ q low high page. var q low (ground arith) page) (λ q v. has q (get_page-IsVar f q v))
      (f.pages - 2) a 2 0 1 (ground arith) IsAt-start

-- The items of a page, and of pages, that a checker accepts.
abbrev pub chosen : (Item → Bool) → List (ℕ × Item) → List Item
chosen check [] = []
chosen check ((o, vs) ∷ its) = if check vs then vs ∷ chosen check its else chosen check its

abbrev pub chosen_pages : (Item → Bool) → (ℕ → List (ℕ × Item)) → ℕ → ℕ → List Item
chosen_pages check its zero i = []
chosen_pages check its (suc left) i =
    (if i % 4097 == 1 then [] else chosen check (its i)) ++ chosen_pages check its left (i + 1)

abbrev append_item : List Item → Item → ℕ → ℕ → List Item
append_item ret item i o = ret ++ item ∷ []

visited-chosen :
    (check : Item → Bool) (i : ℕ) (its : List (ℕ × Item)) (ret : List Item)
    → visited check append_item i its ret ≡ ret ++ chosen check its
visited-chosen check i [] ret = sym (append-nil ret)
visited-chosen check i ((o, vs) ∷ its) ret = elim (Bool-cases (check vs)) [
  | inl accepted ↦
      rw accepted (
        visited-chosen check i its (ret ++ vs ∷ []) ∙ append_assoc ret (vs ∷ []) (chosen check its))
  | inr refused ↦ rw refused (visited-chosen check i its ret)
]

visited_pages-chosen :
    (check : Item → Bool) (its : ℕ → List (ℕ × Item)) (left i : ℕ) (ret : List Item)
    → visited_pages check append_item its left i ret ≡ ret ++ chosen_pages check its left i
visited_pages-chosen check its zero i ret = sym (append-nil ret)
visited_pages-chosen check its (suc left) i ret = elim (Bool-cases (i % 4097 == 1)) [
  | inl skip ↦ rw skip (visited_pages-chosen check its left (i + 1) ret)
  | inr visit ↦
      rw (visit, visited-chosen check i (its i) ret)
        (visited_pages-chosen check its left (i + 1) (ret ++ chosen check (its i))
          ∙ append_assoc ret (chosen check (its i)) (chosen_pages check its left (i + 1)))
]

-- On a well-formed table whose pages all hold records of variable length, each the bytes of values
-- that conform to the pattern, `selectUseChecker` ends, and returns the items that the checker
-- accepts in the order of their pages and of their places there.
pub select_use_checker-chosen_pages :
    (p : Pattern) (check : Item → Bool) (f : File) (blocks : ℕ → List Block)
    (its : ℕ → List (ℕ × Item))
    → IsTable f blocks
    → AllVar f
    → HasItems p f blocks its
    → select_use_checker p (returns check) f
      ≡ ok (get_page f 1, chosen_pages check its (f.pages - 2) 2)
unfolding select_use_checker
select_use_checker-chosen_pages p check f blocks its t var has =
    select-visited_pages p check append_item f [] blocks its t var has
    ∙ ap (λ ret. ok (get_page f 1, ret)) (visited_pages-chosen check its (f.pages - 2) 2 [])
