-- ===== src/Record/Scan/Removal.antt =====
-- `del` on one page of variable-length records.
use tinydbpp.Base.{
  ℕ, ◌+◌, ◌-◌, ◌/◌, ◌%◌, ◌≤◌, ◌≡◌, ◌≢◌, refl, ◌∙◌, Bool, false, Bool-cases, inl, inr, List, [], ◌∷◌,
  ◌==◌, ==_refl, if◌then◌else◌, if_true, if_false, length, arith,
}
use tinydbpp.Base.Bytes.{Bytes, poke}
use tinydbpp.Description.{Item, Pattern}
use tinydbpp.Record.Page.Blocks.{Block, free, used}
use tinydbpp.Record.Table.{File, set_page, dic_of, slot_of, flag, has_space}
use tinydbpp.Record.Scan.{clear_full}
use tinydbpp.Record.Scan.Reads.{Reads}

-- The blocks after the removal of the items that a checker accepts, and the items that stay.
abbrev pub freed : (Item → Bool) → List Block → List (ℕ × Item) → List Block
freed check [] its = []
freed check (free n ∷ bs) its = free n ∷ freed check bs its
freed check (used r ∷ bs) [] = used r ∷ bs
freed check (used r ∷ bs) ((o, vs) ∷ its) =
    (if check vs then free (length r) else used r) ∷ freed check bs its

abbrev pub kept : (Item → Bool) → List (ℕ × Item) → List (ℕ × Item)
kept check [] = []
kept check ((o, vs) ∷ its) = if check vs then kept check its else (o, vs) ∷ kept check its

pub Reads-freed :
    (p : Pattern) (check : Item → Bool) (now : ℕ) (bs : List Block) (its : List (ℕ × Item))
    → Reads p now bs its
    → Reads p now (freed check bs its) (kept check its)
Reads-freed p check now [] its h = rw h refl
Reads-freed p check now (free n ∷ bs) its h = Reads-freed p check (now + 3 + n) bs its h
Reads-freed p check now (used r ∷ bs) [] h = absurd h
Reads-freed p check now (used r ∷ bs) ((o, vs) ∷ its) h = elim (Bool-cases (check vs)) [
  | inl chosen ↦ rw chosen (Reads-freed p check (now + 3 + length r) bs its h.3)
  | inr passed ↦ rw passed (h.0, h.1, h.2, Reads-freed p check (now + 3 + length r) bs its h.3)
]

-- The files differ in the page `i`, and in the second bits of the flags.
pub record SameBut (i : ℕ) (f g : File) : Type 0 where
  pub pages : g.pages ≡ f.pages
  pub page : (q : ℕ) → q ≢ i → q % 4097 ≢ 1 → g.page q ≡ f.page q
  pub flags : (q : ℕ) → flag g q % 2 ≡ flag f q % 2

pub SameBut-refl : (i : ℕ) (f : File) → SameBut i f f
SameBut-refl i f = record { pages = refl; page = λ q n d. refl; flags = λ q. refl }

pub SameBut-trans : {i : ℕ} {f g h : File} → SameBut i f g → SameBut i g h → SameBut i f h
SameBut-trans a b = record {
  pages = b.pages ∙ a.pages;
  page = λ q n d. b.page q n d ∙ a.page q n d;
  flags = λ q. b.flags q ∙ a.flags q;
}

-- The file after `del` has removed the record at `now` of the page `i`.
abbrev pub removed_at : File → ℕ → ℕ → File
removed_at f i now = clear_full (set_page f i (poke (f.page i) now 0)) i

clear_parity :
    (page : ℕ → Bytes) (dic index q s : ℕ)
    → (page dic index / 2 % 2 == 0) ≡ false
    → (if q == dic then poke (page dic) index (page dic index - 2) else page q) s % 2 ≡ page q s % 2
clear_parity page dic index q s bit = elim (Bool-cases (q == dic)) [
  | inl e ↦
      let e' : q ≡ dic = ground arith in
      rw e (
        rw e' (elim (Bool-cases (s == index)) [
          | inl m ↦ let m' : s ≡ index = ground arith in rw m (rw m' (ground arith))
          | inr m ↦ rw m
        ]))
  | inr e ↦ rw e
]

module _ (f : File) (i now : ℕ) (low : 2 ≤ i) (data_page : i % 4097 ≢ 1) where
  apart : (q : ℕ) → (dic_of q == i) ≡ false
  apart q = ground (arith, dictionary q)
    where
      dictionary : (q : ℕ) → dic_of q ≢ i
      dictionary q e = data_page (omega arith)

  written-SameBut : SameBut i f (set_page f i (poke (f.page i) now 0))
  written-SameBut = record {
    pages = refl;
    page = λ q n d. if_false (q == i) (poke (f.page i) now 0) (f.page q) (ground arith);
    flags = λ q. rw (apart q) refl;
  }

  cleared-SameBut : (h : File) → SameBut i h (clear_full h i)
  cleared-SameBut h = elim (Bool-cases (has_space (h.page (dic_of i) (i - 2)))) [
    | inl space ↦ rw space (SameBut-refl i h)
    | inr full ↦ rw full record {
      pages = refl;
      page = λ q n d.
          if_false (q == dic_of i)
            (poke (h.page (dic_of i)) (i - 2) (h.page (dic_of i) (i - 2) - 2)) (h.page q)
            (ground (arith, dictionary q d));
      flags = λ q. clear_parity h.page (dic_of i) (i - 2) (dic_of q) (slot_of q) full;
    }
  ]
    where
      dictionary : (q : ℕ) → q % 4097 ≢ 1 → q ≢ dic_of i
      dictionary q d e = d (omega arith)

  pub removed_at-SameBut : SameBut i f (removed_at f i now)
  removed_at-SameBut =
      SameBut-trans written-SameBut (cleared-SameBut (set_page f i (poke (f.page i) now 0)))

  pub removed_at-page : (removed_at f i now).page i ≡ poke (f.page i) now 0
  removed_at-page = elim (Bool-cases (has_space (g.page (dic_of i) (i - 2)))) [
    | inl space ↦ rw space (if_true (i == i) (poke (f.page i) now 0) (f.page i) (==_refl i))
    | inr full ↦ rw full (
        if_false (i == dic_of i) (poke (g.page (dic_of i)) (i - 2) (g.page (dic_of i) (i - 2) - 2))
          (g.page i) (ground (arith, other))
        ∙ if_true (i == i) (poke (f.page i) now 0) (f.page i) (==_refl i))
  ]
    where
      g : File
      g = set_page f i (poke (f.page i) now 0)

      other : i ≢ dic_of i
      other e = data_page (omega arith)
