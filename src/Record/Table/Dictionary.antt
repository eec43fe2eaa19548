-- ===== src/Record/Table/Dictionary.antt =====
-- The dictionary pages: which pages hold records, what their flags say, and the changes of a file
-- that leave both alone.
use tinydbpp.Base.{
  ℕ, ◌+◌, ◌-◌, ◌%◌, ◌≤◌, ◌<◌, ◌≡◌, ◌≢◌, ◌⊎◌, inl, inr, refl, sym, ap, ◌∙◌, subst, true, false, List,
  ltb, leb, ◌==◌, arith, if◌then◌else◌, ok, some, Bool-cases,
}
use native.Mathlib.Decide.{ℕ_discrete}
use tinydbpp.Base.Bytes.{Bytes, poke}
use tinydbpp.Record.Page.{read_record}
use tinydbpp.Record.Page.Blocks.{Block, Tiles, record_at}
use tinydbpp.Record.Page.Access.{read_record-record_at}
use tinydbpp.Record.Table.{File, location, set_page, dic_of, slot_of, flag, get_record}

-- A page of variable-length records.
abbrev pub IsVar : File → ℕ → Type 0
IsVar f p = (2 ≤ p) × (p < f.pages) × (p % 4097 ≢ 1) × (flag f p % 2 ≡ 1)

-- Every page of variable-length records is tiled by its blocks.
abbrev pub IsTable : File → (ℕ → List Block) → Type 0
IsTable f blocks = (p : ℕ) → IsVar f p → Tiles (f.page p) 0 (blocks p)

-- The record `s` stands in the page `p` at the offset `o`.
abbrev pub Stored : File → (ℕ → List Block) → ℕ → ℕ → List ℕ → Type 0
Stored f blocks p o s = IsVar f p × (record_at 0 (blocks p) o ≡ some s)

-- `getRecord` on a page of variable-length records reads the page.
pub get_record_page :
    (f : File) (p o : ℕ) → IsVar f p → get_record f (location p o) ≡ read_record (f.page p) o
unfolding get_record
get_record_page f p o (low, high, data_page, var) =
    let inside : ltb p f.pages ≡ true = ground arith in
    let some_page : ltb 0 p ≡ true = ground arith in
    let behind : 1 ≤ (p - 1) % 4097 = omega arith in
    let slot : leb 1 ((p - 1) % 4097) ≡ true = ground arith in
    let varying : (flag f p % 2 == 0) ≡ false = ground arith in
    rw (inside, some_page, slot, varying)

-- `getRecord` at the place of a record.
pub get_record-Stored :
    (f : File) (blocks : ℕ → List Block) (p o : ℕ) (s : List ℕ)
    → IsTable f blocks
    → Stored f blocks p o s
    → get_record f (location p o) ≡ ok s
get_record-Stored f blocks p o s t (v, e) =
    get_record_page f p o v ∙ read_record-record_at (f.page p) (blocks p) o s (t p v) e

-- A write to a page of records changes no flag.
pub set_page-flag :
    (f : File) (p : ℕ) (d : Bytes) (q : ℕ) → p % 4097 ≢ 1 → flag (set_page f p d) q ≡ flag f q
set_page-flag f p d q h = let other : (dic_of q == p) ≡ false = ground (arith, apart) in rw other
  where
    apart : dic_of q ≢ p
    apart e = omega arith

pub set_page-IsVar :
    (f : File) (p : ℕ) (d : Bytes) (q : ℕ) → p % 4097 ≢ 1 → IsVar f q → IsVar (set_page f p d) q
set_page-IsVar f p d q h (low, high, data_page, var) =
    (low, high, data_page, rw (set_page-flag f p d q h) var)

pub set_page-IsVar_back :
    (f : File) (p : ℕ) (d : Bytes) (q : ℕ) → p % 4097 ≢ 1 → IsVar (set_page f p d) q → IsVar f q
set_page-IsVar_back f p d q h (low, high, data_page, var) =
    (low, high, data_page, sym (ap (λ x. x % 2) (set_page-flag f p d q h)) ∙ var)

-- Both files hold the same records; flags differ in the second bit at most.
pub record Same (f g : File) : Type 0 where
  pub pages : g.pages ≡ f.pages
  pub page : (p : ℕ) → p % 4097 ≢ 1 → g.page p ≡ f.page p
  pub flags : (p : ℕ) → 1 ≤ p → p % 4097 ≢ 1 → flag g p % 2 ≡ flag f p % 2

pub Same-refl : (f : File) → Same f f
Same-refl f = record { pages = refl; page = λ p h. refl; flags = λ p l h. refl }

pub Same-trans : {f g h : File} → Same f g → Same g h → Same f h
Same-trans a b = record {
  pages = b.pages ∙ a.pages;
  page = λ p h. b.page p h ∙ a.page p h;
  flags = λ p l h. b.flags p l h ∙ a.flags p l h;
}

pub Same-IsVar : {f g : File} {p : ℕ} → Same f g → IsVar g p → IsVar f p
Same-IsVar {p} s (low, high, data_page, var) =
    (low, subst (λ n. p < n) s.pages high, data_page, sym (s.flags p (omega arith) data_page) ∙ var)

pub Same-IsVar_back : {f g : File} {p : ℕ} → Same f g → IsVar f p → IsVar g p
Same-IsVar_back {p} s (low, high, data_page, var) =
    (low, subst (λ n. p < n) (sym s.pages) high, data_page, s.flags p (omega arith) data_page ∙ var)

pub Same-IsTable :
    {f g : File} (blocks : ℕ → List Block) → Same f g → IsTable f blocks → IsTable g blocks
Same-IsTable blocks s t p v =
    subst (λ d. Tiles d 0 (blocks p)) (sym (s.page p v.2)) (t p (Same-IsVar s v))

mark_parity :
    (page : ℕ → Bytes) (dic index q s : ℕ)
    → (if q == dic then poke (page dic) index (page dic index + 2) else page q) s % 2 ≡ page q s % 2
mark_parity page dic index q s = elim (Bool-cases (q == dic)) [
  | inl e ↦
      let e' : q ≡ dic = ground arith in
      rw e (
        rw e' (elim (Bool-cases (s == index)) [
          | inl m ↦ let m' : s ≡ index = ground arith in rw m (rw m' (omega arith))
          | inr m ↦ rw m
        ]))
  | inr e ↦ rw e
]

-- dic[index] |= 2 where the bit is not set.
pub mark-Same :
    (f : File) (dic index : ℕ)
    → dic % 4097 ≡ 1
    → Same f (set_page f dic (poke (f.page dic) index (f.page dic index + 2)))
mark-Same f dic index h = record {
  pages = refl;
  page = λ p d. elim (Bool-cases (p == dic)) [
    | inl e ↦ let e' : p ≡ dic = ground arith in absurd (d (ap (λ x. x % 4097) e' ∙ h))
    | inr e ↦ rw e
  ];
  flags = λ p l d. mark_parity f.page dic index (dic_of p) (slot_of p);
}

-- Where the loops over the pages stand: at a dictionary page, or at a page with its slot.
abbrev pub IsAt : ℕ → ℕ → ℕ → Type 0
IsAt i index dic =
    (2 ≤ i)
    × (((index ≡ 4096) × (i % 4097 ≡ 1))
        ⊎ ((index < 4096) × (index ≡ slot_of i) × (dic ≡ dic_of i) × (i % 4097 ≢ 1)))

pub IsAt-start : IsAt 2 0 1
IsAt-start = (omega arith, inr (omega arith, refl, refl, omega arith))

pub IsAt-dictionary : (i dic : ℕ) → IsAt i 4096 dic → IsAt (i + 1) 0 i
IsAt-dictionary i dic (low, inl (e, h)) =
    (omega arith, inr (omega arith, omega arith, omega arith, omega arith))
IsAt-dictionary i dic (low, inr h) = absurd (omega arith)

pub IsAt-next :
    (i index dic : ℕ)
    → 2 ≤ i
    → index ≡ slot_of i
    → dic ≡ dic_of i
    → i % 4097 ≢ 1
    → IsAt (i + 1) (index + 1) dic
IsAt-next i index dic low e d h = elim (ℕ_discrete ((i + 1) % 4097) 1) [
  | yes end ↦ (omega arith, inl (omega arith, end))
  | no more ↦ (omega arith, inr (omega arith, omega arith, omega arith, more))
]
