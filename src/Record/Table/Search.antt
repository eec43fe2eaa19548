-- ===== src/Record/Table/Search.antt =====
-- The search of `insert` for a page of variable-length records with room.
use tinydbpp.Base.{
  ℕ, zero, suc, ◌+◌, ◌%◌, ◌≤◌, ◌<◌, ◌≡◌, ◌≢◌, ◌⊎◌, inl, inr, refl, subst, false, List, ◌==◌, arith,
  Outcome, ok, none, some, Option, Bool-cases, ◌>>=◌,
}
use tinydbpp.Base.Bytes.{Bytes}
use tinydbpp.Record.Page.{try_insert_var}
use tinydbpp.Record.Page.Blocks.{Block}
use tinydbpp.Record.Page.Insert.{Fits, try_insert_var-first_fit}
use tinydbpp.Record.Table.{
  File, Location, location, set_page, dic_of, slot_of, flag, takes, try_page, search_pages,
}
use tinydbpp.Record.Table.Dictionary.{
  IsVar, IsTable, Same, Same-refl, Same-trans, Same-IsVar, Same-IsTable, mark-Same, IsAt,
  IsAt-dictionary, IsAt-next,
}

-- How a search ends: the file is the same but for the second bits of the flags, and, if a page was
-- found, for the page that took the record.
pub data Searched (f : File) (r : List ℕ) : Outcome (File × Option Location) → Type 0 where
  missed : (g : File) → Same f g → Searched f r (ok (g, none))
  found :
      (g : File) (p at : ℕ) (d : Bytes)
      → Same f g
      → IsVar f p
      → try_insert_var (f.page p) r ≡ ok (some (at, d))
      → Searched f r (ok (set_page g p d, some (location p at)))

Searched-Same :
    {f g : File} {r : List ℕ} {out : Outcome (File × Option Location)}
    → Same f g
    → Searched g r out
    → Searched f r out
Searched-Same s (missed h t) = missed h (Same-trans s t)
Searched-Same {r} s (found h p at d t v e) =
    found h p at d (Same-trans s t) (Same-IsVar s v)
      (subst (λ b. try_insert_var b r ≡ ok (some (at, d))) (s.page p v.2) e)

-- `tryInsert` on a well-formed page returns.
returns :
    (d : Bytes) (f : Option (ℕ × List Block)) (out : Outcome (Option (ℕ × Bytes)))
    → Fits d 0 f out
    → (out ≡ ok none) ⊎ ((at : ℕ) × (d' : Bytes) × (out ≡ ok (some (at, d'))))
returns d none out h = inl h
returns d (some (at, bs)) out h = inr (at, h.0, h.1)

try_page-Searched :
    (f : File) (blocks : ℕ → List Block) (r : List ℕ) (i : ℕ)
    → IsTable f blocks
    → 2 ≤ i
    → i < f.pages
    → i % 4097 ≢ 1
    → Searched f r (try_page f r false i (slot_of i) (dic_of i))
unfolding try_page
try_page-Searched f blocks r i t low high page = elim (Bool-cases (takes false (flag f i))) [
  | inr skip ↦ rw skip (missed f (Same-refl f))
  | inl take ↦
      let v : IsVar f i = (low, high, page, ground arith) in
      rw take
        (elim (returns (f.page i) _ _ (try_insert_var-first_fit (f.page i) (blocks i) r (t i v))) [
          | inl full ↦ rw full (missed _ (mark-Same f (dic_of i) (slot_of i) (omega arith)))
          | inr (at, d, e) ↦ rw e (found f i at d (Same-refl f) v e)
        ])
]

search_on :
    {f : File} {r : List ℕ} {out : Outcome (File × Option Location)}
    (k : File → Outcome (File × Option Location))
    → Searched f r out
    → ((g : File) → Same f g → Searched g r (k g))
    → Searched f r (out >>= λ result. elim result.1 [ some at ↦ ok result | none ↦ k result.0 ])
search_on k (missed g s) next = Searched-Same s (next g s)
search_on k (found g p at d s v e) next = found g p at d s v e

-- The loop ends without a fault, whatever pages are left.
pub search_pages-Searched :
    (left : ℕ) (f : File) (blocks : ℕ → List Block) (r : List ℕ) (i index dic : ℕ)
    → IsTable f blocks
    → i + left ≤ f.pages
    → IsAt i index dic
    → Searched f r (search_pages left f r false i index dic)
unfolding search_pages
search_pages-Searched zero f blocks r i index dic t h at = missed f (Same-refl f)
search_pages-Searched (suc left) f blocks r i index dic t h (low, inl (e, page)) = rw e (
    search_pages-Searched left f blocks r (i + 1) 0 i t (omega arith)
      (IsAt-dictionary i dic (low, inl (refl, page))))
search_pages-Searched (suc left) f blocks r i index dic t h (low, inr (small, slot, d, page)) =
    let more : (index == 4096) ≡ false = ground arith in
    rw (search_pages, more)
      (search_on (λ g. search_pages left g r false (i + 1) (index + 1) dic)
        (rw (slot, d) (try_page-Searched f blocks r i t low (omega arith) page))
        λ g s.
          search_pages-Searched left g blocks r (i + 1) (index + 1) dic (Same-IsTable blocks s t)
            (rw s.pages (omega arith)) (IsAt-next i index dic low slot d page))
