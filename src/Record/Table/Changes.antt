-- ===== src/Record/Table/Changes.antt =====
-- `deleteRecord` and `updateRecordNoResize` on a table file with variable-length records.
use tinydbpp.Base.{
  ℕ, ◌+◌, ◌-◌, ◌%◌, ◌≤◌, ◌≡◌, ◌≢◌, ◌⊎◌, inl, inr, ◌∙◌, subst, Bool, true, false, List, ltb, leb,
  ◌==◌, ==_refl, ==_iff, length, arith, ok, assert_failed, some, Bool-cases, if◌then◌else◌,
}
use tinydbpp.Base.Bytes.{Bytes}
use tinydbpp.Record.Page.{read_record, del_one, update_no_resize}
use tinydbpp.Record.Page.Blocks.{Block, free, used, Tiles, record_at}
use tinydbpp.Record.Page.Access.{
  read_record-record_at, replace, del_one-replace, update_no_resize-replace,
}
use tinydbpp.Record.Table.{
  File, location, set_page, flag, get_record, delete_record, update_record_no_resize,
}
use tinydbpp.Record.Table.Dictionary.{
  IsVar, IsTable, Stored, get_record_page, set_page-IsVar, set_page-IsVar_back, set_page-flag,
}

-- The blocks of a file after those of the page `p` become `bs`.
abbrev pub with_blocks : (ℕ → List Block) → ℕ → List Block → ℕ → List Block
with_blocks blocks p bs q = if q == p then bs else blocks q

-- A write to the page `p` that leaves the blocks `bs`, and every record but the one at `o`.
set_page_keeps :
    (f : File) (blocks : ℕ → List Block) (p o : ℕ) (d : Bytes) (bs : List Block)
    → IsTable f blocks
    → p % 4097 ≢ 1
    → Tiles d 0 bs
    → ((x : ℕ) (s : List ℕ) → x ≢ o → record_at 0 (blocks p) x ≡ some s → read_record d x ≡ ok s)
    → IsTable (set_page f p d) (with_blocks blocks p bs)
      × ((q x : ℕ) (s : List ℕ)
          → Stored f blocks q x s
          → (q ≢ p) ⊎ (x ≢ o)
          → get_record (set_page f p d) (location q x) ≡ ok s)
set_page_keeps f blocks p o d bs t h tiles keeps = (
  λ q v. elim (Bool-cases (q == p)) [
    | inl e ↦ rw e tiles
    | inr e ↦ rw e (t q (set_page-IsVar_back f p d q h v))
  ],
  λ q x s (v, e) apart.
      get_record_page (set_page f p d) q x (set_page-IsVar f p d q h v) ∙ page q x s v e apart,
)
  where
    page :
        (q x : ℕ) (s : List ℕ)
        → IsVar f q
        → record_at 0 (blocks q) x ≡ some s
        → (q ≢ p) ⊎ (x ≢ o)
        → read_record (if q == p then d else f.page q) x ≡ ok s
    page q x s v e apart = elim (Bool-cases (q == p)) [
      | inl same ↦
          let same' : q ≡ p = (==_iff q p).0 same in
          let other : x ≢ o = ground arith in
          rw same (keeps x s other (subst (λ k. record_at 0 (blocks k) x ≡ some s) same' e))
      | inr differs ↦ rw differs (read_record-record_at (f.page q) (blocks q) x s (t q v) e)
    ]

del_one_unreadable :
    (len : ℕ) (d : Bytes) (o : ℕ) → read_record (del_one len d o false) o ≡ assert_failed
unfolding read_record del_one
del_one_unreadable len d o = rw (==_refl o)

-- The code finds the page in the file, and its flag says that the records vary in length.
delete_record_runs :
    (len : ℕ) (f : File) (p o : ℕ)
    → IsVar f p
    → delete_record len f (location p o) ≡ ok (set_page f p (del_one len (f.page p) o false))
unfolding delete_record
delete_record_runs len f p o (low, high, h, var) =
    let varying : (flag f p % 2 == 0) ≡ false = ground arith in
    let inside : ltb f.pages (p + 1) ≡ false = ground arith in
    let there : ltb p f.pages ≡ true = ground arith in
    let behind : 1 ≤ (p - 1) % 4097 = omega arith in
    let slot : leb 1 ((p - 1) % 4097) ≡ true = ground arith in rw (slot, there, varying, inside)

-- `deleteRecord` of a stored record: the file is well formed, with the block free; the location can
-- no longer be read; every other record is found where it was; and no flag changes.
pub delete_record-free :
    (len : ℕ) (f : File) (blocks : ℕ → List Block) (p o : ℕ) (r : List ℕ)
    → IsTable f blocks
    → Stored f blocks p o r
    → (g : File) × (delete_record len f (location p o) ≡ ok g)
      × IsTable g (with_blocks blocks p (replace 0 (blocks p) o (free (length r))))
      × (get_record g (location p o) ≡ assert_failed)
      × ((q x : ℕ) (s : List ℕ)
          → Stored f blocks q x s
          → (q ≢ p) ⊎ (x ≢ o)
          → get_record g (location q x) ≡ ok s)
      × ((q : ℕ) → flag g q ≡ flag f q)
delete_record-free len f blocks p o r t (v, e) =
    let d = del_one len (f.page p) o false in
    let (tiles, keeps) = del_one-replace len (f.page p) (blocks p) o r (t p v) e in
    let (table, others) =
      set_page_keeps f blocks p o d (replace 0 (blocks p) o (free (length r))) t v.2 tiles keeps in
    (
      set_page f p d,
      delete_record_runs len f p o v,
      table,
      get_record_page (set_page f p d) p o (set_page-IsVar f p d p v.2 v)
          ∙ rw (==_refl p) (del_one_unreadable len (f.page p) o),
      others,
      λ q. set_page-flag f p d q v.2,
    )

update_runs :
    (f : File) (p o : ℕ) (callback : List ℕ → Bool × List ℕ) (d : Bytes)
    → IsVar f p
    → update_no_resize (f.page p) o callback ≡ ok d
    → update_record_no_resize f (location p o) callback ≡ ok (set_page f p d)
unfolding update_record_no_resize
update_runs f p o callback d (low, high, h, var) e =
    let inside : ltb p f.pages ≡ true = ground arith in
    let some_page : ltb 0 p ≡ true = ground arith in
    let behind : 1 ≤ (p - 1) % 4097 = omega arith in
    let slot : leb 1 ((p - 1) % 4097) ≡ true = ground arith in
    let varying : (flag f p % 2 == 0) ≡ false = ground arith in
    rw (inside, some_page, slot, varying, e)

-- `updateRecordNoResize` with a callback that changes the record to one of the same length.
pub update_record_no_resize-used :
    (f : File) (blocks : ℕ → List Block) (p o : ℕ) (r x : List ℕ)
    (callback : List ℕ → Bool × List ℕ)
    → IsTable f blocks
    → Stored f blocks p o r
    → callback r ≡ (true, x)
    → length x ≡ length r
    → (g : File) × (update_record_no_resize f (location p o) callback ≡ ok g)
      × IsTable g (with_blocks blocks p (replace 0 (blocks p) o (used x)))
      × (get_record g (location p o) ≡ ok x)
      × ((q y : ℕ) (s : List ℕ)
          → Stored f blocks q y s
          → (q ≢ p) ⊎ (y ≢ o)
          → get_record g (location q y) ≡ ok s)
update_record_no_resize-used f blocks p o r x callback t (v, e) c same =
    let (d, runs, tiles, new, keeps) =
      update_no_resize-replace (f.page p) (blocks p) o r x callback (t p v) e c same in
    let (table, others) =
      set_page_keeps f blocks p o d (replace 0 (blocks p) o (used x)) t v.2 tiles keeps in
    (
      set_page f p d,
      update_runs f p o callback d v runs,
      table,
      get_record_page (set_page f p d) p o (set_page-IsVar f p d p v.2 v) ∙ rw (==_refl p) new,
      others,
    )
