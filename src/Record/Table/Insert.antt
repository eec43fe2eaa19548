-- ===== src/Record/Table/Insert.antt =====
-- What `insert` promises of a table file with variable-length records.
use tinydbpp.Base.{
  ℕ, ◌+◌, ◌-◌, ◌%◌, ◌≤◌, ◌<◌, ◌≡◌, ◌≢◌, ◌⊎◌, assert_failed, inl, inr, refl, sym, ap, ◌∙◌, subst,
  true, false, List, [], ◌∷◌, ltb, leb, ◌==◌, ==_refl, ==_iff, length, arith, Outcome, ok, none,
  some, Option, Bool-cases, if◌then◌else◌, ◌>>=◌,
}
use native.Mathlib.Decide.{dec_lt}
use tinydbpp.Base.Bytes.{Bytes, poke, put_short}
use tinydbpp.Record.Page.{try_insert_var, read_record}
use tinydbpp.Record.Page.Blocks.{Block, free, used, Tiles, first_fit, record_at}
use tinydbpp.Record.Page.Insert.{Fits, try_insert_var-first_fit}
use tinydbpp.Record.Page.Access.{try_insert_var-Keeps, read_record-record_at}
use tinydbpp.Record.Table.{
  File, Location, location, set_page, get_page, dic_of, slot_of, flag, next_page, append_page,
  insert_new, insert, get_record,
}
use tinydbpp.Record.Table.Dictionary.{
  IsVar, IsTable, Stored, get_record_page, set_page-IsVar, set_page-IsVar_back, Same-refl, Same,
  Same-IsVar_back, Same-IsTable, IsAt-start,
}
use tinydbpp.Record.Table.Search.{Searched, missed, found, search_pages-Searched}

-- The new file is a table, the record is found at its location, and every other record is found
-- where it was.
abbrev pub Inserted : File → (ℕ → List Block) → List ℕ → Outcome (File × Location) → Type 0
Inserted f blocks r out =
    (g : File) × (at : Location) × (blocks' : ℕ → List Block) × (out ≡ ok (g, at))
    × IsTable g blocks'
    × (get_record g at ≡ ok r)
    × ((p o : ℕ) (s : List ℕ) → Stored f blocks p o s → get_record g (location p o) ≡ ok s)

-- A page takes the record.
page_takes :
    (f g : File) (blocks : ℕ → List Block) (r : List ℕ) (p at : ℕ) (d : Bytes)
    → IsTable f blocks
    → Same f g
    → IsVar f p
    → try_insert_var (f.page p) r ≡ ok (some (at, d))
    → Inserted f blocks r (ok (set_page g p d, location p at))
page_takes f g blocks r p at d t s v e₀ =
    let kept = try_insert_var-Keeps (f.page p) (blocks p) r at d (t p v) e₀ in
    (
      set_page g p d,
      location p at,
      (λ q. if q == p then kept.2.0 else blocks q),
      refl,
      (λ q w. elim (Bool-cases (q == p)) [
        | inl e ↦ rw e kept.2.1
        | inr e ↦ rw e (Same-IsTable blocks s t q (set_page-IsVar_back g p d q v.2 w))
      ]),
      get_record_page (set_page g p d) p at (set_page-IsVar g p d p v.2 (Same-IsVar_back s v))
          ∙ rw (==_refl p) kept.0,
      λ q o x (w, f).
          get_record_page (set_page g p d) q o (set_page-IsVar g p d q v.2 (Same-IsVar_back s w))
          ∙ old q o x w f,
    )
  where
    old :
        (q o : ℕ) (x : List ℕ)
        → IsVar f q
        → record_at 0 (blocks q) o ≡ some x
        → read_record (if q == p then d else g.page q) o ≡ ok x
    old q o x w h = elim (Bool-cases (q == p)) [
      | inl e ↦
          let same : q ≡ p = ground arith in
          rw e (
            (try_insert_var-Keeps (f.page p) (blocks p) r at d (t p v) e₀).1 o x
              (subst (λ k. record_at 0 (blocks k) o ≡ some x) same h))
      | inr e ↦ rw (e, s.page q w.2) (read_record-record_at (f.page q) (blocks q) o x (t q w) h)
    ]

-- The file with the page `p` appended, formatted for records of variable length.
pub appended : File → ℕ → File
appended f p =
    let g = get_page f p in
    let h = set_page g (dic_of p) (poke (g.page (dic_of p)) (slot_of p) 1) in
    set_page h p (put_short (poke (h.page p) 0 0) 1 4093)

pub append_page-appended :
    (f : File) (p : ℕ)
    → 2 ≤ p
    → p % 4097 ≢ 1
    → p < 524287
    → append_page f false p ≡ ok (appended f p)
unfolding append_page appended
append_page-appended f p low data_page room =
    let small : ltb p 524287 ≡ true = ground arith in
    let behind : 1 ≤ (p - 1) % 4097 = omega arith in
    let slot : leb 1 ((p - 1) % 4097) ≡ true = ground arith in rw (small, slot)

abbrev with_page : (ℕ → List Block) → ℕ → ℕ → List Block
with_page blocks p q = if q == p then free 4093 ∷ [] else blocks q

module _ (f : File) (p : ℕ) (low : 2 ≤ p) (data_page : p % 4097 ≢ 1) where
  appended-page : (q : ℕ) → q % 4097 ≢ 1 → q ≢ p → (appended f p).page q ≡ f.page q
  unfolding appended
  appended-page q h ne =
      let other : (q == p) ≡ false = ground arith in
      let apart : (q == dic_of p) ≡ false =
        let z : q ≢ dic_of p = λ e. omega arith in ground arith in
      rw (other, apart)

  pub appended-tiles : Tiles ((appended f p).page p) 0 (free 4093 ∷ [])
  unfolding appended
  appended-tiles = rw (==_refl p) (ground arith)

  appended-flag_new : flag (appended f p) p ≡ 1
  unfolding appended
  appended-flag_new =
      let apart : (dic_of p == p) ≡ false =
        let z : dic_of p ≢ p = λ e. omega arith in ground arith in
      rw (apart, ==_refl (dic_of p), ==_refl (slot_of p))

  appended-flag : (q : ℕ) → 2 ≤ q → q % 4097 ≢ 1 → q ≢ p → flag (appended f p) q ≡ flag f q
  unfolding appended
  appended-flag q l h ne =
      let z : dic_of q ≢ p = λ e. omega arith in
      let apart : (dic_of q == p) ≡ false = ground arith in
      rw apart (elim (Bool-cases (dic_of q == dic_of p)) [
        | inl e ↦
            let same : dic_of q ≡ dic_of p = (==_iff (dic_of q) (dic_of p)).0 e in
            let y : slot_of q ≢ slot_of p = λ k. omega arith in
            let slots : (slot_of q == slot_of p) ≡ false = ground arith in
            rw (e, slots) (ap (λ x. f.page x (slot_of q)) (sym same))
        | inr e ↦ rw e
      ])

  appended-pages : f.pages ≤ p → (appended f p).pages ≡ p + 1
  unfolding appended
  appended-pages past = let z : ltb f.pages (p + 1) ≡ true = ground arith in rw z

-- The number of the page that `insert` appends.
pub next_page_bounds :
    (pages : ℕ)
    → 2 ≤ pages
    → (2 ≤ next_page pages)
      × (pages ≤ next_page pages)
      × (next_page pages % 4097 ≢ 1)
      × ((q : ℕ) → pages ≤ q → q < next_page pages → q % 4097 ≡ 1)
next_page_bounds pages h = elim (Bool-cases (pages % 4097 == 1)) [
  | inl e ↦ rw e (
      let z : pages % 4097 ≡ 1 = ground arith in
      (omega arith, omega arith, omega arith, λ q a b. let y : q ≡ pages = omega arith in rw y z))
  | inr e ↦ rw e (
      let z : pages % 4097 ≢ 1 = ground arith in
      (omega arith, omega arith, z, λ q a b. absurd (omega arith)))
]

abbrev IsNext : ℕ → ℕ → Type 0
IsNext pages p =
    (2 ≤ p) × (pages ≤ p) × (p % 4097 ≢ 1) × ((q : ℕ) → pages ≤ q → q < p → q % 4097 ≡ 1)

module _ (f : File) (blocks : ℕ → List Block) (t : IsTable f blocks) (p : ℕ)
    (n : IsNext f.pages p) where
  appended-IsVar_self : IsVar (appended f p) p
  appended-IsVar_self = (
    n.0,
    rw (appended-pages f p n.0 n.2 n.1) (omega arith),
    n.2,
    rw (appended-flag_new f p n.0 n.2) refl,
  )

  appended-IsVar_old : (q : ℕ) → IsVar f q → (q ≢ p) × IsVar (appended f p) q
  appended-IsVar_old q (low, high, h, var) =
      let ne : q ≢ p = λ e. omega (arith, n.1) in
      (
        ne,
        (
          low,
          rw (appended-pages f p n.0 n.2 n.1) (omega (arith, n.1)),
          h,
          rw (appended-flag f p n.0 n.2 q low h ne) var,
        ),
      )

  appended-IsVar_back : (q : ℕ) → q ≢ p → IsVar (appended f p) q → IsVar f q
  appended-IsVar_back q ne (low, high, h, var) =
      let high' : q < p + 1 = subst (λ k. q < k) (appended-pages f p n.0 n.2 n.1) high in
      (
        low,
        (elim (dec_lt q f.pages) [
          | yes a ↦ a
          | no a ↦ absurd (h (n.3 q (omega arith) (omega arith)))
        ]),
        h,
        sym (ap (λ x. x % 2) (appended-flag f p n.0 n.2 q low h ne)) ∙ var,
      )

  appended-IsTable : IsTable (appended f p) (with_page blocks p)
  appended-IsTable q v = elim (Bool-cases (q == p)) [
    | inl e ↦
        let same : q ≡ p = ground arith in
        rw e (
          subst (λ k. Tiles ((appended f p).page k) 0 (free 4093 ∷ [])) (sym same)
            (appended-tiles f p n.0 n.2))
    | inr e ↦
        let ne : q ≢ p = ground arith in
        rw (e, appended-page f p n.0 n.2 q v.2 ne) (t q (appended-IsVar_back q ne v))
  ]

  appended-Stored :
      (q o : ℕ) (x : List ℕ)
      → Stored f blocks q o x
      → Stored (appended f p) (with_page blocks p) q o x
  appended-Stored q o x (v, e) =
      let (ne, v') = appended-IsVar_old q v in
      let other : (q == p) ≡ false = ground arith in (v', rw other e)

-- A record that an empty page can hold: another header behind it, or nothing at all.
abbrev pub FitsEmpty : List ℕ → Type 0
FitsEmpty r = (length r ≤ 4090) ⊎ (length r ≡ 4093)

first_fit_empty :
    (r : List ℕ) → FitsEmpty r → (bs : List Block) × (first_fit 0 (free 4093 ∷ []) r ≡ some (0, bs))
unfolding first_fit
first_fit_empty r (inl h) = (used r ∷ free (4093 - length r - 3) ∷ [], ground arith)
first_fit_empty r (inr h) = (used r ∷ [], ground arith)

empty_takes :
    (d : Bytes) (r : List ℕ)
    → Tiles d 0 (free 4093 ∷ [])
    → FitsEmpty r
    → (at : ℕ) × (d' : Bytes) × (try_insert_var d r ≡ ok (some (at, d')))
empty_takes d r t h =
    let (bs, e) = first_fit_empty r h in
    let (d', runs, _, _) =
      subst (λ x. Fits d 0 x (try_insert_var d r)) e (try_insert_var-first_fit d _ r t) in
    (0, d', runs)

-- More stored records make a stronger promise.
Inserted-via :
    (f g : File) (blocks blocks' : ℕ → List Block) (r : List ℕ) (out : Outcome (File × Location))
    → ((q o : ℕ) (x : List ℕ) → Stored f blocks q o x → Stored g blocks' q o x)
    → Inserted g blocks' r out
    → Inserted f blocks r out
Inserted-via f g blocks blocks' r out more (h, at, b, e, t, new, old) =
    (h, at, b, e, t, new, λ q o x s. old q o x (more q o x s))

pub next_page_room : (pages : ℕ) → pages < 524286 → next_page pages < 524287
next_page_room pages h = ground arith

-- The call does as it promises, or the file is full and an assertion fails.
abbrev pub InsertedOr : File → (ℕ → List Block) → List ℕ → Outcome (File × Location) → Type 0
InsertedOr f blocks r out =
    Inserted f blocks r out ⊎ ((out ≡ assert_failed) × (524287 ≤ next_page f.pages))

insert_new-Inserted :
    (f : File) (blocks : ℕ → List Block) (r : List ℕ)
    → IsTable f blocks
    → 2 ≤ f.pages
    → next_page f.pages < 524287
    → FitsEmpty r
    → Inserted f blocks r (insert_new f r false)
unfolding insert_new
insert_new-Inserted f blocks r t big room fits =
    let p = next_page f.pages in
    let n : IsNext f.pages p = next_page_bounds f.pages big in
    let g = appended f p in
    let (at, d, e) = empty_takes (g.page p) r (appended-tiles f p n.0 n.2) fits in
    rw (append_page-appended f p n.0 n.2 room, e)
      (Inserted-via f g blocks (with_page blocks p) r _ (appended-Stored f blocks t p n) (
        page_takes g g (with_page blocks p) r p at d (appended-IsTable f blocks t p n) (Same-refl g)
          (appended-IsVar_self f blocks t p n) e))

-- There is no page 524287.
insert_new-full :
    (f : File) (r : List ℕ) → 524287 ≤ next_page f.pages → insert_new f r false ≡ assert_failed
unfolding insert_new append_page
insert_new-full f r full =
    let large : ltb (next_page f.pages) 524287 ≡ false = ground arith in rw large refl

insert_new-InsertedOr :
    (f : File) (blocks : ℕ → List Block) (r : List ℕ)
    → IsTable f blocks
    → 2 ≤ f.pages
    → FitsEmpty r
    → InsertedOr f blocks r (insert_new f r false)
insert_new-InsertedOr f blocks r t big fits = elim (dec_lt (next_page f.pages) 524287) [
  | yes room ↦ inl (insert_new-Inserted f blocks r t big room fits)
  | no full ↦ let z : 524287 ≤ next_page f.pages = omega arith in inr (insert_new-full f r z, z)
]

InsertedOr-via :
    (f g : File) (blocks blocks' : ℕ → List Block) (r : List ℕ) (out : Outcome (File × Location))
    → ((q o : ℕ) (x : List ℕ) → Stored f blocks q o x → Stored g blocks' q o x)
    → g.pages ≡ f.pages
    → InsertedOr g blocks' r out
    → InsertedOr f blocks r out
InsertedOr-via f g blocks blocks' r out more same (inl h) =
    inl (Inserted-via f g blocks blocks' r out more h)
InsertedOr-via f g blocks blocks' r out more same (inr (fails, full)) =
    inr (fails, subst (λ n. 524287 ≤ next_page n) same full)

insert_after :
    (f : File) (blocks : ℕ → List Block) (r : List ℕ) (out : Outcome (File × Option Location))
    → IsTable f blocks
    → 2 ≤ f.pages
    → FitsEmpty r
    → Searched f r out
    → InsertedOr f blocks r (
        out >>= λ result. elim result.1 [
          | some at ↦ ok (result.0, at)
          | none ↦ insert_new result.0 r false
        ])
insert_after f blocks r out t big fits (missed g s) =
    InsertedOr-via f g blocks blocks r _ (λ q o x (v, e). (Same-IsVar_back s v, e)) s.pages
      (insert_new-InsertedOr g blocks r (Same-IsTable blocks s t) (rw s.pages big) fits)
insert_after f blocks r out t big fits (found g p at d s v e) =
    inl (page_takes f g blocks r p at d t s v e)

-- getPage(1) makes no page of records.
pub get_page-IsVar : (f : File) (p : ℕ) → IsVar (get_page f 1) p → IsVar f p
get_page-IsVar f p v = (v.0, ground (arith, v), v.2, v.3)

get_page-IsVar_back : (f : File) (p : ℕ) → IsVar f p → IsVar (get_page f 1) p
get_page-IsVar_back f p v = (v.0, ground (arith, v), v.2, v.3)

-- `insert` of a record of variable length that an empty page can hold ends without a fault, or the
-- file has no number left for a new page and an assertion fails. The record is found at the new
-- location, every record is found where it was, and the file is well formed again.
pub insert-InsertedOr :
    (f : File) (blocks : ℕ → List Block) (r : List ℕ)
    → IsTable f blocks
    → FitsEmpty r
    → Inserted f blocks r (insert f r false)
      ⊎ ((insert f r false ≡ assert_failed) × (524287 ≤ next_page (get_page f 1).pages))
unfolding insert
insert-InsertedOr f blocks r t fits =
    let g = get_page f 1 in
    let t' : IsTable g blocks = λ p v. t p (get_page-IsVar f p v) in
    let big : 2 ≤ g.pages = ground arith in
    let searched =
      search_pages-Searched (g.pages - 2) g blocks r 2 0 1 t' (omega arith) IsAt-start in
    elim (insert_after g blocks r _ t' big fits searched) [
      | inl done ↦
          inl (
            Inserted-via f g blocks blocks r _ (λ q o x (v, e). (get_page-IsVar_back f q v, e))
              done)
      | inr fails ↦ inr fails
    ]

-- In a file of fewer than 524286 pages there is room for the record.
pub insert-Inserted :
    (f : File) (blocks : ℕ → List Block) (r : List ℕ)
    → IsTable f blocks
    → FitsEmpty r
    → f.pages < 524286
    → Inserted f blocks r (insert f r false)
insert-Inserted f blocks r t fits room =
    let few : (get_page f 1).pages < 524286 = ground arith in
    elim (insert-InsertedOr f blocks r t fits) [
      | inl done ↦ done
      | inr (fails, full) ↦ absurd (omega (arith, full, next_page_room (get_page f 1).pages few))
    ]
