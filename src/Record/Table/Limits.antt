-- ===== src/Record/Table/Limits.antt =====
-- The records of variable length that `insert` cannot store: it dereferences a null pointer.
use tinydbpp.Base.{
  ℕ, ◌+◌, ◌-◌, ◌≤◌, ◌<◌, ◌≡◌, ◌≢◌, ◌⊎◌, inl, inr, refl, subst, false, List, [], ◌∷◌, leb, ◌==◌,
  length, arith, Outcome, ok, undefined, none, some, Option, Bool-cases, ◌>>=◌,
}
use tinydbpp.Base.Bytes.{Bytes}
use tinydbpp.Record.Page.{try_insert_var}
use tinydbpp.Record.Page.Blocks.{Block, free, used, Tiles, Tiles_bound, first_fit}
use tinydbpp.Record.Page.Insert.{Fits, try_insert_var-first_fit}
use tinydbpp.Record.Table.{File, Location, get_page, next_page, insert_new, insert}
use tinydbpp.Record.Table.Dictionary.{IsTable, IsAt-start}
use tinydbpp.Record.Table.Search.{Searched, missed, found, search_pages-Searched}
use tinydbpp.Record.Table.Insert.{
  appended, append_page-appended, appended-tiles, next_page_bounds, next_page_room, get_page-IsVar,
}

Tiles_room :
    (d : Bytes) (now : ℕ) (bs : List Block) → Tiles d now bs → (now ≡ 4096) ⊎ (now + 3 ≤ 4096)
Tiles_room d now [] t = inl t
Tiles_room d now (free n ∷ bs) t = inr (omega (arith, Tiles_bound d (now + 3 + n) bs t.2))
Tiles_room d now (used r ∷ bs) t = inr (omega (arith, Tiles_bound d (now + 3 + length r) bs t.3))

abbrev TooLarge : List ℕ → Type 0
TooLarge r = (4090 < length r) × (length r ≢ 4093)

-- No block of a page has 4091 or 4092 bytes, and none has more than 4093.
first_fit_large :
    (d : Bytes) (now : ℕ) (bs : List Block) (r : List ℕ)
    → Tiles d now bs
    → (now ≡ 0) ⊎ (3 ≤ now)
    → TooLarge r
    → first_fit now bs r ≡ none
unfolding first_fit
first_fit_large d now [] r t from big = refl
first_fit_large d now (used s ∷ bs) r t from big =
    rw (first_fit_large d (now + 3 + length s) bs r t.3 (inr (omega arith)) big)
first_fit_large d now (free n ∷ bs) r t from big =
    let small : leb (length r + 3) n ≡ false = ground (arith, Tiles_bound d (now + 3 + n) bs t.2) in
    let z : n ≢ length r = λ e. omega (arith, Tiles_room d (now + 3 + n) bs t.2) in
    let other : (n == length r) ≡ false = ground arith in
    let rest = first_fit_large d (now + 3 + n) bs r t.2 (inr (omega arith)) big in
    elim (Bool-cases (leb 4096 (now + 3))) [
      | inl end ↦ rw end
      | inr more ↦ rw (more, small, other, rest)
    ]

try_insert_large :
    (d : Bytes) (bs : List Block) (r : List ℕ)
    → Tiles d 0 bs
    → TooLarge r
    → try_insert_var d r ≡ ok none
try_insert_large d bs r t big =
    subst (λ x. Fits d 0 x (try_insert_var d r)) (first_fit_large d 0 bs r t (inl refl) big)
      (try_insert_var-first_fit d bs r t)

insert_new_large :
    (f : File) (r : List ℕ)
    → 2 ≤ f.pages
    → f.pages < 524286
    → TooLarge r
    → insert_new f r false ≡ undefined
unfolding insert_new
insert_new_large f r low room big =
    let p = next_page f.pages in
    let n = next_page_bounds f.pages low in
    rw (
      append_page-appended f p n.0 n.2 (next_page_room f.pages room),
      try_insert_large ((appended f p).page p) (free 4093 ∷ []) r (appended-tiles f p n.0 n.2) big,
    )

search_large :
    (f : File) (blocks : ℕ → List Block) (r : List ℕ) (out : Outcome (File × Option Location))
    → IsTable f blocks
    → 2 ≤ f.pages
    → f.pages < 524286
    → TooLarge r
    → Searched f r out
    → (out >>= λ result. elim result.1 [
      | some at ↦ ok (result.0, at)
      | none ↦ insert_new result.0 r false
    ])
      ≡ undefined
search_large f blocks r out t low room big (missed g s) =
    insert_new_large g r (rw s.pages low) (rw s.pages room) big
search_large f blocks r out t low room big (found g p at d s v e) =
    absurd (cc (try_insert_large (f.page p) (blocks p) r (t p v) big))

-- On a well-formed table of fewer than 524286 pages, `insert` of a variable-length record longer
-- than 4090 bytes, and not of 4093 bytes, dereferences the null pointer of a `tryInsert` that
-- fails on the new page.
pub insert-undefined :
    (f : File) (blocks : ℕ → List Block) (r : List ℕ)
    → IsTable f blocks
    → 4090 < length r
    → length r ≢ 4093
    → f.pages < 524286
    → insert f r false ≡ undefined
unfolding insert
insert-undefined f blocks r t big odd room =
    let g = get_page f 1 in
    let t' : IsTable g blocks = λ p v. t p (get_page-IsVar f p v) in
    let low : 2 ≤ g.pages = ground arith in
    let room' : g.pages < 524286 = ground arith in
    search_large g blocks r _ t' low room' (big, odd)
      (search_pages-Searched (g.pages - 2) g blocks r 2 0 1 t' (omega arith) IsAt-start)
