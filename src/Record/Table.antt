-- ===== src/Record/Table.antt =====
-- src/RecordManage/RecordManager.cpp, over the pages of a table file: `insert`, `getRecord`,
-- `deleteRecord`, `updateRecordNoResize`, `updateOneRecord` and `delOneRecord`. The file is what the
-- pager shows: a count of valid pages and their bytes. Page 1 and every 4097th page after it are
-- dictionary pages, with one byte for each of the 4096 pages behind them.
pub mod Dictionary
pub mod Search
pub mod Insert
pub mod Changes
pub mod Limits
pub mod Records
pub mod Examples
use tinydbpp.Base.{
  ℕ, zero, suc, ◌+◌, ◌-◌, ◌*◌, ◌/◌, ◌%◌, Bool, true, false, not, ◌&&◌, ◌||◌, Option, none, some,
  List, ltb, leb, ◌==◌, if◌then◌else◌, length, Outcome, ok, undefined, ◌>>=◌, ◌>>◌, boost_assert,
  in_bounds,
}
use tinydbpp.Base.Bytes.{Bytes, poke, put_short, memcpy}
use tinydbpp.Record.Page.{
  page_size, try_insert_var, try_insert_fixed, read_record, update_no_resize, del_one,
}

pub record File : Type 0 where
  pub pages : ℕ
  pub page : ℕ → Bytes

pub record Location : Type 0 where
  pub page_number : ℕ
  pub loc : ℕ

abbrev pub location : ℕ → ℕ → Location
location p o = record { page_number = p; loc = o }

-- Location::operator==
unfoldable pub location_eq : Location → Location → Bool
location_eq a b = a.page_number == b.page_number && a.loc == b.loc

abbrev pub set_page : File → ℕ → Bytes → File
set_page f p d = record f { page = λ q. if q == p then d else f.page q }

-- getPage of a page below 524287: the file grows until it has the page.
abbrev pub get_page : File → ℕ → File
get_page f p = record f { pages = if ltb f.pages (p + 1) then p + 1 else f.pages }

-- The dictionary page of a page, and the page's slot there.
abbrev pub dic_of : ℕ → ℕ
dic_of p = (p - 1) / 4097 * 4097 + 1

abbrev pub slot_of : ℕ → ℕ
slot_of p = (p - 1) % 4097 - 1

abbrev pub flag : File → ℕ → ℕ
flag f p = f.page (dic_of p) (slot_of p)

-- (state & 1) == 0 and (state & 2) == 0.
abbrev pub is_fixed : ℕ → Bool
is_fixed state = state % 2 == 0

abbrev pub has_space : ℕ → Bool
has_space state = state / 2 % 2 == 0

abbrev pub try_insert : Bytes → List ℕ → Bool → Outcome (Option (ℕ × Bytes))
try_insert d r true = try_insert_fixed d r
try_insert d r false = try_insert_var d r

abbrev pub takes : Bool → ℕ → Bool
takes fixed state =
    (fixed && is_fixed state && has_space state)
    || (not fixed && not (is_fixed state) && has_space state)

-- A step of the search on the page `i`, with its slot in its dictionary page: the file and, if the
-- record has found its place, the location.
unfoldable pub try_page : File → List ℕ → Bool → ℕ → ℕ → ℕ → Outcome (File × Option Location)
try_page f r fixed i index dic =
    let state = f.page dic index in
    if takes fixed state
    then try_insert (f.page i) r fixed >>= (λ result. elim result [
      | none ↦ ok (set_page f dic (poke (f.page dic) index (state + 2)), none)
      | some (at, d) ↦ ok (set_page f i d, some (location i at))
    ])
    else ok (f, none)

-- The `for` loop of `insert`; the first argument counts the pages left.
unfoldable pub search_pages :
    ℕ → File → List ℕ → Bool → ℕ → ℕ → ℕ → Outcome (File × Option Location)
search_pages zero f r fixed i index dic = ok (f, none)
search_pages (suc left) f r fixed i index dic = elim (index == page_size) [
  | true ↦ search_pages left f r fixed (i + 1) 0 i
  | false ↦ try_page f r fixed i index dic >>= (λ result. elim result.1 [
    | some at ↦ ok result
    | none ↦ search_pages left result.0 r fixed (i + 1) (index + 1) dic
  ])
]

abbrev empty_var : Bytes → Bytes
empty_var d = put_short (poke d 0 0) 1 (page_size - 3)

abbrev empty_fixed : Bytes → Bytes
empty_fixed d = put_short (put_short (poke (put_short d 0 2) 2 0) 3 (page_size - 7)) 5 0

-- The number of the page that is appended: a dictionary page is skipped.
abbrev pub next_page : ℕ → ℕ
next_page pages = if pages % 4097 == 1 then pages + 1 else pages

-- The size of a file with the page 524287 is negative as an int: such a page is not made, and getBuf
-- asserts that it reads a whole page.
abbrev pub max_page : ℕ
max_page = 524287

-- A page that the file has, or that it grows to.
abbrev pub reaches : File → ℕ → Bool
reaches f p = ltb p f.pages || ltb p max_page

-- The page `p` behind the end of the file is appended, marked and formatted.
unfoldable pub append_page : File → Bool → ℕ → Outcome File
append_page f fixed p =
    boost_assert (ltb p max_page)
    >> (let g = get_page f p in
        if fixed then ok (set_page g p (empty_fixed (g.page p))) else (do
          in_bounds (leb 1 ((p - 1) % 4097))
          let h = set_page g (dic_of p) (poke (g.page (dic_of p)) (slot_of p) 1)
          ok (set_page h p (empty_var (h.page p)))))

unfoldable pub insert_new : File → List ℕ → Bool → Outcome (File × Location)
insert_new f r fixed = do
  let p = next_page f.pages
  g ← append_page f fixed p
  result ← try_insert (g.page p) r fixed
  elim result [ none ↦ undefined | some (at, d) ↦ ok (set_page g p d, location p at) ]

unfoldable pub insert : File → List ℕ → Bool → Outcome (File × Location)
insert f r fixed = do
  let g = get_page f 1
  result ← search_pages (g.pages - 2) g r fixed 2 0 1
  elim result.1 [ some at ↦ ok (result.0, at) | none ↦ insert_new result.0 r fixed ]

-- getRecord. (Of two assertions that fail together, either may be the one that stops the call.)
unfoldable pub get_record : File → Location → Outcome (List ℕ)
get_record f at = do
  boost_assert (ltb at.page_number f.pages)
  boost_assert (ltb 0 at.page_number)
  in_bounds (leb 1 ((at.page_number - 1) % 4097))
  boost_assert (not (is_fixed (flag f at.page_number)))
  read_record (f.page at.page_number) at.loc

-- delOneRecord, with the table's record length.
unfoldable pub del_one_record : ℕ → File → ℕ → ℕ → Bool → File
del_one_record len f p now fixed =
    let g = get_page f p in set_page g p (del_one len (g.page p) now fixed)

-- deleteRecord: `state ^= 2` changes a copy of the flag, so the random test changes no byte.
unfoldable pub delete_record : ℕ → File → Location → Outcome File
unfolding del_one_record
delete_record len f at = do
  in_bounds (leb 1 ((at.page_number - 1) % 4097))
  boost_assert (reaches f at.page_number)
  ok (del_one_record len f at.page_number at.loc (is_fixed (flag f at.page_number)))

unfoldable pub update_record_no_resize : File → Location → (List ℕ → Bool × List ℕ) → Outcome File
update_record_no_resize f at callback = do
  boost_assert (ltb at.page_number f.pages)
  boost_assert (ltb 0 at.page_number)
  in_bounds (leb 1 ((at.page_number - 1) % 4097))
  boost_assert (not (is_fixed (flag f at.page_number)))
  d ← update_no_resize (f.page at.page_number) at.loc callback
  ok (set_page f at.page_number d)

-- updateOneRecord: in place on a fixed-length page, and otherwise by a deletion and an insertion.
unfoldable pub update_one_record : ℕ → File → Location → List ℕ → Bool → Outcome (File × Location)
update_one_record len f at r fixed_res =
    in_bounds (leb 1 ((at.page_number - 1) % 4097))
    >> boost_assert (reaches f at.page_number)
    >> (let fixed = is_fixed (flag f at.page_number) in
        if fixed && fixed_res
        then (do
          boost_assert (leb (at.loc + 1 + length r) page_size)
          let d = memcpy (f.page at.page_number) (at.loc + 1) r
          ok (set_page f at.page_number d, at))
        else insert (del_one_record len f at.page_number at.loc fixed) r fixed_res)
