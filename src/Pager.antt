-- ===== src/Pager.antt =====
-- src/Pager/Pager.cpp, src/Pager/Page.cpp and the file sizes of src/FileUtils.cpp: a pager with its
-- page objects over one file. `mapPages` is the list of its keys with the object of each key; the
-- file is its size in bytes and its contents page by page.
pub mod PerfMon
pub mod Keys
pub mod Evict
pub mod Invariant
pub mod Change
pub mod Cache
pub mod Buffers
pub mod GetBuf
pub mod Release
pub mod GetPage
pub mod Flush
pub mod Buffer
pub mod Client
pub mod Lifetime
pub mod Examples
use tinydbpp.Base.{
  ℕ, zero, suc, ◌+◌, ◌-◌, ◌*◌, ◌/◌, ◌%◌, ◌^◌, Bool, true, false, not, ◌&&◌, ◌||◌, Option, none,
  some, List, [], ◌∷◌, ◌++◌, ltb, leb, ◌==◌, if◌then◌else◌, length, Outcome, ok, undefined, ◌>>=◌,
  ◌>>◌, boost_assert, in_bounds,
}
use tinydbpp.Base.Bytes.{Bytes}
use PerfMon.{PagerPerfMon, inc_cache_hit, inc_read_file, inc_write_file}

-- An `int` of 32 bits that goes up and down by one, and wraps at its ends.
pub data ℤ : Type 0 where
  pos : ℕ → ℤ
  negsuc : ℕ → ℤ

abbrev pub inc : ℤ → ℤ
inc (pos n) = if n == 2147483647 then negsuc 2147483647 else pos (suc n)
inc (negsuc zero) = pos 0
inc (negsuc (suc n)) = negsuc n

abbrev pub dec : ℤ → ℤ
dec (pos zero) = negsuc 0
dec (pos (suc n)) = pos n
dec (negsuc n) = if n == 2147483647 then pos 2147483647 else negsuc (suc n)

abbrev pub is_zero : ℤ → Bool
is_zero (pos n) = n == 0
is_zero (negsuc n) = false

abbrev pub is_nonneg : ℤ → Bool
is_nonneg (pos n) = true
is_nonneg (negsuc n) = false

pub record Page : Type 0 where
  pub ref_count : ℤ
  pub buf : Option Bytes
  pub dirty : Bool

abbrev pub new_page : Page
new_page = record { ref_count = pos 0; buf = none; dirty = false }

pub record Pager : Type 0 where
  pub keys : List ℕ
  pub page : ℕ → Page
  pub weak_pages : List ℕ
  pub max_pages : ℕ
  pub pages_cached : ℕ
  pub lazy_mode : Bool
  pub max_valid_pages : ℕ
  pub file_size : ℕ
  pub file : ℕ → Bytes
  pub perf_mon : PagerPerfMon

unfoldable pub has : ℕ → List ℕ → Bool
has k [] = false
has k (x ∷ xs) = (x == k) || has k xs

-- std::list::erase at the first occurrence.
unfoldable pub erase : ℕ → List ℕ → List ℕ
erase k [] = []
erase k (x ∷ xs) = if x == k then xs else x ∷ erase k xs

abbrev pub set_page : Pager → ℕ → Page → Pager
set_page p id o = record p { page = λ k. if k == id then o else p.page k }

-- makeSureAtLeastFileSize(fd, n * PAGER_PAGE_SIZE) for a page count `n`: the product wraps as an
-- unsigned int, and is negative as an int from 2 ^ 31 on.
abbrev pub grown : ℕ → ℕ → ℕ
grown size n =
    let bytes = n * 4096 % 2 ^ 32 in
    if leb (2 ^ 31) bytes then size else if ltb size bytes then bytes else size

-- The page of the file at the offset `id * PAGER_PAGE_SIZE`, an unsigned int.
abbrev pub file_page : ℕ → ℕ
file_page id = id * 4096 % 2 ^ 32 / 4096

-- Pager::getPage: a new object for a page that has none.
unfoldable pub get_page : Pager → ℕ → Pager
get_page p id = if has id p.keys then p else record p {
  keys = p.keys ++ id ∷ [];
  page = λ k. if k == id then new_page else p.page k;
  file_size = grown p.file_size (id + 1);
  max_valid_pages = grown p.file_size (id + 1) / 4096 % 2 ^ 32;
}

-- Pager::noMoreWeakPage.
unfoldable pub no_more_weak_page : Pager → ℕ → Outcome Pager
no_more_weak_page p id = do
  boost_assert (has id p.weak_pages)
  ok (record p { weak_pages = erase id p.weak_pages })

-- Pager::addWeakPage.
abbrev pub add_weak_page : Pager → ℕ → Pager
add_weak_page p id = record p { weak_pages = p.weak_pages ++ id ∷ [] }

-- Pager::releaseOnePageQuota, on an unsigned int.
abbrev pub release_one_page_quota : Pager → Pager
release_one_page_quota p = record p { pages_cached = (p.pages_cached + 2 ^ 32 - 1) % 2 ^ 32 }

-- Page::writeBack: `write` puts the whole page at its offset, and makes the file longer if need be.
unfoldable pub write_back : Pager → ℕ → Outcome Pager
write_back p id = elim (p.page id).buf [
  | none ↦ boost_assert false >> ok p
  | some b ↦
      let at = file_page id in
      ok (record p {
        page = λ k. if k == id then record (p.page id) { dirty = false } else p.page k;
        file = λ k. if k == at then b else p.file k;
        file_size = if ltb p.file_size ((at + 1) * 4096) then (at + 1) * 4096 else p.file_size;
        perf_mon = inc_write_file p.perf_mon id;
      })
]

unfoldable pub write_back_if_dirty : Pager → ℕ → Outcome Pager
write_back_if_dirty p id = if (p.page id).dirty then write_back p id else ok p

-- Page::freeBuffer.
unfoldable pub free_buffer : Pager → ℕ → Outcome Pager
free_buffer p id = elim (p.page id).buf [
  | none ↦ boost_assert false >> ok p
  | some b ↦
      ok (release_one_page_quota (set_page p id (record (p.page id) { buf = none; dirty = false })))
]

-- Page::becomeVictim.
unfoldable pub become_victim : Pager → ℕ → Outcome Pager
become_victim p id = do
  boost_assert (is_zero (p.page id).ref_count)
  q ← write_back_if_dirty p id
  r ← free_buffer q id
  if r.lazy_mode then no_more_weak_page r id else ok r

-- How a call that needs room ends: the exception is `PagerOutOfMemory`.
pub data Quota : Type 0 where
  granted : Pager → Quota
  out_of_memory : Quota

-- Pager::findVictim: it asserts that there is a weak page, and so never returns a null pointer.
unfoldable pub find_victim : Pager → Outcome (Option ℕ)
find_victim p = elim p.weak_pages [
  | [] ↦ boost_assert false >> ok none
  | id ∷ rest ↦ boost_assert (has id p.keys) >> ok (some id)
]

-- Pager::needOnePageQuota, with killVictim.
unfoldable pub need_one_page_quota : Pager → Outcome Quota
need_one_page_quota p =
    let grant = λ (q : Pager). record q { pages_cached = (q.pages_cached + 1) % 2 ^ 32 } in
    if leb p.max_pages p.pages_cached
    then (do
      victim ← find_victim p
      elim victim [
        | none ↦ ok out_of_memory
        | some id ↦ become_victim p id >>= (λ q. ok (granted (grant q)))
      ])
    else ok (granted (grant p))

-- Page::incRef.
unfoldable pub inc_ref : Pager → ℕ → Outcome Pager
inc_ref p id = do
  q ← if is_zero (p.page id).ref_count && p.lazy_mode then no_more_weak_page p id else ok p
  ok (set_page q id (record (q.page id) { ref_count = inc (q.page id).ref_count }))

-- The rest of Page::getBuf once there is room: the page is read from the file.
unfoldable pub load_page : Pager → ℕ → Outcome Pager
load_page p id = do
  boost_assert (is_zero (p.page id).ref_count)
  let size = grown p.file_size (id + 1)
  boost_assert (leb ((file_page id + 1) * 4096) size)
  ok
      (record (set_page p id
        (record (p.page id) { ref_count = pos 1; buf = some (p.file (file_page id)) })) {
          file_size = size;
          perf_mon = inc_read_file p.perf_mon id;
        })

-- Page::getBuf. The buffer is then `(page id).buf`.
unfoldable pub get_buf : Pager → ℕ → Outcome Quota
get_buf p id = elim (p.page id).buf [
  | some b ↦ do
    boost_assert (is_nonneg (p.page id).ref_count)
    q ← inc_ref (record p { perf_mon = inc_cache_hit p.perf_mon id }) id
    ok (granted q)
  | none ↦ do
    quota ← need_one_page_quota p
    elim quota [
      | out_of_memory ↦ ok out_of_memory
      | granted q ↦ load_page q id >>= (λ r. ok (granted r))
    ]
]

-- Page::releaseBuf of the buffer that `getBuf` returned, with decRef.
unfoldable pub release_buf : Pager → ℕ → Outcome Pager
release_buf p id =
    let o = p.page id in
    let q = set_page p id (record o { ref_count = dec o.ref_count }) in
    if is_zero (dec o.ref_count)
    then if p.lazy_mode then ok (add_weak_page q id) else become_victim q id
    else ok q

-- The holder of a buffer changes its bytes and calls markDirty.
unfoldable pub modify : Pager → ℕ → Bytes → Pager
modify p id b = set_page p id (record (p.page id) { buf = some b; dirty = true })

-- Pager::writeBackAll, over the pages of the map.
unfoldable pub write_back_pages : List ℕ → Pager → Outcome Pager
write_back_pages [] p = ok p
write_back_pages (id ∷ ids) p = write_back_if_dirty p id >>= (λ q. write_back_pages ids q)

unfoldable pub write_back_all : Pager → Outcome Pager
unfolding write_back_pages
write_back_all p = write_back_pages p.keys p
