-- ===== src/Pager/PerfMon.antt =====
-- src/Pager/PagerPerfMon.h: the counters of cache hits, reads and writes, by page.
use tinydbpp.Base.{
  ℕ, ◌+◌, ◌%◌, ◌^◌, ◌≡◌, refl, List, [], ◌∷◌, Option, none, some, ◌==◌, if◌then◌else◌, arith,
}

-- The bits of an int of 32 bits that counts up: it wraps.
abbrev pub next_int : ℕ → ℕ
next_int n = (n + 1) % 2 ^ 32

-- std::map<PageID, int>, each int by its bits.
abbrev pub Counts : Type 0
Counts = List (ℕ × ℕ)

unfoldable pub find : ℕ → Counts → Option ℕ
find k [] = none
find k ((j, n) ∷ m) = if j == k then some n else find k m

pub put : ℕ → ℕ → Counts → Counts
put k v [] = (k, v) ∷ []
put k v ((j, n) ∷ m) = if j == k then (k, v) ∷ m else (j, n) ∷ put k v m

pub record PagerPerfMon : Type 0 where
  pub cache_hit : Counts
  pub read_file : Counts
  pub write_file : Counts

abbrev pub empty : PagerPerfMon
empty = record { cache_hit = []; read_file = []; write_file = [] }

-- `m[k]++`, where operator[] makes a missing count 0.
abbrev count_up : ℕ → Counts → Counts
count_up k m = elim (find k m) [ none ↦ put k 1 m | some n ↦ put k (next_int n) m ]

unfoldable pub inc_cache_hit : PagerPerfMon → ℕ → PagerPerfMon
inc_cache_hit p k = elim (find k p.cache_hit) [
  | none ↦ record p { cache_hit = put k 1 p.cache_hit }
  | some n ↦ record p { cache_hit = put k (next_int n) p.cache_hit }
]

-- The test reads `cntCacheHit`.
unfoldable pub inc_read_file : PagerPerfMon → ℕ → PagerPerfMon
inc_read_file p k = elim (find k p.cache_hit) [
  | none ↦ record p { read_file = put k 1 p.read_file }
  | some n ↦ record p { read_file = count_up k p.read_file }
]

unfoldable pub inc_write_file : PagerPerfMon → ℕ → PagerPerfMon
inc_write_file p k = elim (find k p.write_file) [
  | none ↦ record p { write_file = put k 1 p.write_file }
  | some n ↦ record p { write_file = put k (next_int n) p.write_file }
]

pub find-put : (k j v : ℕ) (m : Counts) → find j (put k v m) ≡ (if k == j then some v else find j m)
unfolding find put
find-put k j v [] = refl
find-put k j v ((i, n) ∷ m) = ground (arith, find-put k j v m)

-- `incWriteFile` of a page with a count adds one to that count as an int and leaves every other
-- count of writes.
pub inc_write_file-find :
    (p : PagerPerfMon) (k j n : ℕ)
    → find k p.write_file ≡ some n
    → find j (inc_write_file p k).write_file
      ≡ (if k == j then some (next_int n) else find j p.write_file)
unfolding inc_write_file
inc_write_file-find p k j n e = rw (e, inc_write_file) (find-put k j (next_int n) p.write_file)
