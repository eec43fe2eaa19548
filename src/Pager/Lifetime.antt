-- ===== src/Pager/Lifetime.antt =====
-- The constructor and the destructor of Pager, with those of the pages that it holds, in
-- src/Pager/Pager.cpp and src/Pager/Page.cpp.
use tinydbpp.Base.{
  ℕ, ◌/◌, ◌%◌, ◌^◌, ◌<◌, ◌≡◌, refl, sym, ◌∙◌, subst, ap, Bool, true, false, not, List, [], ◌∷◌,
  ◌==◌, ==_refl, ==_iff, arith, Bool-cases, inl, inr, Outcome, ok, undefined, ◌>>◌, boost_assert,
  in_bounds,
}
use tinydbpp.Base.Bytes.{Bytes}
use tinydbpp.Pager.{Pager, Page, is_zero, new_page, has, granted, write_back_all}
use tinydbpp.Pager.PerfMon.{PagerPerfMon}
use tinydbpp.Pager.Keys.{count}
use tinydbpp.Pager.Evict.{shown}
use tinydbpp.Pager.Flush.{write_back_all-Unwritten}
use tinydbpp.Pager.Client.{Call, run, Array, effects, all_allowed}
use tinydbpp.Pager.Client.Step.{StandsFor}
use tinydbpp.Pager.Client.Run.{run-StandsFor}

abbrev pub new_perf_mon : PagerPerfMon
new_perf_mon = record { cache_hit = []; read_file = []; write_file = [] }

-- The pager after its constructor.
abbrev pub opened : ℕ → (ℕ → Bytes) → ℕ → Bool → Pager
opened size file max_pages lazy_mode = record {
  keys = [];
  page = λ k. new_page;
  weak_pages = [];
  max_pages = max_pages;
  pages_cached = 0;
  lazy_mode = lazy_mode;
  max_valid_pages = size / 4096 % 2 ^ 32;
  file_size = size;
  file = file;
  perf_mon = new_perf_mon;
}

-- Pager::Pager, with the flag ReadWrite: `is_open` is whether `open` gives a positive descriptor, of
-- a file with this size and these pages.
unfoldable pub open_pager : Bool → ℕ → (ℕ → Bytes) → ℕ → Bool → Outcome Pager
open_pager is_open size file max_pages lazy_mode = do
  boost_assert is_open
  boost_assert (size % 4096 == 0)
  ok (opened size file max_pages lazy_mode)

-- writeBackAll in the destructor: Page::writeBack counts in the PagerPerfMon, which is deleted.
abbrev pub write_back_unmonitored : Pager → List ℕ → Outcome (Unit {0})
write_back_unmonitored p [] = ok tt
write_back_unmonitored p (id ∷ ids) =
    in_bounds (not (p.page id).dirty) >> write_back_unmonitored p ids

-- Page::~Page, once pagerDied has cleared its pager.
abbrev pub destroy_page : Page → Outcome (Unit {0})
destroy_page o = boost_assert (not o.dirty) >> boost_assert (is_zero o.ref_count)

abbrev pub destroy_pages : Pager → List ℕ → Outcome (Unit {0})
destroy_pages p [] = ok tt
destroy_pages p (id ∷ ids) = destroy_page (p.page id) >> destroy_pages p ids

-- Pager::~Pager, where no one else keeps a page object: the size and the pages of the file.
unfoldable pub destroy_pager : Pager → Outcome (ℕ × (ℕ → Bytes))
destroy_pager p = do
  write_back_unmonitored p p.keys
  destroy_pages p p.keys
  ok (p.file_size, p.file)

-- The array of a client that has just opened the file.
abbrev pub opened_array : (ℕ → Bytes) → Array
opened_array file = record { known = []; held = λ k. 0; bytes = file }

pub opened-StandsFor :
    (size : ℕ) (file : ℕ → Bytes) (max : ℕ)
    → size % 4096 ≡ 0
    → max < 2 ^ 32
    → StandsFor max (opened size file max true) (opened_array file)
unfolding has count
opened-StandsFor size file max whole word = record {
  inv = record {
    lazy = refl;
    word = word;
    whole = whole;
    bounded = omega arith;
    keys = tt;
    weak_once = tt;
    weak = λ k. refl;
    counted = refl;
    pages = λ k h. absurd (cc);
  };
  max_pages = refl;
  known = refl;
  held = λ k. refl;
  bytes = λ k. refl;
  objects = λ k z. refl;
}

pub open_pager-ok :
    (size : ℕ) (file : ℕ → Bytes) (max : ℕ)
    → size % 4096 ≡ 0
    → open_pager true size file max true ≡ ok (opened size file max true)
unfolding open_pager
open_pager-ok size file max whole = let z : (size % 4096 == 0) ≡ true = ground arith in rw z refl

clean_written :
    (p : Pager) (ids : List ℕ)
    → ((k : ℕ) → has k ids ≡ true → (p.page k).dirty ≡ false)
    → write_back_unmonitored p ids ≡ ok tt
unfolding has
clean_written p [] c = refl
clean_written p (id ∷ ids) c =
    rw (c id (rw (==_refl id) refl)) (clean_written p ids (λ k h. c k (ground (arith, h))))

pages_destroyed :
    (p : Pager) (ids : List ℕ)
    → ((k : ℕ) → has k ids ≡ true → (p.page k).dirty ≡ false)
    → ((k : ℕ) → has k ids ≡ true → is_zero (p.page k).ref_count ≡ true)
    → destroy_pages p ids ≡ ok tt
unfolding has
pages_destroyed p [] c u = refl
pages_destroyed p (id ∷ ids) c u =
    let here : has id (id ∷ ids) ≡ true = rw (==_refl id) refl in
    rw (c id here, u id here)
      (pages_destroyed p ids (λ k h. c k (ground (arith, h))) (λ k h. u k (ground (arith, h))))

-- A pager without changes and without users is destroyed, and leaves its file.
pub clean_destroyed :
    (p : Pager)
    → ((k : ℕ) → has k p.keys ≡ true → (p.page k).dirty ≡ false)
    → ((k : ℕ) → has k p.keys ≡ true → is_zero (p.page k).ref_count ≡ true)
    → destroy_pager p ≡ ok (p.file_size, p.file)
unfolding destroy_pager
clean_destroyed p c u = rw (clean_written p p.keys c, pages_destroyed p p.keys c u) refl

-- A pager that stands for an array of which no page is held is written back and destroyed, and the
-- file then has the bytes of the array.
pub closed :
    (max : ℕ) (q : Pager) (a : Array)
    → StandsFor max q a
    → ((k : ℕ) → a.held k ≡ 0)
    → (r : Pager) × (write_back_all q ≡ ok r)
      × (destroy_pager r ≡ ok (r.file_size, r.file))
      × (r.file_size % 4096 ≡ 0)
      × ((k : ℕ) → r.file k ≡ a.bytes k)
closed max q a t free =
    let (r, flushes, inv, keys, shows, rest, clean, written) = write_back_all-Unwritten q t.inv in
    let unused : (k : ℕ) → is_zero (r.page k).ref_count ≡ true =
      λ k. rw (rest.users k, t.held k, free k) refl in
    (
      r,
      flushes,
      clean_destroyed r clean (λ k known. unused k),
      inv.whole,
      λ k. elim (Bool-cases (has k r.keys)) [
        | inl known ↦ written k known ∙ shows k ∙ t.bytes k
        | inr other ↦
            let z : has k q.keys ≡ false = subst (λ ks. has k ks ≡ false) keys other in
            let new : r.page k ≡ new_page = rest.objects k z ∙ t.objects k z in
            sym (ap (λ o. shown o (r.file k)) new) ∙ shows k ∙ t.bytes k
      ],
    )

-- A pager that is opened on a file of whole pages in lazy mode, used by a sequence of allowed
-- calls after which no page is held, written back and destroyed, returns from all of these calls,
-- where the counts of the performance monitor wrap as ints of 32 bits, and leaves a file of whole
-- pages with the bytes of the array after the calls.
pub open_pager-destroy_pager :
    (size : ℕ) (file : ℕ → Bytes) (max : ℕ) (cs : List Call)
    → size % 4096 ≡ 0
    → max < 2 ^ 32
    → all_allowed max (opened_array file) cs ≡ true
    → ((k : ℕ) → (effects (opened_array file) cs).held k ≡ 0)
    → (p q r : Pager) × (open_pager true size file max true ≡ ok p)
      × (run p cs ≡ ok (granted q))
      × (write_back_all q ≡ ok r)
      × (destroy_pager r ≡ ok (r.file_size, r.file))
      × (r.file_size % 4096 ≡ 0)
      × ((k : ℕ) → r.file k ≡ (effects (opened_array file) cs).bytes k)
open_pager-destroy_pager size file max cs whole word h free =
    let p = opened size file max true in
    let s = opened-StandsFor size file max whole word in
    let (q, runs, t) = run-StandsFor max p (opened_array file) cs s h in
    let (r, flushes, ends, pages, shows) = closed max q (effects (opened_array file) cs) t free in
    (p, q, r, open_pager-ok size file max whole, runs, flushes, ends, pages, shows)

dirty_page :
    (p : Pager) (ids : List ℕ) (k : ℕ)
    → has k ids ≡ true
    → (p.page k).dirty ≡ true
    → write_back_unmonitored p ids ≡ undefined
unfolding has
dirty_page p [] k h d = absurd (cc)
dirty_page p (id ∷ ids) k h d = elim (Bool-cases (p.page id).dirty) [
  | inl now ↦ rw now refl
  | inr later ↦ rw later (
      dirty_page p ids k
        (elim (Bool-cases (id == k)) [
          | inl same ↦ absurd (cc (ap (λ x. (p.page x).dirty) ((==_iff id k).0 same), later, d))
          | inr other ↦ ground (arith, h, other)
        ])
        d)
]

--
pub destroy_pager-undefined :
    (p : Pager) (k : ℕ)
    → has k p.keys ≡ true
    → (p.page k).dirty ≡ true
    → destroy_pager p ≡ undefined
unfolding destroy_pager
destroy_pager-undefined p k h d = rw (dirty_page p p.keys k h d) refl
