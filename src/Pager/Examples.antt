-- ===== src/Pager/Examples.antt =====
-- A pager with room for one buffer, over an empty file.
use tinydbpp.Base.{ℕ, ◌≡◌, ◌≢◌, refl, sym, ◌∙◌, subst, [], true, some, ok, arith, inl, inr}
use tinydbpp.Base.Bytes.{Bytes}
use tinydbpp.Pager.{
  Pager, pos, has, inc, granted, out_of_memory, get_buf, get_page, new_page, need_one_page_quota,
}
use tinydbpp.Pager.PerfMon.{PagerPerfMon}
use tinydbpp.Pager.Keys.{count}
use tinydbpp.Pager.Evict.{view}
use tinydbpp.Pager.Invariant.{Inv}
use tinydbpp.Pager.Cache.{need_one_page_quota-ne-out_of_memory}
use tinydbpp.Pager.GetBuf.{HasRoom, BelowMax}
use tinydbpp.Pager.GetPage.{get_page-Inv}
use tinydbpp.Pager.Release.{in_use}
use tinydbpp.Pager.Buffer.{get_buf-granted}

abbrev no_counts : PagerPerfMon
no_counts = record { cache_hit = []; read_file = []; write_file = [] }

abbrev empty_pager : Pager
empty_pager = record {
  keys = [];
  page = λ k. new_page;
  weak_pages = [];
  max_pages = 1;
  pages_cached = 0;
  lazy_mode = true;
  max_valid_pages = 0;
  file_size = 0;
  file = λ k i. 0;
  perf_mon = no_counts;
}

empty_pager-Inv : Inv empty_pager
unfolding has count
empty_pager-Inv = record {
  lazy = refl;
  word = omega arith;
  whole = omega arith;
  bounded = omega arith;
  keys = tt;
  weak_once = tt;
  weak = λ k. refl;
  counted = refl;
  pages = λ k h. absurd (cc);
}

abbrev one_page : Pager
one_page = get_page empty_pager 3

one_page-Inv : Inv one_page
one_page-Inv = (get_page-Inv empty_pager 3 empty_pager-Inv (omega arith)).0

one_page-has : has 3 one_page.keys ≡ true
one_page-has = (get_page-Inv empty_pager 3 empty_pager-Inv (omega arith)).1

one_page-HasRoom : HasRoom one_page 3
unfolding get_page has
one_page-HasRoom = inr (inl (omega arith))

one_page-BelowMax : BelowMax (one_page.page 3).ref_count
unfolding get_page has
one_page-BelowMax = omega arith

abbrev in_buffer :
    (q : Pager) × (get_buf one_page 3 ≡ ok (granted q))
    × Inv q
    × (q.keys ≡ one_page.keys)
    × ((q.page 3).buf ≡ some (view one_page 3))
    × ((q.page 3).ref_count ≡ inc (one_page.page 3).ref_count)
    × ((k : ℕ) → view q k ≡ view one_page k)
in_buffer = get_buf-granted one_page 3 one_page-Inv one_page-has one_page-HasRoom one_page-BelowMax

get_buf-granted_example :
    (q : Pager) × (get_buf one_page 3 ≡ ok (granted q))
    × Inv q
    × (q.keys ≡ one_page.keys)
    × ((q.page 3).buf ≡ some (view one_page 3))
    × ((q.page 3).ref_count ≡ inc (one_page.page 3).ref_count)
    × ((k : ℕ) → view q k ≡ view one_page k)
get_buf-granted_example =
    get_buf-granted one_page 3 one_page-Inv one_page-has one_page-HasRoom one_page-BelowMax

in_buffer-has : has 3 in_buffer.0.keys ≡ true
in_buffer-has = subst (λ ks. has 3 ks ≡ true) (sym in_buffer.3) one_page-has

new_users : inc (one_page.page 3).ref_count ≡ pos 1
unfolding get_page has
new_users = refl

in_buffer-in_use : in_use (in_buffer.0.page 3) ≡ true
in_buffer-in_use = rw (in_buffer.5 ∙ new_users) refl

abbrev ones : Bytes
ones i = 1

abbrev full_pager : Pager
full_pager = record empty_pager { max_pages = 0 }

need_one_page_quota-ne-out_of_memory_example : need_one_page_quota full_pager ≢ ok out_of_memory
need_one_page_quota-ne-out_of_memory_example = need_one_page_quota-ne-out_of_memory full_pager
