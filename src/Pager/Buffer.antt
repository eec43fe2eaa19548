-- ===== src/Pager/Buffer.antt =====
-- What the pager promises of getBuf, releaseBuf and the use of a buffer.
use tinydbpp.Base.{ℕ, ◌≡◌, ◌≢◌, subst, true, false, some, ok, ◌==◌, if◌then◌else◌}
use tinydbpp.Pager.{Pager, has, inc, dec, is_zero, granted, get_buf, release_buf}
use tinydbpp.Pager.Evict.{view}
use tinydbpp.Pager.Invariant.{is_idle, Inv}
use tinydbpp.Pager.GetBuf.{HasRoom, BelowMax, get_buf-Hit}
use tinydbpp.Pager.Release.{in_use, release_buf-Released}

-- In lazy mode, on a page that the pager knows and where a buffer can be had (the page has one,
-- fewer than the maximum are cached, or some page is weak), and that has fewer than 2147483647
-- users, `getBuf` returns: the invariant holds, the known pages are the same, the page's buffer
-- has the bytes the page showed, its count of users is one more, and no page shows anything else
-- than before, whether or not another page was evicted and written back.
pub get_buf-granted :
    (p : Pager) (id : ℕ)
    → Inv p
    → has id p.keys ≡ true
    → HasRoom p id
    → BelowMax (p.page id).ref_count
    → (q : Pager) × (get_buf p id ≡ ok (granted q))
      × Inv q
      × (q.keys ≡ p.keys)
      × ((q.page id).buf ≡ some (view p id))
      × ((q.page id).ref_count ≡ inc (p.page id).ref_count)
      × ((k : ℕ) → view q k ≡ view p k)
get_buf-granted p id i h room m =
    let (q, runs, got) = get_buf-Hit p id i h room m in
    (q, runs, got.inv, got.keys, got.buffer, got.users, got.shows)

-- Where a buffer can be had, `getBuf` changes no other page that is in use or has no buffer.
pub get_buf_keeps :
    (p : Pager) (id : ℕ) (q : Pager) (k : ℕ)
    → Inv p
    → has id p.keys ≡ true
    → HasRoom p id
    → BelowMax (p.page id).ref_count
    → get_buf p id ≡ ok (granted q)
    → k ≢ id
    → is_idle (p.page k) ≡ false
    → q.page k ≡ p.page k
get_buf_keeps p id q k i h room m runs ne busy =
    let (q', runs', got) = get_buf-Hit p id i h room m in
    let same : q' ≡ q = cc (runs, runs') in
    subst (λ x. x.page k ≡ p.page k) same (got.others k ne busy)

-- In lazy mode, `releaseBuf` of a page in use returns: the invariant holds, the page has one user
-- less and all pages are as they were otherwise, every page shows what it showed, and the page is
-- weak exactly if that was its last user.
pub release_buf-ok :
    (p : Pager) (id : ℕ)
    → Inv p
    → has id p.keys ≡ true
    → in_use (p.page id) ≡ true
    → (q : Pager) × (release_buf p id ≡ ok q)
      × Inv q
      × ((k : ℕ)
          → q.page k ≡ (
              if k == id
              then record (p.page id) { ref_count = dec (p.page id).ref_count }
              else p.page k))
      × ((k : ℕ) → view q k ≡ view p k)
      × (has id q.weak_pages ≡ is_zero (dec (p.page id).ref_count))
release_buf-ok p id i h u =
    let (q, runs, r) = release_buf-Released p id i h u in (q, runs, r.inv, r.page, r.shows, r.weak)
