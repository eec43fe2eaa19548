-- ===== src/Pager/Buffers.antt =====
-- The count of users of a page that has a buffer.
use tinydbpp.Base.{
  ℕ, ◌≡◌, ◌≢◌, refl, ◌∙◌, ap, ap₂, List, Bool, true, false, ◌&&◌, Option, none, some, ◌==◌, ==_refl,
  arith, ok, if_true, if_false, ◌>>=◌,
}
use tinydbpp.Base.Bytes.{Bytes}
use tinydbpp.Pager.{
  Pager, ℤ, pos, negsuc, is_zero, is_nonneg, has, erase, inc_ref, set_page, inc, no_more_weak_page,
}
use tinydbpp.Pager.PerfMon.{PagerPerfMon, inc_cache_hit}
use tinydbpp.Pager.Keys.{Distinct}
use tinydbpp.Pager.Evict.{no_more_weak_page-ok}
use tinydbpp.Pager.Invariant.{is_cached, Agrees, Inv}
use tinydbpp.Pager.Change.{Changed, Changed-Inv}

-- The page with one user more.
abbrev pub used_more : Pager → ℕ → Pager
used_more p id = set_page p id (record (p.page id) { ref_count = inc (p.page id).ref_count })

pub inc_ref-idle :
    (p : Pager) (id : ℕ)
    → is_zero (p.page id).ref_count ≡ true
    → p.lazy_mode ≡ true
    → has id p.weak_pages ≡ true
    → inc_ref p id ≡ ok (used_more (record p { weak_pages = erase id p.weak_pages }) id)
unfolding inc_ref
inc_ref-idle p id z lazy w =
    ap (λ m. m >>= λ q. ok (used_more q id))
      (if_true (is_zero (p.page id).ref_count && p.lazy_mode) (no_more_weak_page p id) (ok p)
          (ap₂ ◌&&◌ z lazy)
        ∙ no_more_weak_page-ok p id w)

pub inc_ref-busy :
    (p : Pager) (id : ℕ)
    → is_zero (p.page id).ref_count ≡ false
    → inc_ref p id ≡ ok (used_more p id)
unfolding inc_ref
inc_ref-busy p id z =
    ap (λ m. m >>= λ q. ok (used_more q id))
      (if_false (is_zero (p.page id).ref_count && p.lazy_mode) (no_more_weak_page p id) (ok p)
        (ap (λ b. b && p.lazy_mode) z))

pub nonneg-Agrees :
    (r : ℤ) (o : Option Bytes) (d : Bool) (f : Bytes) → Agrees r o d f → is_nonneg r ≡ true
nonneg-Agrees (negsuc n) o d f h = absurd h
nonneg-Agrees (pos n) o d f h = refl

-- The number of users of a page with a buffer is free to change.
pub Agrees-users :
    (r s : ℤ) (o : Option Bytes) (d : Bool) (f b : Bytes)
    → o ≡ some b
    → is_nonneg s ≡ true
    → Agrees r o d f
    → Agrees s o d f
Agrees-users (negsuc n) s o d f b e k h = absurd h
Agrees-users (pos n) (negsuc m) o d f b e k h = absurd (cc)
Agrees-users (pos n) (pos m) none d f b e k h = absurd (cc)
Agrees-users (pos n) (pos m) (some c) true f b e k h = tt
Agrees-users (pos n) (pos m) (some c) false f b e k h = h

abbrev pub touched : Pager → ℕ → Pager
touched p id = record p { perf_mon = inc_cache_hit p.perf_mon id }

-- The pager with a new count of users, and the list of weak pages to match.
abbrev pub recount : Pager → ℕ → PagerPerfMon → ℤ → List ℕ → Pager
recount p id m r ws = record (set_page p id (record (p.page id) { ref_count = r })) {
  weak_pages = ws;
  perf_mon = m;
}

module _ (p : Pager) (id : ℕ) (b : Bytes) (i : Inv p) (h : has id p.keys ≡ true)
    (e : (p.page id).buf ≡ some b) where
  pub cached_here : is_cached (p.page id) ≡ true
  cached_here = cached (p.page id).buf e
    where
      cached : (o : Option Bytes) → o ≡ some b → (elim o [ none ↦ false | some x ↦ true ]) ≡ true
      cached o q = rw q

  recount-Changed :
      (m : PagerPerfMon) (r : ℤ) (ws : List ℕ)
      → is_nonneg r ≡ true
      → Distinct ws
      → ((k : ℕ) → k ≢ id → has k ws ≡ has k p.weak_pages)
      → has id ws ≡ is_zero r
      → Changed p id (recount p id m r ws)
  recount-Changed m r ws nonneg once others self = record {
    keys = refl;
    max_pages = refl;
    lazy_mode = refl;
    page = λ k ne. let z : (k == id) ≡ false = ground arith in rw z;
    file = λ k ne. refl;
    size = omega arith;
    whole = λ w. w;
    weak_once = once;
    weak = others;
    weak_self = rw (==_refl id) (rw (cached_here, self));
    bounded = i.bounded;
    cached = rw (==_refl id);
    sound = record {
      small = (i.pages id h).small;
      room = (i.pages id h).room;
      agrees = rw (==_refl id) (Agrees-users _ r _ _ _ b e nonneg (i.pages id h).agrees);
    };
  }

  pub recount-Inv :
      (m : PagerPerfMon) (r : ℤ) (ws : List ℕ)
      → is_nonneg r ≡ true
      → Distinct ws
      → ((k : ℕ) → k ≢ id → has k ws ≡ has k p.weak_pages)
      → has id ws ≡ is_zero r
      → Inv (recount p id m r ws)
  recount-Inv m r ws nonneg once others self =
      Changed-Inv i h (recount-Changed m r ws nonneg once others self)
