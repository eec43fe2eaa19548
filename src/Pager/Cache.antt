-- ===== src/Pager/Cache.antt =====
-- `getBuf`: it succeeds exactly while some page can give up its buffer, and shows the page.
use tinydbpp.Base.{
  ℕ, ◌+◌, ◌*◌, ◌%◌, ◌^◌, ◌≤◌, ◌<◌, ◌≡◌, ◌≢◌, refl, sym, ◌∙◌, ap, List, [], ◌∷◌, Bool, true, false,
  Option, none, some, ◌==◌, ==_refl, ==_iff, arith, Bool-cases, Option-cases, inl, inr, Outcome, ok,
  assert_failed, boost_assert, ◌>>◌, ltb, leb,
}
use tinydbpp.Base.Bytes.{Bytes}
use tinydbpp.Pager.{
  Pager, ℤ, pos, negsuc, is_zero, has, become_victim, find_victim, need_one_page_quota, Quota,
  granted, out_of_memory, load_page, file_page, grown, set_page, inc,
}
use tinydbpp.Pager.PerfMon.{inc_read_file}
use tinydbpp.Pager.Keys.{count_pos}
use tinydbpp.Pager.Evict.{view, max_id, file_page-id, Evicted, evict_clean, evict_dirty}
use tinydbpp.Pager.Invariant.{
  is_cached, is_idle, cached_at, Agrees, IsSound, Inv, Kept, Kept-refl, Evicted-Inv, Evicted-Kept,
  victim, zero_ref, unused, buffered,
}
use tinydbpp.Pager.Change.{Changed-Inv}

clean-Agrees :
    (r : ℤ) (o : Option Bytes) (d : Bool) (f b : Bytes)
    → Agrees r o d f
    → o ≡ some b
    → d ≡ false
    → b ≡ f
clean-Agrees (negsuc n) o d f b h e g = absurd h
clean-Agrees (pos n) none d f b h e g = absurd (cc)
clean-Agrees (pos n) (some c) true f b h e g = absurd (cc)
clean-Agrees (pos n) (some c) false f b h e g = let same : c ≡ b = cc in sym same ∙ h

abbrev is_some : Option Bytes → Bool
is_some o = elim o [ none ↦ false | some b ↦ true ]

-- A weak page can always be evicted.
evict-total :
    (p : Pager) (v : ℕ)
    → Inv p
    → has v p.weak_pages ≡ true
    → (q : Pager) × (become_victim p v ≡ ok q) × Evicted p v q
evict-total p v i w =
    let s = i.pages v (victim v i w).0 in
    let free = zero_ref (p.page v).ref_count (unused v i w) in
    let some_cached : 0 < p.pages_cached =
      omega
        (arith, i.counted, count_pos (cached_at p) v p.keys (victim v i w).0 (buffered v i w)) in
    let word : p.pages_cached < 2 ^ 32 = omega (arith, i.word, i.bounded) in
    elim (Option-cases (p.page v).buf) [
      | inl e ↦ absurd (cc (ap (λ o. is_some o) e, buffered v i w))
      | inr (b, e) ↦ elim (Bool-cases (p.page v).dirty) [
        | inl d ↦ evict_dirty p v b s.small free e w i.lazy some_cached word d
        | inr d ↦
            evict_clean p v b s.small free e w i.lazy some_cached word d
              (clean-Agrees _ _ _ (p.file v) b s.agrees e d)
      ]
    ]

-- `needOnePageQuota` never throws `PagerOutOfMemory`, from any state.
pub need_one_page_quota-ne-out_of_memory : (p : Pager) → need_one_page_quota p ≢ ok out_of_memory
unfolding need_one_page_quota find_victim
need_one_page_quota-ne-out_of_memory p = ground arith

-- The pager that has evicted what it must, and counts one page more.
abbrev pub counted_up : Pager → Pager
counted_up q = record q { pages_cached = (q.pages_cached + 1) % 2 ^ 32 }

abbrev pub Granted : Pager → Outcome Quota → Type 0
Granted p out =
    (q : Pager) × (out ≡ ok (granted (counted_up q)))
    × Inv q
    × (q.pages_cached < q.max_pages)
    × Kept p q

find_weak :
    (p : Pager) (ws : List ℕ) (v : ℕ) (rest : List ℕ)
    → ws ≡ v ∷ rest
    → has v p.keys ≡ true
    → (elim ws [
      | [] ↦ boost_assert false >> ok none
      | id ∷ more ↦ boost_assert (has id p.keys) >> ok (some id)
    ])
      ≡ ok (some v)
find_weak p ws v rest e h = rw e (rw h)

find_victim-ok :
    (p : Pager) (v : ℕ) (rest : List ℕ)
    → p.weak_pages ≡ v ∷ rest
    → has v p.keys ≡ true
    → find_victim p ≡ ok (some v)
unfolding find_victim
find_victim-ok p v rest = find_weak p p.weak_pages v rest

has_first : (v : ℕ) (ws rest : List ℕ) → ws ≡ v ∷ rest → has v ws ≡ true
unfolding has
has_first v ws rest e = rw e (rw (==_refl v))

pub quota_evicts :
    (p : Pager) (v : ℕ) (rest : List ℕ)
    → Inv p
    → p.weak_pages ≡ v ∷ rest
    → p.max_pages ≤ p.pages_cached
    → Granted p (need_one_page_quota p)
unfolding need_one_page_quota
quota_evicts p v rest i e full =
    let w = has_first v p.weak_pages rest e in
    let (q, runs, ev) = evict-total p v i w in
    let key = (victim v i w).0 in
    let over : leb p.max_pages p.pages_cached ≡ true = ground arith in
    (
      q,
      rw (over, find_victim-ok p v rest e key, runs),
      Evicted-Inv i w ev,
      omega (arith, ev.cached, ev.max_pages, i.bounded),
      Evicted-Kept i w ev,
    )

pub quota_left :
    (p : Pager) → Inv p → p.pages_cached < p.max_pages → Granted p (need_one_page_quota p)
unfolding need_one_page_quota
quota_left p i room =
    let under : leb p.max_pages p.pages_cached ≡ false = ground arith in
    (p, rw under, i, room, Kept-refl p)

find_none :
    (p : Pager) (ws : List ℕ)
    → ws ≡ []
    → (elim ws [
      | [] ↦ boost_assert false >> ok none
      | id ∷ more ↦ boost_assert (has id p.keys) >> ok (some id)
    ])
      ≡ assert_failed
find_none p ws e = rw e

find_victim-none : (p : Pager) → p.weak_pages ≡ [] → find_victim p ≡ assert_failed
unfolding find_victim
find_victim-none p = find_none p p.weak_pages

-- With every buffer in use, `findVictim` fails its assertion.
pub quota_asserts :
    (p : Pager)
    → p.weak_pages ≡ []
    → p.max_pages ≤ p.pages_cached
    → need_one_page_quota p ≡ assert_failed
unfolding need_one_page_quota
quota_asserts p e full =
    let over : leb p.max_pages p.pages_cached ≡ true = ground arith in
    rw (over, find_victim-none p e)

-- What `getBuf` leaves: the page has a buffer with what it showed, and a user more; every page
-- shows what it showed, and what is in use stays as it is.
pub record Got (p : Pager) (id : ℕ) (q : Pager) : Type 0 where
  pub inv : Inv q
  pub keys : q.keys ≡ p.keys
  pub max_pages : q.max_pages ≡ p.max_pages
  pub buffer : (q.page id).buf ≡ some (view p id)
  pub users : (q.page id).ref_count ≡ inc (p.page id).ref_count
  pub shows : (k : ℕ) → view q k ≡ view p k
  pub others : (k : ℕ) → k ≢ id → is_idle (p.page k) ≡ false → q.page k ≡ p.page k
  pub others_users : (k : ℕ) → k ≢ id → (q.page k).ref_count ≡ (p.page k).ref_count

-- The page after it is read.
abbrev pub loaded : Pager → ℕ → Pager
loaded p id =
    record (set_page p id
      (record (p.page id) { ref_count = pos 1; buf = some (p.file (file_page id)) })) {
        file_size = grown p.file_size (id + 1);
        perf_mon = inc_read_file p.perf_mon id;
      }

grown_same : (size id : ℕ) → id < max_id → (id + 1) * 4096 ≤ size → grown size (id + 1) ≡ size
grown_same size id small room =
    let positive : leb (2 ^ 31) ((id + 1) * 4096 % 2 ^ 32) ≡ false = ground arith in
    let enough : ltb size ((id + 1) * 4096 % 2 ^ 32) ≡ false = ground arith in rw (positive, enough)

pub load_page-loaded :
    (p : Pager) (id : ℕ)
    → is_zero (p.page id).ref_count ≡ true
    → id < max_id
    → (id + 1) * 4096 ≤ p.file_size
    → load_page p id ≡ ok (loaded p id)
unfolding load_page
load_page-loaded p id z small room =
    let read : leb ((file_page id + 1) * 4096) (grown p.file_size (id + 1)) ≡ true =
      rw (grown_same p.file_size id small room, file_page-id id small) (ground arith) in
    rw (z, read)

-- A page without a buffer has no user.
pub empty-Agrees :
    (r : ℤ) (o : Option Bytes) (d : Bool) (f : Bytes)
    → Agrees r o d f
    → o ≡ none
    → (r ≡ pos 0) × (d ≡ false)
empty-Agrees (negsuc n) o d f h e = absurd h
empty-Agrees (pos n) none d f h e = (ap pos h.0, h.1)
empty-Agrees (pos n) (some b) d f h e = absurd (cc)

not_cached : (b : Option Bytes) → b ≡ none → (elim b [ none ↦ false | some c ↦ true ]) ≡ false
not_cached b e = rw e

loaded-Inv :
    (q : Pager) (id : ℕ)
    → Inv q
    → q.pages_cached < q.max_pages
    → has id q.keys ≡ true
    → (q.page id).buf ≡ none
    → Inv (loaded (counted_up q) id)
loaded-Inv q id i room h e =
    let s = i.pages id h in
    let (zero_users, unchanged) = empty-Agrees _ _ _ _ s.agrees e in
    let small : q.pages_cached + 1 < 2 ^ 32 = omega (arith, i.word) in
    let same_size = grown_same q.file_size id s.small s.room in
    let nc : cached_at q id ≡ false = not_cached (q.page id).buf e in
    let lc : cached_at (loaded (counted_up q) id) id ≡ true = rw (==_refl id) refl in
    Changed-Inv {p = q} i h record {
      keys = refl;
      max_pages = refl;
      lazy_mode = refl;
      page = λ k ne. let z : (k == id) ≡ false = ground arith in rw z;
      file = λ k ne. refl;
      size = omega (arith, same_size);
      whole = λ w. omega (arith, same_size, w);
      weak_once = i.weak_once;
      weak = λ k ne. refl;
      weak_self = rw (==_refl id) (ground (arith, i.weak id, nc));
      bounded = omega arith;
      cached = rw (nc, lc) (omega arith);
      sound = record {
        small = s.small;
        room = rw same_size s.room;
        agrees = rw (==_refl id) (rw unchanged (ap q.file (file_page-id id s.small)));
      };
    }

pub shown_buffer :
    (b : Option Bytes) (c f : Bytes) → b ≡ some c → (elim b [ none ↦ f | some x ↦ x ]) ≡ c
shown_buffer b c f e = rw e

shown_file : (b : Option Bytes) (f : Bytes) → b ≡ none → (elim b [ none ↦ f | some x ↦ x ]) ≡ f
shown_file b f e = rw e

-- The page that is read shows the file, and no page shows anything else than before.
pub loaded-Got :
    (p q : Pager) (id : ℕ)
    → Inv q
    → q.pages_cached < q.max_pages
    → Kept p q
    → has id p.keys ≡ true
    → (p.page id).buf ≡ none
    → IsSound p id
    → Got p id (loaded (counted_up q) id)
loaded-Got p q id i room kept h e s =
    let nc : is_cached (p.page id) ≡ false = not_cached (p.page id).buf e in
    let same : q.page id ≡ p.page id = kept.page id (ground (arith, nc)) in
    let e' : (q.page id).buf ≡ none = rw same e in
    let shows_file : view q id ≡ q.file id = shown_file (q.page id).buf (q.file id) e' in
    let here : q.file (file_page id) ≡ q.file id = ap q.file (file_page-id id s.small) in
    record {
      inv = loaded-Inv q id i room (rw kept.keys h) e';
      keys = kept.keys;
      max_pages = kept.max_pages;
      buffer = rw (==_refl id) (ap some (here ∙ sym shows_file ∙ kept.view id));
      users = rw (==_refl id) (rw ((empty-Agrees _ _ _ _ s.agrees e).0) refl);
      shows = λ k. elim (Bool-cases (k == id)) [
        | inl k-id ↦
            let k≡id : k ≡ id = (==_iff k id).0 k-id in
            rw (k≡id, ==_refl id) (here ∙ sym shows_file ∙ kept.view id)
        | inr other ↦ rw other (kept.view k)
      ];
      others = λ k ne busy. rw (let z : (k == id) ≡ false = ground arith in z) (kept.page k busy);
      others_users = λ k ne. rw (let z : (k == id) ≡ false = ground arith in z) (kept.users k);
    }

-- A buffer that is there gets one user more.
abbrev pub Hit : Pager → ℕ → Outcome Quota → Type 0
Hit p id out = (q : Pager) × (out ≡ ok (granted q)) × Got p id q
