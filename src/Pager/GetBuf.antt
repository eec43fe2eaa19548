-- ===== src/Pager/GetBuf.antt =====
-- `getBuf` in lazy mode: on a hit, on a miss, and where no buffer can be had.
use tinydbpp.Base.{
  ℕ, ◌≤◌, ◌<◌, ◌≡◌, ◌≢◌, refl, sym, ◌∙◌, subst, ap, elim_some, List, [], ◌∷◌, Bool, true, false,
  Option, none, some, ◌==◌, ==_refl, ==_iff, arith, Bool-cases, Option-cases, inl, inr, ◌⊎◌,
  Outcome, ok, assert_failed, ltb, ◌>>=◌, boost_assert, ◌>>◌,
}
use tinydbpp.Base.Bytes.{Bytes}
use tinydbpp.Pager.{
  Pager, ℤ, pos, negsuc, is_zero, is_nonneg, has, erase, need_one_page_quota, Quota, granted,
  out_of_memory, load_page, get_buf, inc_ref, inc,
}
use tinydbpp.Pager.PerfMon.{inc_cache_hit}
use tinydbpp.Pager.Keys.{Distinct, has-erase, Distinct-erase}
use tinydbpp.Pager.Invariant.{is_cached, Agrees, Inv}
use tinydbpp.Pager.Cache.{
  Granted, Hit, Got, loaded, counted_up, quota_evicts, quota_left, quota_asserts, load_page-loaded,
  loaded-Got, empty-Agrees, shown_buffer,
}
use tinydbpp.Pager.Buffers.{
  inc_ref-idle, inc_ref-busy, nonneg-Agrees, touched, cached_here, recount, recount-Inv,
}

-- A count of users that another user does not take over the end of an int.
abbrev pub BelowMax : ℤ → Type 0
BelowMax (pos n) = n < 2147483647
BelowMax (negsuc n) = Unit {0}

nonneg_inc : (r : ℤ) → is_nonneg r ≡ true → BelowMax r → is_nonneg (inc r) ≡ true
nonneg_inc (pos n) e m = let other : (n == 2147483647) ≡ false = ground arith in rw other refl
nonneg_inc (negsuc n) e m = absurd (cc)

zero_inc : (r : ℤ) → is_nonneg r ≡ true → BelowMax r → is_zero (inc r) ≡ false
zero_inc (pos n) e m =
    let other : (n == 2147483647) ≡ false = ground arith in rw other (ground arith)
zero_inc (negsuc n) e m = absurd (cc)

-- The pager with one user more, for a list of weak pages without the page.
abbrev got : Pager → ℕ → List ℕ → Pager
got p id ws = recount p id (inc_cache_hit p.perf_mon id) (inc (p.page id).ref_count) ws

abbrev on_hit : Pager → ℕ → Outcome Quota
on_hit p id =
    boost_assert (is_nonneg (p.page id).ref_count)
    >> (inc_ref (touched p id) id >>= (λ q. ok (granted q)))

abbrev on_miss : Pager → ℕ → Outcome Quota
on_miss p id = need_one_page_quota p >>= (λ quota. elim quota [
  | out_of_memory ↦ ok out_of_memory
  | granted q ↦ load_page q id >>= (λ r. ok (granted r))
])

get_buf-hit :
    (p : Pager) (id : ℕ) (b : Bytes) → (p.page id).buf ≡ some b → get_buf p id ≡ on_hit p id
unfolding get_buf
get_buf-hit p id b e = elim_some (λ c. on_hit p id) (on_miss p id) (p.page id).buf b e

by_none :
    {A B : Type 0} (o : Option A) (x y : B) → o ≡ none → (elim o [ none ↦ x | some c ↦ y ]) ≡ x
by_none o x y e = rw e

get_buf-miss : (p : Pager) (id : ℕ) → (p.page id).buf ≡ none → get_buf p id ≡ on_miss p id
unfolding get_buf
get_buf-miss p id e = by_none (p.page id).buf (on_miss p id) (on_hit p id) e

module _ (p : Pager) (id : ℕ) (b : Bytes) (i : Inv p) (h : has id p.keys ≡ true)
    (e : (p.page id).buf ≡ some b) (m : BelowMax (p.page id).ref_count) where
  nonneg : is_nonneg (p.page id).ref_count ≡ true
  nonneg = nonneg-Agrees _ _ _ _ (i.pages id h).agrees

  got-Got :
      (ws : List ℕ)
      → Distinct ws
      → ((k : ℕ) → k ≢ id → has k ws ≡ has k p.weak_pages)
      → has id ws ≡ false
      → Got p id (got p id ws)
  got-Got ws once others self = record {
    inv =
        recount-Inv p id b i h e _ _ ws (nonneg_inc _ nonneg m) once others
          (self ∙ sym (zero_inc _ nonneg m));
    keys = refl;
    max_pages = refl;
    buffer = rw (==_refl id) (e ∙ ap some (sym (shown_buffer _ b (p.file id) e)));
    users = rw (==_refl id) refl;
    shows = λ k. elim (Bool-cases (k == id)) [
      | inl same ↦ let k-id : k ≡ id = (==_iff k id).0 same in rw (k-id, ==_refl id) refl
      | inr other ↦ rw other refl
    ];
    others = λ k ne busy. rw (let z : (k == id) ≡ false = ground arith in z) refl;
    others_users = λ k ne. rw (let z : (k == id) ≡ false = ground arith in z) refl;
  }

  hit : (q : Pager) → inc_ref (touched p id) id ≡ ok q → get_buf p id ≡ ok (granted q)
  hit q runs = get_buf-hit p id b e ∙ rw (nonneg, runs) refl

  buffered-Hit : Hit p id (get_buf p id)
  buffered-Hit = elim (Bool-cases (is_zero (p.page id).ref_count)) [
    | inl z ↦
        let w : has id p.weak_pages ≡ true = i.weak id ∙ rw (h, cached_here p id b i h e, z) refl in
        (
          got p id (erase id p.weak_pages),
          hit _ (inc_ref-idle (touched p id) id z i.lazy w),
          got-Got (erase id p.weak_pages) (Distinct-erase id p.weak_pages i.weak_once)
              (λ k ne.
                let z : (id == k) ≡ false = ground arith in
                ground (arith, has-erase id k p.weak_pages i.weak_once))
              (ground (arith, has-erase id id p.weak_pages i.weak_once, ==_refl id)),
        )
    | inr z ↦ (
      got p id p.weak_pages,
      hit _ (inc_ref-busy (touched p id) id z),
      got-Got p.weak_pages i.weak_once (λ k ne. refl)
          (i.weak id ∙ rw (h, cached_here p id b i h e, z) refl),
    )
  ]

-- A miss with room for a page.
miss :
    (p : Pager) (id : ℕ)
    → Inv p
    → has id p.keys ≡ true
    → (p.page id).buf ≡ none
    → Granted p (need_one_page_quota p)
    → Hit p id (get_buf p id)
miss p id i h e (q, runs, inv, room, kept) =
    let s = i.pages id h in
    let nc : is_cached (p.page id) ≡ false = by_none (p.page id).buf false true e in
    let same : q.page id ≡ p.page id = kept.page id (ground (arith, nc)) in
    let got : Got p id (loaded (counted_up q) id) = loaded-Got p q id inv room kept h e s in
    let s' = inv.pages id (subst (λ ks. has id ks ≡ true) (sym kept.keys) h) in
    (
      loaded (counted_up q) id,
      get_buf-miss p id e
          ∙ ap
              (λ m. m >>= (λ quota. elim quota [
                | out_of_memory ↦ ok out_of_memory
                | granted q ↦ load_page q id >>= (λ r. ok (granted r))
              ]))
              runs
          ∙ ap (λ m. m >>= (λ r. ok (granted r)))
              (load_page-loaded (counted_up q) id (rw same (unused_page _ _ _ _ s.agrees e)) s.small
                s'.room),
      got,
    )
  where
    unused_page :
        (r : ℤ) (o : Option Bytes) (d : Bool) (f : Bytes)
        → Agrees r o d f
        → o ≡ none
        → is_zero r ≡ true
    unused_page r o d f a n = rw ((empty-Agrees r o d f a n).0) refl

-- A buffer can be had: the page has one, a page more may have one, or a page can give up its own.
abbrev pub HasRoom : Pager → ℕ → Type 0
HasRoom p id =
    (is_cached (p.page id) ≡ true) ⊎ ((p.pages_cached < p.max_pages) ⊎ ((p.weak_pages ≡ []) → ⊥))

pub get_buf-Hit :
    (p : Pager) (id : ℕ)
    → Inv p
    → has id p.keys ≡ true
    → HasRoom p id
    → BelowMax (p.page id).ref_count
    → Hit p id (get_buf p id)
get_buf-Hit p id i h room m = elim (Option-cases (p.page id).buf) [
  | inr (b, e) ↦ buffered-Hit p id b i h e m
  | inl e ↦ elim room [
    | inl c ↦ absurd (cc (by_none (p.page id).buf false true e, c))
    | inr (inl left) ↦ miss p id i h e (quota_left p i left)
    | inr (inr weak) ↦ elim (Bool-cases (ltb p.pages_cached p.max_pages)) [
      | inl left ↦ miss p id i h e (quota_left p i (ground (arith, left)))
      | inr full ↦ elim (List-cases p.weak_pages) [
        | inl none_weak ↦ absurd (weak none_weak)
        | inr (v, rest, w) ↦ miss p id i h e (quota_evicts p v rest i w (ground (arith, full)))
      ]
    ]
  ]
]
  where
    List-cases : (ws : List ℕ) → (ws ≡ []) ⊎ ((v : ℕ) × (rest : List ℕ) × (ws ≡ v ∷ rest))
    List-cases [] = inl refl
    List-cases (v ∷ rest) = inr (v, rest, refl)

-- `getBuf` of a page without a buffer, with no weak page and the maximum of pages cached, fails an
-- assertion.
pub get_buf-assert_failed :
    (p : Pager) (id : ℕ)
    → (p.page id).buf ≡ none
    → p.weak_pages ≡ []
    → p.max_pages ≤ p.pages_cached
    → get_buf p id ≡ assert_failed
get_buf-assert_failed p id e w full = get_buf-miss p id e ∙ rw (quota_asserts p w full) refl
