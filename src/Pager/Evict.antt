-- ===== src/Pager/Evict.antt =====
-- What `becomeVictim` does: the page is written if it has changed, and its buffer is given up.
use tinydbpp.Base.{
  ℕ, ◌+◌, ◌-◌, ◌*◌, ◌%◌, ◌^◌, ◌≤◌, ◌<◌, ◌≡◌, ◌≢◌, refl, sym, ◌∙◌, true, false, none, some, ◌==◌,
  ==_refl, if◌then◌else◌, arith, Bool-cases, inl, inr, ok, assert_failed, if_true, elim_some, ltb,
}
use tinydbpp.Base.Bytes.{Bytes}
use tinydbpp.Pager.{
  Pager, Page, pos, has, erase, file_page, become_victim, write_back_if_dirty, write_back,
  free_buffer, no_more_weak_page, is_zero,
}
use tinydbpp.Pager.PerfMon.{inc_write_file}

-- The bytes that a page shows: its buffer, or what the file holds.
abbrev pub shown : Page → Bytes → Bytes
shown o f = elim o.buf [ none ↦ f | some b ↦ b ]

abbrev pub view : Pager → ℕ → Bytes
view p k = shown (p.page k) (p.file k)

-- Page numbers for which no offset leaves the positive `int`s.
abbrev pub max_id : ℕ
max_id = 524287

pub file_page-id : (id : ℕ) → id < max_id → file_page id ≡ id
file_page-id id h = omega arith

abbrev pub freed : Page → Page
freed o = record o { buf = none; dirty = false }

pub record Evicted (p : Pager) (v : ℕ) (q : Pager) : Type 0 where
  pub keys : q.keys ≡ p.keys
  pub weak_pages : q.weak_pages ≡ erase v p.weak_pages
  pub max_pages : q.max_pages ≡ p.max_pages
  pub lazy_mode : q.lazy_mode ≡ p.lazy_mode
  pub cached : q.pages_cached + 1 ≡ p.pages_cached
  pub page : (k : ℕ) → q.page k ≡ (if k == v then freed (p.page v) else p.page k)
  pub file : (k : ℕ) → k ≢ v → q.file k ≡ p.file k
  pub written : q.file v ≡ view p v
  pub size : p.file_size ≤ q.file_size
  pub whole : p.file_size % 4096 ≡ 0 → q.file_size % 4096 ≡ 0

abbrev buffer_freed : Pager → ℕ → Pager
buffer_freed p v = record p {
  page = λ k. if k == v then freed (p.page v) else p.page k;
  pages_cached = (p.pages_cached + 2 ^ 32 - 1) % 2 ^ 32;
}

abbrev pub page_written : Pager → ℕ → Bytes → Pager
page_written p v b = record p {
  page = λ k. if k == v then record (p.page v) { dirty = false } else p.page k;
  file = λ k. if k == file_page v then b else p.file k;
  file_size =
      if ltb p.file_size ((file_page v + 1) * 4096) then (file_page v + 1) * 4096 else p.file_size;
  perf_mon = inc_write_file p.perf_mon v;
}

-- The calls of `becomeVictim`, each where its assertions hold.
free_buffer-ok :
    (p : Pager) (v : ℕ) (b : Bytes)
    → (p.page v).buf ≡ some b
    → free_buffer p v ≡ ok (buffer_freed p v)
unfolding free_buffer
free_buffer-ok p v b e = rw (e, free_buffer)

pub write_back-ok :
    (p : Pager) (v : ℕ) (b : Bytes)
    → (p.page v).buf ≡ some b
    → write_back p v ≡ ok (page_written p v b)
unfolding write_back
write_back-ok p v b e = elim_some (λ c. ok (page_written p v c)) assert_failed (p.page v).buf b e

pub no_more_weak_page-ok :
    (p : Pager) (v : ℕ)
    → has v p.weak_pages ≡ true
    → no_more_weak_page p v ≡ ok (record p { weak_pages = erase v p.weak_pages })
unfolding no_more_weak_page
no_more_weak_page-ok p v e = rw e

if_lazy :
    (r : Pager) (v : ℕ)
    → r.lazy_mode ≡ true
    → has v r.weak_pages ≡ true
    → (if r.lazy_mode then no_more_weak_page r v else ok r)
      ≡ ok (record r { weak_pages = erase v r.weak_pages })
if_lazy r v e h = if_true r.lazy_mode (no_more_weak_page r v) (ok r) e ∙ no_more_weak_page-ok r v h

-- The whole call, after its write.
victim_rest :
    (p q : Pager) (v : ℕ) (b : Bytes)
    → (p.page v).ref_count ≡ pos 0
    → write_back_if_dirty p v ≡ ok q
    → (q.page v).buf ≡ some b
    → q.lazy_mode ≡ true
    → has v q.weak_pages ≡ true
    → become_victim p v ≡ ok (record (buffer_freed q v) { weak_pages = erase v q.weak_pages })
unfolding become_victim
victim_rest p q v b unused w full lazy weak =
    let z : is_zero (p.page v).ref_count ≡ true = rw unused in
    rw (z, w, free_buffer-ok q v b full) (if_lazy (buffer_freed q v) v lazy weak)

module _ (p : Pager) (v : ℕ) (b : Bytes) (small : v < max_id)
    (unused : (p.page v).ref_count ≡ pos 0) (full : (p.page v).buf ≡ some b)
    (weak : has v p.weak_pages ≡ true) (lazy : p.lazy_mode ≡ true)
    (some_cached : 0 < p.pages_cached) (word : p.pages_cached < 2 ^ 32) where
  pub evict_clean :
      (p.page v).dirty ≡ false
      → b ≡ p.file v
      → (q : Pager) × (become_victim p v ≡ ok q) × Evicted p v q
  unfolding write_back_if_dirty
  evict_clean e same = (
    record (buffer_freed p v) { weak_pages = erase v p.weak_pages },
    victim_rest p p v b unused (rw e) full lazy weak,
    record {
      keys = refl;
      weak_pages = refl;
      max_pages = refl;
      lazy_mode = refl;
      cached = omega arith;
      page = λ k. refl;
      file = λ k ne. refl;
      written = rw (full, shown) (sym same);
      size = omega arith;
      whole = λ w. w;
    },
  )

  pub evict_dirty :
      (p.page v).dirty ≡ true → (q : Pager) × (become_victim p v ≡ ok q) × Evicted p v q
  unfolding write_back_if_dirty
  evict_dirty e =
      let w = page_written p v b in
      (
        record (buffer_freed w v) { weak_pages = erase v p.weak_pages },
        victim_rest p w v b unused (rw e (write_back-ok p v b full)) (rw (==_refl v) full) lazy
            weak,
        record {
          keys = refl;
          weak_pages = refl;
          max_pages = refl;
          lazy_mode = refl;
          cached = omega arith;
          page = λ k. elim (Bool-cases (k == v)) [
            | inl same ↦ rw (same, ==_refl v)
            | inr other ↦ rw other
          ];
          file = λ k ne.
              let z : (k == file_page v) ≡ false = ground (arith, file_page-id v small) in rw z;
          written =
              rw (full, shown)
                (let z : (v == file_page v) ≡ true = ground (arith, file_page-id v small) in rw z);
          size = ground arith;
          whole = λ w. ground (arith, w);
        },
      )
