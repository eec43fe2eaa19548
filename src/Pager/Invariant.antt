-- ===== src/Pager/Invariant.antt =====
-- The invariant of a pager in its default, lazy mode, and that evictions keep it.
use tinydbpp.Base.{
  ℕ, ◌+◌, ◌*◌, ◌%◌, ◌^◌, ◌≤◌, ◌<◌, ◌≡◌, ◌≢◌, refl, sym, ◌∙◌, subst, ap, ap₂, Bool, true, false,
  ◌&&◌, Option, none, some, ◌==◌, ==_refl, ==_iff, arith, Bool-cases, inl, inr, if_true, if_false,
}
use tinydbpp.Base.Bytes.{Bytes}
use tinydbpp.Pager.{Pager, Page, ℤ, pos, negsuc, is_zero, has}
use tinydbpp.Pager.Keys.{Distinct, has-erase, Distinct-erase, count, count_change}
use tinydbpp.Pager.Evict.{view, shown, max_id, freed, Evicted}

abbrev pub is_cached : Page → Bool
is_cached o = elim o.buf [ none ↦ false | some b ↦ true ]

-- A page that nobody uses, and that has a buffer.
abbrev pub is_idle : Page → Bool
is_idle o = is_cached o && is_zero o.ref_count

abbrev pub cached_at : Pager → ℕ → Bool
cached_at p k = is_cached (p.page k)

-- A page without a buffer has no user and no changes; a buffer without changes shows the file.
abbrev pub Agrees : ℤ → Option Bytes → Bool → Bytes → Type 0
Agrees (negsuc n) buf dirty f = ⊥
Agrees (pos n) none dirty f = (n ≡ 0) × (dirty ≡ false)
Agrees (pos n) (some b) true f = Unit {0}
Agrees (pos n) (some b) false f = b ≡ f

pub record IsSound (p : Pager) (k : ℕ) : Type 0 where
  pub small : k < max_id
  pub room : (k + 1) * 4096 ≤ p.file_size
  pub agrees : Agrees (p.page k).ref_count (p.page k).buf (p.page k).dirty (p.file k)

pub record Inv (p : Pager) : Type 0 where
  pub lazy : p.lazy_mode ≡ true
  pub word : p.max_pages < 2 ^ 32
  pub whole : p.file_size % 4096 ≡ 0
  pub bounded : p.pages_cached ≤ p.max_pages
  pub keys : Distinct p.keys
  pub weak_once : Distinct p.weak_pages
  pub weak : (k : ℕ) → has k p.weak_pages ≡ (has k p.keys && is_idle (p.page k))
  pub counted : p.pages_cached ≡ count (cached_at p) p.keys
  pub pages : (k : ℕ) → has k p.keys ≡ true → IsSound p k

-- Nothing that a page shows, and no page in use, is changed.
pub record Kept (p q : Pager) : Type 0 where
  pub keys : q.keys ≡ p.keys
  pub max_pages : q.max_pages ≡ p.max_pages
  pub view : (k : ℕ) → view q k ≡ view p k
  pub page : (k : ℕ) → is_idle (p.page k) ≡ false → q.page k ≡ p.page k
  pub users : (k : ℕ) → (q.page k).ref_count ≡ (p.page k).ref_count

pub Kept-refl : (p : Pager) → Kept p p
Kept-refl p = record {
  keys = refl;
  max_pages = refl;
  view = λ k. refl;
  page = λ k h. refl;
  users = λ k. refl;
}

pub zero_ref : (r : ℤ) → is_zero r ≡ true → r ≡ pos 0
zero_ref (pos n) h = ap pos ((==_iff n 0).0 h)
zero_ref (negsuc n) h = absurd (cc)

module _ {p : Pager} (v : ℕ) (i : Inv p) (w : has v p.weak_pages ≡ true) where
  pub victim : (has v p.keys ≡ true) × (is_idle (p.page v) ≡ true)
  victim = ground (arith, i.weak v)

  pub unused : is_zero (p.page v).ref_count ≡ true
  unused = ground (arith, victim.1)

  pub buffered : is_cached (p.page v) ≡ true
  buffered = ground (arith, victim.1)

module _ {p q : Pager} {v : ℕ} (i : Inv p) (w : has v p.weak_pages ≡ true) (e : Evicted p v q) where
  page_other : (k : ℕ) → k ≢ v → q.page k ≡ p.page k
  page_other k ne = e.page k ∙ if_false (k == v) (freed (p.page v)) (p.page k) (ground arith)

  page_victim : q.page v ≡ freed (p.page v)
  page_victim = e.page v ∙ if_true (v == v) (freed (p.page v)) (p.page v) (==_refl v)

  pub Evicted-Kept : Kept p q
  Evicted-Kept = record {
    keys = e.keys;
    max_pages = e.max_pages;
    view = λ k. elim (Bool-cases (k == v)) [
      | inl same ↦ rw ((==_iff k v).0 same) (ap₂ shown page_victim e.written)
      | inr other ↦ let ne : k ≢ v = ground arith in ap₂ shown (page_other k ne) (e.file k ne)
    ];
    page = λ k h. elim (Bool-cases (k == v)) [
      | inl same ↦
          let k-v : k ≡ v = (==_iff k v).0 same in
          absurd (cc (ap (λ x. is_idle (p.page x)) k-v, h, (victim v i w).1))
      | inr other ↦ page_other k (ground arith)
    ];
    users = λ k. elim (Bool-cases (k == v)) [
      | inl same ↦ rw ((==_iff k v).0 same) (ap (λ o. o.ref_count) page_victim)
      | inr other ↦ ap (λ o. o.ref_count) (page_other k (ground arith))
    ];
  }

  victim-IsSound : IsSound q v
  victim-IsSound =
      let s = i.pages v (victim v i w).0 in
      record {
        small = s.small;
        room = omega (arith, e.size, s.room);
        agrees = rw (page_victim, zero_ref (p.page v).ref_count (unused v i w)) (refl, refl);
      }

  pub Evicted-Inv : Inv q
  Evicted-Inv = record {
    lazy = e.lazy_mode ∙ i.lazy;
    word = rw e.max_pages i.word;
    whole = e.whole i.whole;
    bounded = omega (arith, e.max_pages, e.cached, i.bounded);
    keys = rw e.keys i.keys;
    weak_once = rw e.weak_pages (Distinct-erase v p.weak_pages i.weak_once);
    weak = λ k. elim (Bool-cases (k == v)) [
      | inl same ↦
          let k-v : k ≡ v = (==_iff k v).0 same in
          let gone : is_idle (q.page k) ≡ false = rw (k-v, page_victim) refl in
          rw (e.weak_pages, e.keys, gone) (ground (arith, has-erase v k p.weak_pages i.weak_once))
      | inr other ↦
          let same : q.page k ≡ p.page k = page_other k (ground arith) in
          rw (e.weak_pages, e.keys, same)
            (ground (arith, has-erase v k p.weak_pages i.weak_once, i.weak k))
    ];
    counted =
        let change =
          count_change (cached_at p) (cached_at q) v p.keys i.keys (victim v i w).0
            (λ j ne. ap is_cached (sym (page_other j ne))) in
        let gone : cached_at q v ≡ false = rw page_victim refl in
        let change' : count (cached_at p) p.keys ≡ count (cached_at q) p.keys + 1 =
          ground (arith, change, gone, (buffered v i w)) in
        rw e.keys (omega (arith, change', e.cached, i.counted));
    pages = λ k h. elim (Bool-cases (k == v)) [
      | inl same ↦ rw ((==_iff k v).0 same) victim-IsSound
      | inr other ↦
          let ne : k ≢ v = ground arith in
          let s = i.pages k (subst (λ ks. has k ks ≡ true) e.keys h) in
          record {
            small = s.small;
            room = omega (arith, e.size, s.room);
            agrees = rw (page_other k ne, e.file k ne) s.agrees;
          }
    ];
  }
