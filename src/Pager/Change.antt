-- ===== src/Pager/Change.antt =====
-- The invariant under a change of one page object.
use tinydbpp.Base.{
  ℕ, ◌+◌, ◌%◌, ◌≤◌, ◌≡◌, ◌≢◌, sym, ◌∙◌, subst, ap, true, ◌==◌, ==_iff, if◌then◌else◌, arith,
  Bool-cases, inl, inr,
}
use tinydbpp.Pager.{Pager, has}
use tinydbpp.Pager.Keys.{Distinct, count_change}
use tinydbpp.Pager.Invariant.{is_cached, is_idle, cached_at, IsSound, Inv}

pub record Changed (p : Pager) (id : ℕ) (q : Pager) : Type 0 where
  pub keys : q.keys ≡ p.keys
  pub max_pages : q.max_pages ≡ p.max_pages
  pub lazy_mode : q.lazy_mode ≡ p.lazy_mode
  pub page : (k : ℕ) → k ≢ id → q.page k ≡ p.page k
  pub file : (k : ℕ) → k ≢ id → q.file k ≡ p.file k
  pub size : p.file_size ≤ q.file_size
  pub whole : p.file_size % 4096 ≡ 0 → q.file_size % 4096 ≡ 0
  pub weak_once : Distinct q.weak_pages
  pub weak : (k : ℕ) → k ≢ id → has k q.weak_pages ≡ has k p.weak_pages
  pub weak_self : has id q.weak_pages ≡ is_idle (q.page id)
  pub bounded : q.pages_cached ≤ q.max_pages
  pub cached :
      q.pages_cached + (if cached_at p id then 1 else 0)
      ≡ p.pages_cached + (if cached_at q id then 1 else 0)
  pub sound : IsSound q id

pub Changed-Inv : {p q : Pager} {id : ℕ} → Inv p → has id p.keys ≡ true → Changed p id q → Inv q
Changed-Inv {p} {q} {id} i h c = record {
  lazy = c.lazy_mode ∙ i.lazy;
  word = rw c.max_pages i.word;
  whole = c.whole i.whole;
  bounded = c.bounded;
  keys = rw c.keys i.keys;
  weak_once = c.weak_once;
  weak = λ k. elim (Bool-cases (k == id)) [
    | inl same ↦ rw ((==_iff k id).0 same, c.keys, h) c.weak_self
    | inr other ↦ let ne : k ≢ id = ground arith in rw (c.weak k ne, c.keys, c.page k ne) (i.weak k)
  ];
  counted =
      let change =
        count_change (cached_at p) (cached_at q) id p.keys i.keys h
          (λ j ne. ap is_cached (sym (c.page j ne))) in
      rw c.keys (omega (arith, change, c.cached, i.counted));
  pages = λ k g. elim (Bool-cases (k == id)) [
    | inl same ↦ rw ((==_iff k id).0 same) c.sound
    | inr other ↦
        let ne : k ≢ id = ground arith in
        let s = i.pages k (subst (λ ks. has k ks ≡ true) c.keys g) in
        record {
          small = s.small;
          room = omega (arith, c.size, s.room);
          agrees = rw (c.page k ne, c.file k ne) s.agrees;
        }
  ];
}
