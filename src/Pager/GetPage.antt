-- ===== src/Pager/GetPage.antt =====
-- `getPage`: a page that the pager has not seen gets an object and its room in the file.
use tinydbpp.Base.{
  ℕ, ◌+◌, ◌*◌, ◌/◌, ◌%◌, ◌^◌, ◌≤◌, ◌<◌, ◌≡◌, ◌≢◌, refl, sym, ◌∙◌, ap, [], ◌∷◌, ◌++◌, true, false,
  ◌==◌, ==_refl, ==_iff, if◌then◌else◌, arith, Bool-cases, inl, inr, leb,
}
use tinydbpp.Pager.{Pager, has, get_page, grown, new_page}
use tinydbpp.Pager.Keys.{has-snoc, Distinct-snoc, count, count_same, count-snoc}
use tinydbpp.Pager.Evict.{max_id}
use tinydbpp.Pager.Invariant.{is_cached, cached_at, Inv}

grown_bounds :
    (size id : ℕ)
    → id < max_id
    → (size ≤ grown size (id + 1)) × ((id + 1) * 4096 ≤ grown size (id + 1))
grown_bounds size id small =
    let positive : leb (2 ^ 31) ((id + 1) * 4096 % 2 ^ 32) ≡ false = ground arith in
    let exact : (id + 1) * 4096 % 2 ^ 32 ≡ (id + 1) * 4096 = omega arith in
    rw positive (ground (arith, exact))

grown_whole : (size id : ℕ) → id < max_id → size % 4096 ≡ 0 → grown size (id + 1) % 4096 ≡ 0
grown_whole size id small w =
    let positive : leb (2 ^ 31) ((id + 1) * 4096 % 2 ^ 32) ≡ false = ground arith in
    let exact : (id + 1) * 4096 % 2 ^ 32 ≡ (id + 1) * 4096 = omega arith in
    rw positive (ground (arith, exact, w))

-- The pager with an object for a page it has not seen.
abbrev added : Pager → ℕ → Pager
added p id = record p {
  keys = p.keys ++ id ∷ [];
  page = λ k. if k == id then new_page else p.page k;
  file_size = grown p.file_size (id + 1);
  max_valid_pages = grown p.file_size (id + 1) / 4096 % 2 ^ 32;
}

module _ (p : Pager) (id : ℕ) (i : Inv p) (small : id < max_id)
    (fresh : has id p.keys ≡ false) where
  added_page : (k : ℕ) → k ≢ id → (added p id).page k ≡ p.page k
  added_page k ne = rw (let z : (k == id) ≡ false = ground arith in z) refl

  added_self : (added p id).page id ≡ new_page
  added_self = rw (==_refl id) refl

  added-Inv : Inv (added p id)
  added-Inv = record {
    lazy = i.lazy;
    word = i.word;
    whole = grown_whole p.file_size id small i.whole;
    bounded = i.bounded;
    keys = Distinct-snoc id p.keys i.keys fresh;
    weak_once = i.weak_once;
    weak = λ k. elim (Bool-cases (k == id)) [
      | inl same ↦
          let k-id : k ≡ id = (==_iff k id).0 same in
          rw (k-id, ==_refl id) (ground (arith, i.weak id, fresh))
      | inr other ↦
          let ne : (id == k) ≡ false = ground arith in
          rw (has-snoc k id p.keys, ne, other) (ground (arith, i.weak k))
    ];
    counted =
        let old : count (cached_at p) p.keys ≡ count (cached_at (added p id)) p.keys =
          count_same (cached_at p) (cached_at (added p id)) id p.keys fresh
            (λ j ne. ap is_cached (sym (added_page j ne))) in
        let fresh_empty : cached_at (added p id) id ≡ false = ap is_cached added_self in
        let more = count-snoc (cached_at (added p id)) id p.keys in
        i.counted ∙ old ∙ sym (more ∙ rw fresh_empty (omega arith));
    pages = λ k h. elim (Bool-cases (k == id)) [
      | inl same ↦
          let k-id : k ≡ id = (==_iff k id).0 same in
          record {
            small = rw k-id small;
            room = rw k-id ((grown_bounds p.file_size id small).1);
            agrees = rw same (refl, refl);
          }
      | inr other ↦
          let ne : (id == k) ≡ false = ground arith in
          let s = i.pages k (ground (arith, has-snoc k id p.keys, h)) in
          record {
            small = s.small;
            room = omega (arith, s.room, (grown_bounds p.file_size id small).0);
            agrees = rw other s.agrees;
          }
    ];
  }

-- For a page id below 524287, `getPage` keeps the invariant and the pager then knows the page.
pub get_page-Inv :
    (p : Pager) (id : ℕ)
    → Inv p
    → id < max_id
    → Inv (get_page p id) × (has id (get_page p id).keys ≡ true)
unfolding get_page
get_page-Inv p id i small = elim (Bool-cases (has id p.keys)) [
  | inl known ↦ rw known (i, known)
  | inr fresh ↦
      rw fresh (added-Inv p id i small fresh, has-snoc id id p.keys ∙ rw (fresh, ==_refl id) refl)
]
