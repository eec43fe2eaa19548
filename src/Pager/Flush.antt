-- ===== src/Pager/Flush.antt =====
-- `writeBackAll`.
use tinydbpp.Base.{
  ℕ, ◌≡◌, refl, sym, ◌∙◌, subst, ap, List, [], ◌∷◌, Bool, true, false, Option, none, some, ◌==◌,
  ==_refl, ==_iff, if◌then◌else◌, if_true, if_false, arith, Bool-cases, inl, inr, ok,
}
use tinydbpp.Base.Bytes.{Bytes}
use tinydbpp.Pager.{
  Pager, ℤ, pos, negsuc, has, file_page, write_back, write_back_if_dirty, write_back_pages,
  write_back_all,
}
use tinydbpp.Pager.Evict.{view, file_page-id, page_written, write_back-ok}
use tinydbpp.Pager.Invariant.{Agrees, Inv}
use tinydbpp.Pager.Change.{Changed, Changed-Inv}

-- No page has been given to or taken from anyone, and no object was made.
pub record Unwritten (p q : Pager) : Type 0 where
  pub users : (k : ℕ) → (q.page k).ref_count ≡ (p.page k).ref_count
  pub objects : (k : ℕ) → has k p.keys ≡ false → q.page k ≡ p.page k
  pub max_pages : q.max_pages ≡ p.max_pages
  pub still : (k : ℕ) → (p.page k).dirty ≡ false → (q.page k).dirty ≡ false

-- The page's bytes are in the file, and nothing else has changed that a page shows or the file holds.
record Flushed (p : Pager) (id : ℕ) (q : Pager) : Type 0 where
  inv : Inv q
  keys : q.keys ≡ p.keys
  shows : (k : ℕ) → view q k ≡ view p k
  file : (k : ℕ) → q.file k ≡ (if k == id then view p id else p.file k)
  rest : Unwritten p q
  clean : (q.page id).dirty ≡ false

clean_shows :
    (r : ℤ) (o : Option Bytes) (d : Bool) (f : Bytes)
    → Agrees r o d f
    → d ≡ false
    → f ≡ (elim o [ none ↦ f | some b ↦ b ])
clean_shows (negsuc n) o d f a e = absurd a
clean_shows (pos n) none d f a e = refl
clean_shows (pos n) (some b) true f a e = absurd (cc)
clean_shows (pos n) (some b) false f a e = sym a

dirty_buffer :
    (r : ℤ) (o : Option Bytes) (d : Bool) (f : Bytes)
    → Agrees r o d f
    → d ≡ true
    → (b : Bytes) × (o ≡ some b)
dirty_buffer (negsuc n) o d f a e = absurd a
dirty_buffer (pos n) none d f a e = absurd (cc (a.1))
dirty_buffer (pos n) (some b) d f a e = (b, refl)

written-Agrees :
    (r : ℤ) (o : Option Bytes) (b f g : Bytes)
    → o ≡ some b
    → Agrees r o true f
    → g ≡ b
    → Agrees r o false g
written-Agrees (negsuc n) o b f g e a h = absurd a
written-Agrees (pos n) none b f g e a h = absurd (cc)
written-Agrees (pos n) (some c) b f g e a h = let same : c ≡ b = cc in same ∙ sym h

some_shown : (o : Option Bytes) (b f : Bytes) → o ≡ some b → (elim o [ none ↦ f | some x ↦ x ]) ≡ b
some_shown o b f e = rw e

clean-Flushed :
    (p : Pager) (id : ℕ) → Inv p → has id p.keys ≡ true → (p.page id).dirty ≡ false → Flushed p id p
clean-Flushed p id i h d = record {
  inv = i;
  keys = refl;
  shows = λ k. refl;
  file = λ k. elim (Bool-cases (k == id)) [
    | inl same ↦
        let k-id : k ≡ id = (==_iff k id).0 same in
        rw (k-id, ==_refl id) (clean_shows _ _ _ (p.file id) (i.pages id h).agrees d)
    | inr other ↦ rw other refl
  ];
  rest = record { users = λ k. refl; objects = λ k z. refl; max_pages = refl; still = λ k c. c };
  clean = d;
}

module _ (p : Pager) (id : ℕ) (b : Bytes) (i : Inv p) (h : has id p.keys ≡ true)
    (d : (p.page id).dirty ≡ true) (e : (p.page id).buf ≡ some b) where
  here : file_page id ≡ id
  here = file_page-id id (i.pages id h).small

  written_here : (page_written p id b).file id ≡ b
  written_here = rw (here, ==_refl id) refl

  written-Changed : Changed p id (page_written p id b)
  written-Changed =
      let s = i.pages id h in
      let dirty_agrees : Agrees (p.page id).ref_count (p.page id).buf true (p.file id) =
        subst (λ x. Agrees (p.page id).ref_count (p.page id).buf x (p.file id)) d s.agrees in
      record {
        keys = refl;
        max_pages = refl;
        lazy_mode = refl;
        page = λ k ne. let z : (k == id) ≡ false = ground arith in rw z;
        file = λ k ne. let z : (k == id) ≡ false = ground arith in rw (here, z) refl;
        size = ground arith;
        whole = λ w. ground (arith, w);
        weak_once = i.weak_once;
        weak = λ k ne. refl;
        weak_self = rw (==_refl id) (i.weak id ∙ rw h refl);
        bounded = i.bounded;
        cached = rw (==_refl id) refl;
        sound = record {
          small = s.small;
          room = ground (arith, s.room);
          agrees = rw (==_refl id) (written-Agrees _ _ b (p.file id) _ e dirty_agrees written_here);
        };
      }

  written-Flushed : Flushed p id (page_written p id b)
  written-Flushed = record {
    inv = Changed-Inv {p = p} i h written-Changed;
    keys = refl;
    shows = λ k. elim (Bool-cases (k == id)) [
      | inl same ↦
          let k-id : k ≡ id = (==_iff k id).0 same in
          rw (k-id, ==_refl id) (some_shown _ b _ e ∙ sym (some_shown _ b _ e))
      | inr other ↦ rw (here, other) refl
    ];
    file = λ k. elim (Bool-cases (k == id)) [
      | inl same ↦ rw (here, same) (sym (some_shown _ b _ e))
      | inr other ↦ rw (here, other) refl
    ];
    rest = record {
      users = λ k. elim (Bool-cases (k == id)) [
        | inl same ↦ let k-id : k ≡ id = (==_iff k id).0 same in rw (k-id, ==_refl id) refl
        | inr other ↦ rw other refl
      ];
      objects = λ k z. elim (Bool-cases (k == id)) [
        | inl same ↦ absurd (cc (ap (λ x. has x p.keys) ((==_iff k id).0 same), h, z))
        | inr other ↦ rw other refl
      ];
      max_pages = refl;
      still =
          λ k c. elim (Bool-cases (k == id)) [ inl same ↦ rw same refl | inr other ↦ rw other c ];
    };
    clean = rw (==_refl id) refl;
  }

write_back_if_dirty-Flushed :
    (p : Pager) (id : ℕ)
    → Inv p
    → has id p.keys ≡ true
    → (q : Pager) × (write_back_if_dirty p id ≡ ok q) × Flushed p id q
unfolding write_back_if_dirty
write_back_if_dirty-Flushed p id i h = elim (Bool-cases (p.page id).dirty) [
  | inl d ↦
      let (b, e) = dirty_buffer _ _ _ _ (i.pages id h).agrees d in
      (
        page_written p id b,
        if_true (p.page id).dirty (write_back p id) (ok p) d ∙ write_back-ok p id b e,
        written-Flushed p id b i h d e,
      )
  | inr d ↦ (p, if_false (p.page id).dirty (write_back p id) (ok p) d, clean-Flushed p id i h d)
]

write_back_pages-file :
    (ids : List ℕ) (p : Pager)
    → Inv p
    → ((k : ℕ) → has k ids ≡ true → has k p.keys ≡ true)
    → (q : Pager) × (write_back_pages ids p ≡ ok q)
      × Inv q
      × (q.keys ≡ p.keys)
      × ((k : ℕ) → view q k ≡ view p k)
      × ((k : ℕ) → q.file k ≡ (if has k ids then view p k else p.file k))
      × Unwritten p q
      × ((k : ℕ) → has k ids ≡ true → (q.page k).dirty ≡ false)
unfolding write_back_pages has
write_back_pages-file [] p i known = (
  p,
  refl,
  i,
  refl,
  λ k. refl,
  λ k. refl,
  record { users = λ k. refl; objects = λ k z. refl; max_pages = refl; still = λ k c. c },
  λ k h. absurd (cc),
)
write_back_pages-file (id ∷ ids) p i known =
    let (q, step, f) = write_back_if_dirty-Flushed p id i (known id (rw (==_refl id) refl)) in
    let (r, runs, inv, keys, shows, file, rest, clean) =
      write_back_pages-file ids q f.inv (λ k h. rw f.keys (known k (ground (arith, h)))) in
    (
      r,
      rw step runs,
      inv,
      keys ∙ f.keys,
      λ k. shows k ∙ f.shows k,
      λ k. file k ∙ elim (Bool-cases (has k ids)) [
        | inl later ↦ rw later (
            f.shows k
            ∙ elim (Bool-cases (id == k)) [ inl now ↦ rw now refl | inr other ↦ rw other refl ])
        | inr never ↦ rw never (
            f.file k ∙ elim (Bool-cases (k == id)) [
              | inl now ↦ let k-id : k ≡ id = (==_iff k id).0 now in rw (k-id, ==_refl id) refl
              | inr other ↦ let z : (id == k) ≡ false = ground arith in rw (other, z) refl
            ])
      ],
      record {
        users = λ k. rest.users k ∙ f.rest.users k;
        objects = λ k z.
            rest.objects k (subst (λ ks. has k ks ≡ false) (sym f.keys) z) ∙ f.rest.objects k z;
        max_pages = rest.max_pages ∙ f.rest.max_pages;
        still = λ k c. rest.still k (f.rest.still k c);
      },
      λ k h. elim (Bool-cases (id == k)) [
        | inl now ↦
            rest.still k (subst (λ x. (q.page x).dirty ≡ false) ((==_iff id k).0 now) f.clean)
        | inr other ↦ clean k (ground (arith, h, other))
      ],
    )

pub write_back_all-Unwritten :
    (p : Pager)
    → Inv p
    → (q : Pager) × (write_back_all p ≡ ok q)
      × Inv q
      × (q.keys ≡ p.keys)
      × ((j : ℕ) → view q j ≡ view p j)
      × Unwritten p q
      × ((k : ℕ) → has k q.keys ≡ true → (q.page k).dirty ≡ false)
      × ((k : ℕ) → has k q.keys ≡ true → q.file k ≡ view q k)
unfolding write_back_all
write_back_all-Unwritten p i =
    let (q, runs, inv, keys, shows, file, rest, clean) =
      write_back_pages-file p.keys p i (λ j known. known) in
    (
      q,
      runs,
      inv,
      keys,
      shows,
      rest,
      λ k h. clean k (subst (λ ks. has k ks ≡ true) keys h),
      λ k h.
          file k
          ∙ if_true (has k p.keys) (view p k) (p.file k) (subst (λ ks. has k ks ≡ true) keys h)
          ∙ sym (shows k),
    )

-- In lazy mode, `writeBackAll` returns: the invariant holds, every page shows what it showed, and
-- the file holds what each known page shows.
pub write_back_all-file :
    (p : Pager) (k : ℕ)
    → Inv p
    → has k p.keys ≡ true
    → (q : Pager) × (write_back_all p ≡ ok q)
      × Inv q
      × ((j : ℕ) → view q j ≡ view p j)
      × (q.file k ≡ view p k)
unfolding write_back_all
write_back_all-file p k i h =
    let (q, runs, inv, keys, shows, file, rest, clean) =
      write_back_pages-file p.keys p i (λ j known. known) in
    (q, runs, inv, shows, file k ∙ if_true (has k p.keys) (view p k) (p.file k) h)
