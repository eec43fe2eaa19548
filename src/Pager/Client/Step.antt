-- ===== src/Pager/Client/Step.antt =====
-- One allowed call on a pager that stands for an array of pages.
use tinydbpp.Base.{
  ℕ, zero, suc, ◌-◌, ◌<◌, ◌≡◌, refl, ◌∙◌, subst, ap, List, [], ◌∷◌, ◌++◌, Bool, true, false, not,
  Option, ◌&&◌, ◌||◌, ltb, ◌==◌, ==_refl, ==_iff, if◌then◌else◌, arith, Bool-cases, inl, inr, ok,
  none, some,
}
use tinydbpp.Base.Bytes.{Bytes}
use tinydbpp.Pager.{
  Pager, ℤ, pos, negsuc, inc, dec, is_zero, has, new_page, granted, get_page, modify,
}
use tinydbpp.Pager.Keys.{has-snoc, count}
use tinydbpp.Pager.Evict.{shown, view, max_id}
use tinydbpp.Pager.Invariant.{is_idle, cached_at, Agrees, Inv}
use tinydbpp.Pager.GetBuf.{HasRoom, BelowMax, get_buf-Hit}
use tinydbpp.Pager.Release.{in_use, release_buf-Released, modify-Inv}
use tinydbpp.Pager.GetPage.{get_page-Inv}
use tinydbpp.Pager.Flush.{write_back_all-Unwritten}
use tinydbpp.Pager.Client.{
  Call, page_of, buffer_of, release_of, change_of, flush, step, Array, is_held, effect, allowed,
}

-- The pager has the pages, users and bytes of the array, and a page without an object is as new.
pub record StandsFor (max : ℕ) (p : Pager) (a : Array) : Type 0 where
  pub inv : Inv p
  pub max_pages : p.max_pages ≡ max
  pub known : p.keys ≡ a.known
  pub held : (k : ℕ) → (p.page k).ref_count ≡ pos (a.held k)
  pub bytes : (k : ℕ) → view p k ≡ a.bytes k
  pub objects : (k : ℕ) → has k p.keys ≡ false → p.page k ≡ new_page

-- If fewer keys pass the second test, there is a key that passes only the first.
only_first :
    (t u : ℕ → Bool) (xs : List ℕ)
    → count u xs < count t xs
    → (k : ℕ) × (has k xs ≡ true) × (t k ≡ true) × (u k ≡ false)
unfolding count has
only_first t u [] h = absurd (omega arith)
only_first t u (x ∷ xs) h = elim (Bool-cases (t x && not (u x))) [
  | inl e ↦ (x, rw (==_refl x) refl, ground (arith, e), ground (arith, e))
  | inr e ↦
      let (k, here, has_it, not_it) = only_first t u xs (ground (arith, e, h)) in
      (k, ground (arith, here), has_it, not_it)
]

has_none : (k : ℕ) (ws : List ℕ) → has k ws ≡ true → ws ≡ [] → ⊥
unfolding has
has_none k ws h e = absurd (cc (ap (has k) e, h))

held_buffer :
    (r : ℤ) (o : Option Bytes) (d : Bool) (f : Bytes) (n : ℕ)
    → Agrees r o d f
    → r ≡ pos n
    → 0 < n
    → (elim o [ none ↦ false | some b ↦ true ]) ≡ true
held_buffer (negsuc m) o d f n g e h = absurd g
held_buffer (pos m) none d f n g e h = absurd (ground (arith, g.0, ap users e))
  where
    users : ℤ → ℕ
    users (pos n) = n
    users (negsuc n) = 0
held_buffer (pos m) (some b) d f n g e h = refl

shown_some :
    (o : Option Bytes) (f b : Bytes)
    → (elim o [ none ↦ false | some c ↦ true ]) ≡ true
    → (elim o [ none ↦ f | some c ↦ c ]) ≡ b
    → o ≡ some b
shown_some none f b c e = absurd (cc)
shown_some (some x) f b c e = ap some e

dec_pos : (n : ℕ) → 0 < n → dec (pos n) ≡ pos (n - 1)
dec_pos zero h = absurd (omega arith)
dec_pos (suc n) h = ap pos (omega arith)

inc_pos : (n : ℕ) → n < 2147483647 → inc (pos n) ≡ pos (suc n)
inc_pos n h = let other : (n == 2147483647) ≡ false = ground arith in rw other refl

below_max : (r : ℤ) (n : ℕ) → r ≡ pos n → n < 2147483647 → BelowMax r
below_max r n e h = rw e h

other_key : (k id : ℕ) (ks : List ℕ) → has id ks ≡ true → has k ks ≡ false → (k == id) ≡ false
other_key k id ks h z = elim (Bool-cases (k == id)) [
  | inl same ↦ absurd (cc (ap (λ x. has x ks) ((==_iff k id).0 same), h, z))
  | inr ne ↦ ne
]

module _ {max : ℕ} {p : Pager} {a : Array} (s : StandsFor max p a) where
  zero_held : (k : ℕ) → is_zero (p.page k).ref_count ≡ (a.held k == 0)
  zero_held k = ap is_zero (s.held k)

  in_use_held : (k : ℕ) → in_use (p.page k) ≡ is_held a k
  in_use_held k = rw (s.held k) (ground arith)

  -- The buffer of a held page has the bytes of the array.
  pub buffer_bytes :
      (k : ℕ) → has k a.known ≡ true → 0 < a.held k → (p.page k).buf ≡ some (a.bytes k)
  buffer_bytes k known mine =
      let h : has k p.keys ≡ true = rw s.known known in
      shown_some (p.page k).buf (p.file k) (a.bytes k)
        (held_buffer _ _ _ _ (a.held k) (s.inv.pages k h).agrees (s.held k) mine) (s.bytes k)

  -- While fewer than the maximum of pages are held, a buffer can be had.
  held_room :
      (id : ℕ)
      → has id p.keys ≡ true
      → (is_held a id || ltb (count (is_held a) a.known) max) ≡ true
      → HasRoom p id
  held_room id h e = elim (Bool-cases (is_held a id)) [
    | inl mine ↦ inl (
        held_buffer _ _ _ _ (a.held id) (s.inv.pages id h).agrees (s.held id)
          (ground (arith, mine)))
    | inr other ↦ elim (Bool-cases (ltb p.pages_cached p.max_pages)) [
      | inl left ↦ inr (inl (ground (arith, left)))
      | inr full ↦
          let fewer : count (is_held a) p.keys < count (cached_at p) p.keys =
            ground (arith, e, other, full, s.inv.counted, s.max_pages, s.known) in
          let (k, here, has_it, not_it) = only_first (cached_at p) (is_held a) p.keys fewer in
          let zero : is_zero (p.page k).ref_count ≡ true =
            rw (zero_held k) (ground (arith, not_it)) in
          inr (inr (has_none k p.weak_pages (s.inv.weak k ∙ rw (here, has_it, zero) refl)))
    ]
  ]

  -- What a call on the pager must come to.
  abbrev Steps : Call → Type 0
  Steps c = (q : Pager) × (step p c ≡ ok (granted q)) × StandsFor max q (effect a c)

  fresh_keys : (id : ℕ) → has id p.keys ≡ false → (get_page p id).keys ≡ p.keys ++ id ∷ []
  unfolding get_page
  fresh_keys id fresh = rw fresh refl

  fresh_page :
      (id : ℕ)
      → Inv (get_page p id)
      → has id p.keys ≡ false
      → StandsFor max (get_page p id) (effect a (page_of id))
  unfolding effect get_page
  fresh_page id inv fresh =
      let fresh' : has id a.known ≡ false = subst (λ ks. has id ks ≡ false) s.known fresh in
      let shows_file : p.file id ≡ a.bytes id =
        subst (λ o. shown o (p.file id) ≡ a.bytes id) (s.objects id fresh) (s.bytes id) in
      record {
        inv = inv;
        max_pages = rw fresh s.max_pages;
        known = rw (fresh, fresh') (ap (λ ks. ks ++ id ∷ []) s.known);
        held = λ k.
            rw (fresh, fresh')
              (elim (Bool-cases (k == id)) [ inl same ↦ rw same refl | inr ne ↦ rw ne (s.held k) ]);
        bytes = λ k.
            rw (fresh, fresh')
              (elim (Bool-cases (k == id)) [
                | inl same ↦
                    let k-id : k ≡ id = (==_iff k id).0 same in rw (k-id, ==_refl id) shows_file
                | inr ne ↦ rw ne (s.bytes k)
              ]);
        objects = λ k z.
            let z' : has k (p.keys ++ id ∷ []) ≡ false =
              subst (λ ks. has k ks ≡ false) (fresh_keys id fresh) z in
            rw fresh (elim (Bool-cases (k == id)) [
              | inl same ↦ rw same refl
              | inr ne ↦ rw ne (s.objects k (ground (arith, has-snoc k id p.keys, z')))
            ]);
      }

  page_of-Steps : (id : ℕ) → id < max_id → Steps (page_of id)
  unfolding step effect get_page
  page_of-Steps id small =
      let (inv, there) = get_page-Inv p id s.inv small in
      elim (Bool-cases (has id p.keys)) [
        | inl old ↦
            let old' : has id a.known ≡ true = subst (λ ks. has id ks ≡ true) s.known old in
            (p, rw old refl, rw old' s)
        | inr fresh ↦ (get_page p id, refl, fresh_page id inv fresh)
      ]

  buffer_of-Steps :
      (id : ℕ)
      → has id a.known ≡ true
      → a.held id < 2147483647
      → (is_held a id || ltb (count (is_held a) a.known) max) ≡ true
      → Steps (buffer_of id)
  unfolding step effect
  buffer_of-Steps id known few free =
      let h : has id p.keys ≡ true = rw s.known known in
      let (q, runs, got) =
        get_buf-Hit p id s.inv h (held_room id h free)
          (below_max (p.page id).ref_count (a.held id) (s.held id) few) in
      (
        q,
        runs,
        record {
          inv = got.inv;
          max_pages = got.max_pages ∙ s.max_pages;
          known = got.keys ∙ s.known;
          held = λ k. elim (Bool-cases (k == id)) [
            | inl same ↦
                let k-id : k ≡ id = (==_iff k id).0 same in
                rw (k-id, ==_refl id) (got.users ∙ ap inc (s.held id) ∙ inc_pos (a.held id) few)
            | inr ne ↦ rw ne (got.others_users k (ground arith) ∙ s.held k)
          ];
          bytes = λ k. got.shows k ∙ s.bytes k;
          objects = λ k z.
              let z' : has k p.keys ≡ false = subst (λ ks. has k ks ≡ false) got.keys z in
              let busy : is_idle (p.page k) ≡ false = rw (s.objects k z') refl in
              let ne : (k == id) ≡ false = other_key k id p.keys h z' in
              got.others k (ground arith) busy ∙ s.objects k z';
        },
      )

  release_of-Steps : (id : ℕ) → has id a.known ≡ true → is_held a id ≡ true → Steps (release_of id)
  unfolding step effect
  release_of-Steps id known mine =
      let h : has id p.keys ≡ true = rw s.known known in
      let (q, runs, r) = release_buf-Released p id s.inv h (in_use_held id ∙ mine) in
      (
        q,
        rw runs refl,
        record {
          inv = r.inv;
          max_pages = r.max_pages ∙ s.max_pages;
          known = r.keys ∙ s.known;
          held = λ k. elim (Bool-cases (k == id)) [
            | inl same ↦
                let k-id : k ≡ id = (==_iff k id).0 same in
                rw (r.page k, k-id, ==_refl id, s.held id)
                  (dec_pos (a.held id) (ground (arith, mine)))
            | inr ne ↦ rw (r.page k, ne) (s.held k)
          ];
          bytes = λ k. r.shows k ∙ s.bytes k;
          objects = λ k z.
              let z' : has k p.keys ≡ false = subst (λ ks. has k ks ≡ false) r.keys z in
              let ne : (k == id) ≡ false = other_key k id p.keys h z' in
              r.page k ∙ rw ne (s.objects k z');
        },
      )

  change_of-Steps :
      (id : ℕ) (b : Bytes) → has id a.known ≡ true → is_held a id ≡ true → Steps (change_of id b)
  unfolding step effect modify
  change_of-Steps id b known mine =
      let h : has id p.keys ≡ true = rw s.known known in
      let (inv, shows) = modify-Inv p id b s.inv h (in_use_held id ∙ mine) in
      (
        modify p id b,
        refl,
        record {
          inv = inv;
          max_pages = s.max_pages;
          known = s.known;
          held = λ k. elim (Bool-cases (k == id)) [
            | inl same ↦
                let k-id : k ≡ id = (==_iff k id).0 same in rw (k-id, ==_refl id) (s.held id)
            | inr ne ↦ rw ne (s.held k)
          ];
          bytes = λ k. shows k ∙ ap (λ v. if k == id then b else v) (s.bytes k);
          objects = λ k z.
              let ne : (k == id) ≡ false = other_key k id p.keys h z in rw ne (s.objects k z);
        },
      )

  flush-Steps : Steps flush
  unfolding step effect
  flush-Steps =
      let (q, runs, inv, keys, shows, rest, clean, file) = write_back_all-Unwritten p s.inv in
      (
        q,
        rw runs refl,
        record {
          inv = inv;
          max_pages = rest.max_pages ∙ s.max_pages;
          known = keys ∙ s.known;
          held = λ k. rest.users k ∙ s.held k;
          bytes = λ k. shows k ∙ s.bytes k;
          objects = λ k z.
              let z' : has k p.keys ≡ false = subst (λ ks. has k ks ≡ false) keys z in
              rest.objects k z' ∙ s.objects k z';
        },
      )

-- An allowed call returns, and the pager then stands for the array after the call.
pub step-StandsFor :
    (max : ℕ) (p : Pager) (a : Array) (c : Call)
    → StandsFor max p a
    → allowed max a c ≡ true
    → (q : Pager) × (step p c ≡ ok (granted q)) × StandsFor max q (effect a c)
unfolding allowed
step-StandsFor max p a (page_of id) s h = page_of-Steps s id (ground (arith, h))
step-StandsFor max p a (buffer_of id) s h =
    buffer_of-Steps s id (ground (arith, h)) (ground (arith, h)) (ground (arith, h))
step-StandsFor max p a (release_of id) s h =
    release_of-Steps s id (ground (arith, h)) (ground (arith, h))
step-StandsFor max p a (change_of id b) s h =
    change_of-Steps s id b (ground (arith, h)) (ground (arith, h))
step-StandsFor max p a flush s h = flush-Steps s
