-- ===== src/Pager/Release.antt =====
-- `releaseBuf` in lazy mode, and changes to the bytes of a buffer in use.
use tinydbpp.Base.{
  ℕ, zero, suc, ◌≡◌, ◌≢◌, refl, sym, ◌∙◌, ap, List, [], ◌∷◌, ◌++◌, Bool, true, false, not, ◌&&◌,
  Option, none, some, ◌==◌, ==_refl, ==_iff, if◌then◌else◌, arith, Bool-cases, inl, inr, ok,
}
use tinydbpp.Base.Bytes.{Bytes}
use tinydbpp.Pager.{Pager, Page, ℤ, pos, negsuc, is_zero, is_nonneg, has, dec, release_buf, modify}
use tinydbpp.Pager.Keys.{Distinct, has-snoc, Distinct-snoc}
use tinydbpp.Pager.Evict.{view}
use tinydbpp.Pager.Invariant.{Agrees, Inv}
use tinydbpp.Pager.Change.{Changed-Inv}
use tinydbpp.Pager.Buffers.{cached_here, recount, recount-Inv}

-- What `releaseBuf` leaves: the page has its buffer still, and a user less; all other pages are as they were.
pub record Released (p : Pager) (id : ℕ) (q : Pager) : Type 0 where
  pub inv : Inv q
  pub keys : q.keys ≡ p.keys
  pub max_pages : q.max_pages ≡ p.max_pages
  pub page :
      (k : ℕ)
      → q.page k ≡ (
          if k == id
          then record (p.page id) { ref_count = dec (p.page id).ref_count }
          else p.page k)
  pub shows : (k : ℕ) → view q k ≡ view p k
  pub weak : has id q.weak_pages ≡ is_zero (dec (p.page id).ref_count)

abbrev pub in_use : Page → Bool
in_use o = is_nonneg o.ref_count && not (is_zero o.ref_count)

used_buffer :
    (r : ℤ) (o : Option Bytes) (d : Bool) (f : Bytes)
    → Agrees r o d f
    → (is_nonneg r && not (is_zero r)) ≡ true
    → (b : Bytes) × (o ≡ some b)
used_buffer (negsuc n) o d f a u = absurd a
used_buffer (pos n) none d f a u = absurd (cc (ap is_zero (ap pos a.0), u))
used_buffer (pos n) (some b) d f a u = (b, refl)

nonneg_dec : (r : ℤ) → (is_nonneg r && not (is_zero r)) ≡ true → is_nonneg (dec r) ≡ true
nonneg_dec (pos zero) u = absurd (cc)
nonneg_dec (pos (suc n)) u = refl
nonneg_dec (negsuc n) u = absurd (cc)

not_zero : (r : ℤ) → (is_nonneg r && not (is_zero r)) ≡ true → is_zero r ≡ false
not_zero (pos n) u = ground arith
not_zero (negsuc n) u = refl

module _ (p : Pager) (id : ℕ) (b : Bytes) (i : Inv p) (h : has id p.keys ≡ true)
    (e : (p.page id).buf ≡ some b) (u : in_use (p.page id) ≡ true) where
  recount-Released :
      (ws : List ℕ)
      → Distinct ws
      → ((k : ℕ) → k ≢ id → has k ws ≡ has k p.weak_pages)
      → has id ws ≡ is_zero (dec (p.page id).ref_count)
      → Released p id (recount p id p.perf_mon (dec (p.page id).ref_count) ws)
  recount-Released ws once others self = record {
    inv = recount-Inv p id b i h e _ _ ws (nonneg_dec (p.page id).ref_count u) once others self;
    keys = refl;
    max_pages = refl;
    page = λ k. refl;
    shows = λ k. elim (Bool-cases (k == id)) [
      | inl same ↦ let k-id : k ≡ id = (==_iff k id).0 same in rw (k-id, ==_refl id) refl
      | inr other ↦ rw other refl
    ];
    weak = self;
  }

  not_weak : has id p.weak_pages ≡ false
  not_weak = i.weak id ∙ rw (h, cached_here p id b i h e, not_zero _ u) refl

  release_buf-in_use :
      is_zero (dec (p.page id).ref_count) ≡ false
      → release_buf p id ≡ ok (recount p id p.perf_mon (dec (p.page id).ref_count) p.weak_pages)
  unfolding release_buf
  release_buf-in_use z = rw z refl

  release_buf-last :
      is_zero (dec (p.page id).ref_count) ≡ true
      → release_buf p id
        ≡ ok (recount p id p.perf_mon (dec (p.page id).ref_count) (p.weak_pages ++ id ∷ []))
  unfolding release_buf
  release_buf-last z = rw (z, i.lazy) refl

  release_buf-buffered : (q : Pager) × (release_buf p id ≡ ok q) × Released p id q
  release_buf-buffered = elim (Bool-cases (is_zero (dec (p.page id).ref_count))) [
    | inl z ↦ (
      recount p id p.perf_mon (dec (p.page id).ref_count) (p.weak_pages ++ id ∷ []),
      release_buf-last z,
      recount-Released (p.weak_pages ++ id ∷ [])
          (Distinct-snoc id p.weak_pages i.weak_once not_weak)
          (λ k ne.
            let z : (id == k) ≡ false = ground arith in ground (arith, has-snoc k id p.weak_pages))
          (has-snoc id id p.weak_pages ∙ rw (not_weak, ==_refl id, z) refl),
    )
    | inr z ↦ (
      recount p id p.perf_mon (dec (p.page id).ref_count) p.weak_pages,
      release_buf-in_use z,
      recount-Released p.weak_pages i.weak_once (λ k ne. refl) (not_weak ∙ sym z),
    )
  ]

pub release_buf-Released :
    (p : Pager) (id : ℕ)
    → Inv p
    → has id p.keys ≡ true
    → in_use (p.page id) ≡ true
    → (q : Pager) × (release_buf p id ≡ ok q) × Released p id q
release_buf-Released p id i h u =
    let (b, e) = used_buffer _ _ _ _ (i.pages id h).agrees u in release_buf-buffered p id b i h e u

dirty-Agrees : (r : ℤ) (b f : Bytes) → is_nonneg r ≡ true → Agrees r (some b) true f
dirty-Agrees (pos n) b f u = tt
dirty-Agrees (negsuc n) b f u = absurd (cc)

-- A change of the bytes of a buffer in use, with `markDirty`, keeps the invariant; the page shows
-- the new bytes and every other page what it showed.
pub modify-Inv :
    (p : Pager) (id : ℕ) (b : Bytes)
    → Inv p
    → has id p.keys ≡ true
    → in_use (p.page id) ≡ true
    → Inv (modify p id b) × ((k : ℕ) → view (modify p id b) k ≡ (if k == id then b else view p k))
unfolding modify
modify-Inv p id b i h u =
    let (c, e) = used_buffer _ _ _ _ (i.pages id h).agrees u in
    let nonneg : is_nonneg (p.page id).ref_count ≡ true = ground arith in
    let here = cached_here p id c i h e in
    (
      Changed-Inv {p = p} i h record {
        keys = refl;
        max_pages = refl;
        lazy_mode = refl;
        page = λ k ne. let z : (k == id) ≡ false = ground arith in rw z;
        file = λ k ne. refl;
        size = omega arith;
        whole = λ w. w;
        weak_once = i.weak_once;
        weak = λ k ne. refl;
        weak_self = rw (==_refl id) (i.weak id ∙ rw (h, here) refl);
        bounded = i.bounded;
        cached = rw (==_refl id) (rw here refl);
        sound = record {
          small = (i.pages id h).small;
          room = (i.pages id h).room;
          agrees = rw (==_refl id) (dirty-Agrees _ b _ nonneg);
        };
      },
      λ k. elim (Bool-cases (k == id)) [ inl same ↦ rw same refl | inr other ↦ rw other refl ],
    )
