-- ===== src/Directory/PageZero.antt =====
-- The first page of a new pager: what is read of it, and what a change leaves in the file.
use tinydbpp.Base.{
  ℕ, ◌<◌, ◌%◌, ◌≡◌, refl, ap, some, ◌==◌, arith, Bool-cases, inl, inr, Outcome, ok, assert_failed,
  undefined, out_of_fuel, ◌>>=◌, elim_some,
}
use tinydbpp.Base.Bytes.{Bytes}
use tinydbpp.Pager.{Pager, has, granted, get_page, get_buf, release_buf, modify, write_back_all}
use tinydbpp.Pager.Keys.{count}
use tinydbpp.Pager.Client.{page_of, buffer_of, release_of, change_of, step, Array, effect, allowed}
use tinydbpp.Pager.Client.Step.{StandsFor, step-StandsFor, buffer_bytes}
use tinydbpp.Pager.Lifetime.{opened_array, closed, destroy_pager}
use tinydbpp.Directory.{page_zero}

granted_ok :
    (m : Outcome Pager) (r : Pager) → (m >>= λ x. ok (granted x)) ≡ ok (granted r) → m ≡ ok r
granted_ok (ok q) r e = let same : q ≡ r = cc (e) in ap ok same
granted_ok assert_failed r e = absurd (cc)
granted_ok undefined r e = absurd (cc)
granted_ok out_of_fuel r e = absurd (cc)

page_zero_by :
    (p p' q : Pager) (b : Bytes)
    → ok (granted (get_page p 0)) ≡ ok (granted p')
    → get_buf p' 0 ≡ ok (granted q)
    → (q.page 0).buf ≡ some b
    → page_zero p ≡ ok (q, b)
unfolding page_zero
page_zero_by p p' q b gets holds buffer =
    let same : get_page p 0 ≡ p' = cc (gets) in
    rw (same, holds) (elim_some (λ c. ok (q, c)) undefined (q.page 0).buf b buffer)

-- The array once page 0 is held.
abbrev pub held_zero : (ℕ → Bytes) → Array
held_zero file = effect (effect (opened_array file) (page_of 0)) (buffer_of 0)

-- The array once page 0 has been changed and released.
abbrev pub changed_zero : (ℕ → Bytes) → Bytes → Array
changed_zero file b = effect (effect (held_zero file) (change_of 0 b)) (release_of 0)

released :
    (q q' r : Pager) (b : Bytes)
    → ok (granted (modify q 0 b)) ≡ ok (granted q')
    → (release_buf q' 0 >>= λ x. ok (granted x)) ≡ ok (granted r)
    → release_buf (modify q 0 b) 0 ≡ ok r
released q q' r b changes releases =
    let same : modify q 0 b ≡ q' = cc (changes) in
    rw same (granted_ok (release_buf q' 0) r releases)

module _ (max : ℕ) (p : Pager) (file : ℕ → Bytes) (s : StandsFor max p (opened_array file))
    (room : 0 < max) where
  pub page_zero-StandsFor :
      (q : Pager) × (page_zero p ≡ ok (q, file 0)) × StandsFor max q (held_zero file)
  unfolding page_zero effect has step allowed count
  page_zero-StandsFor =
      let (p', gets, t) = step-StandsFor max p _ (page_of 0) s refl in
      let (q, holds, u) = step-StandsFor max p' _ (buffer_of 0) t (ground arith) in
      (q, page_zero_by p p' q (file 0) gets holds (buffer_bytes u 0 refl (omega arith)), u)

  pub change_zero-StandsFor :
      (b : Bytes)
      → (q r : Pager) × (page_zero p ≡ ok (q, file 0))
        × (release_buf (modify q 0 b) 0 ≡ ok r)
        × StandsFor max r (changed_zero file b)
  unfolding effect has step allowed count
  change_zero-StandsFor b =
      let (q, starts, t) = page_zero-StandsFor in
      let (q', changes, u) = step-StandsFor max q _ (change_of 0 b) t refl in
      let (r, releases, v) = step-StandsFor max q' _ (release_of 0) u refl in
      (q, r, starts, released q q' r b changes releases, v)

  -- The page is changed, the pager is written back and destroyed, and the file has the new bytes.
  pub change_zero-closed :
      (b : Bytes)
      → (q r u : Pager) × (page_zero p ≡ ok (q, file 0))
        × (release_buf (modify q 0 b) 0 ≡ ok r)
        × (write_back_all r ≡ ok u)
        × (destroy_pager u ≡ ok (u.file_size, u.file))
        × (u.file_size % 4096 ≡ 0)
        × (u.file 0 ≡ b)
  unfolding effect has
  change_zero-closed b =
      let (q, r, starts, releases, t) = change_zero-StandsFor b in
      let (u, flushes, ends, whole, shows) = closed max r (changed_zero file b) t none_held in
      (q, r, u, starts, releases, flushes, ends, whole, shows 0)
    where
      none_held : (k : ℕ) → (changed_zero file b).held k ≡ 0
      none_held k = elim (Bool-cases (k == 0)) [
        | inl zero_ ↦ rw zero_ refl
        | inr other ↦ rw other refl
      ]

  -- The page is read, and released.
  pub read_zero : (q r : Pager) × (page_zero p ≡ ok (q, file 0)) × (release_buf q 0 ≡ ok r)
  unfolding effect has step allowed count
  read_zero =
      let (q, starts, t) = page_zero-StandsFor in
      let (r, releases, v) = step-StandsFor max q _ (release_of 0) t refl in
      (q, r, starts, granted_ok (release_buf q 0) r releases)
