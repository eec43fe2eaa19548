-- ===== src/Pager/Keys.antt =====
-- Lists of page numbers without repetitions, and counts over them.
use tinydbpp.Base.{
  ℕ, ◌+◌, ◌≡◌, ◌≢◌, refl, List, [], ◌∷◌, ◌++◌, Bool, true, false, not, ◌&&◌, ◌||◌, ◌==◌, ==_iff,
  if◌then◌else◌, arith, Bool-cases, inl, inr,
}
use tinydbpp.Pager.{has, erase}

abbrev pub Distinct : List ℕ → Type 0
Distinct [] = Unit {0}
Distinct (x ∷ xs) = (has x xs ≡ false) × Distinct xs

pub has-erase :
    (k j : ℕ) (xs : List ℕ) → Distinct xs → has j (erase k xs) ≡ (has j xs && not (k == j))
unfolding has erase
has-erase k j [] d = refl
has-erase k j (x ∷ xs) d = elim (Bool-cases (x == k)) [
  | inl e ↦ let same : x ≡ k = (==_iff x k).0 e in ground (arith, d.0)
  | inr e ↦ ground (arith, has-erase k j xs d.1)
]

pub Distinct-erase : (k : ℕ) (xs : List ℕ) → Distinct xs → Distinct (erase k xs)
unfolding erase
Distinct-erase k [] d = tt
Distinct-erase k (x ∷ xs) d = ground (arith, Distinct-erase k xs d.1, has-erase k x xs d.1)

pub has-snoc : (j k : ℕ) (xs : List ℕ) → has j (xs ++ k ∷ []) ≡ (has j xs || (k == j))
unfolding has
has-snoc j k [] = ground arith
has-snoc j k (x ∷ xs) = ground (arith, has-snoc j k xs)

pub Distinct-snoc : (k : ℕ) (xs : List ℕ) → Distinct xs → has k xs ≡ false → Distinct (xs ++ k ∷ [])
unfolding has
Distinct-snoc k [] d h = (refl, tt)
Distinct-snoc k (x ∷ xs) d h = ground (arith, Distinct-snoc k xs d.1, has-snoc x k xs)

-- How many of the keys pass the test.
unfoldable pub count : (ℕ → Bool) → List ℕ → ℕ
count t [] = 0
count t (x ∷ xs) = (if t x then 1 else 0) + count t xs

pub count_same :
    (t u : ℕ → Bool) (k : ℕ) (xs : List ℕ)
    → has k xs ≡ false
    → ((j : ℕ) → j ≢ k → t j ≡ u j)
    → count t xs ≡ count u xs
unfolding count has
count_same t u k [] h e = refl
count_same t u k (x ∷ xs) h e =
    let ne : x ≢ k = ground arith in rw (e x ne, count_same t u k xs (ground arith) e)

-- One key changes its answer.
pub count_change :
    (t u : ℕ → Bool) (k : ℕ) (xs : List ℕ)
    → Distinct xs
    → has k xs ≡ true
    → ((j : ℕ) → j ≢ k → t j ≡ u j)
    → count t xs + (if u k then 1 else 0) ≡ count u xs + (if t k then 1 else 0)
unfolding count has
count_change t u k [] d h e = absurd (cc)
count_change t u k (x ∷ xs) d h e = elim (Bool-cases (x == k)) [
  | inl same ↦
      let p : x ≡ k = (==_iff x k).0 same in
      let out : has k xs ≡ false = ground (arith, d.0) in
      rw (p, count_same t u k xs out e) (omega arith)
  | inr other ↦
      let ne : x ≢ k = ground arith in
      rw (e x ne) (omega (arith, count_change t u k xs d.1 (ground arith) e))
]

pub count-snoc :
    (t : ℕ → Bool) (k : ℕ) (xs : List ℕ)
    → count t (xs ++ k ∷ []) ≡ count t xs + (if t k then 1 else 0)
unfolding count
count-snoc t k [] = omega arith
count-snoc t k (x ∷ xs) = omega (arith, count-snoc t k xs)

pub count_pos : (t : ℕ → Bool) (k : ℕ) (xs : List ℕ) → has k xs ≡ true → t k ≡ true → 0 ≢ count t xs
unfolding count has
count_pos t k [] h e z = absurd (cc)
count_pos t k (x ∷ xs) h e z = elim (Bool-cases (x == k)) [
  | inl same ↦ let p : x ≡ k = (==_iff x k).0 same in ground arith
  | inr other ↦ count_pos t k xs (ground arith) e (omega arith)
]
