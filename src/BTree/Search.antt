-- ===== src/BTree/Search.antt =====
-- searchNode on a node with sorted keys: the position in a leaf, and the child of an inner node.
use tinydbpp.Base.{
  ℕ, ◌+◌, ◌≤◌, ◌<◌, ◌≡◌, refl, ◌∙◌, ap, Bool, true, false, ◌||◌, List, [], ◌∷◌, ltb, leb, ◌==◌,
  ==_iff, ==_refl, Bool-cases, inl, inr, if◌then◌else◌, length, ok, arith,
}
use tinydbpp.BTree.Node.{search_leaf, search_inner, leaf_loop, inner_loop, last_or}

-- The keys from `a` on go up.
abbrev pub Sorted : ℕ → List ℕ → Type 0
Sorted a [] = Unit {0}
Sorted a (b ∷ ks) = (a < b) × Sorted b ks

-- How many keys are less than `key`, and how many are not more.
abbrev pub below : ℕ → List ℕ → ℕ
below key [] = 0
below key (x ∷ xs) = (if ltb x key then 1 else 0) + below key xs

abbrev pub up_to : ℕ → List ℕ → ℕ
up_to key [] = 0
up_to key (x ∷ xs) = (if leb x key then 1 else 0) + up_to key xs

abbrev pub is_key : ℕ → List ℕ → Bool
is_key key [] = false
is_key key (x ∷ xs) = (x == key) || is_key key xs

pub below_first : (key a : ℕ) (ks : List ℕ) → Sorted a ks → key ≤ a → below key (a ∷ ks) ≡ 0
below_first key a [] s h = ground arith
below_first key a (b ∷ ks) s h = ground (arith, below_first key b ks s.1)

pub is_key_first : (key a : ℕ) (ks : List ℕ) → Sorted a ks → key < a → is_key key (a ∷ ks) ≡ false
is_key_first key a [] s h = ground arith
is_key_first key a (b ∷ ks) s h = ground (arith, is_key_first key b ks s.1)

pub up_to_first : (key a : ℕ) (ks : List ℕ) → Sorted a ks → key < a → up_to key (a ∷ ks) ≡ 0
up_to_first key a [] s h = ground arith
up_to_first key a (b ∷ ks) s h = ground (arith, up_to_first key b ks s.1)

first_last : (a : ℕ) (ks : List ℕ) → Sorted a ks → a ≤ last_or a ks
first_last a [] s = ground arith
first_last a (b ∷ ks) s = ground (arith, first_last b ks s.1)

below_last :
    (key a : ℕ) (ks : List ℕ)
    → Sorted a ks
    → last_or a ks < key
    → (below key (a ∷ ks) ≡ length ks + 1) × (is_key key (a ∷ ks) ≡ false)
below_last key a [] s h = ground arith
below_last key a (b ∷ ks) s h =
    let (n, m) = below_last key b ks s.1 h in
    let up = first_last b ks s.1 in
    let less : ltb a key ≡ true = ground (arith, up, s.0, h) in
    let other : (a == key) ≡ false = ground (arith, up, s.0, h) in
    (rw (less, n) (omega arith), rw (other, m) refl)

below_at_last :
    (key a : ℕ) (ks : List ℕ)
    → Sorted a ks
    → key ≡ last_or a ks
    → (below key (a ∷ ks) ≡ length ks) × (is_key key (a ∷ ks) ≡ true)
below_at_last key a [] s h = ground arith
below_at_last key a (b ∷ ks) s h =
    let (n, m) = below_at_last key b ks s.1 h in
    let up = first_last b ks s.1 in
    let less : ltb a key ≡ true = ground (arith, up, s.0, h) in
    let other : (a == key) ≡ false = ground (arith, up, s.0, h) in
    (rw (less, n) (omega arith), rw (other, m) refl)

up_to_last :
    (key a : ℕ) (ks : List ℕ)
    → Sorted a ks
    → last_or a ks ≤ key
    → up_to key (a ∷ ks) ≡ length ks + 1
up_to_last key a [] s h = ground arith
up_to_last key a (b ∷ ks) s h =
    let less : leb a key ≡ true = ground (arith, first_last b ks s.1, s.0, h) in
    rw (less, up_to_last key b ks s.1 h) (omega arith)

leaf_loop-below :
    (key i a : ℕ) (ks : List ℕ)
    → Sorted a ks
    → a ≤ key
    → key < last_or a ks
    → leaf_loop key i a ks ≡ ok (i + below key (a ∷ ks), is_key key (a ∷ ks))
leaf_loop-below key i a [] s low high = absurd (omega arith)
leaf_loop-below key i a (b ∷ ks) s low high = elim (Bool-cases (a == key)) [
  | inl same ↦
      let none_less = below_first key a (b ∷ ks) s (ground arith) in
      rw (none_less, same) (ap (λ n. ok (n, true)) (omega arith))
  | inr other ↦
      let less : ltb a key ≡ true = ground arith in
      let at_most : leb a key ≡ true = ground arith in
      elim (Bool-cases (ltb key b)) [
        | inl before ↦
            let none_less : below key (b ∷ ks) ≡ 0 = below_first key b ks s.1 (ground arith) in
            let absent : is_key key (b ∷ ks) ≡ false = is_key_first key b ks s.1 (ground arith) in
            rw (none_less, absent, other, at_most, before, less) refl
        | inr after ↦
            rw (other, at_most, after, less)
              (leaf_loop-below key (i + 1) b ks s.1 (ground arith) high
                ∙ ap (λ n. ok (n, is_key key (b ∷ ks))) (omega arith))
      ]
]

-- On a leaf with ascending keys, `searchNode` never reaches its unreachable code: it returns the
-- number of keys below the key looked for as the position, and whether the key is among them.
pub search_leaf-below :
    (a : ℕ) (ks : List ℕ) (key : ℕ)
    → Sorted a ks
    → search_leaf (a ∷ ks) key ≡ ok (below key (a ∷ ks), is_key key (a ∷ ks))
unfolding search_leaf
search_leaf-below a ks key s = elim (Bool-cases (ltb key a)) [
  | inl before ↦
      rw (below_first key a ks s (ground arith), is_key_first key a ks s (ground arith), before)
        refl
  | inr not_before ↦ elim (Bool-cases (key == a)) [
    | inl first ↦
        let same : (a == key) ≡ true = ground arith in
        rw (below_first key a ks s (ground arith), same, not_before, first) refl
    | inr not_first ↦ elim (Bool-cases (ltb (last_or a ks) key)) [
      | inl after ↦
          let (n, m) = below_last key a ks s (ground arith) in
          rw (n, m, not_before, not_first, after) refl
      | inr not_after ↦ elim (Bool-cases (key == last_or a ks)) [
        | inl last ↦
            let (n, m) = below_at_last key a ks s ((==_iff key (last_or a ks)).0 last) in
            rw (n, m, not_before, not_first, not_after, last) refl
        | inr not_last ↦
            rw (not_before, not_first, not_after, not_last)
              (leaf_loop-below key 0 a ks s (ground arith) (ground arith)
                ∙ ap (λ n. ok (n, is_key key (a ∷ ks))) (omega arith))
      ]
    ]
  ]
]

inner_loop-up_to :
    (key i a : ℕ) (ks : List ℕ)
    → Sorted a ks
    → a ≤ key
    → key < last_or a ks
    → inner_loop key i a ks ≡ ok (i + up_to key (a ∷ ks))
inner_loop-up_to key i a [] s low high = absurd (omega arith)
inner_loop-up_to key i a (b ∷ ks) s low high =
    let at_most : leb a key ≡ true = ground arith in
    elim (Bool-cases (ltb key b)) [
      | inl before ↦
          let none_less : up_to key (b ∷ ks) ≡ 0 = up_to_first key b ks s.1 (ground arith) in
          rw (none_less, at_most, before) refl
      | inr after ↦
          rw (at_most, after)
            (inner_loop-up_to key (i + 1) b ks s.1 (ground arith) high ∙ ap ok (omega arith))
    ]

-- At an inner node with ascending keys and one child more than keys, `searchNode` goes to the
-- child whose index is the number of keys that are not more than the key looked for.
pub search_inner-up_to :
    (a : ℕ) (ks : List ℕ) (key : ℕ)
    → Sorted a ks
    → search_inner (a ∷ ks) (length ks + 2) key ≡ ok (up_to key (a ∷ ks))
unfolding search_inner
search_inner-up_to a ks key s = rw (==_refl (length ks + 2)) (elim (Bool-cases (ltb key a)) [
  | inl before ↦ rw (up_to_first key a ks s (ground arith), before) refl
  | inr not_before ↦ elim (Bool-cases (leb (last_or a ks) key)) [
    | inl last ↦ rw (up_to_last key a ks s (ground arith), not_before, last) (ap ok (omega arith))
    | inr not_last ↦
        rw (not_before, not_last)
          (inner_loop-up_to key 0 a ks s (ground arith) (ground arith) ∙ ap ok (omega arith))
  ]
])
