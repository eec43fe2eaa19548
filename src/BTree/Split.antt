-- ===== src/BTree/Split.antt =====
-- splitNode: what the two halves hold.
use tinydbpp.Base.{
  ℕ, zero, suc, ◌+◌, ◌/◌, ◌≤◌, ◌<◌, ◌≡◌, refl, sym, ◌∙◌, ap, true, Option, none, some, List, [],
  ◌∷◌, ◌++◌, leb, length, get_elem?, take, drop, take-append-drop, ok, undefined, arith,
}
use tinydbpp.BTree.Node.{Node, Halves, split_leaf, split_inner}

-- The element at an index, with the list around it.
at_index :
    {A : Type 0} (xs : List A) (i : ℕ)
    → i < length xs
    → (x : A) × (get_elem? xs i ≡ some x)
      × (take i xs ++ x ∷ drop (i + 1) xs ≡ xs)
      × (drop i xs ≡ x ∷ drop (i + 1) xs)
at_index [] i h = absurd (omega arith)
at_index (x ∷ xs) zero h = (x, refl, refl, refl)
at_index (x ∷ xs) (suc i) h =
    let (y, e, around, rest) = at_index xs i (omega arith) in
    let one : suc i + 1 ≡ suc (i + 1) = omega arith in
    (y, e, rw one (ap (λ ys. x ∷ ys) around), rw one rest)

length-take : {A : Type 0} (n : ℕ) (xs : List A) → n ≤ length xs → length (take n xs) ≡ n
length-take zero xs h = refl
length-take (suc n) [] h = absurd (omega arith)
length-take (suc n) (x ∷ xs) h = ap suc (length-take n xs (omega arith))

length-drop :
    {A : Type 0} (n : ℕ) (xs : List A) → n ≤ length xs → length (drop n xs) + n ≡ length xs
length-drop zero xs h = omega arith
length-drop (suc n) [] h = absurd (omega arith)
length-drop (suc n) (x ∷ xs) h = omega (arith, length-drop n xs (omega arith))

some_elem :
    {A B : Type 0} (o : Option A) (a : A) (d : B) (f : A → B)
    → o ≡ some a
    → (elim o [ none ↦ d | some x ↦ f x ]) ≡ f a
some_elem o a d f e = rw e

-- A leaf's halves have all its keys and children in order, the right one from the separator on.
pub record LeafHalves (rank : ℕ) (n : Node) (h : Halves) : Type 0 where
  pub keys : h.left_keys ++ h.right_keys ≡ n.keys
  pub children : h.left_children ++ h.right_children ≡ n.children
  pub separator : (rest : List ℕ) × (h.right_keys ≡ h.separator ∷ rest)
  pub left_size : length h.left_keys ≡ rank / 2
  pub right_size : length h.right_keys + rank / 2 ≡ rank
  pub left_counts : length h.left_keys ≡ length h.left_children
  pub right_counts : length h.right_keys ≡ length h.right_children

-- `splitNode` of a full leaf cuts it in two that hold all its keys and children in order, with the
-- rank halved between them, and its separator is the right half's first key.
pub split_leaf-LeafHalves :
    (rank : ℕ) (n : Node)
    → 0 < rank
    → length n.keys ≡ rank
    → length n.children ≡ rank
    → (h : Halves) × (split_leaf rank n ≡ ok h) × LeafHalves rank n h
unfolding split_leaf
split_leaf-LeafHalves rank n some_keys ks cs =
    let half = rank / 2 in
    let inside : half < length n.keys = omega (arith, ks) in
    let (x, e, around, rest) = at_index n.keys half inside in
    let enough : leb half (length n.children) ≡ true = ground (arith, ks, cs) in
    (
      record {
        left_keys = take half n.keys;
        left_children = take half n.children;
        separator = x;
        right_keys = drop half n.keys;
        right_children = drop half n.children;
      },
      some_elem (get_elem? n.keys half) x undefined _ e ∙ rw enough refl,
      record {
        keys = take-append-drop half n.keys;
        children = take-append-drop half n.children;
        separator = (drop (half + 1) n.keys, rest);
        left_size = length-take half n.keys (omega (arith, inside));
        right_size = length-drop half n.keys (omega (arith, inside)) ∙ ks;
        left_counts =
            length-take half n.keys (omega (arith, inside))
            ∙ sym (length-take half n.children (omega (arith, inside, ks, cs)));
        right_counts = omega (
          arith,
          length-drop half n.keys (omega (arith, inside)),
          length-drop half n.children (omega (arith, inside, ks, cs)),
          ks,
          cs,
        );
      },
    )

-- An inner node's halves have all its children in order; the separator stands between their keys,
-- and each half has a child more than keys.
pub record InnerHalves (rank : ℕ) (n : Node) (h : Halves) : Type 0 where
  pub keys : h.left_keys ++ h.separator ∷ h.right_keys ≡ n.keys
  pub children : h.left_children ++ h.right_children ≡ n.children
  pub left_size : length h.left_keys ≡ rank / 2
  pub left_counts : length h.left_children ≡ length h.left_keys + 1
  pub right_counts : length h.right_children ≡ length h.right_keys + 1

-- `splitNode` of a full inner node cuts it in two that hold all its children in order, each with a
-- child more than keys, and its separator stands between their keys.
pub split_inner-InnerHalves :
    (rank : ℕ) (n : Node)
    → 0 < rank
    → length n.keys ≡ rank
    → length n.children ≡ rank + 1
    → (h : Halves) × (split_inner rank n ≡ ok h) × InnerHalves rank n h
unfolding split_inner
split_inner-InnerHalves rank n some_keys ks cs =
    let half = rank / 2 in
    let inside : half < length n.keys = omega (arith, ks) in
    let (x, e, around, rest) = at_index n.keys half inside in
    let enough : leb (half + 1) (length n.children) ≡ true = ground (arith, ks, cs) in
    let left = length-take half n.keys (omega (arith, inside)) in
    let left_children = length-take (half + 1) n.children (omega (arith, inside, ks, cs)) in
    let right = length-drop (half + 1) n.keys (omega (arith, inside)) in
    let right_children = length-drop (half + 1) n.children (omega (arith, inside, ks, cs)) in
    (
      record {
        left_keys = take half n.keys;
        left_children = take (half + 1) n.children;
        separator = x;
        right_keys = drop (half + 1) n.keys;
        right_children = drop (half + 1) n.children;
      },
      some_elem (get_elem? n.keys half) x undefined _ e ∙ rw enough refl,
      record {
        keys = around;
        children = take-append-drop (half + 1) n.children;
        left_size = left;
        left_counts = omega (arith, left, left_children);
        right_counts = omega (arith, right, right_children, ks, cs);
      },
    )
