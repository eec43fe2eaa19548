-- ===== src/BTree/Visit.antt =====
-- BTree::traverse and BTreePlus::traverse of src/BTree, with a callback that may change what it visits.
use tinydbpp.Base.{
  ℕ, zero, suc, ◌%◌, Bool, true, false, Option, none, some, List, [], ◌∷◌, ◌==◌, if◌then◌else◌,
  length, Outcome, ok, assert_failed, undefined, out_of_fuel, ◌>>=◌, ◌>>◌, boost_assert,
}
use tinydbpp.Record.Table.{Location}
use tinydbpp.BTree.Node.{Node}
use tinydbpp.BTree.Tree.{Entry, Records, Tree, parse_node_from_page, get_root}
use tinydbpp.BTree.Plus.{pointers}

module _ {S A : Type 0} (rank_min rank : ℕ) (records : Records S) where
  -- traverseLeafNode in a leaf, with a callback that may change a record: a record that moves is not
  -- given its new location.
  abbrev pub visit_leaf :
      (S → A → ℕ → Entry → Outcome (S × A × Option Entry))
      → S
      → A
      → List ℕ
      → List Location
      → Outcome (S × A)
  visit_leaf cb s a [] ls = ok (s, a)
  visit_leaf cb s a (k ∷ ks) [] = assert_failed
  visit_leaf cb s a (k ∷ ks) (l ∷ ls) = do
    e ← records.get s l
    (r, b, result) ← cb s a k e
    u ← elim result [
      | none ↦ ok r
      | some changed ↦ records.update_one r l changed >>= (λ m. ok m.0)
    ]
    visit_leaf cb u b ks ls

  abbrev pub visit_children :
      (Location → S → A → Outcome (S × A)) → S → A → List Location → Outcome (S × A)
  visit_children visit s a [] = ok (s, a)
  visit_children visit s a (l ∷ ls) = visit l s a >>= (λ r. visit_children visit r.0 r.1 ls)

  -- traverseLeafNode.
  unfoldable pub traverse_leaf_node :
      (S → A → ℕ → Entry → Outcome (S × A × Option Entry))
      → ℕ
      → Tree S
      → List Node
      → Node
      → A
      → Outcome (S × A)
  unfolding parse_node_from_page
  traverse_leaf_node cb zero t above n a = out_of_fuel
  traverse_leaf_node cb (suc fuel) t above n a =
      let visit = λ (l : Location) (s : S) (b : A).
        let u = record t { store = s } in
        parse_node_from_page rank_min rank records u (n ∷ above) l
        >>= (λ child. traverse_leaf_node cb fuel u (n ∷ above) child b) in
      if n.is_leaf
      then visit_leaf cb t.store a n.keys n.children
      else visit_children visit t.store a n.children

  -- BTree::traverse: the root of an empty tree is a null pointer.
  unfoldable pub traverse :
      (S → A → ℕ → Entry → Outcome (S × A × Option Entry)) → ℕ → Tree S → A → Outcome (Tree S × A)
  unfolding get_root traverse_leaf_node
  traverse cb fuel t a = do
    root ← get_root rank_min rank records t
    elim root [
      | none ↦ undefined
      | some n ↦ traverse_leaf_node cb fuel t [] n a >>= (λ r. ok (record t { store = r.0 }, r.1))
    ]

  -- The records of one key, in BTreePlus::traverse: each is read, and the callback has them up to the
  -- first for which it returns true. What it changes is a copy.
  abbrev pub visit_records :
      (A → ℕ → List ℕ → Outcome (A × Bool)) → ℕ → S → List Location → A → Bool → Outcome (A × Bool)
  visit_records cb key s [] a changed = ok (a, changed)
  visit_records cb key s (l ∷ ls) a changed = do
    e ← records.get s l
    r ← ok e
    (b, now) ← if changed then ok (a, true) else cb a key r
    visit_records cb key s ls b now

  -- BTreePlus::traverse: where the callback returns true, the key's data is written as it was.
  unfoldable pub traverse_records :
      (A → ℕ → List ℕ → Outcome (A × Bool)) → ℕ → Tree S → A → Outcome (Tree S × A)
  unfolding traverse
  traverse_records cb fuel t a =
      traverse
        (λ s b key e. do
          ptrs ← ok e
          boost_assert (length ptrs % 6 == 0)
          (c, changed) ← visit_records cb key s (pointers ptrs) b false
          ok (s, c, if changed then some ptrs else none))
        fuel t a
