-- ===== src/BTree/Traversal.antt =====
-- traverseLeafNode of src/BTree/BTree.h on a whole tree, with a callback that changes no record: it is
-- called for the entries from left to right.
use tinydbpp.Base.{
  ℕ, zero, suc, ◌≡◌, refl, sym, ◌∙◌, ap, fun_ext, false, Option, none, List, [], ◌∷◌, ◌++◌, Outcome,
  ok, bind_assoc, if_false, ◌>>=◌,
}
use tinydbpp.Record.Table.{Location}
use tinydbpp.BTree.Node.{Node}
use tinydbpp.BTree.Tree.{Records, Tree, Entry, parse_node_from_page}
use tinydbpp.BTree.Visit.{visit_leaf, visit_children, traverse_leaf_node}
use tinydbpp.BTree.Shape.{
  Shape, leaf, inner, Rest, end, more, keys_of, places_of, entries, entries_rest, Within, AllWithin,
}
use tinydbpp.BTree.Lookup.{Represents, RepresentsAll}

bind_same :
    {A B : Type 0} (m : Outcome A) (f g : A → Outcome B)
    → ((a : A) → f a ≡ g a)
    → (m >>= f) ≡ (m >>= g)
bind_same m f g same = ap (λ k. m >>= k) (fun_ext same)

module _ {S A : Type 0} (rank_min rank : ℕ) (records : Records S)
    (collect : A → ℕ → Entry → A) where
  -- A callback that collects something and returns false.
  abbrev pub reading : S → A → ℕ → Entry → Outcome (S × A × Option Entry)
  reading s a k e = ok (s, collect a k e, none)

  -- What the callback collects from the records of these entries.
  abbrev pub read_entries : S → A → List (ℕ × Location) → Outcome A
  read_entries s a [] = ok a
  read_entries s a ((k, l) ∷ es) = records.get s l >>= λ e. read_entries s (collect a k e) es

  -- With the store as it was.
  abbrev pub unchanged : S → Outcome A → Outcome (S × A)
  unchanged s m = m >>= λ b. ok (s, b)

  visit_leaf-read_entries :
      (s : S) (a : A) (es : List (ℕ × Location))
      → visit_leaf rank_min rank records reading s a (keys_of es) (places_of es)
        ≡ unchanged s (read_entries s a es)
  visit_leaf-read_entries s a [] = refl
  visit_leaf-read_entries s a ((k, l) ∷ es) =
      bind_same (records.get s l)
        (λ e.
          visit_leaf rank_min rank records reading s (collect a k e) (keys_of es) (places_of es))
        (λ e. unchanged s (read_entries s (collect a k e) es))
        (λ e. visit_leaf-read_entries s (collect a k e) es)
      ∙ bind_assoc (records.get s l) (λ e. read_entries s (collect a k e) es) (λ b. ok (s, b))

  read_entries-append :
      (s : S) (a : A) (es fs : List (ℕ × Location))
      → read_entries s a (es ++ fs) ≡ (read_entries s a es >>= λ b. read_entries s b fs)
  read_entries-append s a [] fs = refl
  read_entries-append s a ((k, l) ∷ es) fs =
      bind_same (records.get s l) (λ e. read_entries s (collect a k e) (es ++ fs))
        (λ e. read_entries s (collect a k e) es >>= λ b. read_entries s b fs)
        (λ e. read_entries-append s (collect a k e) es fs)
      ∙ bind_assoc (records.get s l) (λ e. read_entries s (collect a k e) es)
          (λ b. read_entries s b fs)

  abbrev visit : ℕ → Tree S → List Node → Location → S → A → Outcome (S × A)
  visit fuel t above l s b =
      let u = record t { store = s } in
      parse_node_from_page rank_min rank records u above l >>= λ child.
      traverse_leaf_node rank_min rank records reading fuel u above child b

  -- A traversal from a node visits the entries of each tree of these levels.
  abbrev Shows : ℕ → Tree S → List Node → Type 0
  Shows fuel t above =
      (l : Location) (shape : Shape) (a : A)
      → Represents rank_min rank records t above l shape
      → Within fuel shape
      → visit fuel t above l t.store a ≡ unchanged t.store (read_entries t.store a (entries shape))

  -- A child and the children to its right.
  child_then :
      (fuel : ℕ) (t : Tree S) (above : List Node) (l : Location) (ls : List Location) (a : A)
      (es fs : List (ℕ × Location))
      → visit fuel t above l t.store a ≡ unchanged t.store (read_entries t.store a es)
      → ((b : A)
          → visit_children rank_min rank records (visit fuel t above) t.store b ls
            ≡ unchanged t.store (read_entries t.store b fs))
      → visit_children rank_min rank records (visit fuel t above) t.store a (l ∷ ls)
        ≡ unchanged t.store (read_entries t.store a (es ++ fs))
  child_then fuel t above l ls a es fs first later =
      let next =
        λ (r : S × A). visit_children rank_min rank records (visit fuel t above) r.0 r.1 ls in
      ap (λ m. m >>= next) first
      ∙ sym (bind_assoc (read_entries t.store a es) (λ b. ok (t.store, b)) next)
      ∙ bind_same (read_entries t.store a es)
          (λ b. visit_children rank_min rank records (visit fuel t above) t.store b ls)
          (λ b. unchanged t.store (read_entries t.store b fs)) later
      ∙ bind_assoc (read_entries t.store a es) (λ b. read_entries t.store b fs)
          (λ b. ok (t.store, b))
      ∙ ap (unchanged t.store) (sym (read_entries-append t.store a es fs))

  visit_children-entries :
      (fuel : ℕ) (t : Tree S) (above : List Node) (ls : List Location) (r : Rest)
      → Shows fuel t above
      → RepresentsAll rank_min rank records t above ls r
      → AllWithin fuel r
      → (a : A)
      → visit_children rank_min rank records (visit fuel t above) t.store a ls
        ≡ unchanged t.store (read_entries t.store a (entries_rest r))
  unfolding RepresentsAll AllWithin entries_rest
  visit_children-entries fuel t above [] end shows h w a = refl
  visit_children-entries fuel t above [] (more k c r) shows h w a = elim h [ ]
  visit_children-entries fuel t above (l ∷ ls) end shows h w a = elim h [ ]
  visit_children-entries fuel t above (l ∷ ls) (more k c r) shows h w a =
      child_then fuel t above l ls a (entries c) (entries_rest r) (shows l c a h.0 w.0)
        (visit_children-entries fuel t above ls r shows h.1 w.1)

  traverse_leaf_node-inner :
      (fuel : ℕ) (t : Tree S) (above : List Node) (n : Node) (cs : List Location) (a : A)
      → n.is_leaf ≡ false
      → n.children ≡ cs
      → traverse_leaf_node rank_min rank records reading (suc fuel) t above n a
        ≡ visit_children rank_min rank records (visit fuel t (n ∷ above)) t.store a cs
  unfolding traverse_leaf_node
  traverse_leaf_node-inner fuel t above n cs a is children =
      if_false n.is_leaf (visit_leaf rank_min rank records reading t.store a n.keys n.children)
        (visit_children rank_min rank records (visit fuel t (n ∷ above)) t.store a n.children) is
      ∙ ap (visit_children rank_min rank records (visit fuel t (n ∷ above)) t.store a) children

  -- Where the store has the nodes of a tree and the fuel is at least the number of its levels,
  -- `traverseLeafNode` from a node, with a callback that collects something and changes no record,
  -- ends as the reading of the records of all its entries does: the callback has been called for the
  -- keys and records in the order of the entries, and the store is as it was.
  pub traverse_leaf_node-entries :
      (fuel : ℕ) (t : Tree S) (above : List Node) (l : Location) (shape : Shape) (a : A)
      → Represents rank_min rank records t above l shape
      → Within fuel shape
      → (parse_node_from_page rank_min rank records t above l >>= λ n.
          traverse_leaf_node rank_min rank records reading fuel t above n a)
        ≡ unchanged t.store (read_entries t.store a (entries shape))
  unfolding traverse_leaf_node Represents Within entries
  traverse_leaf_node-entries zero t above l shape a h w = elim w [ ]
  traverse_leaf_node-entries (suc fuel) t above l (leaf es) a (n, e, is, ks, cs) w =
      rw (e, is, ks, cs) (visit_leaf-read_entries t.store a es)
  traverse_leaf_node-entries (suc fuel) t above l (inner s r) a
        (n, first, others, e, is, ks, cs, h, hs) w =
      let shows : Shows fuel t (n ∷ above) =
        λ m c b. traverse_leaf_node-entries fuel t (n ∷ above) m c b in
      rw e (traverse_leaf_node-inner fuel t above n (first ∷ others) a is cs)
      ∙ child_then fuel t (n ∷ above) first others a (entries s) (entries_rest r)
          (shows first s a h w.0) (visit_children-entries fuel t (n ∷ above) others r shows hs w.1)
