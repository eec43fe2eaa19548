-- ===== src/BTree/Lookup.antt =====
-- BTree::get on a whole tree, against the lookup in the list of its entries.
use tinydbpp.Base.{
  ℕ, zero, suc, ◌+◌, ◌≡◌, ◌≢◌, refl, sym, ◌∙◌, ap, subst, Bool, true, false, Option, none, some,
  List, [], ◌∷◌, leb, ◌==◌, Bool-cases, inl, inr, if◌then◌else◌, length, get_elem?, Outcome, ok,
  ◌>>=◌, arith,
}
use mathlib.Core.Bool.{false≢true}
use tinydbpp.Record.Table.{Location}
use tinydbpp.BTree.Node.{Node, search_inner}
use tinydbpp.BTree.Tree.{
  Records, Tree, Answer, answer, key_not_found, key_duplicated, Entry, Chain, get_root,
  data_location, parse_node_from_page, search_node, find, get,
}
use tinydbpp.BTree.Search.{
  Sorted, below, up_to, up_to_first, is_key, search_leaf-below, search_inner-up_to,
}
use tinydbpp.BTree.Shape.{
  Shape, leaf, inner, Rest, end, more, keys_of, places_of, separators, entries, assoc, IsOrdered,
  Within,
}
use tinydbpp.BTree.Pick.{
  is_some, get_elem?-next, is_key-is_some, below-assoc, pick, pick-assoc, pick-IsOrdered,
  pick-Within,
}

abbrev Rising : List ℕ → Type 0
Rising [] = Unit {0}
Rising (k ∷ ks) = Sorted k ks

Sorted-Rising : (k : ℕ) (ks : List ℕ) → Sorted k ks → Rising ks
Sorted-Rising k [] h = tt
Sorted-Rising k (j ∷ ks) h = h.1

module _ {S : Type 0} (rank_min rank : ℕ) (records : Records S) where
  -- The store has this tree's nodes, from the node at a location on.
  unfoldable mutual
    pub Represents : Tree S → List Node → Location → Shape → Type 0
    Represents t above l (leaf es) =
        (n : Node) × (parse_node_from_page rank_min rank records t above l ≡ ok n)
        × (n.is_leaf ≡ true)
        × (n.keys ≡ keys_of es)
        × (n.children ≡ places_of es)
    Represents t above l (inner s r) =
        (n : Node) × (first : Location) × (others : List Location) × (parse_node_from_page rank_min
            rank records t above l
          ≡ ok n)
        × (n.is_leaf ≡ false)
        × (n.keys ≡ separators r)
        × (n.children ≡ first ∷ others)
        × Represents t (n ∷ above) first s
        × RepresentsAll t (n ∷ above) others r

    pub RepresentsAll : Tree S → List Node → List Location → Rest → Type 0
    RepresentsAll t above [] end = Unit {0}
    RepresentsAll t above [] (more k c r) = ⊥
    RepresentsAll t above (l ∷ ls) end = ⊥
    RepresentsAll t above (l ∷ ls) (more k c r) =
        Represents t above l c × RepresentsAll t above ls r

  -- Where a search ends, and what it found there.
  unfoldable Found : ℕ → Tree S → List Node → Node → ℕ → Option Location → Type 0
  Found fuel t above n key o =
      (c : Chain) × (i : ℕ) × (b : Bool) × (search_node rank_min rank records fuel t above n key
        ≡ ok (c, i, b))
      × (c.0.is_leaf ≡ true)
      × ((if b then get_elem? c.0.children i else none) ≡ o)
      × (b ≡ is_some o)

  length-RepresentsAll :
      (t : Tree S) (above : List Node) (ls : List Location) (r : Rest)
      → RepresentsAll t above ls r
      → length ls ≡ length (separators r)
  unfolding RepresentsAll
  length-RepresentsAll t above [] end h = refl
  length-RepresentsAll t above [] (more k c r) h = elim h [ ]
  length-RepresentsAll t above (l ∷ ls) end h = elim h [ ]
  length-RepresentsAll t above (l ∷ ls) (more k c r) h =
      ap suc (length-RepresentsAll t above ls r h.1)

  pick-Represents :
      (key : ℕ) (t : Tree S) (above : List Node) (l : Location) (ls : List Location) (s : Shape)
      (r : Rest)
      → Rising (separators r)
      → Represents t above l s
      → RepresentsAll t above ls r
      → (m : Location) × (get_elem? (l ∷ ls) (up_to key (separators r)) ≡ some m)
        × Represents t above m (pick key s r)
  unfolding RepresentsAll pick
  pick-Represents key t above l [] s end up h hs = (l, refl, h)
  pick-Represents key t above l (x ∷ ls) s end up h hs = elim hs [ ]
  pick-Represents key t above l [] s (more k c r) up h hs = elim hs [ ]
  pick-Represents key t above l (x ∷ ls) s (more k c r) up h hs = elim (Bool-cases (leb k key)) [
    | inl right ↦
        let (m, e, p) =
          pick-Represents key t above x ls c r (Sorted-Rising k (separators r) up) hs.0 hs.1 in
        let one = λ (b : Bool). (if b then 1 else 0) + up_to key (separators r) in
        (
          m,
          ap (get_elem? (l ∷ x ∷ ls)) (ap one right)
              ∙ get_elem?-next l (x ∷ ls) (up_to key (separators r))
              ∙ e,
          subst (λ b. Represents t above m (if b then pick key c r else s)) (sym right) p,
        )
    | inr left ↦ (
      l,
      ap (get_elem? (l ∷ x ∷ ls)) (up_to_first key k (separators r) up (ground arith)),
      subst (λ b. Represents t above l (if b then pick key c r else s)) (sym left) h,
    )
  ]

  search_node-inner :
      (fuel : ℕ) (t : Tree S) (above : List Node) (n : Node) (key i : ℕ) (m : Location)
      (child : Node)
      → n.is_leaf ≡ false
      → search_inner n.keys (length n.children) key ≡ ok i
      → get_elem? n.children i ≡ some m
      → parse_node_from_page rank_min rank records t (n ∷ above) m ≡ ok child
      → search_node rank_min rank records (suc fuel) t above n key
        ≡ search_node rank_min rank records fuel t (n ∷ above) child key
  unfolding search_node
  search_node-inner fuel t above n key i m child is index at parsed =
      rw (is, index, at, parsed) refl

  search_node-assoc :
      (fuel : ℕ) (t : Tree S) (above : List Node) (l : Location) (shape : Shape) (key : ℕ)
      → Represents t above l shape
      → IsOrdered shape
      → Within fuel shape
      → (n : Node) × (parse_node_from_page rank_min rank records t above l ≡ ok n)
        × Found fuel t above n key (assoc key (entries shape))
  unfolding Found search_node Represents IsOrdered Within entries
  search_node-assoc zero t above l shape key h o w = elim w [ ]
  search_node-assoc (suc fuel) t above l (leaf []) key h o w = elim o [ ]
  search_node-assoc (suc fuel) t above l (leaf ((k, x) ∷ es)) key (n, e, is, ks, cs) o w =
      let at = below key (k ∷ keys_of es) in
      let hit = is_key key (k ∷ keys_of es) in
      (
        n,
        e,
        (
          (n, above),
          at,
          hit,
          rw (is, ks, search_leaf-below k (keys_of es) key o) refl,
          is,
          ap (λ c. if hit then get_elem? c at else none) cs ∙ below-assoc key ((k, x) ∷ es) o,
          is_key-is_some key ((k, x) ∷ es),
        ),
      )
  search_node-assoc (suc fuel) t above l (inner s end) key h o w = elim o.0 [ ]
  search_node-assoc (suc fuel) t above l (inner s (more k c r)) key
        (n, first, others, e, is, ks, cs, h, hs) o w =
      let rest = more k c r in
      let (m, at, p) = pick-Represents key t (n ∷ above) first others s rest o.0 h hs in
      let count : length others ≡ suc (length (separators r)) =
        length-RepresentsAll t (n ∷ above) others rest hs in
      let children : length n.children ≡ length (separators r) + 2 = rw cs (omega (arith, count)) in
      let index : search_inner n.keys (length n.children) key ≡ ok (up_to key (separators rest)) =
        rw (ks, children) (search_inner-up_to k (separators r) key o.0) in
      let (child, parsed, (ch, i, b, run, is_leaf, found, same)) =
        search_node-assoc fuel t (n ∷ above) m (pick key s rest) key p
          (pick-IsOrdered key s rest o.2 o.3) (pick-Within fuel key s rest w.0 w.1) in
      (
        n,
        e,
        (
          ch,
          i,
          b,
          search_node-inner fuel t above n key (up_to key (separators rest)) m child is index
                (ap (λ c. get_elem? c (up_to key (separators rest))) cs ∙ at) parsed
              ∙ run,
          is_leaf,
          found ∙ sym (pick-assoc key s rest o.1),
          same ∙ ap is_some (sym (pick-assoc key s rest o.1)),
        ),
      )

  -- What `get` gives for the location that the tree has for a key.
  unfoldable pub read_at : Tree S → Option Location → Outcome (Answer Entry)
  read_at t none = ok key_not_found
  read_at t (some l) = records.get t.store l >>= (λ e. ok (answer e))

  -- The end of a search of `get`.
  abbrev answer_at : Tree S → Chain → ℕ → Bool → Outcome (Answer Entry)
  answer_at t c i b =
      let found : Answer (Chain × ℕ) = if b then answer (c, i) else key_not_found in
      elim found [
        | key_not_found ↦ ok key_not_found
        | key_duplicated ↦ ok key_duplicated
        | answer (d, at) ↦
            data_location rank_min rank records d at
            >>= (λ l. records.get t.store l >>= (λ e. ok (answer e)))
      ]

  answer_at-read_at :
      (t : Tree S) (c : Chain) (i : ℕ) (b : Bool) (o : Option Location)
      → c.0.is_leaf ≡ true
      → (if b then get_elem? c.0.children i else none) ≡ o
      → b ≡ is_some o
      → answer_at t c i b ≡ read_at t o
  unfolding read_at
  answer_at-read_at t c i true (some l) is found same = rw (is, found) refl
  answer_at-read_at t c i true none is found same = absurd (false≢true (sym same))
  answer_at-read_at t c i false (some l) is found same = absurd (false≢true same)
  answer_at-read_at t c i false none is found same = refl

  -- Where the store has the nodes of a tree under its root, no node is empty, the keys of each go
  -- up, the separators stand between the entries to their left and right, and the fuel is at least
  -- the number of levels, `get` ends: it reads the record at the location that the first entry of
  -- the key has in the list of all entries, and throws KeyNotFound exactly if the list has no such
  -- entry.
  pub get-assoc :
      (fuel : ℕ) (t : Tree S) (shape : Shape) (key : ℕ)
      → t.root.page_number ≢ 0
      → Represents t [] t.root shape
      → IsOrdered shape
      → Within fuel shape
      → get rank_min rank records fuel t key ≡ read_at t (assoc key (entries shape))
  unfolding get find get_root read_at Found
  get-assoc fuel t shape key root h o w =
      let (n, parsed, (c, i, b, run, is_leaf, found, same)) =
        search_node-assoc fuel t [] t.root shape key h o w in
      let here : (t.root.page_number == 0) ≡ false = ground (arith, root) in
      rw (here, parsed, run)
        (answer_at-read_at t c i b (assoc key (entries shape)) is_leaf found same)
