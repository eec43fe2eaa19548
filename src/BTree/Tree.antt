-- ===== src/BTree/Tree.antt =====
-- The operations of src/BTree/BTree.h on a table file. The record manager is an interface: it keeps
-- records by their locations. BTree.Manager fills it with the operations of Record.Table.
use tinydbpp.Base.{
  ℕ, zero, suc, ◌+◌, ◌-◌, ◌%◌, ◌^◌, Bool, true, false, not, Option, none, some, List, [], ◌∷◌, ltb,
  leb, ◌==◌, if◌then◌else◌, length, get_elem?, set, Outcome, ok, assert_failed, undefined,
  out_of_fuel, ◌>>=◌, ◌>>◌, boost_assert, in_bounds,
}
use tinydbpp.Record.Table.{Location, location, location_eq}
use tinydbpp.BTree.Layout.{node_bytes, node_of}
use tinydbpp.BTree.Node.{
  Node, no_location, insert_loc_data_in_leaf_node, insert_node_at, delete_data, delete_child,
  get_child_pos, to_buf, init_from_buf, search_leaf, search_inner, split_leaf, split_inner,
}

-- A record is its bytes: those of a node, or the data of a key.
abbrev pub Entry : Type 0
Entry = List ℕ

-- RecordManager's insert, getRecord, updateRecordNoResize, updateOneRecord, deleteRecord and
-- delOneRecord on one file.
pub record Records (S : Type 0) : Type 0 where
  pub insert : S → Entry → Bool → Outcome (S × Location)
  pub get : S → Location → Outcome Entry
  pub update_no_resize : S → Location → Entry → Outcome S
  pub update_one : S → Location → Entry → Outcome (S × Location)
  pub delete : S → Location → Outcome S
  pub del_one : S → Location → Bool → Outcome S

-- The tree: the store, the root location of page 0, and the file's valid pages.
pub record Tree (S : Type 0) : Type 0 where
  pub store : S
  pub root : Location

-- The exceptions of the tree.
pub data Answer {ℓ} (A : Type ℓ) : Type ℓ where
  answer : A → Answer A
  key_not_found key_duplicated : Answer A

-- A node and the nodes above it, the nearest first.
abbrev pub Chain : Type 0
Chain = Node × List Node

abbrev pub parent_loc_of : List Node → Option Location
parent_loc_of [] = none
parent_loc_of (n ∷ ns) = some n.loc

module _ {S : Type 0} (rank_min rank : ℕ) (records : Records S) where
  -- storeRootLocation. The page count of its assertion is not part of the tree's state.
  abbrev pub store_root_location : Tree S → Location → Outcome (Tree S)
  store_root_location t l = do
    boost_assert (not (l.page_number == 0))
    boost_assert (ltb l.loc 4096)
    ok (record t { root = location (l.page_number % 2 ^ 32) (l.loc % 2 ^ 16) })

  abbrev pub clear_root_location : Tree S → Tree S
  clear_root_location t = record t { root = no_location }

  unfoldable pub parse_node_from_page : Tree S → List Node → Location → Outcome Node
  unfolding node_of node_bytes
  parse_node_from_page t above l = do
    boost_assert (ltb l.loc 4096)
    e ← records.get t.store l
    nf ← node_of rank e
    in_bounds (leb nf.n_key_count (rank - 1))
    init_from_buf (parent_loc_of above) l nf

  -- getRoot, of a file that has the magic number and the node size of a tree.
  unfoldable pub get_root : Tree S → Outcome (Option Node)
  unfolding parse_node_from_page
  get_root t =
      if t.root.page_number == 0
      then ok none
      else parse_node_from_page t [] t.root >>= (λ n. ok (some n))

  -- writeBack
  unfoldable pub write_back : Tree S → List Node → Node → Outcome (Tree S × Node)
  unfolding node_of node_bytes
  write_back t above n = do
    boost_assert (length n.keys + (if n.is_leaf then 0 else 1) == length n.children)
    nf ← to_buf rank (parent_loc_of above) n
    if n.loc.page_number == 0
        then records.insert t.store (node_bytes rank nf) false
          >>= (λ r. ok (record t { store = r.0 }, record n { loc = r.1 }))
        else records.update_no_resize t.store n.loc (node_bytes rank nf)
          >>= (λ s. ok (record t { store = s }, n))

  -- searchNode: fuel bounds the levels of the tree.
  unfoldable pub search_node : ℕ → Tree S → List Node → Node → ℕ → Outcome (Chain × ℕ × Bool)
  unfolding parse_node_from_page
  search_node zero t above n key = out_of_fuel
  search_node (suc fuel) t above n key =
      if n.is_leaf then search_leaf n.keys key >>= (λ r. ok ((n, above), r.0, r.1)) else (do
        i ← search_inner n.keys (length n.children) key
        l ← elim (get_elem? n.children i) [ none ↦ assert_failed | some l ↦ ok l ]
        child ← parse_node_from_page t (n ∷ above) l
        search_node fuel t (n ∷ above) child key)

  -- updateParentLoc
  unfoldable pub update_parent_loc : Tree S → Location → Location → Outcome (Tree S)
  unfolding node_of node_bytes
  update_parent_loc t child parent = do
    e ← records.get t.store child
    nf ← node_of rank e
    boost_assert (ltb parent.loc 4096)
    let changed = record nf {
      parent_pg_no = parent.page_number % 2 ^ 32;
      parent_pg_off = parent.loc % 2 ^ 16;
    }
    s ← records.update_no_resize t.store child (node_bytes rank changed)
    ok (record t { store = s })

  unfoldable pub update_parent_locs : Tree S → List Location → Location → Outcome (Tree S)
  unfolding update_parent_loc
  update_parent_locs t [] parent = ok t
  update_parent_locs t (c ∷ cs) parent =
      update_parent_loc t c parent >>= (λ u. update_parent_locs u cs parent)

  -- The new root of a split: it has the two nodes as its children, which are written again under it.
  unfoldable pub new_root : Tree S → Node → Node → ℕ → Outcome (Tree S)
  unfolding write_back
  new_root t left right separator = do
    let top : Node = record {
      loc = no_location;
      parent_loc = no_location;
      keys = separator ∷ [];
      children = left.loc ∷ right.loc ∷ [];
      is_leaf = false;
    }
    r ← write_back t [] top
    a ← write_back r.0 (r.1 ∷ []) left
    b ← write_back a.0 (r.1 ∷ []) right
    store_root_location b.0 r.1.loc

  -- What splitNode does first: the node and a new one to its right, with the key between them.
  unfoldable pub halve : Tree S → List Node → Node → Outcome (Tree S × Node × Node × ℕ)
  unfolding write_back update_parent_locs
  halve t above n = do
    boost_assert (length n.keys == rank)
    h ← if n.is_leaf then split_leaf rank n else split_inner rank n
    r ← write_back t above (record {
      loc = no_location;
      parent_loc = elim (parent_loc_of above) [ none ↦ no_location | some l ↦ l ];
      keys = h.right_keys;
      children = h.right_children;
      is_leaf = n.is_leaf;
    })
    u ← if n.is_leaf then ok r.0 else update_parent_locs r.0 h.right_children r.1.loc
    l ← write_back u above (record n { keys = h.left_keys; children = h.left_children })
    ok (l.0, l.1, r.1, h.separator)

  -- splitNode of a node and, up the chain of its parents, of each one that is full.
  unfoldable pub split_node : Tree S → Node → List Node → Outcome (Tree S)
  unfolding halve new_root write_back
  split_node t n [] = halve t [] n >>= (λ h. new_root h.0 h.1 h.2 h.3)
  split_node t n (parent ∷ rest) = do
    h ← halve t (parent ∷ rest) n
    at ← get_child_pos parent h.1.loc
    wider ← insert_node_at parent at h.3 h.2.loc
    let up = split_node h.0 wider rest
    if leb rank (length wider.keys) then up else write_back h.0 rest wider >>= (λ r. ok r.0)

  -- insertAsRoot
  unfoldable pub insert_as_root : Tree S → ℕ → List ℕ → Outcome (Tree S)
  insert_as_root t key entry = do
    d ← records.insert t.store entry false
    nf ← to_buf rank none (record {
      loc = no_location;
      parent_loc = no_location;
      keys = key ∷ [];
      children = d.1 ∷ [];
      is_leaf = true;
    })
    r ← records.insert d.0 (node_bytes rank nf) false
    store_root_location (record t { store = r.0 }) r.1

  -- insertDataFrom the root.
  unfoldable pub insert_data_from : ℕ → Tree S → Node → ℕ → List ℕ → Outcome (Answer (Tree S))
  unfolding search_node split_node write_back
  insert_data_from fuel t root key entry = do
    r ← search_node fuel t [] root key
    let n = r.0.0
    boost_assert (leb r.1 (length n.keys))
    boost_assert n.is_leaf
    if r.2 then ok key_duplicated else (do
      d ← records.insert t.store entry false
      wider ← insert_loc_data_in_leaf_node n r.1 key d.1
      let u = record t { store = d.0 }
      v ←
          if length wider.children == rank
          then split_node u wider r.0.1
          else write_back u r.0.1 wider >>= (λ w. ok w.0)
      ok (answer v))

  -- BTree::insert
  unfoldable pub insert : ℕ → Tree S → ℕ → List ℕ → Outcome (Answer (Tree S))
  unfolding get_root insert_as_root insert_data_from
  insert fuel t key entry = do
    root ← get_root t
    elim root [
      | none ↦ insert_as_root t key entry >>= (λ u. ok (answer u))
      | some n ↦ insert_data_from fuel t n key entry
    ]

  -- The search of get, updateNoResize, update and remove.
  unfoldable pub find : ℕ → Tree S → ℕ → Outcome (Answer (Chain × ℕ))
  unfolding get_root search_node
  find fuel t key = do
    root ← get_root t
    elim root [
      | none ↦ ok key_not_found
      | some n ↦
          search_node fuel t [] n key
          >>= (λ r. ok (if r.2 then answer (r.0, r.1) else key_not_found))
    ]

  -- getDataLocation, with its bound.
  abbrev pub data_location : Chain → ℕ → Outcome Location
  data_location c at =
      boost_assert c.0.is_leaf
      >> (elim (get_elem? c.0.children at) [ none ↦ assert_failed | some l ↦ ok l ])

  -- BTree::get
  unfoldable pub get : ℕ → Tree S → ℕ → Outcome (Answer Entry)
  unfolding find
  get fuel t key = do
    found ← find fuel t key
    elim found [
      | key_not_found ↦ ok key_not_found
      | key_duplicated ↦ ok key_duplicated
      | answer (c, at) ↦
          data_location c at >>= (λ l. records.get t.store l >>= (λ e. ok (answer e)))
    ]

  -- BTree::update. The callback may use the record manager, and gives the changed record, or none
  -- where it returns false.
  unfoldable pub update :
      ℕ → Tree S → ℕ → (S → Entry → Outcome (S × Option Entry)) → Outcome (Answer (Tree S))
  unfolding find write_back
  update fuel t key callback = do
    found ← find fuel t key
    elim found [
      | key_not_found ↦ ok key_not_found
      | key_duplicated ↦ ok key_duplicated
      | answer (chain, at) ↦ do
        l ← data_location chain at
        e ← records.get t.store l
        c ← callback t.store e
        elim c.1 [
          | none ↦ ok (answer (record t { store = c.0 }))
          | some changed ↦ do
            m ← records.update_one c.0 l changed
            let u = record t { store = m.0 }
            if location_eq m.1 l
                then ok (answer u)
                else write_back u chain.1
                    (record chain.0 { children = set chain.0.children at m.1 })
                  >>= (λ w. ok (answer w.0))
        ]
    ]

  -- BTree::updateNoResize, with a callback that gives the changed record, or none.
  unfoldable pub update_no_resize :
      ℕ → Tree S → ℕ → (Entry → Option Entry) → Outcome (Answer (Tree S))
  unfolding find
  update_no_resize fuel t key callback = do
    found ← find fuel t key
    elim found [
      | key_not_found ↦ ok key_not_found
      | key_duplicated ↦ ok key_duplicated
      | answer (chain, at) ↦ do
        l ← data_location chain at
        e ← records.get t.store l
        elim (callback e) [
          | none ↦ ok (answer t)
          | some changed ↦
              records.update_no_resize t.store l changed
              >>= (λ s. ok (answer (record t { store = s })))
        ]
    ]

  -- deleteNode
  unfoldable pub delete_node : Tree S → Chain → ℕ → Outcome (Tree S)
  unfolding write_back
  delete_node t (n, above) key = do
    d ← delete_data n key
    s ← records.delete t.store d.0
    r ← write_back (record t { store = s }) above d.1
    let empty = length d.1.keys == 0
    elim above [
      | [] ↦
          if empty
          then records.delete r.0.store n.loc
            >>= (λ s. ok (record (clear_root_location r.0) { store = s }))
          else ok r.0
      | parent ∷ rest ↦
          if empty
          then (do
            boost_assert (leb rank_min (length parent.children - 1))
            thinner ← delete_child parent n.loc
            w ← write_back r.0 rest thinner
            s ← records.delete w.0.store n.loc
            ok (record w.0 { store = s }))
          else ok r.0
    ]

  -- BTree::remove: the root of an empty tree is a null pointer that searchNode follows.
  unfoldable pub remove : ℕ → Tree S → ℕ → Outcome (Answer (Tree S))
  unfolding get_root search_node delete_node
  remove fuel t key = do
    root ← get_root t
    elim root [
      | none ↦ undefined
      | some n ↦ do
        r ← search_node fuel t [] n key
        if r.2 then delete_node t r.0 key >>= (λ u. ok (answer u)) else ok key_not_found
    ]
