-- ===== src/BTree/Node.antt =====
-- BTree<KeyT, BRankMin, BRankMax>::Node of src/BTree/BTree.h, apart from its writes to the file.
-- KeyT is `size_t`, as in src/BTree/TheBTree.h. A node's `parent` pointer stands beside the node, as
-- the list of the nodes above it, the nearest first.
use tinydbpp.Base.{
  ℕ, zero, suc, ◌+◌, ◌-◌, ◌/◌, ◌%◌, ◌^◌, Bool, true, false, not, ◌&&◌, Option, none, some, List, [],
  ◌∷◌, ◌++◌, ltb, leb, ◌==◌, if◌then◌else◌, length, get_elem?, get_or, take, drop, Outcome, ok,
  assert_failed, undefined, ◌>>=◌, ◌>>◌, boost_assert, in_bounds,
}
use tinydbpp.Record.Table.{Location, location, location_eq}

pub record Node : Type 0 where
  pub loc : Location
  pub parent_loc : Location
  pub keys : List ℕ
  pub children : List Location
  pub is_leaf : Bool

-- _NodeFormat, with its two arrays as functions of the index.
pub record NodeFormat : Type 0 where
  pub n_key_count : ℕ
  pub is_leaf : ℕ
  pub parent_pg_no : ℕ
  pub parent_pg_off : ℕ
  pub keys : ℕ → ℕ
  pub children : ℕ → Location

-- insert(begin() + at, x): the position may be the end.
abbrev pub insert_at {ℓ} : {A : Type ℓ} → ℕ → A → List A → Outcome (List A)
insert_at at x xs = in_bounds (leb at (length xs)) >> ok (take at xs ++ x ∷ drop at xs)

-- erase(begin() + at).
abbrev pub erase_at {ℓ} : {A : Type ℓ} → ℕ → List A → Outcome (List A)
erase_at at xs = in_bounds (ltb at (length xs)) >> ok (take at xs ++ drop (at + 1) xs)

-- The loops that look for the first equal element.
abbrev pub index_of : ℕ → List ℕ → Option ℕ
index_of k [] = none
index_of k (x ∷ xs) =
    let rest = index_of k xs in
    if x == k then some 0 else elim rest [ none ↦ none | some i ↦ some (i + 1) ]

abbrev pub index_of_loc : Location → List Location → Option ℕ
index_of_loc l [] = none
index_of_loc l (x ∷ xs) =
    let rest = index_of_loc l xs in
    if location_eq x l then some 0 else elim rest [ none ↦ none | some i ↦ some (i + 1) ]

unfoldable pub insert_loc_data_in_leaf_node : Node → ℕ → ℕ → Location → Outcome Node
insert_loc_data_in_leaf_node n at key entry = do
  boost_assert n.is_leaf
  ks ← insert_at at key n.keys
  cs ← insert_at at entry n.children
  ok (record n { keys = ks; children = cs })

unfoldable pub insert_node_at : Node → ℕ → ℕ → Location → Outcome Node
insert_node_at n key_at key child = do
  boost_assert (not n.is_leaf)
  boost_assert (leb key_at (length n.keys))
  ks ← insert_at key_at key n.keys
  cs ← insert_at (key_at + 1) child n.children
  ok (record n { keys = ks; children = cs })

-- deleteData without the calls of the record manager: the location to free, and the node.
unfoldable pub delete_data : Node → ℕ → Outcome (Location × Node)
delete_data n key = do
  boost_assert n.is_leaf
  elim (index_of key n.keys) [
    | none ↦ assert_failed
    | some i ↦ do
      entry ← elim (get_elem? n.children i) [ none ↦ undefined | some l ↦ ok l ]
      ks ← erase_at i n.keys
      cs ← erase_at i n.children
      ok (entry, record n { keys = ks; children = cs })
  ]

-- deleteChild without its writeBack.
unfoldable pub delete_child : Node → Location → Outcome Node
delete_child n child = elim (index_of_loc child n.children) [
  | none ↦ assert_failed
  | some i ↦ do
    ks ← erase_at (if i == 0 then 0 else i - 1) n.keys
    cs ← erase_at i n.children
    ok (record n { keys = ks; children = cs })
]

unfoldable pub get_child_pos : Node → Location → Outcome ℕ
get_child_pos n l = do
  boost_assert (not n.is_leaf)
  elim (index_of_loc l n.children) [ none ↦ assert_failed | some i ↦ ok i ]

-- The static_casts to uint32_t and uint16_t.
abbrev pub compressed : Location → Location
compressed l = location (l.page_number % 2 ^ 32) (l.loc % 2 ^ 16)

-- The first `n` of these, with BOOST_ASSERT(loc <= PAGER_PAGE_SIZE) for each.
abbrev pub all_in_page : ℕ → List Location → Bool
all_in_page zero ls = true
all_in_page (suc n) [] = true
all_in_page (suc n) (l ∷ ls) = leb l.loc 4096 && all_in_page n ls

abbrev pub no_location : Location
no_location = location 0 0

-- The parent's fields: zero without a parent.
abbrev pub parent_no : Option Location → ℕ
parent_no none = 0
parent_no (some l) = l.page_number % 2 ^ 32

abbrev pub parent_off : Option Location → ℕ
parent_off none = 0
parent_off (some l) = l.loc % 2 ^ 16

abbrev pub child_entry : ℕ → List Location → ℕ → Location
child_entry used cs i = if ltb i used then compressed (get_or cs i no_location) else no_location

-- toBuf, for a node whose parent pointer gives this location. The children are read up to the key
-- count, and one more of an inner node.
unfoldable pub to_buf : ℕ → Option Location → Node → Outcome NodeFormat
to_buf rank parent n =
    let count = length n.keys in
    let used = if n.is_leaf then count else count + 1 in
    (do
      boost_assert (leb count 255)
      boost_assert (elim parent [ none ↦ true | some l ↦ ltb l.loc 4096 ])
      in_bounds (leb count (rank - 1) && leb used (length n.children))
      boost_assert (all_in_page count n.children)
      ok (record {
        n_key_count = count % 2 ^ 8;
        is_leaf = if n.is_leaf then 1 else 0;
        parent_pg_no = parent_no parent;
        parent_pg_off = parent_off parent;
        keys = λ i. get_or n.keys i 0;
        children = child_entry used n.children;
      }))

-- The first elements of an array.
abbrev pub first_of {ℓ} : {A : Type ℓ} → ℕ → (ℕ → A) → List A
first_of zero a = []
first_of (suc n) a = a 0 ∷ first_of n (λ i. a (suc i))

-- initFromBuf, for a node at a location, under a parent pointer.
unfoldable pub init_from_buf : Option Location → Location → NodeFormat → Outcome Node
init_from_buf parent l nf =
    let leaf = not (nf.is_leaf == 0) in
    let cs = first_of nf.n_key_count nf.children in
    (do
      boost_assert (elim parent [
        | none ↦ true
        | some q ↦ q.loc == nf.parent_pg_off && q.page_number % 2 ^ 32 == nf.parent_pg_no
      ])
      ok (record {
        loc = l;
        parent_loc = location nf.parent_pg_no nf.parent_pg_off;
        keys = first_of nf.n_key_count nf.keys;
        children = if leaf then cs else cs ++ nf.children nf.n_key_count ∷ [];
        is_leaf = leaf;
      }))

-- The loop of searchNode in a leaf, from key `i` on: the position, and whether it is the key.
abbrev pub leaf_loop : ℕ → ℕ → ℕ → List ℕ → Outcome (ℕ × Bool)
leaf_loop key i a [] = assert_failed
leaf_loop key i a (b ∷ ks) =
    let rest = leaf_loop key (i + 1) b ks in
    if a == key then ok (i, true) else if leb a key && ltb key b then ok (i + 1, false) else rest

abbrev pub last_or : ℕ → List ℕ → ℕ
last_or a [] = a
last_or a (b ∷ ks) = last_or b ks

-- searchNode at a leaf: `at` and `found`.
unfoldable pub search_leaf : List ℕ → ℕ → Outcome (ℕ × Bool)
search_leaf [] key = assert_failed
search_leaf (a ∷ ks) key =
    let last = last_or a ks in
    if ltb key a
    then ok (0, false)
    else if key == a
    then ok (0, true)
    else if ltb last key
    then ok (length ks + 1, false)
    else if key == last
    then ok (length ks, true)
    else leaf_loop key 0 a ks

abbrev pub inner_loop : ℕ → ℕ → ℕ → List ℕ → Outcome ℕ
inner_loop key i a [] = assert_failed
inner_loop key i a (b ∷ ks) =
    let rest = inner_loop key (i + 1) b ks in if leb a key && ltb key b then ok (i + 1) else rest

-- searchNode at an inner node: the index of the child to go to, of `child_count` children.
unfoldable pub search_inner : List ℕ → ℕ → ℕ → Outcome ℕ
search_inner [] child_count key = assert_failed
search_inner (a ∷ ks) child_count key = do
  boost_assert (length ks + 2 == child_count)
  if ltb key a
      then ok 0
      else if leb (last_or a ks) key
      then ok (child_count - 1)
      else inner_loop key 0 a ks

-- The parts of splitNode: the left node's entries, the key for the parent, the right node's entries.
pub record Halves : Type 0 where
  pub left_keys : List ℕ
  pub left_children : List Location
  pub separator : ℕ
  pub right_keys : List ℕ
  pub right_children : List Location

unfoldable pub split_leaf : ℕ → Node → Outcome Halves
split_leaf rank n =
    let half = rank / 2 in
    elim (get_elem? n.keys half) [
      | none ↦ undefined
      | some separator ↦ do
        in_bounds (leb half (length n.children))
        ok (record {
          left_keys = take half n.keys;
          left_children = take half n.children;
          separator = separator;
          right_keys = drop half n.keys;
          right_children = drop half n.children;
        })
    ]

unfoldable pub split_inner : ℕ → Node → Outcome Halves
split_inner rank n =
    let half = rank / 2 in
    elim (get_elem? n.keys half) [
      | none ↦ undefined
      | some separator ↦ do
        in_bounds (leb (half + 1) (length n.children))
        ok (record {
          left_keys = take half n.keys;
          left_children = take (half + 1) n.children;
          separator = separator;
          right_keys = drop (half + 1) n.keys;
          right_children = drop (half + 1) n.children;
        })
    ]
