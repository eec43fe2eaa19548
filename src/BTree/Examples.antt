-- ===== src/BTree/Examples.antt =====
-- Nodes of rank 4.
use tinydbpp.Base.{
  ℕ, ◌==◌, ◌+◌, ◌*◌, ◌/◌, ◌%◌, ◌++◌, length, get_or, if◌then◌else◌, ◌≡◌, refl, List, [], ◌∷◌, true,
  false, some, none, ok, ◌>>=◌, arith,
}
use tinydbpp.Base.Bytes.{Bytes, memcpy, slice}
use tinydbpp.Record.Page.{read_record}
use tinydbpp.Record.Table.{File, Location, location, get_record}
use tinydbpp.BTree.Layout.{node_bytes, node_of}
use tinydbpp.BTree.Tree.{Tree, Entry, answer, get, parse_node_from_page, write_back}
use tinydbpp.BTree.Visit.{traverse_leaf_node}
use tinydbpp.BTree.Manager.{record_manager}
use tinydbpp.BTree.Written.{write_back-parse_node_from_page}
use tinydbpp.Record.Page.Blocks.{Block}
use tinydbpp.Record.Table.Dictionary.{IsTable}
use tinydbpp.BTree.Shape.{Shape, more, end, assoc, entries, IsOrdered, Within}
use tinydbpp.BTree.Lookup.{Represents, read_at, get-assoc}
use tinydbpp.BTree.Traversal.{reading, unchanged, read_entries, traverse_leaf_node-entries}
use tinydbpp.BTree.Node.{
  Node, NodeFormat, Halves, no_location, search_leaf, split_leaf, split_inner, to_buf,
  init_from_buf,
}
use tinydbpp.BTree.Search.{below, is_key, search_leaf-below}
use tinydbpp.BTree.Formats.{parent_location, to_buf-init_from_buf}
use tinydbpp.BTree.Root.{new_header, store_root, clear_root, read_root, store_root-read_root}
use tinydbpp.BTree.Split.{LeafHalves, split_leaf-LeafHalves, InnerHalves, split_inner-InnerHalves}

abbrev places : List Location
places = location 2 0 ∷ location 2 9 ∷ location 3 7 ∷ location 70000 300 ∷ []

abbrev leaf : Node
leaf = record {
  loc = location 5 12;
  parent_loc = no_location;
  keys = 1 ∷ 4 ∷ 6 ∷ 9 ∷ [];
  children = places;
  is_leaf = true;
}

abbrev inner : Node
inner = record {
  loc = location 5 12;
  parent_loc = no_location;
  keys = 1 ∷ 4 ∷ 6 ∷ [];
  children = places;
  is_leaf = false;
}

search_leaf-below_example :
    search_leaf (1 ∷ 4 ∷ 6 ∷ 9 ∷ []) 5
    ≡ ok (below 5 (1 ∷ 4 ∷ 6 ∷ 9 ∷ []), is_key 5 (1 ∷ 4 ∷ 6 ∷ 9 ∷ []))
search_leaf-below_example =
    search_leaf-below 1 (4 ∷ 6 ∷ 9 ∷ []) 5 (omega arith, (omega arith, (omega arith, tt)))

to_buf-init_from_buf_example :
    (to_buf 50 (some (location 4 16)) inner
      >>= init_from_buf (some (location 4 16)) (location 5 12))
    ≡ ok (record inner { parent_loc = parent_location (some (location 4 16)) })
to_buf-init_from_buf_example = to_buf-init_from_buf 50 (some (location 4 16)) inner record {
  byte = omega arith;
  room = omega arith;
  counts = refl;
  children = (
    omega arith,
    omega arith,
    (omega arith, omega arith, (omega arith, omega arith, (omega arith, omega arith, tt))),
  );
  above = (omega arith, omega arith);
}

split_leaf-LeafHalves_example : (h : Halves) × (split_leaf 4 leaf ≡ ok h) × LeafHalves 4 leaf h
split_leaf-LeafHalves_example = split_leaf-LeafHalves 4 leaf (omega arith) refl refl

split_inner-InnerHalves_example :
    (h : Halves) × (split_inner 3 inner ≡ ok h) × InnerHalves 3 inner h
split_inner-InnerHalves_example = split_inner-InnerHalves 3 inner (omega arith) refl refl

-- A table file with a tree of an inner node and two leaves, of rank 4, and the records of its keys:
-- the nodes stand at 0, 75 and 150 of page 2, and the keys' records from 225 on.
abbrev framed : List ℕ → List ℕ
framed r = 1 ∷ length r % 256 ∷ length r / 256 ∷ r

abbrev two_keys : ℕ → ℕ → ℕ → ℕ
two_keys a b i = if i == 0 then a else b

abbrev leaf_format : ℕ → ℕ → ℕ → NodeFormat
leaf_format a b at = record {
  n_key_count = 2;
  is_leaf = 1;
  parent_pg_no = 2;
  parent_pg_off = 0;
  keys = two_keys a b;
  children = λ i. location 2 (at + 4 * i);
}

abbrev root_format : NodeFormat
root_format = record {
  n_key_count = 1;
  is_leaf = 0;
  parent_pg_no = 0;
  parent_pg_off = 0;
  keys = λ i. 5;
  children = λ i. location 2 (75 + 75 * i);
}

abbrev stored_bytes : List ℕ
unfolding node_bytes
stored_bytes =
    framed (node_bytes 4 root_format)
    ++ framed (node_bytes 4 (leaf_format 1 4 225))
    ++ framed (node_bytes 4 (leaf_format 5 9 233))
    ++ framed (10 ∷ [])
    ++ framed (40 ∷ [])
    ++ framed (50 ∷ [])
    ++ framed (90 ∷ [])

abbrev stored : File
unfolding stored_bytes
stored = record {
  pages = 3;
  page = λ p i. if p == 1 then if i == 0 then 1 else 0 else get_or stored_bytes i 0;
}

abbrev tree : Tree File
tree = record { store = stored; root = location 2 0 }

abbrev lower : Shape
lower = Shape.leaf ((1, location 2 225) ∷ (4, location 2 229) ∷ [])

abbrev upper : Shape
upper = Shape.leaf ((5, location 2 233) ∷ (9, location 2 237) ∷ [])

abbrev whole : Shape
whole = Shape.inner lower (more 5 upper end)

abbrev root_node : Node
root_node = record {
  loc = location 2 0;
  parent_loc = no_location;
  keys = 5 ∷ [];
  children = location 2 75 ∷ location 2 150 ∷ [];
  is_leaf = false;
}

abbrev leaf_node : ℕ → List ℕ → List Location → Node
leaf_node at ks ls = record {
  loc = location 2 at;
  parent_loc = location 2 0;
  keys = ks;
  children = ls;
  is_leaf = true;
}

whole-Represents : Represents 1 4 (record_manager 0) tree [] (location 2 0) whole
unfolding Represents parse_node_from_page init_from_buf node_of get_record read_record slice stored
    stored_bytes node_bytes
whole-Represents = (
  root_node,
  location 2 75,
  location 2 150 ∷ [],
  refl,
  refl,
  refl,
  refl,
  (leaf_node 75 (1 ∷ 4 ∷ []) (location 2 225 ∷ location 2 229 ∷ []), refl, refl, refl, refl),
  ((leaf_node 150 (5 ∷ 9 ∷ []) (location 2 233 ∷ location 2 237 ∷ []), refl, refl, refl, refl), tt),
)

whole-IsOrdered : IsOrdered whole
unfolding IsOrdered entries
whole-IsOrdered = (
  tt,
  ((omega arith, (omega arith, tt)), (omega arith, (omega arith, tt)), tt),
  (omega arith, tt),
  ((omega arith, tt), tt),
)

whole-Within : Within 2 whole
unfolding Within
whole-Within = (tt, (tt, tt))

get-assoc_example :
    get 1 4 (record_manager 0) 2 tree 9
    ≡ read_at 1 4 (record_manager 0) tree (assoc 9 (entries whole))
get-assoc_example =
    get-assoc 1 4 (record_manager 0) 2 tree whole 9 (omega arith) whole-Represents whole-IsOrdered
      whole-Within

-- The keys in the order of the calls.
abbrev collected : List ℕ → ℕ → Entry → List ℕ
collected ks k e = ks ++ k ∷ []

traverse_leaf_node-entries_example :
    (parse_node_from_page 1 4 (record_manager 0) tree [] (location 2 0) >>= λ n.
    traverse_leaf_node 1 4
      (record_manager 0)
      (reading 1 4 (record_manager 0) collected)
      2
      tree
      []
      n
      [])
    ≡ unchanged 1 4
        (record_manager 0)
        collected
        stored
        (read_entries 1 4 (record_manager 0) collected stored [] (entries whole))
traverse_leaf_node-entries_example =
    traverse_leaf_node-entries 1 4 (record_manager 0) collected 2 tree [] (location 2 0) whole []
      whole-Represents whole-Within

read_9 : read_at 1 4 (record_manager 0) tree (assoc 9 (entries whole)) ≡ ok (answer (90 ∷ []))
unfolding read_at entries get_record read_record slice stored stored_bytes node_bytes
read_9 = refl

-- A new leaf in an empty file.
abbrev new_leaf : Node
new_leaf = record leaf { loc = no_location }

abbrev new_tree : Tree File
new_tree = record { store = record { pages = 0; page = λ p i. 0 }; root = no_location }

abbrev no_blocks : ℕ → List Block
no_blocks p = []

write_back-parse_node_from_page_example :
    (u : Tree File) × (at : Location) × (blocks : ℕ → List Block) × (write_back 26 50
        (record_manager 0)
        new_tree
        []
        new_leaf
      ≡ ok (u, record new_leaf { loc = at }))
    × IsTable u.store blocks
    × (parse_node_from_page 26 50 (record_manager 0) u [] at
        ≡ ok (record new_leaf { loc = at; parent_loc = parent_location none }))
write_back-parse_node_from_page_example =
    write_back-parse_node_from_page 0 26 50 new_tree no_blocks [] new_leaf
      (λ p v. absurd (omega (arith, v.1))) (omega arith) (omega arith) (omega arith) refl
      (omega arith, (omega arith, (omega arith, (omega arith, tt))))
      record {
        byte = omega arith;
        room = omega arith;
        counts = refl;
        children = (
          omega arith,
          omega arith,
          (omega arith, omega arith, (omega arith, omega arith, (omega arith, omega arith, tt))),
        );
        above = tt;
      }

store_root-read_root_example :
    let new = memcpy (λ i. 0) 0 (new_header 808) in
    (d : Bytes) × (read_root 808 new ≡ ok none)
    × (store_root 9 new (location 7 20) ≡ ok d)
    × (read_root 808 d ≡ ok (some (location 7 20)))
    × (read_root 808 (clear_root d) ≡ ok none)
store_root-read_root_example =
    store_root-read_root 808 9 (λ i. 0) (location 7 20) (omega arith) (omega arith) (omega arith)
      (omega arith) (omega arith)
