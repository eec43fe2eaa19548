-- ===== src/BTree/Formats.antt =====
-- toBuf and initFromBuf: a node is read back as it was written.
use tinydbpp.Base.{
  ℕ, zero, suc, ◌+◌, ◌-◌, ◌%◌, ◌^◌, ◌≤◌, ◌<◌, ◌≡◌, refl, ◌∙◌, ap, ap₂, Bool, true, false, not, ◌&&◌,
  Option, none, some, List, [], ◌∷◌, ◌++◌, ltb, leb, ◌==◌, ==_refl, if◌then◌else◌, length, get_or,
  ok, arith, ◌>>=◌,
}
use tinydbpp.Record.Table.{Location, location}
use tinydbpp.BTree.Node.{
  Node, NodeFormat, to_buf, init_from_buf, parent_no, parent_off, child_entry, first_of,
  all_in_page, compressed, no_location,
}

-- Locations that fit in a u32 and lie in a page.
abbrev pub InPages : List Location → Type 0
InPages [] = Unit {0}
InPages (l ∷ ls) = (l.page_number < 2 ^ 32) × (l.loc < 4096) × InPages ls

abbrev pub ParentFits : Option Location → Type 0
ParentFits none = Unit {0}
ParentFits (some l) = (l.page_number < 2 ^ 32) × (l.loc < 4096)

abbrev pub parent_location : Option Location → Location
parent_location none = no_location
parent_location (some l) = l

pub record IsWritable (rank : ℕ) (parent : Option Location) (n : Node) : Type 0 where
  pub byte : length n.keys ≤ 255
  pub room : length n.keys ≤ rank - 1
  pub counts : length n.children ≡ length n.keys + (if n.is_leaf then 0 else 1)
  pub children : InPages n.children
  pub above : ParentFits parent

pub first_of_same :
    {A : Type 0} (n : ℕ) (a b : ℕ → A) → ((i : ℕ) → i < n → a i ≡ b i) → first_of n a ≡ first_of n b
first_of_same zero a b h = refl
first_of_same (suc n) a b h =
    ap₂ (λ x xs. x ∷ xs) (h 0 (omega arith))
      (first_of_same n (λ i. a (suc i)) (λ i. b (suc i)) (λ i lt. h (suc i) (omega arith)))

first_of_list : {A : Type 0} (xs : List A) (d : A) → first_of (length xs) (λ i. get_or xs i d) ≡ xs
first_of_list [] d = refl
first_of_list (x ∷ xs) d = ap (λ ys. x ∷ ys) (first_of_list xs d)

first_of_snoc : {A : Type 0} (n : ℕ) (a : ℕ → A) → first_of n a ++ a n ∷ [] ≡ first_of (suc n) a
first_of_snoc zero a = refl
first_of_snoc (suc n) a = ap (λ ys. a 0 ∷ ys) (first_of_snoc n (λ i. a (suc i)))

compressed_small : (l : Location) → l.page_number < 2 ^ 32 → l.loc < 4096 → compressed l ≡ l
compressed_small l p o = ap₂ location (omega arith) (omega arith)

compressed_child :
    (ls : List Location) (i : ℕ)
    → InPages ls
    → i < length ls
    → compressed (get_or ls i no_location) ≡ get_or ls i no_location
compressed_child [] i h lt = absurd (omega arith)
compressed_child (l ∷ ls) zero h lt = compressed_small l h.0 h.1
compressed_child (l ∷ ls) (suc i) h lt = compressed_child ls i h.2 (omega arith)

all_in_page-true : (n : ℕ) (ls : List Location) → InPages ls → all_in_page n ls ≡ true
all_in_page-true zero ls h = refl
all_in_page-true (suc n) [] h = refl
all_in_page-true (suc n) (l ∷ ls) h =
    let here : leb l.loc 4096 ≡ true = ground (arith, h.1) in rw here (all_in_page-true n ls h.2)

-- The fields that toBuf fills in.
abbrev pub format : Option Location → Node → NodeFormat
format parent n =
    let count = length n.keys in
    let used = if n.is_leaf then count else count + 1 in
    record {
      n_key_count = count % 2 ^ 8;
      is_leaf = if n.is_leaf then 1 else 0;
      parent_pg_no = parent_no parent;
      parent_pg_off = parent_off parent;
      keys = λ i. get_or n.keys i 0;
      children = child_entry used n.children;
    }

parent_in_page :
    (parent : Option Location)
    → ParentFits parent
    → (elim parent [ none ↦ true | some l ↦ ltb l.loc 4096 ]) ≡ true
parent_in_page none h = refl
parent_in_page (some l) h = ground arith

pub to_buf-format :
    (rank : ℕ) (parent : Option Location) (n : Node)
    → IsWritable rank parent n
    → to_buf rank parent n ≡ ok (format parent n)
unfolding to_buf
to_buf-format rank parent n w =
    let byte : leb (length n.keys) 255 ≡ true = ground (arith, w.byte) in
    let room : leb (length n.keys) (rank - 1) ≡ true = ground (arith, w.room) in
    let counts : leb (if n.is_leaf then length n.keys else length n.keys + 1) (length n.children)
        ≡ true =
      ground (arith, w.counts) in
    rw
      (
        byte,
        parent_in_page parent w.above,
        room,
        counts,
        all_in_page-true (length n.keys) n.children w.children,
      )
      refl

parent_agrees :
    (parent : Option Location) (off pg : ℕ)
    → ParentFits parent
    → off ≡ parent_off parent
    → pg ≡ parent_no parent
    → (elim parent [ none ↦ true | some q ↦ q.loc == off && q.page_number % 2 ^ 32 == pg ]) ≡ true
parent_agrees none off pg h o m = refl
parent_agrees (some l) off pg h o m =
    let same : off ≡ l.loc = omega (arith, h.1, o) in
    rw (same, m, ==_refl l.loc, ==_refl (l.page_number % 2 ^ 32)) refl

parent_kept :
    (parent : Option Location)
    → ParentFits parent
    → location (parent_no parent) (parent_off parent) ≡ parent_location parent
parent_kept none h = refl
parent_kept (some l) h = compressed_small l h.0 h.1

child_entry_back :
    (used : ℕ) (cs : List Location)
    → InPages cs
    → used ≡ length cs
    → first_of used (child_entry used cs) ≡ cs
child_entry_back used cs h e =
    first_of_same used (child_entry used cs) (λ i. get_or cs i no_location)
      (λ i lt.
        rw (let z : ltb i used ≡ true = ground arith in z) (compressed_child cs i h (omega arith)))
    ∙ ap (λ m. first_of m (λ i. get_or cs i no_location)) e
    ∙ first_of_list cs no_location

children_back :
    (leaf : Bool) (count : ℕ) (cs : List Location)
    → length cs ≡ count + (if leaf then 0 else 1)
    → InPages cs
    → (let a = child_entry (if leaf then count else count + 1) cs in
        if leaf then first_of count a else first_of count a ++ a count ∷ [])
      ≡ cs
children_back true count cs e h = child_entry_back count cs h (omega arith)
children_back false count cs e h =
    let one : suc count ≡ count + 1 = omega arith in
    first_of_snoc count (child_entry (count + 1) cs)
    ∙ ap (λ m. first_of m (child_entry (count + 1) cs)) one
    ∙ child_entry_back (count + 1) cs h (omega arith)

leaf_back : (b : Bool) → not ((if b then 1 else 0) == 0) ≡ b
leaf_back true = refl
leaf_back false = refl

pub init_from_buf-format :
    (rank : ℕ) (parent : Option Location) (n : Node)
    → IsWritable rank parent n
    → init_from_buf parent n.loc (format parent n)
      ≡ ok (record n { parent_loc = parent_location parent })
unfolding init_from_buf
init_from_buf-format rank parent n w =
    let count : length n.keys % 2 ^ 8 ≡ length n.keys = omega (arith, w.byte) in
    rw
      (
        parent_agrees parent (parent_off parent) (parent_no parent) w.above refl refl,
        leaf_back n.is_leaf,
        parent_kept parent w.above,
        count,
        first_of_list n.keys 0,
      )
      (ap (λ cs. ok (record n { parent_loc = parent_location parent; children = cs }))
        (children_back n.is_leaf (length n.keys) n.children w.counts w.children))

-- A node with as many children as its kind asks for, keys that fit the rank and a byte, and
-- locations inside pages is read back by `initFromBuf` from what `toBuf` writes, with the parent's
-- location.
pub to_buf-init_from_buf :
    (rank : ℕ) (parent : Option Location) (n : Node)
    → IsWritable rank parent n
    → (to_buf rank parent n >>= init_from_buf parent n.loc)
      ≡ ok (record n { parent_loc = parent_location parent })
to_buf-init_from_buf rank parent n w =
    ap (λ m. m >>= init_from_buf parent n.loc) (to_buf-format rank parent n w)
    ∙ init_from_buf-format rank parent n w
