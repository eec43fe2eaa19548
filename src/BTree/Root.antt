-- ===== src/BTree/Root.antt =====
-- Page 0 of an index in src/BTree/BTree.h: setupBTree, storeRootLocation, clearRootLocation and the
-- reading of it in getRoot. The size of a node's format is a parameter.
use tinydbpp.Base.{
  ℕ, ◌+◌, ◌%◌, ◌^◌, ◌<◌, ◌≤◌, ◌≡◌, refl, ◌∙◌, true, false, ◌&&◌, Option, none, some, List, ◌++◌,
  ltb, ◌==◌, if◌then◌else◌, arith, Outcome, ok, ◌>>◌, boost_assert,
}
use tinydbpp.Base.Bytes.{
  Bytes, memcpy, memcpy_below, int_bytes, int_at, int_at-bytes, Holds, Holds-left, Holds-right,
  memcpy-Holds,
}
use tinydbpp.Record.Table.{Location, location}

-- BTREE_FILE_MAGIC_NUMBER
abbrev pub btree_file_magic_number : ℕ
btree_file_magic_number = 3674948334

-- _Page0 of a new tree: the magic number, the size of a node, and no root.
abbrev pub new_header : ℕ → List ℕ
new_header node_size =
    int_bytes btree_file_magic_number ++ int_bytes node_size ++ int_bytes 0 ++ int_bytes 0

-- storeRootLocation, for a file of so many valid pages.
unfoldable pub store_root : ℕ → Bytes → Location → Outcome Bytes
store_root pages b at = do
  boost_assert (ltb 0 at.page_number && ltb at.page_number pages)
  boost_assert (ltb at.loc 4096)
  ok (memcpy b 8 (int_bytes (at.page_number % 2 ^ 32) ++ int_bytes (at.loc % 2 ^ 16)))

-- clearRootLocation
unfoldable pub clear_root : Bytes → Bytes
clear_root b = memcpy b 8 (int_bytes 0 ++ int_bytes 0)

-- getRoot, up to the location of the root's node.
unfoldable pub read_root : ℕ → Bytes → Outcome (Option Location)
read_root node_size b = do
  boost_assert (int_at b 0 == btree_file_magic_number)
  boost_assert (node_size == int_at b 4)
  ok (if int_at b 8 == 0 then none else some (location (int_at b 8) (int_at b 12)))

-- The four words of page 0.
record Header (b : Bytes) (node_size page loc : ℕ) : Type 0 where
  magic : int_at b 0 ≡ btree_file_magic_number
  size : int_at b 4 ≡ node_size
  root_page : int_at b 8 ≡ page
  root_loc : int_at b 12 ≡ loc

int_at_below :
    (b : Bytes) (o p : ℕ) (xs : List ℕ) → p + 4 ≤ o → int_at (memcpy b o xs) p ≡ int_at b p
int_at_below b o p xs h =
    rw
      (
        memcpy_below b o xs p (omega arith),
        memcpy_below b o xs (p + 1) (omega arith),
        memcpy_below b o xs (p + 1 + 1) (omega arith),
        memcpy_below b o xs (p + 1 + 1 + 1) (omega arith),
      )
      refl

-- Two words that stand one after the other.
two_words :
    (b : Bytes) (o v w : ℕ)
    → v < 2 ^ 32
    → w < 2 ^ 32
    → Holds b o (int_bytes v ++ int_bytes w)
    → (int_at b o ≡ v) × (int_at b (o + 4) ≡ w)
two_words b o v w hv hw h = (
  int_at-bytes b o v hv (Holds-left b o (int_bytes v) (int_bytes w) h),
  int_at-bytes b (o + 4) w hw (Holds-right b o (int_bytes v) (int_bytes w) h),
)

new_header-Header :
    (b : Bytes) (node_size : ℕ)
    → node_size < 2 ^ 32
    → Header (memcpy b 0 (new_header node_size)) node_size 0 0
new_header-Header b node_size small =
    let d = memcpy b 0 (new_header node_size) in
    let first = int_bytes btree_file_magic_number ++ int_bytes node_size in
    let last = int_bytes 0 ++ int_bytes 0 in
    let holds : Holds d 0 (first ++ last) = memcpy-Holds b 0 (new_header node_size) in
    let (magic, size) =
      two_words d 0 btree_file_magic_number node_size (omega arith) small
        (Holds-left d 0 first last holds) in
    let (page, loc) =
      two_words d 8 0 0 (omega arith) (omega arith) (Holds-right d 0 first last holds) in
    record { magic = magic; size = size; root_page = page; root_loc = loc }

written-Header :
    (b : Bytes) (node_size page loc v w : ℕ)
    → v < 2 ^ 32
    → w < 2 ^ 32
    → Header b node_size page loc
    → Header (memcpy b 8 (int_bytes v ++ int_bytes w)) node_size v w
written-Header b node_size page loc v w hv hw h =
    let d = memcpy b 8 (int_bytes v ++ int_bytes w) in
    let (p, l) = two_words d 8 v w hv hw (memcpy-Holds b 8 (int_bytes v ++ int_bytes w)) in
    record {
      magic = int_at_below b 8 0 (int_bytes v ++ int_bytes w) (omega arith) ∙ h.magic;
      size = int_at_below b 8 4 (int_bytes v ++ int_bytes w) (omega arith) ∙ h.size;
      root_page = p;
      root_loc = l;
    }

read_root-Header :
    (b : Bytes) (node_size page loc : ℕ)
    → Header b node_size page loc
    → read_root node_size b ≡ ok (if page == 0 then none else some (location page loc))
unfolding read_root
read_root-Header b node_size page loc h =
    let magic : (int_at b 0 == btree_file_magic_number) ≡ true = ground (arith, h.magic) in
    let size : (node_size == int_at b 4) ≡ true = ground (arith, h.size) in
    rw (magic, size, h.root_page, h.root_loc) refl

-- A new index has no root.
pub new_header-read_root :
    (node_size : ℕ) (b : Bytes)
    → node_size < 2 ^ 32
    → read_root node_size (memcpy b 0 (new_header node_size)) ≡ ok none
new_header-read_root node_size b small =
    read_root-Header (memcpy b 0 (new_header node_size)) node_size 0 0
      (new_header-Header b node_size small)

-- The page 0 that `setupBTree` writes for a size of nodes of 32 bits has no root;
-- `storeRootLocation` of a location in a valid page behind it returns, and that location is read
-- back as the root; after `clearRootLocation` there is no root again.
pub store_root-read_root :
    (node_size pages : ℕ) (b : Bytes) (at : Location)
    → node_size < 2 ^ 32
    → pages < 2 ^ 31
    → 0 < at.page_number
    → at.page_number < pages
    → at.loc < 4096
    → let new = memcpy b 0 (new_header node_size) in
      (d : Bytes) × (read_root node_size new ≡ ok none)
      × (store_root pages new at ≡ ok d)
      × (read_root node_size d ≡ ok (some at))
      × (read_root node_size (clear_root d) ≡ ok none)
unfolding store_root clear_root
store_root-read_root node_size pages b at small few some_page inside low =
    let h = new_header-Header b node_size small in
    let new = memcpy b 0 (new_header node_size) in
    let above : (ltb 0 at.page_number && ltb at.page_number pages) ≡ true = ground arith in
    let below : ltb at.loc 4096 ≡ true = ground arith in
    let page : at.page_number % 2 ^ 32 ≡ at.page_number = omega arith in
    let loc : at.loc % 2 ^ 16 ≡ at.loc = omega arith in
    let k = written-Header new node_size 0 0 at.page_number at.loc (omega arith) (omega arith) h in
    let d = memcpy new 8 (int_bytes at.page_number ++ int_bytes at.loc) in
    let cleared =
      written-Header d node_size at.page_number at.loc 0 0 (omega arith) (omega arith) k in
    let there : (at.page_number == 0) ≡ false = ground arith in
    (
      d,
      read_root-Header new node_size 0 0 h,
      rw (above, below, page, loc) refl,
      read_root-Header d node_size at.page_number at.loc k ∙ rw there refl,
      read_root-Header (clear_root d) node_size 0 0 cleared,
    )
