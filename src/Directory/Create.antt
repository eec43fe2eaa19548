-- ===== src/Directory/Create.antt =====
-- CREATE TABLE, setupBTree and getTableDescription on a file system that opens and keeps files.
use tinydbpp.Base.{
  ℕ, zero, suc, ◌+◌, ◌<◌, ◌%◌, ◌^◌, ◌≡◌, refl, sym, ◌∙◌, ap, subst, Bool, true, false, not, ◌&&◌,
  none, some, List, [], ◌∷◌, ◌++◌, length, ◌==◌, arith, Bool-cases, inl, inr, Outcome, ok, ◌>>=◌,
}
use tinydbpp.Base.Bytes.{Bytes, memcpy, Holds}
use tinydbpp.BTree.Root.{new_header, new_header-read_root, read_root}
use tinydbpp.Pager.{Pager, release_buf, modify, write_back_all}
use tinydbpp.Pager.Lifetime.{opened, opened-StandsFor, destroy_pager}
use tinydbpp.Query.{Text, Field}
use tinydbpp.Schema.{write_scheme}
use tinydbpp.Files.{Os}
use tinydbpp.Directory.{
  Manager, in_dir, c_string, page_zero, write_page_zero, open_file, close_file, build_table,
}
use tinydbpp.Directory.Exec.{
  succeed, set_up_b_tree, set_up_b_trees, write_scheme_page, create_table,
}
use tinydbpp.Directory.PageZero.{change_zero-closed}

-- In the directory, every file can be opened; a new one is empty, and one that is there keeps its
-- size and its pages. A file that has been written has what was written.
pub record KeepsFiles {S : Type 0} (os : Os S) (dir : Text) : Type 0 where
  pub opened :
      (s : S) (name : Text)
      → let path = in_dir dir name in
        (t : S) × (os.open_create s path ≡ some t)
        × (os.readable s path ≡ false → os.size t path ≡ 0)
        × (os.readable s path ≡ true → os.size t path ≡ os.size s path)
        × (os.readable s path ≡ true → os.pages t path ≡ os.pages s path)
  pub stored :
      (s : S) (path : Text) (size : ℕ) (file : ℕ → Bytes)
      → let t = os.store s path size file in
        (os.readable t path ≡ true) × (os.size t path ≡ size) × (os.pages t path ≡ file)

abbrev pub no_zero : Text → Bool
no_zero [] = true
no_zero (c ∷ cs) = not (c == 0) && no_zero cs

pub c_string-Holds :
    (n : ℕ) (d : Bytes) (o : ℕ) (text : Text)
    → length text < n
    → no_zero text ≡ true
    → Holds d o (text ++ 0 ∷ [])
    → c_string n d o ≡ ok text
unfolding c_string
c_string-Holds zero d o text short h g = absurd (omega arith)
c_string-Holds (suc n) d o [] short h g = rw (c_string, g.0) refl
c_string-Holds (suc n) d o (c ∷ cs) short h g =
    let z : (c == 0) ≡ false = ground (arith, h) in
    rw (c_string, g.0, z, c_string-Holds n d (o + 1) cs (omega arith) (ground (arith, h)) g.1)
      (ap (λ x. ok (x ∷ cs)) g.0)

-- What buildTable leaves of a manager, with the table's file.
pub record Built {S : Type 0} (os : Os S) (m n : Manager S) (name : Text) (bytes : Bytes)
    : Type 0 where
  pub dir : n.dir ≡ m.dir
  pub dbname : n.dbname ≡ m.dbname
  pub table_map : n.table_map ≡ m.table_map
  pub readable : os.readable n.files (in_dir n.dir name) ≡ true
  pub whole : os.size n.files (in_dir n.dir name) % 4096 ≡ 0
  pub page : os.pages n.files (in_dir n.dir name) 0 ≡ bytes

module _ {S : Type 0} (os : Os S) where
  -- A pager of a new file.
  open_file-new :
      (s : S) (dir name : Text)
      → KeepsFiles os dir
      → os.readable s (in_dir dir name) ≡ false
      → (t : S) × (open_file os s (in_dir dir name)
          ≡ ok (t, opened 0 (os.pages t (in_dir dir name)) 102400 true))
  unfolding open_file
  open_file-new s dir name laws fresh =
      let (t, opens, empty, same_size, same_pages) = laws.opened s name in
      (t, rw (open_file, opens, empty fresh) refl)

  -- A pager of a file that is there.
  pub open_file-old :
      (s : S) (dir name : Text)
      → KeepsFiles os dir
      → os.readable s (in_dir dir name) ≡ true
      → os.size s (in_dir dir name) % 4096 ≡ 0
      → (t : S) × (open_file os s (in_dir dir name)
          ≡ ok (t, opened (os.size s (in_dir dir name)) (os.pages s (in_dir dir name)) 102400 true))
  unfolding open_file
  open_file-old s dir name laws there whole =
      let (t, opens, empty, same_size, same_pages) = laws.opened s name in
      let z : (os.size s (in_dir dir name) % 4096 == 0) ≡ true = ground arith in
      (t, rw (open_file, opens, same_size there, same_pages there, z) refl)

  close_file-ok :
      (s : S) (path : Text) (p : Pager)
      → destroy_pager p ≡ ok (p.file_size, p.file)
      → close_file os s path p ≡ ok (os.store s path p.file_size p.file)
  unfolding close_file
  close_file-ok s path p e = rw e refl

  module _ (m : Manager S) (laws : KeepsFiles os m.dir) (name : Text)
      (fresh : os.readable m.files (in_dir m.dir name) ≡ false)
      (callback : S → Pager → Outcome (S × Pager)) where
    build_table-ok :
        (s t : S) (p q u : Pager)
        → open_file os m.files (in_dir m.dir name) ≡ ok (s, p)
        → callback s p ≡ ok (t, q)
        → write_back_all q ≡ ok u
        → destroy_pager u ≡ ok (u.file_size, u.file)
        → build_table os m name callback
          ≡ ok (record m { files = os.store t (in_dir m.dir name) u.file_size u.file }, true)
    unfolding build_table
    build_table-ok s t p q u opens calls flushes ends =
        rw (build_table, fresh, opens, calls, flushes, close_file-ok t (in_dir m.dir name) u ends)
          refl

    -- A callback that changes page 0 builds the table.
    build_table-Built :
        (change : Bytes → Bytes)
        → ((s : S) (p q r : Pager) (b : Bytes)
            → page_zero p ≡ ok (q, b)
            → release_buf (modify q 0 (change b)) 0 ≡ ok r
            → (t : S) × (callback s p ≡ ok (t, r)))
        → (n : Manager S) × (b : Bytes) × (build_table os m name callback ≡ ok (n, true))
          × Built os m n name (change b)
    build_table-Built change calls =
        let (s, opens) = open_file-new m.files m.dir name laws fresh in
        let file = os.pages s (in_dir m.dir name) in
        let (q, r, u, starts, releases, flushes, ends, whole, shows) =
          change_zero-closed 102400 (opened 0 file 102400 true) file
            (opened-StandsFor 0 file 102400 (omega arith) (omega arith)) (omega arith)
            (change (file 0)) in
        let (t, called) = calls s (opened 0 file 102400 true) q r (file 0) starts releases in
        let (there, size, pages) = laws.stored t (in_dir m.dir name) u.file_size u.file in
        (
          record m { files = os.store t (in_dir m.dir name) u.file_size u.file },
          file 0,
          build_table-ok s t (opened 0 file 102400 true) r u opens called flushes ends,
          record {
            dir = refl;
            dbname = refl;
            table_map = refl;
            readable = there;
            whole = rw size whole;
            page = rw pages shows;
          },
        )

  module _ (node_size : ℕ) where
    new_b_tree :
        (m : Manager S) (i : Text)
        → KeepsFiles os m.dir
        → os.readable m.files (in_dir m.dir i) ≡ false
        → (n : Manager S) × (b : Bytes) × (set_up_b_tree os node_size m i ≡ ok n)
          × Built os m n i (memcpy b 0 (new_header node_size))
    unfolding set_up_b_tree write_page_zero
    new_b_tree m i laws fresh =
        let text = new_header node_size in
        let (n, b, runs, built) =
          build_table-Built m laws i fresh (λ s p. write_page_zero text p >>= λ q. ok (s, q))
            (λ b. memcpy b 0 text)
            (λ s p q r b starts releases. (s, rw (write_page_zero, starts, releases) refl)) in
        (n, b, rw runs refl, built)

    -- A new index is set up without a root.
    pub set_up_b_tree-read_root :
        (m : Manager S) (i : Text)
        → node_size < 2 ^ 32
        → KeepsFiles os m.dir
        → os.readable m.files (in_dir m.dir i) ≡ false
        → (n : Manager S) × (set_up_b_tree os node_size m i ≡ ok n)
          × (n.dir ≡ m.dir)
          × (os.readable n.files (in_dir n.dir i) ≡ true)
          × (read_root node_size (os.pages n.files (in_dir n.dir i) 0) ≡ ok none)
    set_up_b_tree-read_root m i small laws fresh =
        let (n, b, runs, built) = new_b_tree m i laws fresh in
        (
          n,
          runs,
          built.dir,
          built.readable,
          ap (read_root node_size) built.page ∙ new_header-read_root node_size b small,
        )

    -- An index in the directory is set up, if it is not there already.
    set_up_b_tree-ok :
        (m : Manager S) (i : Text)
        → KeepsFiles os m.dir
        → (n : Manager S) × (set_up_b_tree os node_size m i ≡ ok n) × (n.dir ≡ m.dir)
    unfolding set_up_b_tree
    set_up_b_tree-ok m i laws = elim (Bool-cases (os.readable m.files (in_dir m.dir i))) [
      | inl old ↦ (m, rw (build_table, old) refl, refl)
      | inr fresh ↦ let (n, b, runs, built) = new_b_tree m i laws fresh in (n, runs, built.dir)
    ]

    set_up_b_trees-ok :
        (m : Manager S) (is : List Text)
        → KeepsFiles os m.dir
        → (n : Manager S) × (set_up_b_trees os node_size m is ≡ ok n)
    unfolding set_up_b_trees
    set_up_b_trees-ok m [] laws = (m, refl)
    set_up_b_trees-ok m (i ∷ is) laws =
        let (n, now, same) = set_up_b_tree-ok m i laws in
        let (r, later) = set_up_b_trees-ok n is (subst (KeepsFiles os) (sym same) laws) in
        (r, rw now later)

    -- CREATE TABLE of a description that page 0 can hold.
    pub create_table-Built :
        (m : Manager S) (table : Text) (fs : List Field) (text : Text) (indexes : List Text)
        → KeepsFiles os m.dir
        → os.readable m.files (in_dir m.dir table) ≡ false
        → write_scheme table fs ≡ ok (text, indexes)
        → (n : Manager S) × (b : Bytes) × (create_table os node_size m table fs ≡ ok (n, succeed))
          × Built os m n table (memcpy b 0 (text ++ 0 ∷ []))
    unfolding create_table write_scheme_page
    create_table-Built m table fs text indexes laws fresh writes =
        let (n, b, runs, built) =
          build_table-Built m laws table fresh (write_scheme_page os node_size m table fs)
            (λ b. memcpy b 0 (text ++ 0 ∷ []))
            (λ s p q r b starts releases.
              let (k, sets) = set_up_b_trees-ok (record m { files = s }) indexes laws in
              (k.files, rw (write_scheme_page, starts, writes, sets, releases) refl)) in
        (n, b, rw runs refl, built)
