-- ===== src/Directory/Describe.antt =====
-- What DESCRIBE gives of a table that CREATE TABLE has made.
use tinydbpp.Base.{
  ℕ, ◌<◌, ◌%◌, ◌^◌, ◌≡◌, refl, sym, ◌∙◌, subst, true, false, none, some, List, [], ◌∷◌, ◌++◌,
  length, ltb, arith, Outcome, ok,
}
use tinydbpp.Base.Bytes.{Bytes, memcpy, Holds, memcpy-Holds}
use tinydbpp.Pager.{Pager}
use tinydbpp.Pager.Lifetime.{opened, opened-StandsFor}
use tinydbpp.Query.{Text, find_dot, Field, check_primary_key}
use tinydbpp.Schema.{Described, columns_of, key_indexes, scheme, write_scheme, parse_scheme}
use tinydbpp.Schema.RoundTrip.{AllFit, described as described_columns, write_scheme-parse_scheme}
use tinydbpp.Files.{Os}
use tinydbpp.Directory.{
  Description, Manager, in_dir, c_string, cached, index_files, read_description, new_description,
  get_table_description, has_db,
}
use tinydbpp.Directory.Exec.{succeed, described, create_table_of, describe_table_of, exec}
use tinydbpp.Directory.PageZero.{read_zero}
use tinydbpp.Directory.Create.{
  KeepsFiles, no_zero, c_string-Holds, open_file-old, create_table-Built,
}

text_written :
    (table : Text) (fs : List Field) (text : Text) (indexes : List Text)
    → length (scheme (check_primary_key fs)) < 4096
    → write_scheme table fs ≡ ok (text, indexes)
    → text ≡ scheme (check_primary_key fs)
unfolding write_scheme
text_written table fs text indexes short writes =
    let inside : ltb (length (scheme (check_primary_key fs))) 4096 ≡ true = ground arith in
    let same : write_scheme table fs
        ≡ ok
            (scheme (check_primary_key fs), key_indexes table (columns_of (check_primary_key fs))) =
      rw (write_scheme, inside) refl in
    same_first (sym writes ∙ same)
  where
    same_first :
        {a b : Text} {c d : List Text}
        → ◌≡◌ {A = Outcome (Text × List Text)} (ok (a, c)) (ok (b, d))
        → a ≡ b
    same_first e = cc (e)

module _ {S : Type 0} (os : Os S) where
  abbrev description_read : S → Text → Text → List Described → Pager → Description
  description_read t dir name columns r = record {
    name = name;
    path = in_dir dir name;
    columns = columns;
    has_index = index_files os t dir name columns;
    pager = some r;
  }

  -- A description is read from a file that has it in page 0.
  read_description-columns :
      (s : S) (dir name : Text) (text : Text) (columns : List Described) (b : Bytes)
      → KeepsFiles os dir
      → os.readable s (in_dir dir name) ≡ true
      → os.size s (in_dir dir name) % 4096 ≡ 0
      → os.pages s (in_dir dir name) 0 ≡ memcpy b 0 (text ++ 0 ∷ [])
      → length text < 4096
      → no_zero text ≡ true
      → parse_scheme text ≡ ok columns
      → (t : S) × (d : Description) × (read_description os s dir name ≡ ok (t, d))
        × (d.columns ≡ columns)
  unfolding read_description
  read_description-columns s dir name text columns b laws there whole page short plain parses =
      let path = in_dir dir name in
      let (t, opens) = open_file-old os s dir name laws there whole in
      let file = os.pages s path in
      let (q, r, starts, releases) =
        read_zero 102400 (opened (os.size s path) file 102400 true) file
          (opened-StandsFor (os.size s path) file 102400 whole (omega arith)) (omega arith) in
      let reads : c_string 4096 (file 0) 0 ≡ ok text =
        c_string-Holds 4096 (file 0) 0 text short plain (
          subst (λ x. Holds x 0 (text ++ 0 ∷ [])) (sym page) (memcpy-Holds b 0 (text ++ 0 ∷ []))) in
      (
        t,
        description_read t dir name columns r,
        rw (read_description, opens, starts, reads, parses, releases) refl,
        refl,
      )

  get_table_description-new :
      (m : Manager S) (name : Text) (t : S) (d : Description)
      → cached name m.table_map ≡ none
      → os.readable m.files (in_dir m.dir name) ≡ true
      → find_dot name ≡ none
      → read_description os m.files m.dir name ≡ ok (t, d)
      → get_table_description os m name
        ≡ ok (record m { table_map = m.table_map ++ d ∷ []; files = t }, some d)
  unfolding get_table_description
  get_table_description-new m name t d unknown there plain reads =
      rw (get_table_description, unknown, there, new_description, plain, reads) refl

  -- In a database, on a file system that opens the files of its directory and keeps what is written,
  -- CREATE TABLE of a new name without a dot succeeds, and DESCRIBE gives the columns without the
  -- PRIMARY KEY statements, with their names, types, patterns, flags and widths. The fields have
  -- names without spaces and int sizes, and page 0 can hold the text, which has no zero byte.
  pub create_table-describe_table :
      (node_size : ℕ) (m : Manager S) (table : Text) (fs : List Field)
      → KeepsFiles os m.dir
      → has_db m ≡ true
      → os.readable m.files (in_dir m.dir table) ≡ false
      → cached table m.table_map ≡ none
      → find_dot table ≡ none
      → AllFit (columns_of (check_primary_key fs))
      → length (columns_of (check_primary_key fs)) < 2 ^ 31
      → length (scheme (check_primary_key fs)) < 4096
      → no_zero (scheme (check_primary_key fs)) ≡ true
      → (n k : Manager S) × (d : Description) × (exec os node_size m (create_table_of table fs)
          ≡ ok (n, succeed))
        × (exec os node_size n (describe_table_of table) ≡ ok (k, described d))
        × (d.columns ≡ described_columns (columns_of (check_primary_key fs)))
  unfolding exec
  create_table-describe_table node_size m table fs laws db fresh unknown plain fit few short
        zero_free =
      let all = check_primary_key fs in
      let (text, writes, parses) = write_scheme-parse_scheme table fs fit few short in
      let same : text ≡ scheme all = text_written table fs text _ short writes in
      let parses' : parse_scheme (scheme all) ≡ ok (described_columns (columns_of all)) =
        subst (λ x. parse_scheme x ≡ ok (described_columns (columns_of all))) same parses in
      let writes' =
        subst (λ x. write_scheme table fs ≡ ok (x, key_indexes table (columns_of all))) same
          writes in
      let (n, b, creates, built) =
        create_table-Built os node_size m table fs (scheme all) _ laws fresh writes' in
      let (t, d, reads, columns) =
        read_description-columns n.files n.dir table (scheme all) _ b
          (subst (KeepsFiles os) (sym built.dir) laws) built.readable built.whole built.page short
          zero_free parses' in
      let unknown' : cached table n.table_map ≡ none =
        subst (λ ds. cached table ds ≡ none) (sym built.table_map) unknown in
      let db' : has_db n ≡ true = rw built.dbname db in
      let gets = get_table_description-new n table t d unknown' built.readable plain reads in
      (
        n,
        record n { table_map = n.table_map ++ d ∷ []; files = t },
        d,
        rw (exec, db) creates,
        rw (exec, db', gets) refl,
        columns,
      )
