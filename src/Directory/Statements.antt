-- ===== src/Directory/Statements.antt =====
-- What the cache of descriptions holds after any statements.
use tinydbpp.Base.{
  ℕ, ◌≡◌, refl, sym, ◌∙◌, ap, subst, Bool, true, false, Option, none, some, Bool-cases, List, [],
  ◌∷◌, ◌++◌, if◌then◌else◌, inl, inr, Outcome, ok, assert_failed, undefined, out_of_fuel, ◌>>=◌,
}
use tinydbpp.Query.{Text, same_text, Field}
use tinydbpp.Query.Names.{same_text_swap}
use tinydbpp.Files.{Os, list_files, create_dir}
use tinydbpp.Directory.{
  Description, Manager, in_dir, cached, clear_tables, get_table_description, has_db, sys_table_made,
  get_instance, default_database_dir, change_db, create_db, drop_db, build_table, drop_table,
  any_belongs, open_file, close_file,
}
use tinydbpp.Directory.Exec.{
  SysStatement, show_dbs, show_tables, create_db_of, drop_db_of, use_db_of, drop_table_of,
  describe_table_of, create_table_of, create_table, write_scheme_page, no_such_table, described,
  exec,
}
use tinydbpp.Pager.{Pager, write_back_all}
use tinydbpp.Directory.Cache.{
  if_none, Found, in_cache, no_file, read_now, get_table_description-Found,
}

-- If the call ends with a value, the value is such.
abbrev Ends : {A : Type 0} → (A → Type 0) → Outcome A → Type 0
Ends P (ok a) = P a
Ends P assert_failed = Unit {0}
Ends P undefined = Unit {0}
Ends P out_of_fuel = Unit {0}

bind_Ends :
    {A B : Type 0} (P : B → Type 0) (m : Outcome A) (k : A → Outcome B)
    → ((a : A) → m ≡ ok a → Ends P (k a))
    → Ends P (m >>= k)
bind_Ends P (ok a) k h = h a refl
bind_Ends P assert_failed k h = tt
bind_Ends P undefined k h = tt
bind_Ends P out_of_fuel k h = tt

if_Ends :
    {A : Type 0} (P : A → Type 0) (b : Bool) (x y : Outcome A)
    → Ends P x
    → Ends P y
    → Ends P (if b then x else y)
if_Ends P true x y hx hy = hx
if_Ends P false x y hx hy = hy

of_Ends : {A : Type 0} (P : A → Type 0) (m : Outcome A) (a : A) → Ends P m → m ≡ ok a → P a
of_Ends P m a h e = subst (Ends P) e h

-- Each description has the path of its name, and no two have the same name.
abbrev pub AllIn : Text → List Description → Type 0
AllIn dir [] = Unit {0}
AllIn dir (d ∷ ds) = (d.path ≡ in_dir dir d.name) × (cached d.name ds ≡ none) × AllIn dir ds

abbrev pub IsCache : {S : Type 0} → Manager S → Type 0
IsCache m = AllIn m.dir m.table_map

cached-snoc_other :
    (name : Text) (ds : List Description) (d : Description)
    → cached name ds ≡ none
    → same_text d.name name ≡ false
    → cached name (ds ++ d ∷ []) ≡ none
cached-snoc_other name [] d c h = rw h refl
cached-snoc_other name (x ∷ ds) d c h =
    let (other, rest) = if_none (same_text x.name name) x (cached name ds) c in
    rw other (cached-snoc_other name ds d rest h)

AllIn-snoc :
    (dir name : Text) (ds : List Description) (d : Description)
    → AllIn dir ds
    → cached name ds ≡ none
    → d.name ≡ name
    → d.path ≡ in_dir dir name
    → AllIn dir (ds ++ d ∷ [])
AllIn-snoc dir name [] d c new e p = (p ∙ ap (in_dir dir) (sym e), refl, tt)
AllIn-snoc dir name (x ∷ ds) d c new e p =
    let (other, rest) = if_none (same_text x.name name) x (cached name ds) new in
    (
      c.0,
      cached-snoc_other x.name ds d c.1 (rw e (same_text_swap x.name name other)),
      AllIn-snoc dir name ds d c.2 rest e p,
    )

module _ {S : Type 0} (os : Os S) (node_size : ℕ) where
  abbrev Kept : {A : Type 0} → Manager S × A → Type 0
  Kept r = IsCache r.0

  change_db-Kept :
      (m : Manager S) (db : Text) (b : Bool) → IsCache m → Ends Kept (change_db os m db b)
  unfolding change_db
  change_db-Kept m db b c = elim (Bool-cases (same_text db m.dbname)) [
    | inl same ↦ rw (change_db, same) c
    | inr other ↦
        rw (change_db, other) (bind_Ends Kept (sys_table_made os m db b) _ (λ made e. moved made))
  ]
    where
      moved :
          (made : Option S)
          → Ends Kept (elim made [
            | none ↦ ok (m, false)
            | some s ↦ clear_tables os s m.table_map >>= λ t. ok (
              record m { table_map = []; dbname = db; dir = in_dir m.base_dir db; files = t },
              true,
            )
          ])
      moved none = c
      moved (some s) = bind_Ends Kept (clear_tables os s m.table_map) _ (λ t e. tt)

  drop_db-Kept : (m : Manager S) (db : Text) → IsCache m → Ends Kept (drop_db os m db)
  unfolding drop_db
  drop_db-Kept m db c =
      bind_Ends Kept
        (if same_text m.dbname db
          then (clear_tables os m.files m.table_map >>= λ s.
              ok (record m { table_map = []; dbname = []; files = s }))
          else ok m)
        _ (λ n e. of_Ends IsCache _ n (left (same_text m.dbname db)) e)
    where
      left :
          (b : Bool)
          → Ends IsCache (
              if b
              then (clear_tables os m.files m.table_map >>= λ s.
                  ok (record m { table_map = []; dbname = []; files = s }))
              else ok m)
      left true = bind_Ends IsCache (clear_tables os m.files m.table_map) _ (λ t e. tt)
      left false = c

  build_table-Kept :
      (m : Manager S) (name : Text) (callback : S → Pager → Outcome (S × Pager))
      → IsCache m
      → Ends Kept (build_table os m name callback)
  unfolding build_table
  build_table-Kept m name callback c = elim (Bool-cases (os.readable m.files (in_dir m.dir name))) [
    | inl there ↦ rw (build_table, there) c
    | inr fresh ↦
        rw (build_table, fresh)
          (bind_Ends Kept (open_file os m.files (in_dir m.dir name)) _ (λ a e.
            bind_Ends Kept (callback a.0 a.1) _ (λ b e.
              bind_Ends Kept (write_back_all b.1) _
                (λ r e. bind_Ends Kept (close_file os b.0 (in_dir m.dir name) r) _ (λ u e. c)))))
  ]

  create_db-IsCache : (m : Manager S) (db : Text) → IsCache m → Ends IsCache (create_db os m db)
  unfolding create_db
  create_db-IsCache m db c = bind_Ends IsCache (sys_table_made os m db true) _ (λ made e. kept made)
    where
      kept :
          (made : Option S)
          → Ends IsCache (elim made [ none ↦ ok m | some s ↦ ok (record m { files = s }) ])
      kept none = c
      kept (some s) = c

  create_table-Kept :
      (m : Manager S) (table : Text) (fs : List Field)
      → IsCache m
      → Ends Kept (create_table os node_size m table fs)
  unfolding create_table
  create_table-Kept m table fs c =
      let callback = write_scheme_page os node_size m table fs in
      bind_Ends Kept (build_table os m table callback) _ (λ r e.
        of_Ends Kept (build_table os m table callback) r (build_table-Kept m table callback c) e)

  drop_table-Kept : (m : Manager S) (name : Text) → IsCache m → Ends Kept (drop_table os m name)
  unfolding drop_table
  drop_table-Kept m name c =
      if_Ends Kept (any_belongs name m.table_map) undefined _ tt
        (bind_Ends Kept (list_files os m.files m.dir) _ (λ fs e. c))

  found-Kept :
      (m k : Manager S) (name : Text) (o : Option Description)
      → IsCache m
      → Found os m k name o
      → IsCache k
  found-Kept m k name o c (in_cache d at same e) = subst IsCache (sym same) c
  found-Kept m k name o c (no_file missing at same e) = subst IsCache (sym same) c
  found-Kept m k name o c (read_now d t at name_is path_is same e) =
      subst IsCache (sym same) (AllIn-snoc m.dir name m.table_map d c at name_is path_is)

  exec-Kept : (m : Manager S) (st : SysStatement) → IsCache m → Ends Kept (exec os node_size m st)
  unfolding exec
  exec-Kept m show_dbs c = bind_Ends Kept (list_files os m.files m.base_dir) _ (λ fs e. c)
  exec-Kept m (create_db_of db) c =
      bind_Ends Kept (create_db os m db) _
        (λ n e. of_Ends IsCache (create_db os m db) n (create_db-IsCache m db c) e)
  exec-Kept m (drop_db_of db) c =
      bind_Ends Kept (drop_db os m db) _
        (λ r e. of_Ends Kept (drop_db os m db) r (drop_db-Kept m db c) e)
  exec-Kept m (use_db_of db) c =
      bind_Ends Kept (change_db os m db false) _
        (λ r e. of_Ends Kept (change_db os m db false) r (change_db-Kept m db false c) e)
  exec-Kept m show_tables c =
      if_Ends Kept (has_db m) _ _ (bind_Ends Kept (list_files os m.files m.dir) _ (λ fs e. c)) c
  exec-Kept m (create_table_of table fs) c =
      if_Ends Kept (has_db m) _ _ (create_table-Kept m table fs c) c
  exec-Kept m (drop_table_of table) c =
      bind_Ends Kept (drop_table os m table) _
        (λ r e. of_Ends Kept (drop_table os m table) r (drop_table-Kept m table c) e)
  exec-Kept m (describe_table_of table) c =
      if_Ends Kept (has_db m) _ _
        (bind_Ends Kept (get_table_description os m table) _ (λ r e.
          told r.0 r.1
            (found-Kept m r.0 table r.1 c (get_table_description-Found os m r.0 table r.1 e))))
        c
    where
      told :
          (k : Manager S) (o : Option Description)
          → IsCache k
          → Ends Kept (elim o [ none ↦ ok (k, no_such_table) | some d ↦ ok (k, described d) ])
      told k none h = h
      told k (some d) h = h

  -- A session: the statements one after the other.
  unfoldable pub session : Manager S → List SysStatement → Outcome (Manager S)
  unfolding exec
  session m [] = ok m
  session m (st ∷ sts) = exec os node_size m st >>= λ r. session r.0 sts

  session-Ends :
      (m : Manager S) (sts : List SysStatement) → IsCache m → Ends IsCache (session m sts)
  unfolding session
  session-Ends m [] c = c
  session-Ends m (st ∷ sts) c =
      bind_Ends IsCache (exec os node_size m st) _
        (λ r e. session-Ends r.0 sts (of_Ends Kept (exec os node_size m st) r (exec-Kept m st c) e))

  start-IsCache : (s : S) (base : Text) → Ends IsCache (get_instance os s base)
  unfolding get_instance
  start-IsCache s [] = bind_Ends IsCache (create_dir os s default_database_dir) _ (λ r e. tt)
  start-IsCache s (c ∷ cs) = bind_Ends IsCache (create_dir os s (c ∷ cs)) _ (λ r e. tt)

  -- After any statements on databases and whole tables from `getInstance` on that all end with a
  -- result, each description in the cache has the path of its name in the current directory, and no
  -- name is cached twice.
  pub session-IsCache :
      (s : S) (base : Text) (m n : Manager S) (sts : List SysStatement)
      → get_instance os s base ≡ ok m
      → session m sts ≡ ok n
      → IsCache n
  session-IsCache s base m n sts starts runs =
      of_Ends IsCache (session m sts) n
        (session-Ends m sts
          (of_Ends IsCache (get_instance os s base) m (start-IsCache s base) starts))
        runs
