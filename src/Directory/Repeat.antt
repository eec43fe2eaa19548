-- ===== src/Directory/Repeat.antt =====
-- DESCRIBE, and what follows on it.
use tinydbpp.Base.{
  ℕ, ◌≡◌, refl, sym, ◌∙◌, ap, subst, true, false, Option, none, some, Bool-cases, inl, inr, Outcome,
  ok, undefined, ◌>>=◌,
}
use tinydbpp.Query.{Text}
use tinydbpp.Table.Allowed.{>>=-ok}
use tinydbpp.Files.{Os}
use tinydbpp.Directory.{
  Description, Manager, cached, get_table_description, any_belongs, has_db, drop_table,
}
use tinydbpp.Directory.Exec.{
  Result, described, no_such_table, no_database, describe_table_of, drop_table_of, exec,
}
use tinydbpp.Directory.Cache.{
  ok_pair, Found, in_cache, no_file, read_now, get_table_description-Found, found_cached,
  cached-any,
}

module _ {S : Type 0} (os : Os S) where
  same_db :
      (m k : Manager S) (name : Text) (o : Option Description)
      → Found os m k name o
      → k.dbname ≡ m.dbname
  same_db m k name o (in_cache d c same e) = ap (λ n. n.dbname) same
  same_db m k name o (no_file missing c same e) = ap (λ n. n.dbname) same
  same_db m k name o (read_now x t c name_is path_is same e) = ap (λ n. n.dbname) same

  none_same : (m k : Manager S) (name : Text) → Found os m k name none → k ≡ m
  none_same m k name (in_cache d c same e) = same
  none_same m k name (no_file missing c same e) = same
  none_same m k name (read_now x t c name_is path_is same e) = absurd (cc)

  module _ (node_size : ℕ) where
    cached_get :
        (k : Manager S) (name : Text) (d : Description)
        → cached name k.table_map ≡ some d
        → get_table_description os k name ≡ ok (k, some d)
    unfolding get_table_description
    cached_get k name d c = rw (get_table_description, c) refl

    abbrev answer : Manager S → Option Description → Outcome (Manager S × Result)
    answer k o = elim o [ none ↦ ok (k, no_such_table) | some d ↦ ok (k, described d) ]

    describe_with :
        (m k : Manager S) (name : Text) (o : Option Description)
        → has_db m ≡ true
        → get_table_description os m name ≡ ok (k, o)
        → exec os node_size m (describe_table_of name) ≡ answer k o
    unfolding exec
    describe_with m k name o db gets = rw (exec, db, gets) refl

    again :
        (m k n : Manager S) (name : Text) (o : Option Description) (r : Result)
        → has_db m ≡ true
        → Found os m k name o
        → get_table_description os m name ≡ ok (k, o)
        → answer k o ≡ ok (n, r)
        → exec os node_size n (describe_table_of name) ≡ ok (n, r)
    again m k n name none r db found gets e =
        let same : n ≡ m = sym ((ok_pair e).0) ∙ none_same m k name found in
        rw same (describe_with m k name none db gets ∙ e ∙ ap (λ x. ok (x, r)) same)
    again m k n name (some d) r db found gets e =
        let (same, result) = ok_pair e in
        let db' : has_db k ≡ true = rw (same_db m k name (some d) found) db in
        let gets' = cached_get k name d (found_cached os m k name d found) in
        subst (λ x. exec os node_size x (describe_table_of name) ≡ ok (x, r)) same
          (describe_with k k name (some d) db' gets' ∙ ap (λ x. ok (k, x)) result)

    without_db :
        (m n : Manager S) (name : Text) (r : Result)
        → has_db m ≡ false
        → exec os node_size m (describe_table_of name) ≡ ok (n, r)
        → (m ≡ n) × (no_database ≡ r)
    unfolding exec
    without_db m n name r no_db e =
        ok_pair {a = m} {b = no_database} (sym (rw (exec, no_db) refl) ∙ e)

    -- A DESCRIBE that has ended with a result gives the same result again, and leaves the manager and
    -- the files as they are then.
    pub describe_table-again :
        (m n : Manager S) (name : Text) (r : Result)
        → exec os node_size m (describe_table_of name) ≡ ok (n, r)
        → exec os node_size n (describe_table_of name) ≡ ok (n, r)
    unfolding exec
    describe_table-again m n name r e = elim (Bool-cases (has_db m)) [
      | inr no_db ↦
          let same = (without_db m n name r no_db e).0 in
          subst (λ x. exec os node_size x (describe_table_of name) ≡ ok (x, r)) same
            (e ∙ ap (λ x. ok (x, r)) (sym same))
      | inl db ↦
          let runs : (get_table_description os m name >>= λ g. answer g.0 g.1) ≡ ok (n, r) =
            sym (rw (exec, db) refl) ∙ e in
          let ((k, o), gets, gives) = >>=-ok (get_table_description os m name) _ (n, r) runs in
          again m k n name o r db (get_table_description-Found os m k name o gets) gets gives
    ]

    found_belongs :
        (m k n : Manager S) (name : Text) (o : Option Description) (d : Description)
        → Found os m k name o
        → answer k o ≡ ok (n, described d)
        → any_belongs name n.table_map ≡ true
    found_belongs m k n name none d found e = absurd (not_described (ok_pair e).1)
      where
        not_described : no_such_table ≡ described d → ⊥
        not_described q = cc (q)
    found_belongs m k n name (some x) d found e =
        subst (λ y. any_belongs name y.table_map ≡ true) ((ok_pair e).0)
          (cached-any name k.table_map x (found_cached os m k name x found))

    -- After a DESCRIBE that has found its table, DROP TABLE of the table uses an invalid iterator.
    pub describe_table-drop_table :
        (m n : Manager S) (name : Text) (d : Description)
        → exec os node_size m (describe_table_of name) ≡ ok (n, described d)
        → exec os node_size n (drop_table_of name) ≡ undefined
    unfolding exec drop_table
    describe_table-drop_table m n name d e = elim (Bool-cases (has_db m)) [
      | inr no_db ↦ absurd (not_described (without_db m n name (described d) no_db e).1)
      | inl db ↦
          let runs : (get_table_description os m name >>= λ g. answer g.0 g.1)
              ≡ ok (n, described d) =
            sym (rw (exec, db) refl) ∙ e in
          let ((k, o), gets, gives) =
            >>=-ok (get_table_description os m name) _ (n, described d) runs in
          let found = get_table_description-Found os m k name o gets in
          let used : any_belongs name n.table_map ≡ true =
            found_belongs m k n name o d found gives in
          rw (exec, drop_table, used) refl
    ]
      where
        not_described : no_database ≡ described d → ⊥
        not_described q = cc (q)
