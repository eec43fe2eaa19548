-- ===== src/Directory/Cache.antt =====
-- The cache of descriptions: what getTableDescription does with it, and what it holds at all times.
use tinydbpp.Base.{
  ◌≡◌, refl, sym, ◌∙◌, ap, Bool, true, false, Option, none, some, Option-cases, Bool-cases, List,
  [], ◌∷◌, ◌++◌, if◌then◌else◌, arith, inl, inr, Outcome, ok, ◌>>=◌,
}
use tinydbpp.Pager.{release_buf}
use tinydbpp.Schema.{parse_scheme}
use tinydbpp.Query.{Text, same_text, find_dot}
use tinydbpp.Query.Names.{same_text_refl}
use tinydbpp.Table.Allowed.{>>=-ok}
use tinydbpp.Files.{Os, is_exist}
use tinydbpp.Directory.{
  Description, Manager, in_dir, cached, undescribed, c_string, page_zero, open_file,
  read_description, new_description, get_table_description, belongs, any_belongs,
}

pub ok_pair :
    {A B : Type 0} {a c : A} {b d : B}
    → ◌≡◌ {A = Outcome (A × B)} (ok (a, b)) (ok (c, d))
    → (a ≡ c) × (b ≡ d)
ok_pair {A} {B} {a} {c} {b} {d} e = (ap (λ r. r.0) pairs, ap (λ r. r.1) pairs)
  where
    value : Outcome (A × B) → A × B
    value (ok r) = r
    value m = (a, b)

    pairs : ◌≡◌ {A = A × B} (a, b) (c, d)
    pairs = ap value e

module _ {S : Type 0} (os : Os S) where
  -- How getTableDescription has found a description, or none.
  pub data Found (m k : Manager S) (name : Text) (o : Option Description) : Type 0 where
    in_cache :
        (d : Description) → cached name m.table_map ≡ some d → k ≡ m → o ≡ some d → Found m k name o
    no_file :
        is_exist os m.files (in_dir m.dir name) ≡ false
        → cached name m.table_map ≡ none
        → k ≡ m
        → o ≡ none
        → Found m k name o
    read_now :
        (d : Description) (t : S)
        → cached name m.table_map ≡ none
        → d.name ≡ name
        → d.path ≡ in_dir m.dir name
        → k ≡ record m { table_map = m.table_map ++ d ∷ []; files = t }
        → o ≡ some d
        → Found m k name o

  read_description-name :
      (s t : S) (dir name : Text) (d : Description)
      → read_description os s dir name ≡ ok (t, d)
      → (d.name ≡ name) × (d.path ≡ in_dir dir name)
  unfolding read_description
  read_description-name s t dir name d e =
      let (a, h1, e1) = >>=-ok (open_file os s (in_dir dir name)) _ (t, d) e in
      let (b, h2, e2) = >>=-ok (page_zero a.1) _ (t, d) e1 in
      let (text, h3, e3) = >>=-ok (c_string 4096 b.1 0) _ (t, d) e2 in
      let (columns, h4, e4) = >>=-ok (parse_scheme text) _ (t, d) e3 in
      let (r, h5, e5) = >>=-ok (release_buf b.0 0) _ (t, d) e4 in
      let same = (ok_pair e5).1 in (ap (λ x. x.name) (sym same), ap (λ x. x.path) (sym same))

  of_cache :
      (m k : Manager S) (name : Text) (d : Description) (o : Option Description)
      → cached name m.table_map ≡ some d
      → get_table_description os m name ≡ ok (k, o)
      → Found m k name o
  unfolding get_table_description
  of_cache m k name d o c e =
      let (same, found) = ok_pair (sym (rw (get_table_description, c) refl) ∙ e) in
      in_cache d c (sym same) (sym found)

  of_missing :
      (m k : Manager S) (name : Text) (o : Option Description)
      → cached name m.table_map ≡ none
      → is_exist os m.files (in_dir m.dir name) ≡ false
      → get_table_description os m name ≡ ok (k, o)
      → Found m k name o
  unfolding get_table_description
  of_missing m k name o c missing e =
      let (same, found) = ok_pair (sym (rw (get_table_description, c, missing) refl) ∙ e) in
      no_file missing c (sym same) (sym found)

  new_description-name :
      (m : Manager S) (t : S) (name : Text) (d : Description)
      → new_description os m name ≡ ok (t, d)
      → (d.name ≡ name) × (d.path ≡ in_dir m.dir name)
  unfolding new_description
  new_description-name m t name d e = elim (Option-cases (find_dot name)) [
    | inl plain ↦
        read_description-name m.files t m.dir name d (sym (rw (new_description, plain) refl) ∙ e)
    | inr (i, index) ↦
        let same =
          (ok_pair {a = m.files} {b = undescribed (in_dir m.dir name) name}
            (sym (rw (new_description, index) refl) ∙ e)).1 in
        (ap (λ x. x.name) (sym same), ap (λ x. x.path) (sym same))
  ]

  of_new :
      (m k : Manager S) (name : Text) (o : Option Description)
      → cached name m.table_map ≡ none
      → is_exist os m.files (in_dir m.dir name) ≡ true
      → get_table_description os m name ≡ ok (k, o)
      → Found m k name o
  unfolding get_table_description
  of_new m k name o c there e =
      let opened : (new_description os m name >>= λ r.
      ok (record m { table_map = m.table_map ++ r.1 ∷ []; files = r.0 }, some r.1))
          ≡ ok (k, o) =
        sym (rw (get_table_description, c, there) refl) ∙ e in
      let (r, reads, gives) = >>=-ok (new_description os m name) _ (k, o) opened in
      let (same, found) = ok_pair gives in
      let (name_is, path_is) = new_description-name m r.0 name r.1 reads in
      read_now r.1 r.0 c name_is path_is (sym same) (sym found)

  pub get_table_description-Found :
      (m k : Manager S) (name : Text) (o : Option Description)
      → get_table_description os m name ≡ ok (k, o)
      → Found m k name o
  get_table_description-Found m k name o e = elim (Option-cases (cached name m.table_map)) [
    | inr (d, c) ↦ of_cache m k name d o c e
    | inl c ↦ elim (Bool-cases (is_exist os m.files (in_dir m.dir name))) [
      | inl there ↦ of_new m k name o c there e
      | inr missing ↦ of_missing m k name o c missing e
    ]
  ]

pub if_none :
    (b : Bool) (d : Description) (rest : Option Description)
    → (if b then some d else rest) ≡ none
    → (b ≡ false) × (rest ≡ none)
if_none true d rest e = absurd (cc)
if_none false d rest e = (refl, e)

cached-snoc :
    (name : Text) (ds : List Description) (d : Description)
    → cached name ds ≡ none
    → d.name ≡ name
    → cached name (ds ++ d ∷ []) ≡ some d
cached-snoc name [] d c e = rw (e, same_text_refl name) refl
cached-snoc name (x ∷ ds) d c e =
    let (other, rest) = if_none (same_text x.name name) x (cached name ds) c in
    rw other (cached-snoc name ds d rest e)

pub cached-any :
    (name : Text) (ds : List Description) (d : Description)
    → cached name ds ≡ some d
    → any_belongs name ds ≡ true
unfolding belongs
cached-any name [] d c = absurd (cc)
cached-any name (x ∷ ds) d c = elim (Bool-cases (same_text x.name name)) [
  | inl same ↦ rw same refl
  | inr other ↦ rw (cached-any name ds d (found_later other)) (ground arith)
]
  where
    found_later : same_text x.name name ≡ false → cached name ds ≡ some d
    found_later other = sym (rw other refl) ∙ c

module _ {S : Type 0} (os : Os S) where
  -- A description that has been found is in the cache.
  pub found_cached :
      (m k : Manager S) (name : Text) (d : Description)
      → Found os m k name (some d)
      → cached name k.table_map ≡ some d
  found_cached m k name d (in_cache x c same e) = rw (same, c) (sym e)
  found_cached m k name d (no_file missing c same e) = absurd (cc)
  found_cached m k name d (read_now x t c name_is path_is same e) =
      ap (λ n. cached name n.table_map) same ∙ cached-snoc name m.table_map x c name_is ∙ sym e
