-- ===== src/Files/Disk.antt =====
-- A small file system to run the model on: the names of its files and directories, and for each a
-- size and pages. A name can be used as a directory as soon as it is there, and is made where its
-- parent is there.
use tinydbpp.Base.{
  ℕ, ◌≡◌, refl, true, false, not, ◌&&◌, Option, none, some, List, [], ◌∷◌, ◌++◌, ◌==◌,
  if◌then◌else◌, arith, ==_refl, Bool-cases, Option-cases, inl, inr, ◌∙◌, sym, ap,
}
use tinydbpp.Base.Bytes.{Bytes}
use tinydbpp.Query.{Text, same_text}
use tinydbpp.Query.Names.{same_text_refl, same_text_eq}
use tinydbpp.Files.{Os, slash}
use tinydbpp.Files.Path.{
  MakesDirs, CreatesFiles, ListsFiles, has_name, no_slash, parent, parent-none, parent_is_dir,
  dir_or_root-dir,
}

pub record Disk : Type 0 where
  pub names : List Text
  pub size : Text → ℕ
  pub pages : Text → ℕ → Bytes

abbrev pub without : Text → List Text → List Text
without p [] = []
without p (n ∷ ns) = let rest = without p ns in if same_text n p then rest else n ∷ rest

-- What stands behind a directory's name and a '/'.
abbrev pub behind : Text → Text → Option Text
behind [] [] = none
behind [] (c ∷ cs) = if c == slash then some cs else none
behind (d ∷ ds) [] = none
behind (d ∷ ds) (c ∷ cs) = let rest = behind ds cs in if d == c then rest else none

abbrev pub names_in : Text → List Text → List Text
names_in dir [] = []
names_in dir (n ∷ ns) =
    let rest = names_in dir ns in elim (behind dir n) [ none ↦ rest | some f ↦ f ∷ rest ]

abbrev pub added : Disk → Text → Disk
added d p = record d { names = p ∷ d.names }

abbrev pub written : Disk → Text → ℕ → (ℕ → Bytes) → Disk
written d p n f = record {
  names = p ∷ d.names;
  size = λ q. if same_text q p then n else d.size q;
  pages = λ q. if same_text q p then f else d.pages q;
}

abbrev pub no_pages : ℕ → Bytes
no_pages k i = 0

abbrev pub disk : Os Disk
disk = record {
  readable = λ d p. has_name p d.names;
  accessible = λ d p. has_name p d.names;
  mkdir = λ d p. if parent_is_dir (λ q. has_name q d.names) p then some (added d p) else none;
  create = λ d p.
      if parent_is_dir (λ q. has_name q d.names) p then some (written d p 0 no_pages) else none;
  open_create = λ d p. some (if has_name p d.names then d else written d p 0 no_pages);
  exists = λ d p. has_name p d.names;
  entries = λ d dir. some (names_in dir d.names);
  remove = λ d p. record d { names = without p d.names };
  remove_all = λ d p. record d { names = without p d.names };
  size = λ d p. d.size p;
  pages = λ d p. d.pages p;
  store = λ d p n f. written d p n f;
}

abbrev pub empty_disk : Disk
empty_disk = record { names = []; size = λ p. 0; pages = λ p. no_pages }

unfoldable pub disk_dirs : MakesDirs disk
disk_dirs = record {
  is_dir = λ s p. has_name p s.names;
  there = λ s p h. h;
  made = λ s p missing up. (
    added s p,
    rw up refl,
    rw (same_text_refl p) refl,
    λ q h. ground (arith, h),
    λ q h. elim (Bool-cases (same_text p q)) [
      | inl same ↦ inr (sym (same_text_eq p q same))
      | inr other ↦ inl (ground (arith, h, other))
    ],
  );
}

same_text-behind :
    (dir f g : Text) → same_text (dir ++ slash ∷ f) (dir ++ slash ∷ g) ≡ same_text f g
same_text-behind [] f g = refl
same_text-behind (c ∷ dir) f g = rw (==_refl c) (same_text-behind dir f g)

-- The name of an entry is none of another directory's names.
behind-same :
    (dir n g : Text)
    → same_text n (dir ++ slash ∷ g)
      ≡ (elim (behind dir n) [ none ↦ false | some f ↦ same_text f g ])
behind-same [] [] g = refl
behind-same [] (c ∷ cs) g = elim (Bool-cases (c == slash)) [
  | inl here ↦ rw here refl
  | inr other ↦ rw other refl
]
behind-same (d ∷ ds) [] g = refl
behind-same (d ∷ ds) (c ∷ cs) g = elim (Bool-cases (d == c)) [
  | inl same ↦ let same' : (c == d) ≡ true = ground arith in rw (same, same') (behind-same ds cs g)
  | inr other ↦ let other' : (c == d) ≡ false = ground arith in rw (other, other') refl
]

has_name-names_in :
    (dir g : Text) (ns : List Text) → has_name g (names_in dir ns) ≡ has_name (dir ++ slash ∷ g) ns
has_name-names_in dir g [] = refl
has_name-names_in dir g (n ∷ ns) = elim (Option-cases (behind dir n)) [
  | inl out ↦
      let z : same_text n (dir ++ slash ∷ g) ≡ false = behind-same dir n g ∙ rw out refl in
      rw (names_in, out, z) (has_name-names_in dir g ns)
  | inr (f, inside) ↦
      let z : same_text n (dir ++ slash ∷ g) ≡ same_text f g =
        behind-same dir n g ∙ rw inside refl in
      rw (names_in, inside, z, has_name-names_in dir g ns) refl
]

has_name-without :
    (p q : Text) (ns : List Text)
    → has_name q (without p ns) ≡ (has_name q ns && not (same_text p q))
has_name-without p q [] = refl
has_name-without p q (n ∷ ns) = elim (Bool-cases (same_text n p)) [
  | inl same ↦
      let n-p = same_text_eq n p same in rw (same, has_name-without p q ns, n-p) (ground arith)
  | inr other ↦ elim (Bool-cases (same_text n q)) [
    | inl here ↦
        let z : same_text p q ≡ false = elim (Bool-cases (same_text p q)) [
          | inr ne ↦ ne
          | inl eq ↦ absurd (cc (ap (same_text n) (same_text_eq p q eq), here, other))
        ] in
        rw (other, here, z) refl
    | inr away ↦ rw (other, away) (has_name-without p q ns)
  ]
]

pub disk-removed : (s : Disk) (p : Text) → disk.exists (disk.remove_all s p) p ≡ false
disk-removed s p = has_name-without p p s.names ∙ rw (same_text_refl p) (ground arith)

some_eq : {a b : List Text} → some a ≡ some b → a ≡ b
some_eq e = cc (e)

pub disk-ListsFiles : (dir : Text) → ListsFiles disk dir
disk-ListsFiles dir = record {
  existing = λ s fs f e h.
      let fs_are : names_in dir s.names ≡ fs = some_eq e in
      sym (has_name-names_in dir f s.names) ∙ ap (has_name f) fs_are ∙ h;
  removed = λ s fs f e. (
    names_in dir (without (dir ++ slash ∷ f) s.names),
    refl,
    λ g.
        let fs_are : names_in dir s.names ≡ fs = some_eq e in
        has_name-names_in dir g (without (dir ++ slash ∷ f) s.names)
        ∙ has_name-without (dir ++ slash ∷ f) (dir ++ slash ∷ g) s.names
        ∙ rw (same_text-behind dir f g, ← has_name-names_in dir g s.names, fs_are) refl,
  );
}

parent-join : (dir name : Text) → no_slash name ≡ true → parent (dir ++ slash ∷ name) ≡ some dir
parent-join [] name h = rw (parent-none name h) refl
parent-join (c ∷ dir) name h = rw (parent-join dir name h) refl

pub disk-CreatesFiles : CreatesFiles disk disk_dirs
unfolding disk_dirs
disk-CreatesFiles = record {
  created = λ s dir name h plain some_name missing. (
    written s (dir ++ slash ∷ name) 0 no_pages,
    rw (parent_is_dir, parent-join dir name plain, dir_or_root-dir (λ q. has_name q s.names) dir h)
        refl,
    rw (same_text_refl (dir ++ slash ∷ name)) refl,
  );
}
