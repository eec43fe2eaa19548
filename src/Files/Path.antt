-- ===== src/Files/Path.antt =====
-- The directories of a path, and new files.
use tinydbpp.Base.{
  ℕ, ◌+◌, ◌≤◌, ◌<◌, ◌≡◌, ◌⊎◌, Option, if◌then◌else◌, ==_iff, refl, sym, ◌∙◌, subst, ap, Bool, true,
  false, not, ◌&&◌, ◌||◌, none, some, List, [], ◌∷◌, ◌++◌, append-nil, append_assoc, length,
  length-append, take-append, ltb, ◌==◌, arith, Bool-cases, inl, inr, ok,
}
use tinydbpp.Query.{Text, same_text}
use tinydbpp.Files.{
  Os, slash, last_char, with_slash, last_slash, make_dirs, create_dir, create_parent, create_file,
}

-- The name is in the list.
abbrev pub has_name : Text → List Text → Bool
has_name p [] = false
has_name p (n ∷ ns) = same_text n p || has_name p ns

-- What a directory's listing has to do with `exists` and `remove`.
pub record ListsFiles {S : Type 0} (os : Os S) (dir : Text) : Type 0 where
  pub existing :
      (s : S) (fs : List Text) (f : Text)
      → os.entries s dir ≡ some fs
      → has_name f fs ≡ true
      → os.exists s (dir ++ slash ∷ f) ≡ true
  pub removed :
      (s : S) (fs : List Text) (f : Text)
      → os.entries s dir ≡ some fs
      → (gs : List Text) × (os.entries (os.remove s (dir ++ slash ∷ f)) dir ≡ some gs)
        × ((g : Text) → has_name g gs ≡ (has_name g fs && not (same_text f g)))

-- What stands in front of the last '/'.
abbrev pub parent : Text → Option Text
parent [] = none
parent (c ∷ cs) =
    let rest = parent cs in
    elim rest [ some q ↦ some (c ∷ q) | none ↦ if c == slash then some [] else none ]

abbrev pub dir_or_root : (Text → Bool) → Text → Bool
dir_or_root d [] = true
dir_or_root d (c ∷ cs) = d (c ∷ cs)

-- The parent of a name is a directory: the current one, the root, or one of these.
abbrev pub parent_is_dir : (Text → Bool) → Text → Bool
parent_is_dir d p = elim (parent p) [ none ↦ true | some q ↦ dir_or_root d q ]

-- What mkdir does for a name that is missing in a directory: it makes the directory and nothing
-- else, and takes no directory away. Of a name whose parent is missing nothing is said.
pub record MakesDirs {S : Type 0} (os : Os S) : Type 0 where
  pub is_dir : S → Text → Bool
  pub there : (s : S) (p : Text) → is_dir s p ≡ true → os.accessible s p ≡ true
  pub made :
      (s : S) (p : Text)
      → os.accessible s p ≡ false
      → parent_is_dir (is_dir s) p ≡ true
      → (t : S) × (os.mkdir s p ≡ some t)
        × (is_dir t p ≡ true)
        × ((q : Text) → is_dir s q ≡ true → is_dir t q ≡ true)
        × ((q : Text) → os.accessible t q ≡ true → (os.accessible s q ≡ true) ⊎ (q ≡ p))

-- No part of the path in front of a '/' is a file.
abbrev pub NoFile : {S : Type 0} (os : Os S) → MakesDirs os → S → Text → Text → Type 0
NoFile os laws s before rest =
    (m p : Text)
    → rest ≡ m ++ slash ∷ p
    → os.accessible s (before ++ m) ≡ true
    → laws.is_dir s (before ++ m) ≡ true

-- What the loop of createDir leaves.
record DirsMade {S : Type 0} (os : Os S) (laws : MakesDirs os) (s : S) (before rest : Text)
    : Type 0 where
  state : S
  runs : make_dirs os s before rest ≡ (state, true)
  kept : (q : Text) → laws.is_dir s q ≡ true → laws.is_dir state q ≡ true
  there : (mid post : Text) → rest ≡ mid ++ slash ∷ post → laws.is_dir state (before ++ mid) ≡ true
  only :
      (q : Text)
      → os.accessible state q ≡ true
      → (os.accessible s q ≡ true) ⊎ (length q ≤ length before + length rest)

parent-snoc : (xs : Text) (c : ℕ) → (c == slash) ≡ false → parent (xs ++ c ∷ []) ≡ parent xs
parent-snoc [] c h = rw h refl
parent-snoc (x ∷ xs) c h = rw (parent-snoc xs c h) refl

parent-slash : (xs : Text) → parent (xs ++ slash ∷ []) ≡ some xs
parent-slash [] = refl
parent-slash (x ∷ xs) = rw (parent-slash xs) refl

pub dir_or_root-dir : (d : Text → Bool) (q : Text) → d q ≡ true → dir_or_root d q ≡ true
dir_or_root-dir d [] h = refl
dir_or_root-dir d (c ∷ cs) h = h

abbrev head_or : Text → ℕ
head_or [] = 0
head_or (c ∷ cs) = c

abbrev tail_of : Text → Text
tail_of [] = []
tail_of (c ∷ cs) = cs

nil_split : (mid post : Text) → [] ≡ mid ++ slash ∷ post → ⊥
nil_split [] post e = cc
nil_split (d ∷ mid) post e = cc

module _ {S : Type 0} (os : Os S) (laws : MakesDirs os) where
  next_there :
      (t : S) (before rest mid post : Text) (c : ℕ)
      → ((c == slash) ≡ true → laws.is_dir t before ≡ true)
      → ((m p : Text) → rest ≡ m ++ slash ∷ p → laws.is_dir t ((before ++ c ∷ []) ++ m) ≡ true)
      → c ∷ rest ≡ mid ++ slash ∷ post
      → laws.is_dir t (before ++ mid) ≡ true
  next_there t before rest [] post c here later e =
      subst (λ x. laws.is_dir t x ≡ true) (sym (append-nil before)) (here (rw (ap head_or e) refl))
  next_there t before rest (d ∷ mid) post c here later e =
      let same : c ≡ d = ap head_or e in
      subst (λ x. laws.is_dir t x ≡ true) (append_assoc before (c ∷ []) mid ∙ rw same refl)
        (later mid post (ap tail_of e))

  -- The rest of the path stays free of files.
  next_NoFile :
      (s t : S) (before rest : Text) (c : ℕ)
      → ((q : Text) → laws.is_dir s q ≡ true → laws.is_dir t q ≡ true)
      → ((q : Text)
          → os.accessible t q ≡ true
          → (os.accessible s q ≡ true) ⊎ (laws.is_dir t q ≡ true))
      → NoFile os laws s before (c ∷ rest)
      → NoFile os laws t (before ++ c ∷ []) rest
  next_NoFile s t before rest c kept only none_here m p e h =
      let q-is : (before ++ c ∷ []) ++ m ≡ before ++ c ∷ m = append_assoc before (c ∷ []) m in
      elim (only ((before ++ c ∷ []) ++ m) h) [
        | inr now ↦ now
        | inl old ↦ kept ((before ++ c ∷ []) ++ m) (
            subst (λ x. laws.is_dir s x ≡ true) (sym q-is)
              (none_here (c ∷ m) p (ap (λ x. c ∷ x) e)
                (subst (λ x. os.accessible s x ≡ true) q-is old)))
      ]

  -- The next round of the loop, from the state that it begins with.
  round :
      (s t : S) (before rest : Text) (c : ℕ)
      → make_dirs os s before (c ∷ rest) ≡ make_dirs os t (before ++ c ∷ []) rest
      → ((q : Text) → laws.is_dir s q ≡ true → laws.is_dir t q ≡ true)
      → ((q : Text) → os.accessible t q ≡ true → (os.accessible s q ≡ true) ⊎ (q ≡ before))
      → ((c == slash) ≡ true → laws.is_dir t before ≡ true)
      → DirsMade os laws t (before ++ c ∷ []) rest
      → DirsMade os laws s before (c ∷ rest)
  round s t before rest c step kept only here d = record {
    state = d.state;
    runs = step ∙ d.runs;
    kept = λ q h. d.kept q (kept q h);
    there = λ mid post e.
        next_there d.state before rest mid post c (λ z. d.kept before (here z)) d.there e;
    only = λ q h. elim (d.only q h) [
      | inr short ↦ inr (omega (arith, short, length-append before (c ∷ [])))
      | inl earlier ↦ elim (only q earlier) [
        | inl old ↦ inl old
        | inr same ↦ inr (omega (arith, ap length same))
      ]
    ];
  }

  make_dirs-DirsMade :
      (s : S) (before rest : Text)
      → parent_is_dir (laws.is_dir s) before ≡ true
      → NoFile os laws s before rest
      → DirsMade os laws s before rest
  unfolding make_dirs
  make_dirs-DirsMade s before [] up free = record {
    state = s;
    runs = refl;
    kept = λ q h. h;
    there = λ mid post e. absurd (nil_split mid post e);
    only = λ q h. inl h;
  }
  make_dirs-DirsMade s before (c ∷ rest) up free = elim (Bool-cases (c == slash)) [
    | inr other ↦
        round s s before rest c (rw (make_dirs, other) refl) (λ q h. h) (λ q h. inl h)
          (λ z. absurd (cc (other, z)))
          (make_dirs-DirsMade s (before ++ c ∷ []) rest
            (rw (parent_is_dir, parent-snoc before c other) up)
            (next_NoFile s s before rest c (λ q h. h) (λ q h. inl h) free))
    | inl here ↦
        let c-slash : c ≡ slash = (==_iff c slash).0 here in
        let below : parent (before ++ c ∷ []) ≡ some before = rw c-slash (parent-slash before) in
        elim (Bool-cases (os.accessible s before)) [
          | inl is_there ↦
              let dir : laws.is_dir s before ≡ true =
                subst (λ x. laws.is_dir s x ≡ true) (append-nil before)
                  (free [] rest (rw c-slash refl)
                    (subst (λ x. os.accessible s x ≡ true) (sym (append-nil before)) is_there)) in
              round s s before rest c (rw (make_dirs, here, is_there) refl) (λ q h. h)
                (λ q h. inl h) (λ z. dir)
                (make_dirs-DirsMade s (before ++ c ∷ []) rest
                  (rw (parent_is_dir, below) (dir_or_root-dir (laws.is_dir s) before dir))
                  (next_NoFile s s before rest c (λ q h. h) (λ q h. inl h) free))
          | inr missing ↦
              let (t, makes, now, kept, only) = laws.made s before missing up in
              round s t before rest c (rw (make_dirs, here, missing, makes) refl) kept only
                (λ z. now)
                (make_dirs-DirsMade t (before ++ c ∷ []) rest
                  (rw (parent_is_dir, below) (dir_or_root-dir (laws.is_dir t) before now))
                  (next_NoFile s t before rest c kept
                    (λ q h. elim (only q h) [
                      | inl old ↦ inl old
                      | inr same ↦ inr (subst (λ x. laws.is_dir t x ≡ true) (sym same) now)
                    ])
                    free))
        ]
  ]

parent-one : (c : ℕ) (d : Text → Bool) → parent_is_dir d (c ∷ []) ≡ true
parent-one c d = elim (Bool-cases (c == slash)) [
  | inl e ↦ rw (parent_is_dir, e) refl
  | inr e ↦ rw (parent_is_dir, e) refl
]

-- createDir returns 0.
create_dir-DirsMade :
    {S : Type 0} (os : Os S) (laws : MakesDirs os) (s : S) (c : ℕ) (cs : Text)
    → length (c ∷ cs) < 255
    → NoFile os laws s (c ∷ []) (with_slash c cs)
    → (d : DirsMade os laws s (c ∷ []) (with_slash c cs)) × (create_dir os s (c ∷ cs)
        ≡ ok (d.state, true))
unfolding create_dir
create_dir-DirsMade os laws s c cs short free =
    let d =
      make_dirs-DirsMade os laws s (c ∷ []) (with_slash c cs) (parent-one c (laws.is_dir s)) free in
    let room : ltb (length (c ∷ cs)) 256 ≡ true = ground arith in
    let room' : ltb (length (c ∷ with_slash c cs)) 256 ≡ true =
      elim (Bool-cases (last_char c cs == slash)) [
        | inl ends ↦ rw (ends, room) refl
        | inr opens ↦ rw opens (ground (arith, length-append cs (slash ∷ [])))
      ] in
    (d, rw (room, room', d.runs) refl)

-- Where mkdir makes what is missing in a directory, nothing being known of a name whose parent is
-- missing, `createDir` of a path of at most 254 characters, of which no part is a file, returns 0,
-- and every part of the path in front of a '/' is a directory that is there, with the path itself
-- where it does not end in one.
pub create_dir-accessible :
    {S : Type 0} (os : Os S) (laws : MakesDirs os) (s : S) (c : ℕ) (cs mid post : Text)
    → length (c ∷ cs) < 255
    → NoFile os laws s (c ∷ []) (with_slash c cs)
    → with_slash c cs ≡ mid ++ slash ∷ post
    → (t : S) × (create_dir os s (c ∷ cs) ≡ ok (t, true))
      × (laws.is_dir t (c ∷ mid) ≡ true)
      × (os.accessible t (c ∷ mid) ≡ true)
create_dir-accessible os laws s c cs mid post short free e =
    let (d, runs) = create_dir-DirsMade os laws s c cs short free in
    let dir = d.there mid post e in (d.state, runs, dir, laws.there d.state (c ∷ mid) dir)

-- A name without a '/'.
abbrev pub no_slash : Text → Bool
no_slash [] = true
no_slash (c ∷ cs) = not (c == slash) && no_slash cs

last_slash-none : (name : Text) → no_slash name ≡ true → last_slash name ≡ none
last_slash-none [] h = refl
last_slash-none (c ∷ cs) h =
    let z : (c == slash) ≡ false = ground (arith, h) in
    rw (last_slash-none cs (ground (arith, h)), z) refl

pub parent-none : (name : Text) → no_slash name ≡ true → parent name ≡ none
parent-none [] h = refl
parent-none (c ∷ cs) h =
    let z : (c == slash) ≡ false = ground (arith, h) in
    rw (parent-none cs (ground (arith, h)), z) refl

last_slash-append :
    (dir name : Text) → no_slash name ≡ true → last_slash (dir ++ slash ∷ name) ≡ some (length dir)
last_slash-append [] name h = rw (last_slash-none name h) refl
last_slash-append (c ∷ dir) name h = rw (last_slash-append dir name h) (ap some (omega arith))

-- What fopen(name, "w") does for a name that is missing in a directory.
pub record CreatesFiles {S : Type 0} (os : Os S) (makes : MakesDirs os) : Type 0 where
  pub created :
      (s : S) (dir name : Text)
      → makes.is_dir s dir ≡ true
      → no_slash name ≡ true
      → 0 < length name
      → os.accessible s (dir ++ slash ∷ name) ≡ false
      → (t : S) × (os.create s (dir ++ slash ∷ name) ≡ some t)
        × (os.readable t (dir ++ slash ∷ name) ≡ true)

parent_made :
    {S : Type 0} (os : Os S) (s t : S) (dir name : Text) (b : Bool)
    → (length dir == 0) ≡ false
    → length dir < 255
    → no_slash name ≡ true
    → create_dir os s dir ≡ ok (t, b)
    → create_parent os s (dir ++ slash ∷ name) ≡ ok t
unfolding create_parent
parent_made os s t dir name b some_dir short file runs =
    let room : ltb (length dir) 256 ≡ true = ground arith in
    rw
      (
        create_parent,
        last_slash-append dir name file,
        some_dir,
        room,
        take-append dir (slash ∷ name),
        runs,
      )
      refl

-- createFile of a missing name in a directory that may be missing returns, and the file is there.
pub create_file-readable :
    {S : Type 0} (os : Os S) (s : S) (c : ℕ) (cs name : Text) (makes : MakesDirs os)
    → CreatesFiles os makes
    → length (c ∷ cs) < 255
    → (last_char c cs == slash) ≡ false
    → no_slash name ≡ true
    → 0 < length name
    → NoFile os makes s (c ∷ []) (cs ++ slash ∷ [])
    → os.accessible s ((c ∷ cs) ++ slash ∷ name) ≡ false
    → (t : S) × (create_file os s ((c ∷ cs) ++ slash ∷ name) ≡ ok t)
      × (os.readable t ((c ∷ cs) ++ slash ∷ name) ≡ true)
unfolding create_file
create_file-readable os s c cs name makes creates short plain file some_name free missing =
    let ends : with_slash c cs ≡ cs ++ slash ∷ [] = rw plain refl in
    let (d, runs) =
      create_dir-DirsMade os makes s c cs short
        (subst (λ x. NoFile os makes s (c ∷ []) x) (sym ends) free) in
    let there = d.there cs [] ends in
    let path = (c ∷ cs) ++ slash ∷ name in
    let still : os.accessible d.state path ≡ false =
      elim (Bool-cases (os.accessible d.state path)) [
        | inr gone ↦ gone
        | inl now ↦ elim (d.only path now) [
          | inl old ↦ absurd (cc (missing, old))
          | inr least ↦ absurd (
              omega (
                arith,
                least,
                some_name,
                ap length ends,
                length-append cs (slash ∷ []),
                length-append cs (slash ∷ name),
              ))
        ]
      ] in
    let (u, writes, readable) = creates.created d.state (c ∷ cs) name there file some_name still in
    let made = parent_made os s d.state (c ∷ cs) name true (ground arith) short file runs in
    (u, rw (create_file, made, writes) refl, readable)
