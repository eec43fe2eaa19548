-- ===== src/Files.antt =====
-- src/FileUtils.cpp, where it works with the names of files. The calls of the operating system and of
-- boost::filesystem are an interface over a state that is not looked into.
pub mod Path
pub mod Disk
pub mod Examples
use tinydbpp.Base.{
  ℕ, ◌+◌, ◌<◌, Bool, true, false, not, Option, none, some, List, [], ◌∷◌, ◌++◌, ltb, ◌==◌,
  if◌then◌else◌, length, take, get_or, Outcome, ok, assert_failed, undefined, ◌>>=◌, ◌>>◌,
  in_bounds,
}
use tinydbpp.Base.Bytes.{Bytes}
use tinydbpp.Query.{Text}

-- fopen(name, "r"), access(name, 0), mkdir, fopen(name, "w") and open(name, O_CREAT), each none where
-- it fails, exists, the names that a directory_iterator gives (none where it throws), remove and
-- remove_all, and the size and the pages of a file with their change.
pub record Os (S : Type 0) : Type 0 where
  pub readable : S → Text → Bool
  pub accessible : S → Text → Bool
  pub mkdir : S → Text → Option S
  pub create : S → Text → Option S
  pub open_create : S → Text → Option S
  pub exists : S → Text → Bool
  pub entries : S → Text → Option (List Text)
  pub remove : S → Text → S
  pub remove_all : S → Text → S
  pub size : S → Text → ℕ
  pub pages : S → Text → ℕ → Bytes
  pub store : S → Text → ℕ → (ℕ → Bytes) → S

-- '/'
abbrev pub slash : ℕ
slash = 47

abbrev pub last_char : ℕ → Text → ℕ
last_char c [] = c
last_char c (d ∷ ds) = last_char d ds

-- The characters behind the first, with a '/' at the end.
abbrev pub with_slash : ℕ → Text → Text
with_slash c cs = if last_char c cs == slash then cs else cs ++ slash ∷ []

-- The last '/' of a name.
abbrev pub last_slash : Text → Option ℕ
last_slash [] = none
last_slash (c ∷ cs) = elim (last_slash cs) [
  | some i ↦ some (i + 1)
  | none ↦ if c == slash then some 0 else none
]

-- The names that listFiles keeps.
abbrev pub visible : List Text → List Text
visible [] = []
visible (f ∷ fs) = let rest = visible fs in if get_or f 0 0 == 46 then rest else f ∷ rest

module _ {S : Type 0} (os : Os S) where
  -- FileUtils::isExist
  abbrev pub is_exist : S → Text → Bool
  is_exist s name = os.readable s name

  -- The loop of createDir: the name so far, and the rest of it. The result is whether it returns 0.
  unfoldable pub make_dirs : S → Text → Text → S × Bool
  make_dirs s before [] = (s, true)
  make_dirs s before (c ∷ rest) = elim (c == slash) [
    | false ↦ make_dirs s (before ++ c ∷ []) rest
    | true ↦ elim (os.accessible s before) [
      | true ↦ make_dirs s (before ++ c ∷ []) rest
      | false ↦ elim (os.mkdir s before) [
        | none ↦ (s, false)
        | some t ↦ make_dirs t (before ++ c ∷ []) rest
      ]
    ]
  ]

  -- FileUtils::createDir, with its array of 256 bytes: the loop starts behind the first character.
  unfoldable pub create_dir : S → Text → Outcome (S × Bool)
  unfolding make_dirs
  create_dir s [] = undefined
  create_dir s (c ∷ cs) = do
    in_bounds (ltb (length (c ∷ cs)) 256)
    in_bounds (ltb (length (c ∷ with_slash c cs)) 256)
    ok (make_dirs s (c ∷ []) (with_slash c cs))

  -- The directory of a new file.
  unfoldable pub create_parent : S → Text → Outcome S
  unfolding create_dir
  create_parent s name = elim (last_slash name) [
    | none ↦ ok s
    | some pos ↦
        if pos == 0
        then ok s
        else in_bounds (ltb pos 256) >> (create_dir s (take pos name) >>= λ r. ok r.0)
  ]

  -- FileUtils::createFile: the file is closed before the test for a null pointer.
  unfoldable pub create_file : S → Text → Outcome S
  unfolding create_parent
  create_file s name =
      create_parent s name >>= λ t. elim (os.create t name) [ none ↦ undefined | some u ↦ ok u ]

  -- FileUtils::listFiles: an exception ends the program as a failed assertion does.
  unfoldable pub list_files : S → Text → Outcome (List Text)
  list_files s dir = elim (os.entries s dir) [ none ↦ assert_failed | some fs ↦ ok (visible fs) ]

  -- FileUtils::deleteDir and FileUtils::deleteFile
  abbrev pub delete_dir : S → Text → S × Bool
  delete_dir s dir = if os.exists s dir then (os.remove_all s dir, true) else (s, false)

  abbrev pub delete_file : S → Text → S × Bool
  delete_file s name = if os.exists s name then (os.remove s name, true) else (s, false)
