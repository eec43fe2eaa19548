-- ===== src/Files/Examples.antt =====
-- New directories and files on a small disk.
use tinydbpp.Base.{◌≡◌, refl, [], ◌∷◌, true, arith, ok}
use tinydbpp.Files.{create_dir}
use tinydbpp.Files.Path.{create_dir-accessible}
use tinydbpp.Files.Disk.{Disk, disk, empty_disk, disk_dirs}

-- "a/b/c" under an empty disk: "a/b" is there in the end.
create_dir-accessible_example :
    (t : Disk) × (create_dir disk empty_disk (97 ∷ 47 ∷ 98 ∷ 47 ∷ 99 ∷ []) ≡ ok (t, true))
    × (disk_dirs.is_dir t (97 ∷ 47 ∷ 98 ∷ []) ≡ true)
    × (disk.accessible t (97 ∷ 47 ∷ 98 ∷ []) ≡ true)
unfolding disk_dirs
create_dir-accessible_example =
    create_dir-accessible disk disk_dirs empty_disk 97 (47 ∷ 98 ∷ 47 ∷ 99 ∷ []) (47 ∷ 98 ∷ [])
      (99 ∷ 47 ∷ []) (omega arith) (λ m p e h. h) refl
