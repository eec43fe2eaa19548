-- ===== src/Table/Trees.antt =====
-- The indexes of src/RecordManage/TableManager.cpp: each is a BTreePlus in a file of its own, with the
-- ranks of src/BTree/TheBTree.h. An exception ends the program as a failed assertion does.
use tinydbpp.Base.{ℕ, false, Outcome, ok, assert_failed, ◌>>=◌}
use tinydbpp.Record.Table.{File}
use tinydbpp.BTree.Tree.{Tree, Answer, answer, key_not_found, key_duplicated}
use tinydbpp.BTree.Manager.{record_manager}
use tinydbpp.BTree.Plus.{get, insert, remove}
use tinydbpp.Table.{Indexes}

abbrev pub the_answer : Answer (Tree File) → Outcome (Tree File)
the_answer (answer t) = ok t
the_answer key_not_found = assert_failed
the_answer key_duplicated = assert_failed

-- For index files with this record length, and trees of so many levels at most.
unfoldable pub tree_indexes : ℕ → ℕ → Indexes (Tree File)
unfolding get insert remove
tree_indexes len fuel = record {
  get = λ x h. get 26 50 (record_manager len) fuel x h;
  insert = λ x h loc. insert 26 50 (record_manager len) fuel x h loc false >>= the_answer;
  remove = λ x h checker. remove 26 50 (record_manager len) fuel x h checker false >>= the_answer;
}
