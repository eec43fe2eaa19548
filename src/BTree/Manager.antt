-- ===== src/BTree/Manager.antt =====
-- The record manager of src/RecordManage/RecordManager.cpp as what the tree uses: the operations of
-- Record.Table on the tree's file.
use tinydbpp.Base.{ℕ, true, false, ok, ◌>>◌, boost_assert}
use tinydbpp.Record.Table.{
  File, insert, get_record, update_record_no_resize, update_one_record, delete_record,
  del_one_record, reaches,
}
use tinydbpp.BTree.Tree.{Records}

-- For a table with this record length. updateOneRecord is called with false for `fixed_res`.
abbrev pub record_manager : ℕ → Records File
record_manager len = record {
  insert = λ f e fixed. insert f e fixed;
  get = λ f l. get_record f l;
  update_no_resize = λ f l e. update_record_no_resize f l (λ old. (true, e));
  update_one = λ f l e. update_one_record len f l e false;
  delete = λ f l. delete_record len f l;
  del_one = λ f l fixed.
      boost_assert (reaches f l.page_number) >> ok (del_one_record len f l.page_number l.loc fixed);
}
