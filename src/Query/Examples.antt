-- ===== src/Query/Examples.antt =====
-- Names, values and fields of a small table.
use tinydbpp.Base.{length, ◌≡◌, refl, List, [], ◌∷◌, true, false}
use tinydbpp.Query.{Columns, Item, varchar, Text, split, Field, check_primary_key}
use tinydbpp.Query.Select.{offsets, selector, selector-length}
use tinydbpp.Query.Keys.{with_keys, check_primary_key-with_keys}

abbrev book : Text
book = 98 ∷ 111 ∷ 111 ∷ 107 ∷ []

abbrev title : Text
title = 116 ∷ []

abbrev fields : List Field
fields =
    record {
      name = title;
      type = varchar;
      size = 4;
      can_null = false;
      is_key = false;
      is_primary_key_stmt = false;
    }
    ∷ record {
      name = title;
      type = varchar;
      size = 0;
      can_null = true;
      is_key = false;
      is_primary_key_stmt = true;
    }
    ∷ []

check_primary_key-with_keys_example : check_primary_key fields ≡ with_keys fields fields
check_primary_key-with_keys_example = check_primary_key-with_keys fields

abbrev author : Text
author = 97 ∷ []

abbrev books : Columns
books = record { name = book; col_name = title ∷ author ∷ []; col_type = varchar ∷ varchar ∷ [] }

abbrev one_book : Item
one_book = (77 ∷ 0 ∷ []) ∷ (66 ∷ 0 ∷ []) ∷ []

same_counts : length (offsets false (title ∷ []) books) ≡ length (offsets false (author ∷ []) books)
unfolding offsets split
same_counts = refl

selector-length_example :
    selector (books ∷ []) false (title ∷ []) books one_book
    ≡ selector (books ∷ []) false (author ∷ []) books one_book
selector-length_example =
    selector-length books (title ∷ []) (author ∷ []) books one_book same_counts
