-- ===== src/Schema/Examples.antt =====
-- A table of a key and a name.
use tinydbpp.Base.{refl, true, false, List, [], ◌∷◌, arith}
use tinydbpp.Query.{Text, int, varchar, Field, check_primary_key}
use tinydbpp.Schema.{columns_of}
use tinydbpp.Schema.RoundTrip.{IsWord, AllFit}

abbrev id : Text
id = 105 ∷ 100 ∷ []

abbrev pub fields : List Field
fields =
    record {
      name = id;
      type = int;
      size = 10;
      can_null = true;
      is_key = false;
      is_primary_key_stmt = false;
    }
    ∷ record {
      name = 110 ∷ [];
      type = varchar;
      size = 255;
      can_null = true;
      is_key = false;
      is_primary_key_stmt = false;
    }
    ∷ record {
      name = id;
      type = int;
      size = 0;
      can_null = true;
      is_key = false;
      is_primary_key_stmt = true;
    }
    ∷ []

pub fields-AllFit : AllFit (columns_of (check_primary_key fields))
unfolding check_primary_key IsWord
fields-AllFit = ((refl, omega arith), omega arith, ((refl, omega arith), omega arith, tt))
