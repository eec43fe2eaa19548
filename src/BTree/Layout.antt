-- ===== src/BTree/Layout.antt =====
-- The bytes of a node's record: `_NodeFormat` of src/BTree/BTree.h for keys of eight bytes (size_t, the
-- keys of TheBTree.h). The struct is not packed: the parent's page number stands at 4, the keys at 16, and
-- a child takes eight bytes.
use tinydbpp.Base.{
  ℕ, zero, suc, ◌+◌, ◌-◌, ◌*◌, ◌/◌, ◌%◌, List, [], ◌∷◌, ◌++◌, replicate, length, get_or, ◌==◌,
  Outcome, ok, ◌>>◌, boost_assert,
}
use tinydbpp.Record.Table.{Location, location}
use tinydbpp.BTree.Node.{NodeFormat}

-- A number in so many bytes, low bytes first.
abbrev pub little : ℕ → ℕ → List ℕ
little zero v = []
little (suc n) v = v % 256 ∷ little n (v / 256)

-- The number in the bytes of a record from a position on.
abbrev pub number_at : List ℕ → ℕ → ℕ → ℕ
number_at r i zero = 0
number_at r i (suc n) = get_or r i 0 + 256 * number_at r (i + 1) n

abbrev pub key_bytes : ℕ → (ℕ → ℕ) → List ℕ
key_bytes zero keys = []
key_bytes (suc n) keys = little 8 (keys 0) ++ key_bytes n (λ i. keys (suc i))

abbrev pub child_bytes : ℕ → (ℕ → Location) → List ℕ
child_bytes zero cs = []
child_bytes (suc n) cs =
    let l = cs 0 in
    little 4 l.page_number ++ little 2 l.loc ++ 0 ∷ 0 ∷ child_bytes n (λ i. cs (suc i))

-- sizeof(_NodeFormat)
abbrev pub node_size : ℕ → ℕ
node_size rank = 8 + 16 * rank

-- std::string((char*)&nf, sizeof(nf)), after memset.
unfoldable pub node_bytes : ℕ → NodeFormat → List ℕ
node_bytes rank nf =
    nf.n_key_count ∷ nf.is_leaf ∷ 0 ∷ 0 ∷ little 4 nf.parent_pg_no
    ++ little 2 nf.parent_pg_off
    ++ replicate 6 0
    ++ key_bytes (rank - 1) nf.keys
    ++ child_bytes rank nf.children

-- (_NodeFormat*)record.c_str(), with the assertion on the record's size.
unfoldable pub node_of : ℕ → List ℕ → Outcome NodeFormat
node_of rank r = do
  boost_assert (length r == node_size rank)
  ok (record {
    n_key_count = number_at r 0 1;
    is_leaf = number_at r 1 1;
    parent_pg_no = number_at r 4 4;
    parent_pg_off = number_at r 8 2;
    keys = λ i. number_at r (16 + 8 * i) 8;
    children =
        λ i. let at = 8 + 8 * rank + 8 * i in location (number_at r at 4) (number_at r (at + 4) 2);
  })
