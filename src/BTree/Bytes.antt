-- ===== src/BTree/Bytes.antt =====
-- The bytes of a node's record are read back.
use tinydbpp.Base.{
  ℕ, zero, suc, ◌+◌, ◌-◌, ◌*◌, ◌/◌, ◌%◌, ◌^◌, ◌≤◌, ◌<◌, ◌≡◌, refl, sym, ◌∙◌, ap, ap₂, List, [], ◌∷◌,
  ◌++◌, length, length-append, get_or, arith, replicate, append-nil,
}
use tinydbpp.Record.Table.{Location, location}
use tinydbpp.BTree.Node.{NodeFormat}
use tinydbpp.BTree.Layout.{little, number_at, key_bytes, child_bytes, node_size, node_bytes}

-- The number fits in so many bytes.
abbrev pub FitsBytes : ℕ → ℕ → Type 0
FitsBytes zero v = v ≡ 0
FitsBytes (suc n) v = FitsBytes n (v / 256)

pub FitsBytes-4 : (v : ℕ) → v < 2 ^ 32 → FitsBytes 4 v
FitsBytes-4 v h = omega arith

pub FitsBytes-2 : (v : ℕ) → v < 2 ^ 16 → FitsBytes 2 v
FitsBytes-2 v h = omega arith

pub FitsBytes-8 : (v : ℕ) → v < 2 ^ 64 → FitsBytes 8 v
FitsBytes-8 v h = omega arith

pub number_at-next : (x : ℕ) (r : List ℕ) (i n : ℕ) → number_at (x ∷ r) (suc i) n ≡ number_at r i n
number_at-next x r i zero = refl
number_at-next x r i (suc n) =
    ap (λ k. get_or r i 0 + 256 * number_at (x ∷ r) k n) (omega arith)
    ∙ ap (λ v. get_or r i 0 + 256 * v) (number_at-next x r (i + 1) n)

pub number_at-append :
    (xs ys : List ℕ) (i n : ℕ) → number_at (xs ++ ys) (length xs + i) n ≡ number_at ys i n
number_at-append [] ys i n = ap (λ k. number_at ys k n) (omega arith)
number_at-append (x ∷ xs) ys i n =
    ap (λ k. number_at (x ∷ xs ++ ys) k n) (omega arith)
    ∙ number_at-next x (xs ++ ys) (length xs + i) n
    ∙ number_at-append xs ys i n

pub number_at-little :
    (n v : ℕ) (ys : List ℕ) → FitsBytes n v → number_at (little n v ++ ys) 0 n ≡ v
number_at-little zero v ys h = sym h
number_at-little (suc n) v ys h =
    let rest = number_at-little n (v / 256) ys h in
    rw (number_at-next (v % 256) (little n (v / 256) ++ ys) 0 n, rest) (omega arith)

pub length-little : (n v : ℕ) → length (little n v) ≡ n
length-little zero v = refl
length-little (suc n) v = ap suc (length-little n (v / 256))

pub length-key_bytes : (m : ℕ) (keys : ℕ → ℕ) → length (key_bytes m keys) ≡ 8 * m
length-key_bytes zero keys = refl
length-key_bytes (suc m) keys =
    let rest = length-key_bytes m (λ i. keys (suc i)) in omega (arith, rest)

pub length-child_bytes : (m : ℕ) (cs : ℕ → Location) → length (child_bytes m cs) ≡ 8 * m
length-child_bytes zero cs = refl
length-child_bytes (suc m) cs =
    let rest = length-child_bytes m (λ i. cs (suc i)) in omega (arith, rest)

pub key_bytes-number_at :
    (m : ℕ) (keys : ℕ → ℕ) (ys : List ℕ) (i : ℕ)
    → i < m
    → FitsBytes 8 (keys i)
    → number_at (key_bytes m keys ++ ys) (8 * i) 8 ≡ keys i
key_bytes-number_at zero keys ys i h f = absurd (omega arith)
key_bytes-number_at (suc m) keys ys zero h f =
    number_at-little 8 (keys 0) (key_bytes m (λ i. keys (suc i)) ++ ys) f
key_bytes-number_at (suc m) keys ys (suc i) h f =
    let rest = key_bytes m (λ j. keys (suc j)) ++ ys in
    ap (λ k. number_at (little 8 (keys 0) ++ rest) k 8) (omega arith)
    ∙ number_at-append (little 8 (keys 0)) rest (8 * i) 8
    ∙ key_bytes-number_at m (λ j. keys (suc j)) ys i (omega arith) f

-- A child's page number, and its offset behind it.
pub child_bytes-number_at :
    (m : ℕ) (cs : ℕ → Location) (ys : List ℕ) (i : ℕ)
    → i < m
    → FitsBytes 4 (cs i).page_number
    → FitsBytes 2 (cs i).loc
    → (number_at (child_bytes m cs ++ ys) (8 * i) 4 ≡ (cs i).page_number)
      × (number_at (child_bytes m cs ++ ys) (8 * i + 4) 2 ≡ (cs i).loc)
child_bytes-number_at zero cs ys i h p o = absurd (omega arith)
child_bytes-number_at (suc m) cs ys zero h p o =
    let rest = child_bytes m (λ j. cs (suc j)) ++ ys in
    let off = little 2 (cs 0).loc ++ 0 ∷ 0 ∷ rest in
    (
      number_at-little 4 (cs 0).page_number off p,
      number_at-append (little 4 (cs 0).page_number) off 0 2
          ∙ number_at-little 2 (cs 0).loc (0 ∷ 0 ∷ rest) o,
    )
child_bytes-number_at (suc m) cs ys (suc i) h p o =
    let rest = child_bytes m (λ j. cs (suc j)) ++ ys in
    let first = little 4 (cs 0).page_number ++ little 2 (cs 0).loc ++ 0 ∷ 0 ∷ [] in
    let (page, loc) = child_bytes-number_at m (λ j. cs (suc j)) ys i (omega arith) p o in
    (
      ap (λ k. number_at (first ++ rest) k 4) (omega arith)
          ∙ number_at-append first rest (8 * i) 4
          ∙ page,
      ap (λ k. number_at (first ++ rest) k 2) (omega arith)
          ∙ number_at-append first rest (8 * i + 4) 2
          ∙ loc,
    )

-- The fields of a node fit their places in the record.
pub record FormatFits (rank : ℕ) (nf : NodeFormat) : Type 0 where
  pub low : 1 ≤ rank
  pub parent_pg_no : nf.parent_pg_no < 2 ^ 32
  pub parent_pg_off : nf.parent_pg_off < 2 ^ 16
  pub keys : (i : ℕ) → i < rank - 1 → nf.keys i < 2 ^ 64
  pub pages : (i : ℕ) → (nf.children i).page_number < 2 ^ 32
  pub offsets : (i : ℕ) → (nf.children i).loc < 2 ^ 16

module _ (rank : ℕ) (nf : NodeFormat) (fits : FormatFits rank nf) where
  abbrev header : List ℕ
  header =
      nf.n_key_count ∷ nf.is_leaf ∷ 0 ∷ 0 ∷ little 4 nf.parent_pg_no
      ++ little 2 nf.parent_pg_off
      ++ replicate 6 0

  abbrev body : List ℕ
  body = key_bytes (rank - 1) nf.keys ++ child_bytes rank nf.children

  node_bytes-parts : node_bytes rank nf ≡ header ++ body
  unfolding node_bytes
  node_bytes-parts = refl

  pub length-node_bytes : length (node_bytes rank nf) ≡ node_size rank
  length-node_bytes =
      ap length node_bytes-parts
      ∙ omega (
        arith,
        length-append header body,
        length-append (key_bytes (rank - 1) nf.keys) (child_bytes rank nf.children),
        length-key_bytes (rank - 1) nf.keys,
        length-child_bytes rank nf.children,
        fits.low,
      )

  pub parent_page_back : number_at (node_bytes rank nf) 4 4 ≡ nf.parent_pg_no
  unfolding node_bytes
  parent_page_back =
      let rest = little 2 nf.parent_pg_off ++ replicate 6 0 ++ body in
      number_at-append (nf.n_key_count ∷ nf.is_leaf ∷ 0 ∷ 0 ∷ []) (little 4 nf.parent_pg_no ++ rest)
        0 4
      ∙ number_at-little 4 nf.parent_pg_no rest (FitsBytes-4 nf.parent_pg_no fits.parent_pg_no)

  pub parent_offset_back : number_at (node_bytes rank nf) 8 2 ≡ nf.parent_pg_off
  unfolding node_bytes
  parent_offset_back =
      let rest = replicate 6 0 ++ body in
      number_at-append (nf.n_key_count ∷ nf.is_leaf ∷ 0 ∷ 0 ∷ little 4 nf.parent_pg_no)
        (little 2 nf.parent_pg_off ++ rest) 0 2
      ∙ number_at-little 2 nf.parent_pg_off rest (FitsBytes-2 nf.parent_pg_off fits.parent_pg_off)

  pub key_back : (i : ℕ) → i < rank - 1 → number_at (node_bytes rank nf) (16 + 8 * i) 8 ≡ nf.keys i
  key_back i h =
      ap (λ r. number_at r (16 + 8 * i) 8) node_bytes-parts
      ∙ number_at-append header body (8 * i) 8
      ∙ key_bytes-number_at (rank - 1) nf.keys (child_bytes rank nf.children) i h
          (FitsBytes-8 (nf.keys i) (fits.keys i h))

  child_at :
      (i j n : ℕ)
      → number_at (node_bytes rank nf) (8 + 8 * rank + 8 * i + j) n
        ≡ number_at (child_bytes rank nf.children ++ []) (8 * i + j) n
  child_at i j n =
      let ks = key_bytes (rank - 1) nf.keys in
      let cs = child_bytes rank nf.children in
      ap (λ r. number_at r (8 + 8 * rank + 8 * i + j) n) node_bytes-parts
      ∙ ap (λ k. number_at (header ++ body) k n)
          (omega (arith, length-key_bytes (rank - 1) nf.keys, fits.low))
      ∙ number_at-append header body (length ks + (8 * i + j)) n
      ∙ number_at-append ks cs (8 * i + j) n
      ∙ ap (λ r. number_at r (8 * i + j) n) (sym (append-nil cs))

  pub child_back :
      (i : ℕ)
      → i < rank
      → location
          (number_at (node_bytes rank nf) (8 + 8 * rank + 8 * i) 4)
          (number_at (node_bytes rank nf) (8 + 8 * rank + 8 * i + 4) 2)
        ≡ nf.children i
  child_back i h =
      let c = nf.children i in
      let (page, loc) =
        child_bytes-number_at rank nf.children [] i h (FitsBytes-4 c.page_number (fits.pages i))
          (FitsBytes-2 c.loc (fits.offsets i)) in
      ap₂ location
        (ap (λ k. number_at (node_bytes rank nf) k 4) (omega arith)
          ∙ child_at i 0 4
          ∙ ap (λ k. number_at (child_bytes rank nf.children ++ []) k 4) (omega arith)
          ∙ page)
        (child_at i 4 2 ∙ loc)
