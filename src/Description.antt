-- ===== src/Description.antt =====
-- src/RecordManage/TableManager.cpp, struct TableDescription: the shape of a table's records.
-- A string is the list of its bytes. A width is the `int` of the pattern: a number of bytes, or
-- `varying` for -1; no other negative width is represented.
pub mod RoundTrip
pub mod Examples
use tinydbpp.Base.{
  ℕ, zero, suc, ◌+◌, ◌-◌, Bool, true, false, ◌&&◌, Option, none, some, List, [], ◌∷◌, ◌++◌, ltb,
  leb, if◌then◌else◌, length, take, replicate, Outcome, ok, assert_failed, undefined, ◌>>=◌, ◌>>◌,
  boost_assert, in_bounds,
}
use tinydbpp.Base.Bytes.{Bytes, slice, int_at, int_bytes}

abbrev pub default_varchar_len : ℕ
default_varchar_len = 64

pub data Width : Type 0 where
  bytes : ℕ → Width
  varying : Width

abbrev pub Item : Type 0
Item = List (List ℕ)

pub record Pattern : Type 0 where
  pub len : ℕ
  pub widths : List Width

abbrev pub no_pattern : Pattern
no_pattern = record { len = 0; widths = [] }

unfoldable pub add_pattern : Pattern → Width → Pattern
add_pattern p varying = record {
  len = p.len + 4 + default_varchar_len;
  widths = p.widths ++ varying ∷ [];
}
add_pattern p (bytes n) = record { len = p.len + n; widths = p.widths ++ bytes n ∷ [] }

-- The loop of `read`: the values, and the offset behind them. A negative length is no range.
unfoldable pub read_values : List Width → Bytes → ℕ → ℕ → Outcome (Item × ℕ)
read_values [] buf len now = ok ([], now)
read_values (bytes zero ∷ ws) buf len now = assert_failed
read_values (bytes (suc n) ∷ ws) buf len now = do
  boost_assert (leb (now + suc n) len)
  (rest, end) ← read_values ws buf len (now + suc n)
  ok (slice buf now (suc n) ∷ rest, end)
read_values (varying ∷ ws) buf len now = do
  boost_assert (leb (now + 4) len)
  in_bounds (ltb (int_at buf now) 2147483648)
  boost_assert (leb (now + 4 + int_at buf now) len)
  (rest, end) ← read_values ws buf len (now + 4 + int_at buf now)
  ok (slice buf (now + 4) (int_at buf now) ∷ rest, end)

unfoldable pub read : Pattern → Bytes → ℕ → ℕ → Bool → Outcome (Item × ℕ)
read p buf len now fixed = do
  (ret, end) ← read_values p.widths buf len now
  ok (ret, if fixed && ltb end (now + p.len) then now + p.len else end)

-- The loop of `embed`, with its flag `fixed_res`.
unfoldable pub embed_values : List Width → Item → Outcome (List ℕ × Bool)
embed_values ws [] = ok ([], true)
embed_values [] (v ∷ vs) = undefined
embed_values (bytes n ∷ ws) (v ∷ vs) = do
  (rest, fixed_res) ← embed_values ws vs
  ok (v ++ rest, fixed_res)
embed_values (varying ∷ ws) (v ∷ vs) = do
  (rest, fixed_res) ← embed_values ws vs
  ok (int_bytes (length v) ++ (v ++ rest), leb (length v) default_varchar_len && fixed_res)

-- std::string::resize.
abbrev pub resize : ℕ → List ℕ → List ℕ
resize n xs = take n xs ++ replicate (n - length xs) 0

unfoldable pub embed : Pattern → Item → Outcome (List ℕ × Bool)
embed p list = do
  (ret, fixed_res) ← embed_values p.widths list
  ok (if fixed_res then resize p.len ret else ret, fixed_res)
