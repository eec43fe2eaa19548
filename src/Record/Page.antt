-- ===== src/Record/Page.antt =====
-- src/RecordManage/RecordManager.cpp, on one page of a table file: `tryInsert`, the variable-length
-- halves of `getRecord`, `updateRecordNoResize`, and `delOneRecord`. A page is a function from
-- offsets to bytes; a `short` is its bit pattern.
pub mod Blocks
pub mod Insert
pub mod Access
use tinydbpp.Base.{
  ℕ, zero, suc, ◌+◌, ◌-◌, ◌*◌, ◌%◌, ◌^◌, Bool, true, false, not, ◌&&◌, ◌||◌, Option, none, some,
  List, ltb, leb, ◌==◌, if◌then◌else◌, length, Outcome, ok, assert_failed, undefined, out_of_fuel,
  ◌>>=◌, ◌>>◌, boost_assert, in_bounds,
}
use tinydbpp.Base.Bytes.{Bytes, poke, short_at, put_short, memcpy, slice}

abbrev pub page_size : ℕ
page_size = 4096

-- A `short` that is compared with a size_t is sign-extended to 64 bits.
abbrev pub to_size_t : ℕ → ℕ
to_size_t s = if ltb s 32768 then s else s + (2 ^ 64 - 2 ^ 16)

-- a < b on `short`s.
abbrev pub lt_short : ℕ → ℕ → Bool
lt_short a b = ltb ((a + 32768) % 65536) ((b + 32768) % 65536)

-- The offset behind a block: `now + 3 + len` on ints. A negative offset is out of the page.
abbrev next_block : ℕ → ℕ → Outcome ℕ
next_block now len =
    if ltb len 32768
    then ok (now + 3 + len)
    else if leb 65536 (now + 3 + len)
    then ok (now + 3 + len - 65536)
    else undefined

-- The block at `now` is free and holds the record exactly, or with room for another header.
abbrev pub fits : Bytes → ℕ → List ℕ → Bool
fits d now r =
    (d now == 0)
    && (leb (length r + 3) (to_size_t (short_at d (now + 1)))
        || (to_size_t (short_at d (now + 1)) == length r))

-- The header of what is left of a block of `len` bytes behind the record.
unfoldable pub split_rest : Bytes → ℕ → ℕ → List ℕ → Outcome Bytes
split_rest d now len r =
    if leb (length r + 3) (to_size_t len)
    then (do
      in_bounds (leb (now + 3 + length r + 3) page_size)
      ok (
          put_short (poke d (now + 3 + length r) 0) (now + 3 + length r + 1)
            ((len + 2 * 65536 - length r - 3) % 65536)))
    else ok d

-- Writes the record into the free block at `now`.
unfoldable pub place : Bytes → ℕ → List ℕ → Outcome Bytes
place d now r = do
  boost_assert (leb (now + 3 + length r) page_size)
  split_rest (poke (put_short (memcpy d (now + 3) r) (now + 1) (length r)) now 1) now
      (short_at d (now + 1)) r

-- tryInsert with `fixed` unset: the loop over the blocks. The result is the location in the page
-- and the new page, or `none` for NULL.
unfoldable pub try_insert_from : ℕ → Bytes → List ℕ → ℕ → Outcome (Option (ℕ × Bytes))
try_insert_from zero d r now = out_of_fuel
try_insert_from (suc fuel) d r now = elim (ltb (now + 3) page_size) [
  | false ↦ ok none
  | true ↦ elim (fits d now r) [
    | true ↦ place d now r >>= (λ d'. ok (some (now, d')))
    | false ↦ next_block now (short_at d (now + 1)) >>= (λ next. try_insert_from fuel d r next)
  ]
]

-- Each round moves on by three bytes or more: 4096 rounds pass the end of a well-formed page.
unfoldable pub try_insert_var : Bytes → List ℕ → Outcome (Option (ℕ × Bytes))
unfolding try_insert_from
try_insert_var d r = try_insert_from page_size d r 0

-- The free list of a fixed-length page, after its first slot at `this` is taken for `r`.
take_slot : Bytes → ℕ → ℕ → List ℕ → Outcome Bytes
take_slot d this len r =
    if to_size_t len == length r then ok (put_short d 0 (short_at d (this + 3))) else (do
      let next = this + 1 + length r
      in_bounds (leb (next + 5) page_size)
      let d₁ = poke (put_short d 0 next) next 0
      let d₂ = put_short d₁ (next + 3) (short_at d₁ (this + 3))
      ok (put_short d₂ (next + 1) ((len + 2 * 65536 - 1 - length r) % 65536)))

-- tryInsert with `fixed` set.
unfoldable pub try_insert_fixed : Bytes → List ℕ → Outcome (Option (ℕ × Bytes))
unfolding take_slot
try_insert_fixed d r =
    let this = short_at d 0 in
    let len = short_at d (this + 1) in
    if this == 0
    then ok none
    else if lt_short len (length r % 65536)
    then (do boost_assert (leb page_size (this + 1 + length r)); ok none)
    else (do
      in_bounds (leb (this + 5) page_size)
      d' ← take_slot d this len r
      boost_assert (leb (this + 1 + length r) page_size)
      ok (some (this, poke (memcpy d' (this + 1) r) this 1)))

-- getRecord and updateRecordNoResize: the record at `now` in a variable-length page.
unfoldable pub read_record : Bytes → ℕ → Outcome (List ℕ)
read_record d now = do
  boost_assert (not (d now == 0))
  boost_assert (leb (now + 3 + short_at d (now + 1)) page_size)
  ok (slice d (now + 3) (short_at d (now + 1)))

-- updateRecordNoResize: `callback` says whether the record has changed, and gives the new one.
unfoldable pub update_no_resize : Bytes → ℕ → (List ℕ → Bool × List ℕ) → Outcome Bytes
update_no_resize d now callback = do
  old ← read_record d now
  let (changed, new) = callback old
  if changed
      then (do boost_assert (length new == short_at d (now + 1)); ok (memcpy d (now + 3) new))
      else ok d

-- delOneRecord, with the table's record length.
unfoldable pub del_one : ℕ → Bytes → ℕ → Bool → Bytes
del_one len d now true =
    let d₁ = put_short (poke d now 0) (now + 1) len in
    let d₂ = put_short d₁ (now + 3) (short_at d₁ 0) in put_short d₂ 0 now
del_one len d now false = poke d now 0
