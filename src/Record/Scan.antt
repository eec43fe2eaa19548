-- ===== src/Record/Scan.antt =====
-- The operations over a whole table of src/RecordManage/RecordManager.cpp: `select`, `del`, `update`
-- and `getEmbedRecord`. A solver is a function of the file and of what the caller collects; it may
-- change the page that the loop stands on.
pub mod Reads
pub mod Pages
pub mod Items
pub mod Removal
pub mod Removed
pub mod Deletion
pub mod Examples
use tinydbpp.Base.{
  ℕ, zero, suc, ◌+◌, ◌-◌, ◌*◌, ◌/◌, ◌%◌, Bool, true, false, not, ◌&&◌, ◌||◌, Option, none, some,
  List, [], ◌∷◌, ◌++◌, ltb, leb, ◌==◌, if◌then◌else◌, Outcome, ok, undefined, out_of_fuel, ◌>>=◌,
  ◌>>◌, in_bounds,
}
use tinydbpp.Base.Bytes.{Bytes, poke, short_at}
use tinydbpp.Description.{Item, Pattern, read, embed}
use tinydbpp.Record.Page.{page_size}
use tinydbpp.Record.Table.{
  File, Location, location, set_page, get_page, dic_of, slot_of, flag, is_fixed, has_space,
  del_one_record, update_one_record,
}

abbrev pub header : Bool → ℕ
header fixed = if fixed then 1 else 3

-- `now += len + header`, with `len` a short and `now` an int; no access behind a negative `now`.
abbrev pub advance : ℕ → ℕ → ℕ → Outcome ℕ
advance now len head =
    if ltb len 32768
    then ok (now + head + len)
    else if leb 65536 (now + head + len)
    then ok (now + head + len - 65536)
    else undefined

-- The bit of a full page, which `del` clears at `dic[pageID - 2]`.
abbrev pub clear_full : File → ℕ → File
clear_full f i =
    let state = f.page (dic_of i) (i - 2) in
    if has_space state
    then f
    else set_page f (dic_of i) (poke (f.page (dic_of i)) (i - 2) (state - 2))

-- A checker that always returns.
abbrev pub returns : (Item → Bool) → Item → Outcome Bool
returns check vs = ok (check vs)

module _ {A : Type 0} where
  -- The while loop over the page `i`. A round moves on by a byte or more on a well-formed page.
  unfoldable pub scan_page :
      ℕ
      → Pattern
      → (Item → Outcome Bool)
      → (File → A → Item → ℕ → ℕ → Outcome (File × A))
      → File
      → A
      → ℕ
      → Bool
      → ℕ
      → Outcome (File × A)
  scan_page zero p check solve f a i fixed now = out_of_fuel
  scan_page (suc fuel) p check solve f a i fixed now = elim (ltb now page_size) [
    | false ↦ ok (f, a)
    | true ↦ elim (f.page i now == 0) [
      | true ↦ do
        in_bounds (leb (now + 3) page_size)
        next ← advance now (short_at (f.page i) (now + 1)) (header fixed)
        scan_page fuel p check solve f a i fixed next
      | false ↦ do
        (vs, end) ← read p (f.page i) page_size (now + header fixed) fixed
        accepted ← check vs
        (g, b) ← if accepted then solve f a vs i now else ok (f, a)
        scan_page fuel p check solve g b i fixed end
    ]
  ]

  -- The for loop over the pages; the first argument counts the pages left.
  unfoldable pub scan_pages :
      ℕ
      → Pattern
      → (Item → Outcome Bool)
      → (File → A → Item → ℕ → ℕ → Outcome (File × A))
      → File
      → A
      → ℕ
      → ℕ
      → ℕ
      → Outcome (File × A)
  scan_pages zero p check solve f a i index dic = ok (f, a)
  scan_pages (suc left) p check solve f a i index dic = elim (index == page_size) [
    | true ↦ scan_pages left p check solve f a (i + 1) 0 i
    | false ↦ do
      let fixed = is_fixed (f.page dic index)
      (g, b) ← scan_page (page_size + 1) p check solve f a i fixed (if fixed then 2 else 0)
      scan_pages left p check solve g b (i + 1) (index + 1) dic
  ]

  -- RecordManager::select: the pages are counted before the dictionary page is asked for.
  unfoldable pub select :
      Pattern
      → (Item → Outcome Bool)
      → (File → A → Item → ℕ → ℕ → Outcome (File × A))
      → File
      → A
      → Outcome (File × A)
  unfolding scan_page scan_pages
  select p check solve f a = scan_pages (f.pages - 2) p check solve (get_page f 1) a 2 0 1

  -- The solver that `del` gives to `select`; `dic` is one page, so its index has a bound.
  unfoldable pub del_func :
      Pattern → (A → Item → Location → Outcome A) → File → A → Item → ℕ → ℕ → Outcome (File × A)
  del_func p solver f a vs i now = do
    b ← solver a vs (location i now)
    let g = del_one_record p.len f i now (is_fixed (flag f i))
    in_bounds (ltb (i - 2) page_size)
    ok (clear_full g i, b)

  -- RecordManager::del
  unfoldable pub del :
      Pattern
      → (Item → Outcome Bool)
      → (A → Item → Location → Outcome A)
      → File
      → A
      → Outcome (File × A)
  unfolding select del_func
  del p check solver f a = select p check (del_func p solver) f a

  -- The solver that `update` gives to `select`.
  unfoldable pub update_func :
      Pattern
      → (Item → Item)
      → (A → Location → Location → Outcome A)
      → File
      → A
      → Item
      → ℕ
      → ℕ
      → Outcome (File × A)
  update_func p solver callback f a vs i now = do
    (res, fixed_res) ← embed p (solver vs)
    (g, at) ← update_one_record p.len f (location i now) res fixed_res
    b ← callback a (location i now) at
    ok (g, b)

  -- RecordManager::update
  unfoldable pub update :
      Pattern
      → (Item → Outcome Bool)
      → (Item → Item)
      → (A → Location → Location → Outcome A)
      → File
      → A
      → Outcome (File × A)
  unfolding select update_func
  update p check solver callback f a = select p check (update_func p solver callback) f a

-- RecordManager::getEmbedRecord
unfoldable pub get_embed_record : Pattern → File → Location → Outcome Item
get_embed_record p f at = do
  in_bounds (leb 1 ((at.page_number - 1) % 4097))
  let fixed = is_fixed (flag f at.page_number)
  (vs, end) ← read p (f.page at.page_number) page_size (at.loc + header fixed) fixed
  ok vs

-- TableDescription::selectUseChecker: the items that the checker accepts.
unfoldable pub select_use_checker :
    Pattern → (Item → Outcome Bool) → File → Outcome (File × List Item)
unfolding select
select_use_checker p checker f =
    select p checker (λ g ret item i now. ok (g, ret ++ item ∷ [])) f []

-- TableDescription::traverseWithLocation
unfoldable pub traverse_with_location :
    {A : Type 0} → Pattern → (A → Item → Location → Outcome A) → File → A → Outcome (File × A)
unfolding select
traverse_with_location p callback f a =
    select p (λ item. ok true)
      (λ g b item i now. callback b item (location i now) >>= (λ c. ok (g, c))) f a
