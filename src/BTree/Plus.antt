-- ===== src/BTree/Plus.antt =====
-- src/BTree/BTreePlus.h: a tree whose data for a key is the locations of the key's records, six bytes
-- each.
use tinydbpp.Base.{
  ℕ, zero, suc, ◌+◌, ◌*◌, ◌/◌, ◌%◌, ◌^◌, Bool, true, false, Option, none, some, List, [], ◌∷◌, ◌++◌,
  ◌==◌, if◌then◌else◌, length, get_or, take, drop, Outcome, ok, ◌>>=◌, ◌>>◌, boost_assert,
}
use tinydbpp.Record.Table.{Location, location, location_eq}
use tinydbpp.BTree.Node.{first_of}
use tinydbpp.BTree.Tree.{Entry, Records, Tree, Answer, answer, key_not_found, key_duplicated}
use tinydbpp.BTree.Tree.{get as tree_get, insert as tree_insert, update as tree_update}

-- locationToString: a u32 and a u16, low bytes first.
abbrev pub location_to_string : Location → List ℕ
location_to_string l =
    let pn = l.page_number % 2 ^ 32 in
    let off = l.loc % 2 ^ 16 in
    pn % 256 ∷ pn / 256 % 256 ∷ pn / 65536 % 256 ∷ pn / 16777216 % 256 ∷ off % 256 ∷ off / 256 ∷ []

-- stringToLocation
abbrev pub string_to_location : List ℕ → Location
string_to_location s =
    location (get_or s 0 0 + 256 * get_or s 1 0 + 65536 * get_or s 2 0 + 16777216 * get_or s 3 0)
      (get_or s 4 0 + 256 * get_or s 5 0)

-- stringToLocation(ptrs.substr(i * LocLength, LocLength))
abbrev pub pointer : List ℕ → ℕ → Location
pointer ptrs i = string_to_location (take 6 (drop (i * 6) ptrs))

unfoldable pub pointers : List ℕ → List Location
pointers ptrs = first_of (length ptrs / 6) (pointer ptrs)

module _ {S : Type 0} (rank_min rank : ℕ) (records : Records S) where
  abbrev pub records_of : S → List Location → Outcome (List (List ℕ))
  records_of s [] = ok []
  records_of s (l ∷ ls) = do e ← records.get s l; r ← ok e; rs ← records_of s ls; ok (r ∷ rs)

  -- BTreePlus::get
  unfoldable pub get : ℕ → Tree S → ℕ → Outcome (List (List ℕ))
  unfolding tree_get pointers
  get fuel t key = do
    found ← tree_get rank_min rank records fuel t key
    elim found [
      | key_not_found ↦ ok []
      | key_duplicated ↦ ok []
      | answer e ↦ do
        ptrs ← ok e
        boost_assert (length ptrs % 6 == 0)
        records_of t.store (pointers ptrs)
    ]

  -- BTreePlus::insert
  unfoldable pub insert : ℕ → Tree S → ℕ → List ℕ → Bool → Outcome (Answer (Tree S))
  unfolding tree_update tree_insert
  insert fuel t key entry fixed = do
    d ← records.insert t.store (entry) fixed
    let u = record t { store = d.0 }
    let append =
        λ (s : S) (e : Entry). ok e >>= (λ ptrs. ok (s, some ((ptrs ++ location_to_string d.1))))
    updated ← tree_update rank_min rank records fuel u key append
    elim updated [
      | answer v ↦ ok (answer v)
      | key_not_found ↦ tree_insert rank_min rank records fuel u key (location_to_string d.1)
      | key_duplicated ↦ ok key_duplicated
    ]

  -- The loop of BTreePlus::remove: what the checker accepts is deleted, the rest is kept.
  abbrev pub removed : (List ℕ → Bool) → Bool → S → List Location → Outcome (S × List ℕ)
  removed checker fixed s [] = ok (s, [])
  removed checker fixed s (l ∷ ls) = do
    e ← records.get s l
    r ← ok e
    u ← if checker r then records.del_one s l fixed else ok s
    rest ← removed checker fixed u ls
    ok (rest.0, if checker r then rest.1 else location_to_string l ++ rest.1)

  -- BTreePlus::remove
  unfoldable pub remove : ℕ → Tree S → ℕ → (List ℕ → Bool) → Bool → Outcome (Answer (Tree S))
  unfolding tree_get tree_update pointers
  remove fuel t key checker fixed = do
    found ← tree_get rank_min rank records fuel t key
    elim found [
      | key_not_found ↦ ok key_not_found
      | key_duplicated ↦ ok key_duplicated
      | answer e ↦ do
        ptrs ← ok e
        tree_update rank_min rank records fuel t key
            (λ s current. do r ← removed checker fixed s (pointers ptrs); ok (r.0, some (r.1)))
    ]

  -- The loop of BTreePlus::update over the `left` pointers from the one at `i` on: the pointers, and
  -- whether one has changed. The callback gives the changed record, or none where it returns false.
  abbrev pub moved :
      (List ℕ → Option (List ℕ)) → ℕ → S → List ℕ → ℕ → Bool → Outcome (S × List ℕ × Bool)
  moved callback zero s ptrs i changed = ok (s, ptrs, changed)
  moved callback (suc left) s ptrs i changed = do
    let l = pointer ptrs i
    e ← records.get s l
    r ← ok e
    elim (callback r) [
      | none ↦ moved callback left s ptrs (i + 1) changed
      | some r' ↦ do
        m ← records.update_one s l (r')
        let here = location_to_string m.1
        if location_eq m.1 l
            then moved callback left m.0 ptrs (i + 1) changed
            else moved callback left m.0 (take (i * 6) ptrs ++ (here ++ drop (i * 6 + 6) ptrs))
                (i + 1) true
    ]

  -- BTreePlus::update
  unfoldable pub update : ℕ → Tree S → ℕ → (List ℕ → Option (List ℕ)) → Outcome (Answer (Tree S))
  unfolding tree_update
  update fuel t key callback = tree_update rank_min rank records fuel t key (λ s e. do
    ptrs ← ok e
    r ← moved callback (length ptrs / 6) s ptrs 0 false
    ok (r.0, if r.2 then some (r.1) else none))
