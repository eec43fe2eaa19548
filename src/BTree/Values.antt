-- ===== src/BTree/Values.antt =====
-- The locations of a key's records, as the bytes that src/BTree/BTreePlus.h keeps.
use tinydbpp.Base.{
  ℕ, zero, suc, ◌*◌, ◌/◌, ◌^◌, ◌<◌, ◌≡◌, refl, ◌∙◌, ap, ap₂, List, [], ◌∷◌, ◌++◌, length, take,
  drop, arith,
}
use tinydbpp.Record.Table.{Location, location}
use tinydbpp.BTree.Node.{first_of}
use tinydbpp.BTree.Plus.{location_to_string, string_to_location, pointer, pointers}
use tinydbpp.BTree.Formats.{InPages}

-- What inserting records at these locations appends, one after the other.
abbrev pub string_of : List Location → List ℕ
string_of [] = []
string_of (l ∷ ls) = location_to_string l ++ string_of ls

length-string_of : (ls : List Location) → length (string_of ls) ≡ length ls * 6
length-string_of [] = refl
length-string_of (l ∷ ls) = omega (arith, length-string_of ls)

location_back :
    (l : Location)
    → l.page_number < 2 ^ 32
    → l.loc < 4096
    → string_to_location (location_to_string l) ≡ l
location_back l p o = ap₂ location (omega arith) (omega arith)

drop_six :
    (l : Location) (rest : List ℕ) (i : ℕ)
    → drop (suc i * 6) (location_to_string l ++ rest) ≡ drop (i * 6) rest
drop_six l rest i =
    let six : suc i * 6 ≡ suc (suc (suc (suc (suc (suc (i * 6)))))) = omega arith in rw six refl

first_of_ext :
    {A : Type 0} (n : ℕ) (a b : ℕ → A) → ((i : ℕ) → a i ≡ b i) → first_of n a ≡ first_of n b
first_of_ext zero a b h = refl
first_of_ext (suc n) a b h =
    ap₂ (λ x xs. x ∷ xs) (h 0) (first_of_ext n (λ i. a (suc i)) (λ i. b (suc i)) (λ i. h (suc i)))

pointers_back :
    (ls : List Location) → InPages ls → first_of (length ls) (pointer (string_of ls)) ≡ ls
pointers_back [] h = refl
pointers_back (l ∷ ls) h =
    ap₂ (λ x xs. x ∷ xs) (location_back l h.0 h.1)
      (first_of_ext (length ls) (λ i. pointer (string_of (l ∷ ls)) (suc i)) (pointer (string_of ls))
          (λ i. ap (λ s. string_to_location (take 6 s)) (drop_six l (string_of ls) i))
        ∙ pointers_back ls h.2)

-- The locations that are written one after the other as six bytes each, for locations inside
-- pages, are read back in order.
pub pointers-string_of : (ls : List Location) → InPages ls → pointers (string_of ls) ≡ ls
unfolding pointers
pointers-string_of ls h =
    let count : length (string_of ls) / 6 ≡ length ls = omega (arith, length-string_of ls) in
    rw count (pointers_back ls h)
