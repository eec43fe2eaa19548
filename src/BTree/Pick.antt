-- ===== src/BTree/Pick.antt =====
-- The entries of a tree at one node: the position in a leaf, and the child that a search goes to.
use tinydbpp.Base.{
  ℕ, suc, ◌+◌, ◌≤◌, ◌<◌, ◌≡◌, refl, sym, ◌∙◌, ap, subst, Bool, true, false, ◌||◌, Option, none,
  some, List, [], ◌∷◌, ◌++◌, append-nil, leb, ltb, ◌==◌, Bool-cases, inl, inr, if◌then◌else◌,
  get_elem?, arith,
}
use mathlib.Core.Bool.{false≢true}
use tinydbpp.Record.Table.{Location}
use tinydbpp.BTree.Search.{below, is_key, below_first, is_key_first}
use tinydbpp.BTree.Shape.{
  Shape, Rest, end, more, keys_of, places_of, entries, entries_rest, assoc, AllBelow, AllFrom,
  Ascending, Splits, IsOrdered, AreOrdered, Within, AllWithin,
}

pub get_elem?-next :
    (l : Location) (ls : List Location) (n : ℕ) → get_elem? (l ∷ ls) (1 + n) ≡ get_elem? ls n
get_elem?-next l ls n = let e : 1 + n ≡ suc n = omega arith in ap (get_elem? (l ∷ ls)) e

abbrev pub is_some : Option Location → Bool
is_some none = false
is_some (some l) = true

pub is_key-is_some :
    (key : ℕ) (es : List (ℕ × Location)) → is_key key (keys_of es) ≡ is_some (assoc key es)
is_key-is_some key [] = refl
is_key-is_some key ((k, l) ∷ es) = elim (Bool-cases (k == key)) [
  | inl same ↦ rw same refl
  | inr other ↦ rw other (is_key-is_some key es)
]

is_key-assoc :
    (key : ℕ) (es : List (ℕ × Location)) → is_key key (keys_of es) ≡ false → assoc key es ≡ none
is_key-assoc key [] h = refl
is_key-assoc key ((k, l) ∷ es) h = elim (Bool-cases (k == key)) [
  | inl same ↦ absurd (false≢true (sym h ∙ ap (λ b. b || is_key key (keys_of es)) same))
  | inr other ↦
      rw other (is_key-assoc key es (sym (ap (λ b. b || is_key key (keys_of es)) other) ∙ h))
]

-- The entries of a leaf are found at the position that `searchNode` gives.
pub below-assoc :
    (key : ℕ) (es : List (ℕ × Location))
    → Ascending (keys_of es)
    → (if is_key key (keys_of es) then get_elem? (places_of es) (below key (keys_of es)) else none)
      ≡ assoc key es
below-assoc key [] up = elim up [ ]
below-assoc key ((k, l) ∷ []) up = elim (Bool-cases (k == key)) [
  | inl same ↦ let here : ltb k key ≡ false = ground arith in rw (same, here) refl
  | inr other ↦ rw other refl
]
below-assoc key ((k, l) ∷ (j, m) ∷ es) up = elim (Bool-cases (k == key)) [
  | inl same ↦ rw (same, below_first key k (j ∷ keys_of es) up (ground arith)) refl
  | inr other ↦ elim (Bool-cases (ltb k key)) [
    | inl less ↦
        let ks = j ∷ keys_of es in
        let next = get_elem?-next l (m ∷ places_of es) (below key ks) in
        rw (other, less)
          (ap (λ o. if is_key key ks then o else none) next ∙ below-assoc key ((j, m) ∷ es) up.1)
    | inr more_than ↦
        let absent : is_key key (j ∷ keys_of es) ≡ false =
          is_key_first key j (keys_of es) up.1 (ground (arith, up.0)) in
        rw (other, more_than, absent, is_key-assoc key ((j, m) ∷ es) absent) refl
  ]
]

-- The child of an inner node that `searchNode` goes to.
unfoldable pub pick : ℕ → Shape → Rest → Shape
pick key s end = s
pick key s (more k c r) = let rest = pick key c r in if leb k key then rest else s

assoc-append-below :
    (key : ℕ) (es fs : List (ℕ × Location)) → AllBelow key es → assoc key (es ++ fs) ≡ assoc key fs
assoc-append-below key [] fs h = refl
assoc-append-below key ((k, l) ∷ es) fs h =
    let other : (k == key) ≡ false = ground (arith, h.0) in
    rw other (assoc-append-below key es fs h.1)

AllBelow-weaker : (k key : ℕ) (es : List (ℕ × Location)) → AllBelow k es → k ≤ key → AllBelow key es
AllBelow-weaker k key [] h le = tt
AllBelow-weaker k key ((j, l) ∷ es) h le = (omega (arith, h.0), AllBelow-weaker k key es h.1 le)

assoc-above : (k key : ℕ) (es : List (ℕ × Location)) → AllFrom k es → key < k → assoc key es ≡ none
assoc-above k key [] h less = refl
assoc-above k key ((j, l) ∷ es) h less =
    let other : (j == key) ≡ false = ground (arith, h.0) in rw other (assoc-above k key es h.1 less)

assoc-append-above :
    (key : ℕ) (es fs : List (ℕ × Location))
    → assoc key fs ≡ none
    → assoc key (es ++ fs) ≡ assoc key es
assoc-append-above key [] fs h = h
assoc-append-above key ((k, l) ∷ es) fs h = elim (Bool-cases (k == key)) [
  | inl same ↦ rw same refl
  | inr other ↦ rw other (assoc-append-above key es fs h)
]

pub pick-assoc :
    (key : ℕ) (s : Shape) (r : Rest)
    → Splits (entries s) r
    → assoc key (entries s ++ entries_rest r) ≡ assoc key (entries (pick key s r))
unfolding pick entries entries_rest
pick-assoc key s end h = ap (assoc key) (append-nil (entries s))
pick-assoc key s (more k c r) h = elim (Bool-cases (leb k key)) [
  | inl right ↦ rw right (
      assoc-append-below key (entries s) (entries c ++ entries_rest r)
        (AllBelow-weaker k key (entries s) h.0 (ground arith))
      ∙ pick-assoc key c r h.2)
  | inr left ↦ rw left (
      assoc-append-above key (entries s) (entries c ++ entries_rest r)
        (assoc-above k key (entries c ++ entries_rest r) h.1 (ground arith)))
]

pub pick-IsOrdered :
    (key : ℕ) (s : Shape) (r : Rest) → IsOrdered s → AreOrdered r → IsOrdered (pick key s r)
unfolding pick AreOrdered
pick-IsOrdered key s end o os = o
pick-IsOrdered key s (more k c r) o os = elim (Bool-cases (leb k key)) [
  | inl right ↦
      subst (λ b. IsOrdered (if b then pick key c r else s)) (sym right)
        (pick-IsOrdered key c r os.0 os.1)
  | inr left ↦ subst (λ b. IsOrdered (if b then pick key c r else s)) (sym left) o
]

pub pick-Within :
    (d key : ℕ) (s : Shape) (r : Rest) → Within d s → AllWithin d r → Within d (pick key s r)
unfolding pick AllWithin
pick-Within d key s end o os = o
pick-Within d key s (more k c r) o os = elim (Bool-cases (leb k key)) [
  | inl right ↦
      subst (λ b. Within d (if b then pick key c r else s)) (sym right)
        (pick-Within d key c r os.0 os.1)
  | inr left ↦ subst (λ b. Within d (if b then pick key c r else s)) (sym left) o
]
