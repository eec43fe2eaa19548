-- ===== src/Query/Keys.antt =====
-- FieldList::checkPrimaryKey.
use tinydbpp.Base.{
  ◌≡◌, refl, sym, ◌∙◌, ap, ap₂, Bool, true, false, not, ◌&&◌, ◌||◌, List, [], ◌∷◌, if_true,
  if_false, Bool-cases, inl, inr, arith,
}
use tinydbpp.Query.{same_text, Field, mark_keys, mark_each, check_primary_key}

-- Some PRIMARY KEY statement of the list names this field.
abbrev pub named_key : Field → List Field → Bool
named_key t [] = false
named_key t (f ∷ fs) = (f.is_primary_key_stmt && same_text t.name f.name) || named_key t fs

-- The list with a key for each column that such a statement names.
abbrev pub with_keys : List Field → List Field → List Field
with_keys stmts [] = []
with_keys stmts (t ∷ ts) =
    record t { is_key = t.is_key || (not t.is_primary_key_stmt && named_key t stmts) }
    ∷ with_keys stmts ts

same_key : (t : Field) (b : Bool) → (b ≡ t.is_key) → record t { is_key = b } ≡ t
same_key t b e = ap (λ k. record t { is_key = k }) e

with_keys_none : (ts : List Field) → with_keys [] ts ≡ ts
with_keys_none [] = refl
with_keys_none (t ∷ ts) = ap₂ (λ x xs. x ∷ xs) (same_key t _ (ground arith)) (with_keys_none ts)

with_keys_marked :
    (f : Field) (fs ts : List Field)
    → f.is_primary_key_stmt ≡ true
    → with_keys fs (mark_keys f ts) ≡ with_keys (f ∷ fs) ts
with_keys_marked f fs [] p = refl
with_keys_marked f fs (t ∷ ts) p =
    ap₂ (λ x xs. x ∷ xs)
      (elim (Bool-cases (same_text t.name f.name && not t.is_primary_key_stmt)) [
        | inl named ↦ rw named (ap (λ k. record t { is_key = k }) (ground arith))
        | inr unnamed ↦ rw unnamed (ap (λ k. record t { is_key = k }) (ground arith))
      ])
      (with_keys_marked f fs ts p)

with_keys_skip :
    (f : Field) (fs ts : List Field)
    → f.is_primary_key_stmt ≡ false
    → with_keys fs ts ≡ with_keys (f ∷ fs) ts
with_keys_skip f fs [] p = refl
with_keys_skip f fs (t ∷ ts) p =
    ap₂ (λ x xs. x ∷ xs) (ap (λ k. record t { is_key = k }) (ground arith))
      (with_keys_skip f fs ts p)

mark_each-with_keys : (fs all : List Field) → mark_each fs all ≡ with_keys fs all
mark_each-with_keys [] all = sym (with_keys_none all)
mark_each-with_keys (f ∷ fs) all = elim (Bool-cases f.is_primary_key_stmt) [
  | inl p ↦
      ap (mark_each fs) (if_true f.is_primary_key_stmt (mark_keys f all) all p)
      ∙ mark_each-with_keys fs (mark_keys f all)
      ∙ with_keys_marked f fs all p
  | inr p ↦
      ap (mark_each fs) (if_false f.is_primary_key_stmt (mark_keys f all) all p)
      ∙ mark_each-with_keys fs all
      ∙ with_keys_skip f fs all p
]

-- `checkPrimaryKey` makes a key of exactly the columns that were one or that some PRIMARY KEY
-- statement of the list names, and changes nothing else.
pub check_primary_key-with_keys : (fs : List Field) → check_primary_key fs ≡ with_keys fs fs
unfolding check_primary_key
check_primary_key-with_keys fs = mark_each-with_keys fs fs
