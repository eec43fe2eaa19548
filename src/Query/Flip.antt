-- ===== src/Query/Flip.antt =====
-- The operator of a condition whose sides change places.
use tinydbpp.Base.{ℕ, ◌≡◌, refl, ap, ap₂, not, ◌&&◌, [], ◌∷◌, ◌==◌, arith}
use tinydbpp.Query.{
  Text, same_text, Op, no_op, eq, lt, gt, ne, le, ge, like, is_null, is_not_null, flip, int_meets,
}

same_number : (a b : ℕ) → (b == a) ≡ (a == b)
same_number a b = ground arith

same_text_sym : (a b : Text) → same_text b a ≡ same_text a b
same_text_sym [] [] = refl
same_text_sym [] (y ∷ ys) = refl
same_text_sym (x ∷ xs) [] = refl
same_text_sym (x ∷ xs) (y ∷ ys) = ap₂ ◌&&◌ (same_number x y) (same_text_sym xs ys)

-- The operator that `assign` gives a condition when its sides change places holds of the swapped
-- ints exactly if the operator held of the ints.
pub int_meets-flip : (o : Op) (a b : ℕ) → int_meets (flip o) b a ≡ int_meets o a b
unfolding int_meets
int_meets-flip no_op a b = refl
int_meets-flip eq a b = same_number a b
int_meets-flip lt a b = refl
int_meets-flip gt a b = refl
int_meets-flip ne a b = ap not (same_number a b)
int_meets-flip le a b = refl
int_meets-flip ge a b = refl
int_meets-flip like a b = refl
int_meets-flip is_null a b = refl
int_meets-flip is_not_null a b = refl
