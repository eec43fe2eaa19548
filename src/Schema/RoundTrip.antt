-- ===== src/Schema/RoundTrip.antt =====
-- The text that CREATE TABLE writes to page 0, and its reading by getTableDescription.
use tinydbpp.Base.{
  ℕ, zero, suc, ◌+◌, ◌-◌, ◌*◌, ◌/◌, ◌%◌, ◌^◌, ◌<◌, ◌≡◌, refl, ◌∙◌, ap, subst, Bool, true, false,
  not, ◌&&◌, ◌||◌, Bool-cases, inl, inr, none, some, List, [], ◌∷◌, ◌++◌, ltb, leb, if◌then◌else◌,
  length, length-append, ok, arith,
}
use tinydbpp.Description.{Width, bytes, varying}
use tinydbpp.Query.{
  Text, ValueType, int, varchar, col, null_type, same_type, Field, check_primary_key,
}
use tinydbpp.Query.Clause.{type_text}
use tinydbpp.Schema.{
  digits, decimal, is_space, spaced, bit, pattern_text, columns_of, field_words, scheme,
  key_indexes, write_scheme, close, open_words, words, value_from, read_int, read_width, Described,
  read_columns, parse_scheme,
}

-- A power of ten, as a sum that grows with its argument.
abbrev ten : ℕ → ℕ
ten zero = 1
ten (suc k) = 10 * ten k

value_from-snoc :
    (acc a d : ℕ) (xs : Text)
    → value_from acc xs ≡ some a
    → d < 10
    → value_from acc (xs ++ (48 + d) ∷ []) ≡ some (a * 10 + d)
value_from-snoc acc a d [] e small =
    let digit : (leb 48 (48 + d) && leb (48 + d) 57) ≡ true = ground arith in
    let same : acc ≡ a = ground arith in rw digit (ap some (omega (arith, same)))
value_from-snoc acc a d (x ∷ xs) e small = elim (Bool-cases (leb 48 x && leb x 57)) [
  | inl digit ↦ rw digit (
      value_from-snoc (acc * 10 + (x - 48)) a d xs
        (subst (λ b. (if b then value_from (acc * 10 + (x - 48)) xs else none) ≡ some a) digit e)
        small)
  | inr other ↦
      let failed : none ≡ some a =
        subst (λ b. (if b then value_from (acc * 10 + (x - 48)) xs else none) ≡ some a) other e in
      ground (arith, failed)
]

value_from-digits : (fuel n : ℕ) → n < ten fuel → value_from 0 (digits fuel n) ≡ some n
value_from-digits zero n small = ground arith
value_from-digits (suc fuel) n small = elim (Bool-cases (ltb n 10)) [
  | inl one ↦ rw one (value_from-snoc 0 0 (n % 10) [] refl (omega arith) ∙ ap some (ground arith))
  | inr more ↦ rw more (
      value_from-snoc 0 (n / 10) (n % 10) (digits fuel (n / 10))
        (value_from-digits fuel (n / 10) (omega arith)) (omega arith)
      ∙ ap some (omega arith))
]

read_int-value : (w : Text) (n : ℕ) → value_from 0 w ≡ some n → n < 2 ^ 31 → read_int w ≡ ok n
unfolding read_int
read_int-value w n e small =
    let inside : ltb n (2 ^ 31) ≡ true = ground arith in rw (read_int, e, inside) refl

read_int-decimal : (n : ℕ) → n < 2 ^ 31 → read_int (decimal n) ≡ ok n
read_int-decimal n small = read_int-value (decimal n) n (value_from-digits 10 n (omega arith)) small

read_int-bit : (b : Bool) → read_int (bit b) ≡ ok (if b then 1 else 0)
unfolding read_int
read_int-bit true = refl
read_int-bit false = refl

-- No space, and not empty.
abbrev pub solid : Text → Bool
solid [] = true
solid (x ∷ xs) = not (is_space x) && solid xs

unfoldable pub IsWord : Text → Type 0
IsWord w = (solid w ≡ true) × (0 < length w)

both : (a b : Bool) → (not a && b) ≡ true → (a ≡ false) × (b ≡ true)
both a b e = ground arith

open_words-solid : (w s : Text) → solid w ≡ true → open_words (w ++ 32 ∷ s) ≡ (w, words s)
open_words-solid [] s e = refl
open_words-solid (x ∷ w) s e =
    let (one, more) = both (is_space x) (solid w) e in rw (one, open_words-solid w s more) refl

words-spaced : (w s : Text) → IsWord w → words (w ++ 32 ∷ s) ≡ w ∷ words s
unfolding IsWord
words-spaced [] s (e, some_byte) = absurd (omega arith)
words-spaced (x ∷ w) s (e, some_byte) = ap close (open_words-solid (x ∷ w) s e)

solid-snoc : (w : Text) (x : ℕ) → solid w ≡ true → is_space x ≡ false → solid (w ++ x ∷ []) ≡ true
solid-snoc [] x e other = rw other refl
solid-snoc (y ∷ w) x e other =
    let (one, more) = both (is_space y) (solid w) e in rw (one, solid-snoc w x more other) refl

solid-digits : (fuel n : ℕ) → solid (digits fuel n) ≡ true
solid-digits zero n = refl
solid-digits (suc fuel) n =
    let digit : is_space (48 + n % 10) ≡ false = ground arith in
    elim (Bool-cases (ltb n 10)) [
      | inl one ↦ rw one (solid-snoc [] (48 + n % 10) refl digit)
      | inr more ↦
          rw more
            (solid-snoc (digits fuel (n / 10)) (48 + n % 10) (solid-digits fuel (n / 10)) digit)
    ]

digits_some : (fuel n : ℕ) → 0 < length (digits (suc fuel) n)
digits_some fuel n =
    let before : Text = if ltb n 10 then [] else digits fuel (n / 10) in
    omega (arith, length-append before ((48 + n % 10) ∷ []))

decimal-IsWord : (n : ℕ) → IsWord (decimal n)
unfolding IsWord
decimal-IsWord n = (solid-digits 10 n, digits_some 9 n)

bit-IsWord : (b : Bool) → IsWord (bit b)
unfolding IsWord
bit-IsWord true = (refl, omega arith)
bit-IsWord false = (refl, omega arith)

type_text-IsWord : (t : ValueType) → IsWord (type_text t)
unfolding IsWord
type_text-IsWord int = (refl, omega arith)
type_text-IsWord varchar = (refl, omega arith)
type_text-IsWord col = (refl, omega arith)
type_text-IsWord null_type = (refl, omega arith)

pattern_text-IsWord : (t : ValueType) → IsWord (pattern_text t)
unfolding IsWord
pattern_text-IsWord int = (refl, omega arith)
pattern_text-IsWord varchar = (refl, omega arith)
pattern_text-IsWord col = (refl, omega arith)
pattern_text-IsWord null_type = (refl, omega arith)

abbrev pub width_of : ValueType → Width
width_of t = if same_type t varchar then varying else bytes 5

read_width-pattern_text : (t : ValueType) → read_width (pattern_text t) ≡ ok (width_of t)
unfolding read_int
read_width-pattern_text int = refl
read_width-pattern_text varchar = refl
read_width-pattern_text col = refl
read_width-pattern_text null_type = refl

-- The names are words, and the widths are ints.
abbrev pub AllFit : List Field → Type 0
AllFit [] = Unit {0}
AllFit (f ∷ fs) = IsWord f.name × (f.size < 2 ^ 31) × AllFit fs

-- What is to be read of a field.
abbrev pub described : List Field → List Described
described [] = []
described (f ∷ fs) =
    record {
      name = f.name;
      type = type_text f.type;
      pattern = width_of f.type;
      not_null = if f.is_key || not f.can_null then 1 else 0;
      unique = if f.is_key then 1 else 0;
      width = f.size;
    }
    ∷ described fs

words-field_words : (fs : List Field) → AllFit fs → words (spaced (field_words fs)) ≡ field_words fs
words-field_words [] h = refl
words-field_words (f ∷ fs) h =
    words-spaced f.name _ h.0
    ∙ ap (◌∷◌ f.name) (
        words-spaced (type_text f.type) _ (type_text-IsWord f.type)
        ∙ ap (◌∷◌ (type_text f.type)) (
            words-spaced (pattern_text f.type) _ (pattern_text-IsWord f.type)
            ∙ ap (◌∷◌ (pattern_text f.type)) (
                words-spaced (bit (f.is_key || not f.can_null)) _
                  (bit-IsWord (f.is_key || not f.can_null))
                ∙ ap (◌∷◌ (bit (f.is_key || not f.can_null))) (
                    words-spaced (bit f.is_key) _ (bit-IsWord f.is_key)
                    ∙ ap (◌∷◌ (bit f.is_key)) (
                        words-spaced (decimal f.size) _ (decimal-IsWord f.size)
                        ∙ ap (◌∷◌ (decimal f.size)) (words-field_words fs h.2))))))

read_columns-field_words :
    (fs : List Field) → AllFit fs → read_columns (length fs) (field_words fs) ≡ ok (described fs)
unfolding read_columns
read_columns-field_words [] h = refl
read_columns-field_words (f ∷ fs) h =
    rw
      (
        read_width-pattern_text f.type,
        read_int-bit (f.is_key || not f.can_null),
        read_int-bit f.is_key,
        read_int-decimal f.size h.1,
        read_columns-field_words fs h.2,
      )
      refl

parse_scheme-words :
    (text w : Text) (ws : List Text) (num : ℕ)
    → words text ≡ w ∷ ws
    → read_int w ≡ ok num
    → parse_scheme text ≡ read_columns num ws
unfolding parse_scheme
parse_scheme-words text w ws num e r = rw (parse_scheme, e, r) refl

words-scheme :
    (fs : List Field)
    → AllFit (columns_of fs)
    → words (scheme fs) ≡ decimal (length (columns_of fs)) ∷ field_words (columns_of fs)
unfolding scheme
words-scheme fs h =
    let columns = columns_of fs in
    let count = decimal (length columns) in
    words-spaced count (spaced (field_words columns)) (decimal-IsWord (length columns))
    ∙ ap (◌∷◌ count) (words-field_words columns h)

-- For fields whose names are words without spaces and whose sizes are ints, with a text that page
-- 0 can hold, what CREATE TABLE writes there is read back by `getTableDescription` as the columns
-- without the PRIMARY KEY statements, with their names, types, patterns, flags and widths; the
-- keys' indexes are those set up.
pub write_scheme-parse_scheme :
    (table : Text) (fs : List Field)
    → let all = check_primary_key fs in
      AllFit (columns_of all)
      → length (columns_of all) < 2 ^ 31
      → length (scheme all) < 4096
      → (text : Text) × (write_scheme table fs ≡ ok (text, key_indexes table (columns_of all)))
        × (parse_scheme text ≡ ok (described (columns_of all)))
unfolding write_scheme
write_scheme-parse_scheme table fs h few short =
    let all = check_primary_key fs in
    let inside : ltb (length (scheme all)) 4096 ≡ true = ground arith in
    let columns = columns_of all in
    (
      scheme all,
      rw inside refl,
      parse_scheme-words (scheme all) (decimal (length columns)) (field_words columns)
            (length columns) (words-scheme all h) (read_int-decimal (length columns) few)
          ∙ read_columns-field_words columns h,
    )
