-- ===== src/Base/Bytes.antt =====
-- A page buffer as a function from offsets to bytes, with the accesses that the code makes by
-- pointers: a byte, a little-endian `short`, memcpy, and std::string(buf + o, n).
use Prim.Native.Nat.{ℕ, zero, suc, ◌+◌, ◌*◌, ◌/◌, ◌%◌, ◌≤◌, ◌<◌}
use mathlib.Core.Path.{subst, ◌≡◌, refl, ap, ap₂, ◌∙◌}
use mathlib.Core.List.{List, [], ◌∷◌, ◌++◌}
use native.Mathlib.Omega.{arith}
use tinydbpp.Base.Tests.{◌==◌, if◌then◌else◌}
use tinydbpp.Base.Lists.{length}

abbrev pub Bytes : Type 0
Bytes = ℕ → ℕ

abbrev pub poke : Bytes → ℕ → ℕ → Bytes
poke d o v i = if i == o then v else d i

-- *(short*)(d + o), as the bit pattern 0 .. 65535.
abbrev pub short_at : Bytes → ℕ → ℕ
short_at d o = d o + 256 * d (o + 1)

abbrev pub put_short : Bytes → ℕ → ℕ → Bytes
put_short d o v = poke (poke d o (v % 256)) (o + 1) (v / 256 % 256)

unfoldable pub memcpy : Bytes → ℕ → List ℕ → Bytes
memcpy d o [] = d
memcpy d o (x ∷ xs) = memcpy (poke d o x) (o + 1) xs

unfoldable pub slice : Bytes → ℕ → ℕ → List ℕ
slice d o zero = []
slice d o (suc n) = d o ∷ slice d (o + 1) n

pub memcpy_below : (d : Bytes) (o : ℕ) (xs : List ℕ) (i : ℕ) → i < o → memcpy d o xs i ≡ d i
unfolding memcpy
memcpy_below d o [] i h = refl
memcpy_below d o (x ∷ xs) i h = ground (arith, memcpy_below (poke d o x) (o + 1) xs i)

pub memcpy_above :
    (d : Bytes) (o : ℕ) (xs : List ℕ) (i : ℕ) → o + length xs ≤ i → memcpy d o xs i ≡ d i
unfolding memcpy
memcpy_above d o [] i h = refl
memcpy_above d o (x ∷ xs) i h = ground (arith, memcpy_above (poke d o x) (o + 1) xs i)

pub length-slice : (d : Bytes) (o n : ℕ) → length (slice d o n) ≡ n
unfolding slice
length-slice d o zero = refl
length-slice d o (suc n) = ap suc (length-slice d (o + 1) n)

-- A slice depends on its own bytes only.
pub slice_same :
    (d e : Bytes) (o n : ℕ) → ((i : ℕ) → o ≤ i → i < o + n → d i ≡ e i) → slice d o n ≡ slice e o n
unfolding slice
slice_same d e o zero h = refl
slice_same d e o (suc n) h =
    ap₂ ◌∷◌ (h o (omega arith) (omega arith))
      (slice_same d e (o + 1) n (λ i a b. h i (omega arith) (omega arith)))

pub slice-memcpy : (d : Bytes) (o : ℕ) (xs : List ℕ) → slice (memcpy d o xs) o (length xs) ≡ xs
unfolding slice memcpy
slice-memcpy d o [] = refl
slice-memcpy d o (x ∷ xs) =
    ap₂ ◌∷◌ (memcpy_below (poke d o x) (o + 1) xs o (omega arith) ∙ ground arith)
      (slice-memcpy (poke d o x) (o + 1) xs)

pub short-put : (d : Bytes) (o v : ℕ) → v < 65536 → short_at (put_short d o v) o ≡ v
short-put d o v h = ground arith

-- The bytes `xs` stand at `o`.
abbrev pub Holds : Bytes → ℕ → List ℕ → Type 0
Holds d o [] = Unit {0}
Holds d o (x ∷ xs) = (d o ≡ x) × Holds d (o + 1) xs

pub memcpy-Holds : (d : Bytes) (o : ℕ) (xs : List ℕ) → Holds (memcpy d o xs) o xs
unfolding memcpy
memcpy-Holds d o [] = tt
memcpy-Holds d o (x ∷ xs) = (
  memcpy_below (poke d o x) (o + 1) xs o (omega arith) ∙ ground arith,
  memcpy-Holds (poke d o x) (o + 1) xs,
)

pub Holds-slice : (d : Bytes) (o : ℕ) (xs : List ℕ) → Holds d o xs → slice d o (length xs) ≡ xs
unfolding slice
Holds-slice d o [] h = refl
Holds-slice d o (x ∷ xs) h = ap₂ ◌∷◌ h.0 (Holds-slice d (o + 1) xs h.1)

pub Holds-left : (d : Bytes) (o : ℕ) (xs ys : List ℕ) → Holds d o (xs ++ ys) → Holds d o xs
Holds-left d o [] ys h = tt
Holds-left d o (x ∷ xs) ys h = (h.0, Holds-left d (o + 1) xs ys h.1)

pub Holds-right :
    (d : Bytes) (o : ℕ) (xs ys : List ℕ) → Holds d o (xs ++ ys) → Holds d (o + length xs) ys
Holds-right d o [] ys h = subst (λ k. Holds d k ys) (omega arith) h
Holds-right d o (x ∷ xs) ys h =
    subst (λ k. Holds d k ys) (omega arith) (Holds-right d (o + 1) xs ys h.1)

-- An `int`, or an `uint32_t`, in four bytes.
abbrev pub int_bytes : ℕ → List ℕ
int_bytes v = v % 256 ∷ v / 256 % 256 ∷ v / 65536 % 256 ∷ v / 16777216 % 256 ∷ []

abbrev pub int_at : Bytes → ℕ → ℕ
int_at d o = d o + 256 * d (o + 1) + 65536 * d (o + 1 + 1) + 16777216 * d (o + 1 + 1 + 1)

pub int_at-bytes : (d : Bytes) (o v : ℕ) → v < 4294967296 → Holds d o (int_bytes v) → int_at d o ≡ v
int_at-bytes d o v h e = rw (e.0, e.1.0, e.1.1.0, e.1.1.1.0) (omega arith)
