-- ===== src/Description/RoundTrip.antt =====
-- `read` undoes `embed`.
use tinydbpp.Base.{
  ℕ, zero, suc, ◌+◌, ◌-◌, ◌≤◌, ◌<◌, ◌≡◌, refl, ap, ◌∙◌, subst, Bool, true, false, ◌&&◌, List, [],
  ◌∷◌, ◌++◌, ltb, leb, if◌then◌else◌, length, length-append, take, replicate, length-replicate, ok,
  arith, Bool-cases, inl, inr,
}
use tinydbpp.Base.Bytes.{
  Bytes, slice, memcpy, memcpy-Holds, Holds, Holds-slice, Holds-left, Holds-right, int_at,
  int_bytes, int_at-bytes,
}
use tinydbpp.Description.{
  Width, bytes, varying, Item, Pattern, add_pattern, read_values, read, embed_values, resize, embed,
}

-- Each value has its column's width, and a length that an `int` holds where the width varies.
abbrev pub Conforms : List Width → Item → Type 0
Conforms [] [] = Unit {0}
Conforms [] (v ∷ vs) = ⊥
Conforms (w ∷ ws) [] = ⊥
Conforms (bytes n ∷ ws) (v ∷ vs) = (length v ≡ n) × (0 < n) × Conforms ws vs
Conforms (varying ∷ ws) (v ∷ vs) = (length v < 2147483648) × Conforms ws vs

-- The room for a record of fixed length.
unfoldable pub fixed_length : List Width → ℕ
fixed_length [] = 0
fixed_length (bytes n ∷ ws) = n + fixed_length ws
fixed_length (varying ∷ ws) = 68 + fixed_length ws

-- The bytes of the values.
unfoldable pub encode : List Width → Item → List ℕ
encode (bytes n ∷ ws) (v ∷ vs) = v ++ encode ws vs
encode (varying ∷ ws) (v ∷ vs) = int_bytes (length v) ++ (v ++ encode ws vs)
encode _ _ = []

-- No value of varying width is longer than the default.
unfoldable pub short_values : List Width → Item → Bool
short_values (bytes n ∷ ws) (v ∷ vs) = short_values ws vs
short_values (varying ∷ ws) (v ∷ vs) = leb (length v) 64 && short_values ws vs
short_values _ _ = true

pub embed_values-encode :
    (ws : List Width) (vs : Item)
    → Conforms ws vs
    → embed_values ws vs ≡ ok (encode ws vs, short_values ws vs)
unfolding embed_values encode short_values
embed_values-encode [] [] c = refl
embed_values-encode [] (v ∷ vs) c = absurd c
embed_values-encode (bytes n ∷ ws) [] c = absurd c
embed_values-encode (varying ∷ ws) [] c = absurd c
embed_values-encode (bytes n ∷ ws) (v ∷ vs) c = rw (embed_values-encode ws vs c.2)
embed_values-encode (varying ∷ ws) (v ∷ vs) c = rw (embed_values-encode ws vs c.1)

short_values_fit :
    (ws : List Width) (vs : Item)
    → Conforms ws vs
    → short_values ws vs ≡ true
    → length (encode ws vs) ≤ fixed_length ws
unfolding encode short_values fixed_length
short_values_fit [] [] c h = omega arith
short_values_fit [] (v ∷ vs) c h = absurd c
short_values_fit (bytes n ∷ ws) [] c h = absurd c
short_values_fit (varying ∷ ws) [] c h = absurd c
short_values_fit (bytes n ∷ ws) (v ∷ vs) c h =
    omega (arith, short_values_fit ws vs c.2 h, length-append v (encode ws vs))
short_values_fit (varying ∷ ws) (v ∷ vs) c h =
    ground (arith, short_values_fit ws vs c.1, length-append v (encode ws vs))

read_bytes :
    (n : ℕ) (ws : List Width) (d : Bytes) (len now : ℕ) (v : List ℕ) (vs : Item) (end : ℕ)
    → now + suc n ≤ len
    → slice d now (suc n) ≡ v
    → read_values ws d len (now + suc n) ≡ ok (vs, end)
    → read_values (bytes (suc n) ∷ ws) d len now ≡ ok (v ∷ vs, end)
unfolding read_values
read_bytes n ws d len now v vs end fits here rest =
    let inside : leb (now + suc n) len ≡ true = ground arith in rw (inside, rest, here)

read_varying :
    (k : ℕ) (ws : List Width) (d : Bytes) (len now : ℕ) (v : List ℕ) (vs : Item) (end : ℕ)
    → int_at d now ≡ k
    → k < 2147483648
    → now + 4 + k ≤ len
    → slice d (now + 4) k ≡ v
    → read_values ws d len (now + 4 + k) ≡ ok (vs, end)
    → read_values (varying ∷ ws) d len now ≡ ok (v ∷ vs, end)
unfolding read_values
read_varying k ws d len now v vs end size small fits here rest =
    let header : leb (now + 4) len ≡ true = ground arith in
    let nonneg : ltb k 2147483648 ≡ true = ground arith in
    let inside : leb (now + 4 + k) len ≡ true = ground arith in
    rw (header, size, nonneg, inside, rest, here)

-- Where the bytes of the values stand in a buffer of `len` bytes, `read` finds the values.
pub read_values-encode :
    (ws : List Width) (vs : Item) (d : Bytes) (len now : ℕ)
    → Conforms ws vs
    → Holds d now (encode ws vs)
    → now + length (encode ws vs) ≤ len
    → read_values ws d len now ≡ ok (vs, now + length (encode ws vs))
unfolding read_values encode
read_values-encode [] [] d len now c h fits = ap (λ k. ok ([], k)) (omega arith)
read_values-encode [] (v ∷ vs) d len now c h fits = absurd c
read_values-encode (bytes n ∷ ws) [] d len now c h fits = absurd c
read_values-encode (varying ∷ ws) [] d len now c h fits = absurd c
read_values-encode (bytes zero ∷ ws) (v ∷ vs) d len now c h fits = absurd (omega arith)
read_values-encode (bytes (suc n) ∷ ws) (v ∷ vs) d len now c h fits =
    let total = length-append v (encode ws vs) in
    let behind : Holds d (now + suc n) (encode ws vs) =
      subst (λ k. Holds d (now + k) (encode ws vs)) c.0 (Holds-right d now v (encode ws vs) h) in
    read_bytes n ws d len now v vs (now + length (v ++ encode ws vs)) (omega arith)
      (subst (λ k. slice d now k ≡ v) c.0
        (Holds-slice d now v (Holds-left d now v (encode ws vs) h)))
      (read_values-encode ws vs d len (now + suc n) c.2 behind (omega arith)
        ∙ ap (λ k. ok (vs, k)) (omega arith))
read_values-encode (varying ∷ ws) (v ∷ vs) d len now c h fits =
    let total = length-append v (encode ws vs) in
    let body : Holds d (now + 4) (v ++ encode ws vs) =
      Holds-right d now (int_bytes (length v)) (v ++ encode ws vs) h in
    let header = Holds-left d now (int_bytes (length v)) (v ++ encode ws vs) h in
    read_varying (length v) ws d len now v vs _ (int_at-bytes d now (length v) (omega arith) header)
      c.0 (omega arith) (Holds-slice d (now + 4) v (Holds-left d (now + 4) v (encode ws vs) body))
      (read_values-encode ws vs d len (now + 4 + length v) c.1
          (Holds-right d (now + 4) v (encode ws vs) body) (omega arith)
        ∙ ap (λ k. ok (vs, k)) (omega arith))

-- The pattern that `addPattern` builds from the widths.
unfoldable pub pattern_of : Pattern → List Width → Pattern
pattern_of p [] = p
pattern_of p (w ∷ ws) = pattern_of (add_pattern p w) ws

-- The length that `addPattern` adds up is that of a fixed-length record.
abbrev pub IsPattern : Pattern → Type 0
IsPattern p = p.len ≡ fixed_length p.widths

fixed_length_snoc :
    (ws : List Width) (w : Width)
    → fixed_length (ws ++ w ∷ []) ≡ fixed_length ws + fixed_length (w ∷ [])
unfolding fixed_length
fixed_length_snoc [] (bytes n) = omega arith
fixed_length_snoc [] varying = omega arith
fixed_length_snoc (bytes m ∷ ws) w = omega (arith, fixed_length_snoc ws w)
fixed_length_snoc (varying ∷ ws) w = omega (arith, fixed_length_snoc ws w)

add_pattern-IsPattern : (p : Pattern) (w : Width) → IsPattern p → IsPattern (add_pattern p w)
unfolding add_pattern fixed_length
add_pattern-IsPattern p (bytes n) h = omega (arith, fixed_length_snoc p.widths (bytes n))
add_pattern-IsPattern p varying h = omega (arith, fixed_length_snoc p.widths varying)

-- Adding any columns with `addPattern` to a pattern whose length is that of a fixed-length record
-- keeps it so.
pub pattern_of-IsPattern :
    (p : Pattern) (ws : List Width) → IsPattern p → IsPattern (pattern_of p ws)
unfolding pattern_of
pattern_of-IsPattern p [] h = h
pattern_of-IsPattern p (w ∷ ws) h =
    pattern_of-IsPattern (add_pattern p w) ws (add_pattern-IsPattern p w h)

take_all : (n : ℕ) (xs : List ℕ) → length xs ≤ n → take n xs ≡ xs
take_all zero [] h = refl
take_all (suc n) [] h = refl
take_all zero (x ∷ xs) h = absurd (omega arith)
take_all (suc n) (x ∷ xs) h = ap (◌∷◌ x) (take_all n xs (omega arith))

-- The bytes that `embed` returns.
stored : Pattern → Item → List ℕ
stored p vs =
    if short_values p.widths vs then resize p.len (encode p.widths vs) else encode p.widths vs

abbrev padding : Pattern → Item → List ℕ
padding p vs = replicate (p.len - length (encode p.widths vs)) 0

embed-stored :
    (p : Pattern) (vs : Item)
    → Conforms p.widths vs
    → embed p vs ≡ ok (stored p vs, short_values p.widths vs)
unfolding embed stored
embed-stored p vs c = rw (embed_values-encode p.widths vs c)

module _ (p : Pattern) (vs : Item) (len : IsPattern p) (c : Conforms p.widths vs) where
  stored_long : short_values p.widths vs ≡ false → stored p vs ≡ encode p.widths vs
  unfolding stored
  stored_long f = rw f

  encode_fits : short_values p.widths vs ≡ true → length (encode p.widths vs) ≤ p.len
  encode_fits f = omega (arith, short_values_fit p.widths vs c f)

  stored_short : short_values p.widths vs ≡ true → stored p vs ≡ encode p.widths vs ++ padding p vs
  unfolding stored
  stored_short f =
      rw f (ap (λ xs. xs ++ padding p vs) (take_all p.len (encode p.widths vs) (encode_fits f)))

  length-stored_short : short_values p.widths vs ≡ true → length (stored p vs) ≡ p.len
  length-stored_short f = rw (stored_short f) (
      omega (
        arith,
        encode_fits f,
        length-append (encode p.widths vs) (padding p vs),
        length-replicate {0} {A = ℕ} (p.len - length (encode p.widths vs)) 0,
      ))

  read_long :
      (d : Bytes) (now size : ℕ)
      → short_values p.widths vs ≡ false
      → now + length (stored p vs) ≤ size
      → read p (memcpy d now (stored p vs)) size now false ≡ ok (vs, now + length (stored p vs))
  unfolding read
  read_long d now size f fits =
      let enc = encode p.widths vs in
      rw (
        stored_long f,
        read_values-encode p.widths vs (memcpy d now enc) size now c (memcpy-Holds d now enc)
            (subst (λ x. now + length x ≤ size) (stored_long f) fits),
      )

  read_short :
      (d : Bytes) (now size : ℕ)
      → short_values p.widths vs ≡ true
      → now + length (stored p vs) ≤ size
      → read p (memcpy d now (stored p vs)) size now true ≡ ok (vs, now + length (stored p vs))
  unfolding read
  read_short d now size f fits =
      let enc = encode p.widths vs in
      let here : Holds (memcpy d now (stored p vs)) now enc = Holds-left _ now enc (padding p vs) (
        subst (λ x. Holds (memcpy d now (stored p vs)) now x) (stored_short f)
          (memcpy-Holds d now (stored p vs))) in
      let total = length-stored_short f in
      rw
        (read_values-encode p.widths vs (memcpy d now (stored p vs)) size now c here
          (omega (arith, encode_fits f)))
        (ap (λ k. ok (vs, k)) (ground (arith, encode_fits f)))

  -- A record that `embed` marks as of fixed length has the table's length.
  pub embed-length : (rec : List ℕ) → embed p vs ≡ ok (rec, true) → length rec ≡ p.len
  embed-length rec e =
      let f : short_values p.widths vs ≡ true = cc (embed-stored p vs c) in
      let same : rec ≡ stored p vs = cc (embed-stored p vs c) in rw same (length-stored_short f)

  -- `read` at the place of the bytes of `embed` returns the values and the offset behind them.
  pub read-embed :
      (rec : List ℕ) (fixed : Bool) (d : Bytes) (now size : ℕ)
      → embed p vs ≡ ok (rec, fixed)
      → now + length rec ≤ size
      → read p (memcpy d now rec) size now fixed ≡ ok (vs, now + length rec)
  read-embed rec fixed d now size e fits =
      let same : rec ≡ stored p vs = cc (embed-stored p vs c) in
      let flag : fixed ≡ short_values p.widths vs = cc (embed-stored p vs c) in
      let fits' : now + length (stored p vs) ≤ size =
        subst (λ x. now + length x ≤ size) same fits in
      rw (same, flag)
        (elim (Bool-cases (short_values p.widths vs)) [
          | inl f ↦ rw f (read_short d now size f fits')
          | inr f ↦ rw f (read_long d now size f fits')
        ])

-- For values that conform to a table's pattern, `embed` returns, and `read` of its bytes, wherever
-- they stand, returns the values and the offset behind them.
pub embed-read :
    (p : Pattern) (vs : Item) (d : Bytes) (now : ℕ)
    → IsPattern p
    → Conforms p.widths vs
    → (rec : List ℕ) × (fixed : Bool) × (embed p vs ≡ ok (rec, fixed))
      × (read p (memcpy d now rec) (now + length rec) now fixed ≡ ok (vs, now + length rec))
embed-read p vs d now len c =
    let runs = embed-stored p vs c in
    (
      stored p vs,
      short_values p.widths vs,
      runs,
      read-embed p vs len c (stored p vs) _ d now _ runs (omega arith),
    )
