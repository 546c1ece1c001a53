-- ===== src/VerifyingKey/Encoded.antt =====
-- The bytes of a point, against its coordinates.
use bagsvault.Base.{
  ℕ, ◌<◌, ◌^◌, ◌++◌, ℤ, pos, negsuc, List, [], ◌∷◌, Str, codes, ◌≡◌, refl, sym, subst, ◌∙◌, ap, ap₂,
  ltb, ltb→lt, Bool-cases, inl, inr,
}
use bagsvault.Base.Bytes.{be_bytes}
use bagsvault.Json.{Json, Items, nil, cons}
use bagsvault.Exceptions.{Result, ok, >>=-eq-ok, ok-injective}
use bagsvault.Solana.Instruction.{Bytes}
use bagsvault.VerifyingKey.{
  int_to_be32, enough, both_limbs, short_pair, len, item, coordinate, swapped_limbs, encode_g1,
  encode_pairs, encode_g2, encode_points, field_bytes,
}

int_to_be32-ok :
    (z : ℤ) (bytes : Bytes)
    → int_to_be32 z ≡ ok bytes
    → (v : ℕ) × (z ≡ pos v) × (v < 2 ^ 256) × (bytes ≡ be_bytes field_bytes v)
unfolding int_to_be32
int_to_be32-ok (negsuc n) bytes h = absurd (cc)
int_to_be32-ok (pos v) bytes h = elim (Bool-cases (ltb v (2 ^ 256))) [
  | inl e ↦ let h' = rw e at h in (v, refl, ltb→lt v (2 ^ 256) e, sym (ok-injective h'))
  | inr e ↦ let h' = rw e at h in absurd (cc)
]

abbrev IsWord : ℤ → ℕ → Type 0
IsWord z v = (z ≡ pos v) × (v < 2 ^ 256)

abbrev Swapped : ℤ → ℤ → ℤ → ℤ → Bytes → Type 0
Swapped zx0 zx1 zy0 zy1 bytes =
    (x0 : ℕ) × (x1 : ℕ) × (y0 : ℕ) × (y1 : ℕ) × IsWord zx0 x0
    × IsWord zx1 x1
    × IsWord zy0 y0
    × IsWord zy1 y1
    × (bytes ≡ be_bytes 32 x1 ++ (be_bytes 32 x0 ++ (be_bytes 32 y1 ++ be_bytes 32 y0)))

joined_words :
    (a b c d bytes : Bytes) (x1 x0 y1 y0 : ℕ)
    → a ++ (b ++ (c ++ d)) ≡ bytes
    → a ≡ be_bytes 32 x1
    → b ≡ be_bytes 32 x0
    → c ≡ be_bytes 32 y1
    → d ≡ be_bytes 32 y0
    → bytes ≡ be_bytes 32 x1 ++ (be_bytes 32 x0 ++ (be_bytes 32 y1 ++ be_bytes 32 y0))
joined_words a b c d bytes x1 x0 y1 y0 h ea eb ec ed = cc

swapped_limbs-ok :
    (zx0 zx1 zy0 zy1 : ℤ) (bytes : Bytes)
    → swapped_limbs zx0 zx1 zy0 zy1 ≡ ok bytes
    → Swapped zx0 zx1 zy0 zy1 bytes
unfolding swapped_limbs
swapped_limbs-ok zx0 zx1 zy0 zy1 bytes h =
    let (a, ca, h1) = >>=-eq-ok (int_to_be32 zx1) _ h in
    let (b, cb, h2) = >>=-eq-ok (int_to_be32 zx0) _ h1 in
    let (c, ec, h3) = >>=-eq-ok (int_to_be32 zy1) _ h2 in
    let (d, ed, h4) = >>=-eq-ok (int_to_be32 zy0) _ h3 in
    let (x1, px1, lx1, wx1) = int_to_be32-ok zx1 a ca in
    let (x0, px0, lx0, wx0) = int_to_be32-ok zx0 b cb in
    let (y1, py1, ly1, wy1) = int_to_be32-ok zy1 c ec in
    let (y0, py0, ly0, wy0) = int_to_be32-ok zy0 d ed in
    (
      x0,
      x1,
      y0,
      y1,
      (px0, lx0),
      (px1, lx1),
      (py0, ly0),
      (py1, ly1),
      joined_words a b c d bytes x1 x0 y1 y0 (ok-injective h4) wx1 wx0 wy1 wy0,
    )

module _ (truncate : Str → Result ℤ) where
  -- Coordinate `i` of a point of JSON is this number, which fits in 32 bytes.
  abbrev pub Coordinate : ℕ → Json → ℕ → Type 0
  Coordinate i point v = (coordinate truncate i point ≡ ok (pos v)) × (v < 2 ^ 256)

  -- A point of the curve, as x and y, the high byte first.
  abbrev pub IsG1 : Json → Bytes → Type 0
  IsG1 point bytes =
      (x : ℕ) × (y : ℕ) × Coordinate 0 point x
      × Coordinate 1 point y
      × (bytes ≡ be_bytes 32 x ++ be_bytes 32 y)

  -- The coordinates over the extension, the second limb of each first.
  abbrev pub AreLimbs : Json → Json → Bytes → Type 0
  AreLimbs px py bytes =
      (x0 : ℕ) × (x1 : ℕ) × (y0 : ℕ) × (y1 : ℕ) × Coordinate 0 px x0
      × Coordinate 1 px x1
      × Coordinate 0 py y0
      × Coordinate 1 py y1
      × (bytes ≡ be_bytes 32 x1 ++ (be_bytes 32 x0 ++ (be_bytes 32 y1 ++ be_bytes 32 y0)))

  abbrev pub IsG2 : Json → Bytes → Type 0
  IsG2 point bytes =
      (px : Json) × (py : Json) × (item 0 point ≡ ok px)
      × (item 1 point ≡ ok py)
      × AreLimbs px py bytes

  limbs_of :
      (px py : Json) (bytes : Bytes) (zx0 zx1 zy0 zy1 : ℤ)
      → coordinate truncate 0 px ≡ ok zx0
      → coordinate truncate 1 px ≡ ok zx1
      → coordinate truncate 0 py ≡ ok zy0
      → coordinate truncate 1 py ≡ ok zy1
      → Swapped zx0 zx1 zy0 zy1 bytes
      → AreLimbs px py bytes
  limbs_of px py bytes zx0 zx1 zy0 zy1 ex0 ex1 ey0 ey1
        (x0, x1, y0, y1, (px0, l0), (px1, l1), (py0, m0), (py1, m1), e) =
      (
        x0,
        x1,
        y0,
        y1,
        (ex0 ∙ ap ok px0, l0),
        (ex1 ∙ ap ok px1, l1),
        (ey0 ∙ ap ok py0, m0),
        (ey1 ∙ ap ok py1, m1),
        e,
      )

  pub encode_g1-ok :
      (point : Json) (bytes : Bytes) → encode_g1 truncate point ≡ ok bytes → IsG1 point bytes
  unfolding encode_g1
  encode_g1-ok point bytes h =
      let (n, _, h1) = >>=-eq-ok (len point) _ h in
      let (_, _, h2) =
        >>=-eq-ok (enough (codes "G1 point needs at least 2 coordinates, got ") n) _ h1 in
      let (zx, ex, h3) = >>=-eq-ok (coordinate truncate 0 point) _ h2 in
      let (zy, ey, h4) = >>=-eq-ok (coordinate truncate 1 point) _ h3 in
      let (bx, cx, h5) = >>=-eq-ok (int_to_be32 zx) _ h4 in
      let (by, cy, h6) = >>=-eq-ok (int_to_be32 zy) _ h5 in
      let (x, px, lx, wx) = int_to_be32-ok zx bx cx in
      let (y, py, ly, wy) = int_to_be32-ok zy by cy in
      (x, y, (ex ∙ ap ok px, lx), (ey ∙ ap ok py, ly), sym (ok-injective h6) ∙ ap₂ ◌++◌ wx wy)

  pub encode_pairs-ok :
      (px py : Json) (bytes : Bytes) → encode_pairs truncate px py ≡ ok bytes → AreLimbs px py bytes
  unfolding encode_pairs
  encode_pairs-ok px py bytes h =
      let (short, _, h5) = >>=-eq-ok (short_pair px py) _ h in
      let (_, _, h6) = >>=-eq-ok (both_limbs short) _ h5 in
      let (zx0, ex0, h7) = >>=-eq-ok (coordinate truncate 0 px) _ h6 in
      let (zx1, ex1, h8) = >>=-eq-ok (coordinate truncate 1 px) _ h7 in
      let (zy0, ey0, h9) = >>=-eq-ok (coordinate truncate 0 py) _ h8 in
      let (zy1, ey1, h10) = >>=-eq-ok (coordinate truncate 1 py) _ h9 in
      limbs_of px py bytes zx0 zx1 zy0 zy1 ex0 ex1 ey0 ey1
        (swapped_limbs-ok zx0 zx1 zy0 zy1 bytes h10)

  pub encode_g2-ok :
      (point : Json) (bytes : Bytes) → encode_g2 truncate point ≡ ok bytes → IsG2 point bytes
  unfolding encode_g2
  encode_g2-ok point bytes h =
      let (n, _, h1) = >>=-eq-ok (len point) _ h in
      let (_, _, h2) =
        >>=-eq-ok (enough (codes "G2 point needs at least 2 Fp2 coordinates, got ") n) _ h1 in
      let (jx, ejx, h3) = >>=-eq-ok (item 0 point) _ h2 in
      let (jy, ejy, h4) = >>=-eq-ok (item 1 point) _ h3 in
      (jx, jy, ejx, ejy, encode_pairs-ok jx jy bytes h4)

  -- Each point of a list, with its bytes.
  abbrev pub AreG1 : Items → List Bytes → Type 0
  AreG1 nil [] = Unit
  AreG1 nil (b ∷ bs) = ⊥
  AreG1 (cons p ps) [] = ⊥
  AreG1 (cons p ps) (b ∷ bs) = IsG1 p b × AreG1 ps bs

  pub encode_points-ok :
      (points : Items) (ic : List Bytes) → encode_points truncate points ≡ ok ic → AreG1 points ic
  unfolding encode_points
  encode_points-ok nil [] h = tt
  encode_points-ok nil (b ∷ bs) h = absurd (cc)
  encode_points-ok (cons point points) ic h =
      let (b, eb, h1) = >>=-eq-ok (encode_g1 truncate point) _ h in
      let (bs, ebs, h2) = >>=-eq-ok (encode_points truncate points) _ h1 in
      subst (AreG1 (cons point points)) (ok-injective h2)
        (encode_g1-ok point b eb, encode_points-ok points bs ebs)
