-- ===== src/Indexer/Decode64.antt =====
-- `base64.b64decode` of Python's standard library, without validation: characters outside the alphabet
-- are skipped, and padding that completes a group ends the text.
use bagsvault.Base.{
  Bool, true, ℕ, suc, ◌+◌, ◌-◌, ◌*◌, ◌/◌, ◌%◌, List, [], ◌∷◌, Option, none, some, Str, ltb, leb,
  ◌&&◌, ◌==◌, if◌then◌else◌, ◌≡◌, refl, codes,
}

value : ℕ → Option ℕ
value c =
    if leb b'A' c && leb c b'Z'
    then some (c - 65)
    else if leb b'a' c && leb c b'z'
    then some (c - 71)
    else if leb b'0' c && leb c b'9'
    then some (c + 4)
    else if c == b'+'
    then some 62
    else if c == b'/'
    then some 63
    else none

-- Where the decoder stands in a group of four, with the bits that are left over.
pub data Place : Type 0 where
  start : Place
  first second third : ℕ → Place

emit : ℕ → Option (List ℕ) → Option (List ℕ)
emit b none = none
emit b (some bs) = some (b ∷ bs)

-- The number is that of the paddings since the last digit.
decode : Place → ℕ → Str → Option (List ℕ)
unfolding value emit
decode start pads [] = some []
decode (first l) pads [] = none
decode (second l) pads [] = none
decode (third l) pads [] = none
decode start pads (c ∷ cs) = elim (value c) [
  | none ↦ decode start pads cs
  | some v ↦ decode (first v) 0 cs
]
decode (first l) pads (c ∷ cs) = elim (value c) [
  | none ↦ decode (first l) pads cs
  | some v ↦ emit (l * 4 + v / 16) (decode (second (v % 16)) 0 cs)
]
decode (second l) pads (c ∷ cs) = elim (value c) [
  | none ↦
      let skipped = decode (second l) pads cs in
      let padded = decode (second l) (suc pads) cs in
      if c == b'=' then (if ltb pads 1 then padded else some []) else skipped
  | some v ↦ emit (l * 16 + v / 4) (decode (third (v % 4)) 0 cs)
]
decode (third l) pads (c ∷ cs) = elim (value c) [
  | none ↦ let skipped = decode (third l) pads cs in if c == b'=' then some [] else skipped
  | some v ↦ emit (l * 64 + v) (decode start 0 cs)
]

is_ascii : Str → Bool
is_ascii [] = true
is_ascii (c ∷ cs) = ltb c 128 && is_ascii cs

-- A text with another character raises, as a wrong padding does.
unfoldable pub b64decode : Str → Option (List ℕ)
unfolding decode is_ascii
b64decode s = if is_ascii s then decode start 0 s else none

hello : b64decode (codes "aGVsbG8=") ≡ some (codes "hello")
unfolding b64decode
hello = refl
