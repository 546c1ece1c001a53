-- ===== src/Base/Hex.antt =====
-- Hexadecimal text and bytes: `bytes.hex`, `binascii.unhexlify` and `bytes.fromhex` of Python, and
-- the padding `rjust(32, b"\x00")[-32:]`.
use Prim.Native.Nat.{ℕ, ◌+◌, ◌-◌, ◌*◌, ◌/◌, ◌%◌, ◌<◌}
use mathlib.Core.Path.{◌≡◌, refl, ap}
use mathlib.Core.Bool.{Bool, false, ◌&&◌, ◌||◌}
use mathlib.Core.Option.{Option, none, some}
use mathlib.Core.List.{List, [], ◌∷◌, ◌++◌}
use native.Mathlib.Omega.{arith}
use bagsvault.Base.Tests.{ltb, leb, ◌==◌, if◌then◌else◌}
use bagsvault.Base.Lists.{
  length, drop, replicate, All, length-append, length-replicate, length-drop,
}
use bagsvault.Base.Text.{Str}

unfoldable pub hex_digit : ℕ → ℕ
hex_digit n = if ltb n 10 then n + 48 else n + 87

-- bytes.hex()
unfoldable pub to_hex : List ℕ → Str
to_hex [] = []
to_hex (b ∷ bs) = hex_digit (b / 16) ∷ hex_digit (b % 16) ∷ to_hex bs

unfoldable pub digit_value : ℕ → Option ℕ
digit_value c =
    if leb b'0' c && leb c b'9'
    then some (c - 48)
    else if leb b'a' c && leb c b'f'
    then some (c - 87)
    else if leb b'A' c && leb c b'F'
    then some (c - 55)
    else none

unfoldable pub with_byte : Option ℕ → Option ℕ → Option (List ℕ) → Option (List ℕ)
with_byte (some hi) (some lo) (some rest) = some ((hi * 16 + lo) ∷ rest)
with_byte (some hi) (some lo) none = none
with_byte (some hi) none rest = none
with_byte none lo rest = none

-- `none` where `binascii.Error` is raised
unfoldable pub unhexlify : Str → Option (List ℕ)
unfolding with_byte
unhexlify [] = some []
unhexlify (c ∷ []) = none
unhexlify (c ∷ d ∷ rest) = with_byte (digit_value c) (digit_value d) (unhexlify rest)

unfoldable pub is_space : ℕ → Bool
is_space c = (leb 9 c && leb c 13) || c == 32

-- `bytes.fromhex` skips white space before a byte; `none` where `ValueError` is raised
unfoldable pub from_hex : Str → Option (List ℕ)
unfolding with_byte
from_hex [] = some []
from_hex (c ∷ []) = if is_space c then some [] else none
from_hex (c ∷ d ∷ rest) =
    let spaced = from_hex (d ∷ rest) in
    let paired = with_byte (digit_value c) (digit_value d) (from_hex rest) in
    if is_space c then spaced else paired

-- raw.rjust(n, b"\x00")
unfoldable pub rjust : ℕ → List ℕ → List ℕ
rjust n raw = replicate (n - length raw) 0 ++ raw

-- raw.rjust(32, b"\x00")[-32:]
unfoldable pub pad32 : List ℕ → List ℕ
unfolding rjust
pad32 raw = let wide = rjust 32 raw in drop (length wide - 32) wide

pub length-pad32 : (raw : List ℕ) → length (pad32 raw) ≡ 32
unfolding pad32
length-pad32 raw = omega (
  arith,
  length-drop (length (rjust 32 raw) - 32) (rjust 32 raw),
  length-append (replicate (32 - length raw) 0) raw,
  length-replicate {A = ℕ} (32 - length raw) 0,
)

pub pad32_of_length : (raw : List ℕ) → length raw ≡ 32 → pad32 raw ≡ raw
unfolding pad32
pad32_of_length raw h =
    let none_left : 32 - length raw ≡ 0 = omega arith in
    let none_off : length raw - 32 ≡ 0 = omega arith in rw none_left (rw none_off)

digit_value-hex_digit : (n : ℕ) → n < 16 → digit_value (hex_digit n) ≡ some n
unfolding digit_value hex_digit
digit_value-hex_digit n h = ground arith

is_space-hex_digit : (n : ℕ) → n < 16 → is_space (hex_digit n) ≡ false
unfolding is_space hex_digit
is_space-hex_digit n h = ground arith

-- Decoding the text of some bytes gives them back.
pub unhexlify-to_hex : (bs : List ℕ) → All (λ b. b < 256) bs → unhexlify (to_hex bs) ≡ some bs
unfolding unhexlify to_hex
unhexlify-to_hex [] h = refl
unhexlify-to_hex (b ∷ bs) h =
    let hi : b / 16 < 16 = omega (arith, h.0) in
    let lo : b % 16 < 16 = omega arith in
    let whole : b / 16 * 16 + b % 16 ≡ b = omega arith in
    rw (digit_value-hex_digit (b / 16) hi) (
      rw (digit_value-hex_digit (b % 16) lo)
        (rw (unhexlify-to_hex bs h.1) (ap (λ (x : ℕ). some (x ∷ bs)) whole)))

pub from_hex-to_hex : (bs : List ℕ) → All (λ b. b < 256) bs → from_hex (to_hex bs) ≡ some bs
unfolding from_hex to_hex
from_hex-to_hex [] h = refl
from_hex-to_hex (b ∷ bs) h =
    let hi : b / 16 < 16 = omega (arith, h.0) in
    let lo : b % 16 < 16 = omega arith in
    let whole : b / 16 * 16 + b % 16 ≡ b = omega arith in
    rw (is_space-hex_digit (b / 16) hi) (
      rw (digit_value-hex_digit (b / 16) hi) (
        rw (digit_value-hex_digit (b % 16) lo)
          (rw (from_hex-to_hex bs h.1) (ap (λ (x : ℕ). some (x ∷ bs)) whole))))

pub length-to_hex : (bs : List ℕ) → length (to_hex bs) ≡ 2 * length bs
unfolding to_hex
length-to_hex [] = refl
length-to_hex (b ∷ bs) = omega (arith, length-to_hex bs)
