-- ===== src/VerifyingKey.antt =====
-- backend/scripts/build_vk.py: the verifying key of a ceremony as bytes. The text of the key in Rust is
-- in VerifyingKey.Render and the commands in VerifyingKey.Ceremony.
pub mod Render
pub mod Ceremony
pub mod Encoded
pub mod ReadBack
pub mod Written
pub mod Converted
pub mod Count
use bagsvault.Base.{
  ℕ, zero, suc, ◌/◌, ◌+◌, ◌-◌, ◌^◌, ◌++◌, ℤ, pos, negsuc, Bool, true, false, ◌||◌, List, [], ◌∷◌,
  Option, none, some, Str, codes, ltb, ◌==◌, length, show_ℕ, show_ℤ, if◌then◌else◌,
}
use bagsvault.Base.Bytes.{be_bytes}
use bagsvault.Base.Decimal.{parse_int}
use bagsvault.Json.{
  Json, null, bool, num, float, str, arr, obj, Items, nil, cons, Fields, end, field, get_field,
}
use bagsvault.Json.Int.{int}
use bagsvault.Exceptions.{
  Exn, domain, raised, value_error, overflow_error, type_error, key_error, duplicate_key,
  bad_parameter, other, exn_str, Result, ok, err, ◌>>=◌,
}
use bagsvault.Solana.Instruction.{Bytes}

abbrev pub num_public_inputs : ℕ
num_public_inputs = 5

abbrev pub field_bytes : ℕ
field_bytes = 32

bit_length_from : ℕ → ℕ → ℕ
bit_length_from zero v = 0
bit_length_from (suc fuel) v =
    let rest = bit_length_from fuel (v / 2) in if v == 0 then 0 else suc rest

-- value.bit_length(): every round halves the value, so `v` rounds are enough.
bit_length : ℕ → ℕ
unfolding bit_length_from
bit_length v = bit_length_from v v

unfoldable pub int_to_be32 : ℤ → Result Bytes
unfolding bit_length show_ℕ show_ℤ be_bytes
int_to_be32 (negsuc n) =
    err (
      raised value_error (codes "VK field element must be non-negative, got " ++ show_ℤ (negsuc n)))
int_to_be32 (pos v) =
    if ltb v (2 ^ 256)
    then ok (be_bytes field_bytes v)
    else err (
        raised value_error (
          codes "VK field element does not fit in 32 bytes (bit_length="
          ++ (show_ℕ (bit_length v) ++ codes ").")))

unfoldable pub length_items : Items → ℕ
length_items nil = 0
length_items (cons x xs) = suc (length_items xs)

length_fields : Fields → ℕ
length_fields end = 0
length_fields (field k v fs) = suc (length_fields fs)

-- `len(value)` of a value of JSON
unfoldable pub len : Json → Result ℕ
unfolding length_items length_fields
len (arr xs) = ok (length_items xs)
len (str s) = ok (length s)
len (obj fs) = ok (length_fields fs)
len null = err (raised type_error (codes "object of type 'NoneType' has no len()"))
len (bool b) = err (raised type_error (codes "object of type 'bool' has no len()"))
len (num z) = err (raised type_error (codes "object of type 'int' has no len()"))
len (float t) = err (raised type_error (codes "object of type 'float' has no len()"))

out_of_range : Exn
out_of_range = raised other (codes "list index out of range")

item_of : ℕ → Items → Result Json
unfolding out_of_range
item_of i nil = err out_of_range
item_of zero (cons x xs) = ok x
item_of (suc i) (cons x xs) = item_of i xs

char_of : ℕ → Str → Result Json
unfolding out_of_range
char_of i [] = err out_of_range
char_of zero (c ∷ cs) = ok (str (c ∷ []))
char_of (suc i) (c ∷ cs) = char_of i cs

-- `value[i]`: a dictionary has no key that is a number
unfoldable pub item : ℕ → Json → Result Json
unfolding item_of char_of show_ℕ
item i (arr xs) = item_of i xs
item i (str s) = char_of i s
item i (obj fs) = err (raised key_error (show_ℕ i))
item i null = err (raised type_error (codes "'NoneType' object is not subscriptable"))
item i (bool b) = err (raised type_error (codes "'bool' object is not subscriptable"))
item i (num z) = err (raised type_error (codes "'int' object is not subscriptable"))
item i (float t) = err (raised type_error (codes "'float' object is not subscriptable"))

-- `_REQUIRED_KEYS`, in order
abbrev pub required_keys : List Str
required_keys =
    codes "IC"
    ∷ codes "vk_alpha_1"
    ∷ codes "vk_beta_2"
    ∷ codes "vk_delta_2"
    ∷ codes "vk_gamma_2"
    ∷ []

pub record ParsedVk : Type 0 where
  pub alpha_g1 : Bytes
  pub beta_g2 : Bytes
  pub gamma_g2 : Bytes
  pub delta_g2 : Bytes
  pub ic : List Bytes

unfoldable pub public_input_count : ParsedVk → ℕ
public_input_count vk = length vk.ic - 1

-- an object of JSON that may lack a key
unfoldable pub or_key_error : Str → Option Json → Result Json
or_key_error key none = err (raised key_error key)
or_key_error key (some v) = ok v

-- What `except (TypeError, ValueError)` catches of the exceptions that arise there.
unfoldable pub is_malformed : Exn → Bool
is_malformed (domain k m) = false
is_malformed (raised value_error m) = true
is_malformed (raised type_error m) = true
is_malformed (raised overflow_error m) = false
is_malformed (raised key_error m) = false
is_malformed (raised duplicate_key m) = false
is_malformed (raised bad_parameter m) = false
is_malformed (raised other m) = false

unfoldable pub rewrapped : {A : Type 0} → Result A → Result A
unfolding is_malformed exn_str
rewrapped (ok a) = ok a
rewrapped (err e) =
    if is_malformed e
    then err (raised bad_parameter (codes "Malformed VK JSON: " ++ exn_str e))
    else err e

abbrev pub bad_ic : Exn
bad_ic = raised bad_parameter (codes "VK 'IC' must be a non-empty list of G1 points.")

unfoldable pub out_of_sync : ℕ → Exn
unfolding show_ℕ
out_of_sync n = raised bad_parameter (
    codes "VK has "
    ++ (show_ℕ n
        ++ (codes " IC entries but the circuit declares NUM_PUBLIC_INPUTS="
            ++ (show_ℕ num_public_inputs
                ++ (codes " (expected IC length "
                    ++ (show_ℕ (num_public_inputs + 1)
                        ++ codes
                            "). The circuit and VK are out of sync — regenerate the VK from the current circuit."))))))

unfoldable pub in_sync : ParsedVk → Result ParsedVk
in_sync vk =
    if length vk.ic == num_public_inputs + 1 then ok vk else err (out_of_sync (length vk.ic))

-- at least two elements
unfoldable pub enough : Str → ℕ → Result (Unit {0})
unfolding show_ℕ
enough what n = if ltb n 2 then err (raised value_error (what ++ show_ℕ n)) else ok tt

unfoldable pub both_limbs : Bool → Result (Unit {0})
both_limbs short =
    if short
    then err (raised value_error (codes "G2 Fp2 coordinates must each have 2 limbs (c0, c1)"))
    else ok tt

-- `len(x_pair) < 2 or len(y_pair) < 2`
unfoldable pub short_pair : Json → Json → Result Bool
short_pair x_pair y_pair = do
  n ← len x_pair
  m ← (if ltb n 2 then ok 0 else len y_pair)
  ok (ltb n 2 || ltb m 2)

unfoldable pub swapped_limbs : ℤ → ℤ → ℤ → ℤ → Result Bytes
swapped_limbs x_c0 x_c1 y_c0 y_c1 = do
  a ← int_to_be32 x_c1
  b ← int_to_be32 x_c0
  c ← int_to_be32 y_c1
  d ← int_to_be32 y_c0
  ok (a ++ (b ++ (c ++ d)))

-- `truncate` is `int` of a float, which may raise for what is no number.
module _ (truncate : Str → Result ℤ) where
  unfoldable pub coordinate : ℕ → Json → Result ℤ
  coordinate i point = do v ← item i point; int truncate v

  unfoldable pub encode_g1 : Json → Result Bytes
  encode_g1 coords = do
    n ← len coords
    _ ← enough (codes "G1 point needs at least 2 coordinates, got ") n
    x_int ← coordinate 0 coords
    y_int ← coordinate 1 coords
    x ← int_to_be32 x_int
    y ← int_to_be32 y_int
    ok (x ++ y)

  -- the two coordinates of a point over the extension
  unfoldable pub encode_pairs : Json → Json → Result Bytes
  encode_pairs x_pair y_pair = do
    short ← short_pair x_pair y_pair
    _ ← both_limbs short
    x_c0 ← coordinate 0 x_pair
    x_c1 ← coordinate 1 x_pair
    y_c0 ← coordinate 0 y_pair
    y_c1 ← coordinate 1 y_pair
    swapped_limbs x_c0 x_c1 y_c0 y_c1

  unfoldable pub encode_g2 : Json → Result Bytes
  encode_g2 coords = do
    n ← len coords
    _ ← enough (codes "G2 point needs at least 2 Fp2 coordinates, got ") n
    x_pair ← item 0 coords
    y_pair ← item 1 coords
    encode_pairs x_pair y_pair

  unfoldable pub encode_points : Items → Result (List Bytes)
  encode_points nil = ok []
  encode_points (cons point points) =
      let rest = encode_points points in do p ← encode_g1 point; ps ← rest; ok (p ∷ ps)

  unfoldable pub encode_ic : Json → Result (List Bytes)
  encode_ic (arr (cons point points)) = encode_points (cons point points)
  encode_ic _ = err bad_ic

  unfoldable pub fields_of : Fields → Result ParsedVk
  unfolding or_key_error get_field
  fields_of vk_json = do
    alpha ← or_key_error (codes "vk_alpha_1") (get_field (codes "vk_alpha_1") vk_json)
    alpha_g1 ← encode_g1 alpha
    beta ← or_key_error (codes "vk_beta_2") (get_field (codes "vk_beta_2") vk_json)
    beta_g2 ← encode_g2 beta
    gamma ← or_key_error (codes "vk_gamma_2") (get_field (codes "vk_gamma_2") vk_json)
    gamma_g2 ← encode_g2 gamma
    delta ← or_key_error (codes "vk_delta_2") (get_field (codes "vk_delta_2") vk_json)
    delta_g2 ← encode_g2 delta
    ic_raw ← or_key_error (codes "IC") (get_field (codes "IC") vk_json)
    ic ← encode_ic ic_raw
    ok (record {
      alpha_g1 = alpha_g1;
      beta_g2 = beta_g2;
      gamma_g2 = gamma_g2;
      delta_g2 = delta_g2;
      ic = ic;
    })

  unfoldable pub parse_vk : Fields → Result ParsedVk
  parse_vk vk_json = rewrapped (fields_of vk_json) >>= in_sync
