-- ===== src/Examples/Keys.antt =====
-- A verifying key with small coordinates, as numbers and as texts.
use bagsvault.Base.{
  ℕ, ◌+◌, ℤ, pos, List, [], ◌∷◌, Option, none, some, Str, codes, ◌≡◌, refl, length,
}
use bagsvault.Json.{Json, num, str, arr, obj, Items, nil, cons, Fields, end, field, get_field}
use bagsvault.Exceptions.{Exn, raised, value_error, Result, ok, err}
use bagsvault.Zk.Prover.{public_inputs}
use bagsvault.VerifyingKey.{ParsedVk, length_items, parse_vk}
use bagsvault.Examples.Proofs.{libs, input}
use bagsvault.VerifyingKey.Ceremony.{KeyFile, parsed, convert}
use bagsvault.VerifyingKey.Converted.{Encodes, convert-Written}
use bagsvault.VerifyingKey.Written.{Written}
use bagsvault.VerifyingKey.Count.{parse_vk-refuses}

abbrev truncate : Str → Result ℤ
truncate t = err (raised value_error t)

abbrev pair : Json → Json → Json
pair a b = arr (cons a (cons b nil))

abbrev g1 : Json
g1 = pair (num (pos 258)) (str (codes "7"))

abbrev g2 : Json
g2 = pair (pair (num (pos 1)) (num (pos 2))) (pair (str (codes "3")) (num (pos 4)))

abbrev six_points : Items
six_points = cons g1 (cons g1 (cons g1 (cons g1 (cons g1 (cons g1 nil)))))

abbrev key_of : Items → Fields
key_of points = field (codes "vk_alpha_1") g1 (
    field (codes "vk_beta_2") g2 (
      field (codes "vk_gamma_2") g2
        (field (codes "vk_delta_2") g2 (field (codes "IC") (arr points) end))))

abbrev file : KeyFile
file = parsed (obj (key_of six_points))

text_of : Result Str → Str
text_of (ok t) = t
text_of (err e) = []

written : Str
unfolding text_of convert
written = text_of (convert truncate file)

is_written : convert truncate file ≡ ok written
unfolding written text_of convert parse_vk get_field bagsvault.VerifyingKey.rewrapped
    bagsvault.VerifyingKey.fields_of bagsvault.VerifyingKey.encode_g1 bagsvault.VerifyingKey.len
    bagsvault.VerifyingKey.enough bagsvault.VerifyingKey.coordinate bagsvault.VerifyingKey.item
    bagsvault.Json.Int.int bagsvault.VerifyingKey.int_to_be32 bagsvault.VerifyingKey.encode_g2
    bagsvault.VerifyingKey.encode_pairs bagsvault.VerifyingKey.short_pair
    bagsvault.VerifyingKey.both_limbs bagsvault.VerifyingKey.swapped_limbs
    bagsvault.VerifyingKey.encode_ic bagsvault.VerifyingKey.encode_points
    bagsvault.VerifyingKey.in_sync bagsvault.VerifyingKey.is_malformed
    bagsvault.VerifyingKey.or_key_error bagsvault.VerifyingKey.Render.byte_array
    bagsvault.VerifyingKey.Render.byte_words bagsvault.VerifyingKey.Render.file_lines
    bagsvault.VerifyingKey.Render.fill bagsvault.VerifyingKey.Render.fill_from
    bagsvault.VerifyingKey.Render.format_byte_array bagsvault.VerifyingKey.Render.format_vk_ic
    bagsvault.VerifyingKey.Render.gap bagsvault.VerifyingKey.Render.ic_row
    bagsvault.VerifyingKey.Render.ic_rows bagsvault.VerifyingKey.Render.ic_table
    bagsvault.VerifyingKey.Render.join_lines bagsvault.VerifyingKey.Render.render_verifier_vk
    bagsvault.VerifyingKey.Render.used_after bagsvault.VerifyingKey.Ceremony.has_all
    bagsvault.VerifyingKey.Ceremony.load_vk_fields_json bagsvault.VerifyingKey.Ceremony.with_keys
    bagsvault.Base.Bytes.be_bytes bagsvault.Base.Bytes.le_bytes bagsvault.Base.Decimal.digit_step
    bagsvault.Base.Decimal.digits_from bagsvault.Base.Decimal.parse_int
    bagsvault.Base.Decimal.unsigned bagsvault.Base.show_loop bagsvault.Base.show_ℕ
    bagsvault.Base.show_ℤ bagsvault.Base.Spaces.strip bagsvault.Base.Spaces.skip_spaces
    bagsvault.Base.Spaces.is_space bagsvault.Base.eq_str
is_written = refl

convert-Written_example :
    (fs : Fields) × (file ≡ parsed (obj fs))
    × (vk : ParsedVk) × Encodes truncate fs vk
    × Written vk written
    × (length vk.ic ≡ 6)
convert-Written_example = convert-Written truncate file written is_written

abbrev seven_points : Items
seven_points = cons g1 six_points

has_seven : get_field (codes "IC") (key_of seven_points) ≡ some (arr seven_points)
unfolding get_field bagsvault.Base.eq_str
has_seven = refl

counts_seven : length_items seven_points ≡ length (public_inputs libs input (pos 4)) + 1
unfolding length_items public_inputs
counts_seven = refl

parse_vk-refuses_example : (e : Exn) × (parse_vk truncate (key_of seven_points) ≡ err e)
parse_vk-refuses_example =
    parse_vk-refuses truncate libs input (pos 4) (key_of seven_points) seven_points has_seven
      counts_seven
