-- ===== src/VerifyingKey/Converted.antt =====
-- What a key that is written says, from the JSON to the file.
use bagsvault.Base.{
  ◌+◌, ℤ, List, Option, none, some, Str, codes, ◌≡◌, refl, sym, subst, ◌∙◌, ap, ◌==◌, ==_iff,
  Bool-cases, inl, inr, length,
}
use bagsvault.Json.{
  Json, null, bool, num, float, str, arr, obj, Items, nil, cons, Fields, get_field,
}
use bagsvault.Exceptions.{Result, ok, err, >>=-eq-ok, ok-injective}
use bagsvault.Solana.Instruction.{Bytes}
use bagsvault.VerifyingKey.{
  required_keys, num_public_inputs, ParsedVk, or_key_error, rewrapped, is_malformed, in_sync,
  encode_g1, encode_g2, encode_ic, fields_of, parse_vk,
}
use bagsvault.VerifyingKey.Encoded.{IsG1, IsG2, AreG1, encode_g1-ok, encode_g2-ok, encode_points-ok}
use bagsvault.VerifyingKey.Written.{Written, render-Written}
use bagsvault.VerifyingKey.Ceremony.{
  KeyFile, missing, no_json, parsed, load_vk_fields_json, has_all, with_keys, convert,
}

field-ok : (key : Str) (o : Option Json) (v : Json) → or_key_error key o ≡ ok v → o ≡ some v
unfolding or_key_error
field-ok key none v h = absurd (cc)
field-ok key (some w) v h = ap some (ok-injective h)

module _ (truncate : Str → Result ℤ) where
  -- A field of the JSON is this point.
  abbrev pub HasG1 : Fields → Str → Bytes → Type 0
  HasG1 fs key bytes = (point : Json) × (get_field key fs ≡ some point) × IsG1 truncate point bytes

  abbrev pub HasG2 : Fields → Str → Bytes → Type 0
  HasG2 fs key bytes = (point : Json) × (get_field key fs ≡ some point) × IsG2 truncate point bytes

  -- The key's bytes are the coordinates of the JSON's points.
  pub record Encodes (fs : Fields) (vk : ParsedVk) : Type 0 where
    pub alpha : HasG1 fs (codes "vk_alpha_1") vk.alpha_g1
    pub beta : HasG2 fs (codes "vk_beta_2") vk.beta_g2
    pub gamma : HasG2 fs (codes "vk_gamma_2") vk.gamma_g2
    pub delta : HasG2 fs (codes "vk_delta_2") vk.delta_g2
    pub points : Items
    pub has_points : get_field (codes "IC") fs ≡ some (arr points)
    pub ic : AreG1 truncate points vk.ic

  encode_ic-ok :
      (v : Json) (ic : List Bytes)
      → encode_ic truncate v ≡ ok ic
      → (points : Items) × (v ≡ arr points) × AreG1 truncate points ic
  unfolding encode_ic
  encode_ic-ok (arr (cons point points)) ic h =
      (cons point points, refl, encode_points-ok truncate (cons point points) ic h)
  encode_ic-ok (arr nil) ic h = absurd (cc)
  encode_ic-ok null ic h = absurd (cc)
  encode_ic-ok (bool b) ic h = absurd (cc)
  encode_ic-ok (num z) ic h = absurd (cc)
  encode_ic-ok (float t) ic h = absurd (cc)
  encode_ic-ok (str t) ic h = absurd (cc)
  encode_ic-ok (obj fs) ic h = absurd (cc)

  has_g1 :
      (fs : Fields) (key : Str) (v : Json) (bytes : Bytes)
      → or_key_error key (get_field key fs) ≡ ok v
      → encode_g1 truncate v ≡ ok bytes
      → HasG1 fs key bytes
  has_g1 fs key v bytes e h = (v, field-ok key _ v e, encode_g1-ok truncate v bytes h)

  has_g2 :
      (fs : Fields) (key : Str) (v : Json) (bytes : Bytes)
      → or_key_error key (get_field key fs) ≡ ok v
      → encode_g2 truncate v ≡ ok bytes
      → HasG2 fs key bytes
  has_g2 fs key v bytes e h = (v, field-ok key _ v e, encode_g2-ok truncate v bytes h)

  fields_of-Encodes : (fs : Fields) (vk : ParsedVk) → fields_of truncate fs ≡ ok vk → Encodes fs vk
  unfolding fields_of
  fields_of-Encodes fs vk h =
      let (va, ea, h1) =
        >>=-eq-ok (or_key_error (codes "vk_alpha_1") (get_field (codes "vk_alpha_1") fs)) _ h in
      let (a, ca, h2) = >>=-eq-ok (encode_g1 truncate va) _ h1 in
      let (vb, eb, h3) =
        >>=-eq-ok (or_key_error (codes "vk_beta_2") (get_field (codes "vk_beta_2") fs)) _ h2 in
      let (b, cb, h4) = >>=-eq-ok (encode_g2 truncate vb) _ h3 in
      let (vg, eg, h5) =
        >>=-eq-ok (or_key_error (codes "vk_gamma_2") (get_field (codes "vk_gamma_2") fs)) _ h4 in
      let (g, cg, h6) = >>=-eq-ok (encode_g2 truncate vg) _ h5 in
      let (vd, ed, h7) =
        >>=-eq-ok (or_key_error (codes "vk_delta_2") (get_field (codes "vk_delta_2") fs)) _ h6 in
      let (d, cd, h8) = >>=-eq-ok (encode_g2 truncate vd) _ h7 in
      let (vi, ei, h9) = >>=-eq-ok (or_key_error (codes "IC") (get_field (codes "IC") fs)) _ h8 in
      let (ic, ci, h10) = >>=-eq-ok (encode_ic truncate vi) _ h9 in
      let (points, is_arr, encoded) = encode_ic-ok vi ic ci in
      subst (Encodes fs) (ok-injective h10) (record {
        alpha = has_g1 fs (codes "vk_alpha_1") va a ea ca;
        beta = has_g2 fs (codes "vk_beta_2") vb b eb cb;
        gamma = has_g2 fs (codes "vk_gamma_2") vg g eg cg;
        delta = has_g2 fs (codes "vk_delta_2") vd d ed cd;
        points = points;
        has_points = field-ok (codes "IC") _ vi ei ∙ ap some is_arr;
        ic = encoded;
      })

  rewrapped-ok : (r : Result ParsedVk) (vk : ParsedVk) → rewrapped r ≡ ok vk → r ≡ ok vk
  unfolding rewrapped
  rewrapped-ok (ok v) vk h = h
  rewrapped-ok (err e) vk h = elim (Bool-cases (is_malformed e)) [
    | inl t ↦ let h' = rw t at h in absurd (cc)
    | inr f ↦ let h' = rw f at h in absurd (cc)
  ]

  in_sync-ok :
      (v vk : ParsedVk) → in_sync v ≡ ok vk → (v ≡ vk) × (length v.ic ≡ num_public_inputs + 1)
  unfolding in_sync
  in_sync-ok v vk h = elim (Bool-cases (length v.ic == num_public_inputs + 1)) [
    | inl t ↦ let h' = rw t at h in (ok-injective h', (==_iff (length v.ic) 6).0 t)
    | inr f ↦ let h' = rw f at h in absurd (cc)
  ]

  pub parse_vk-ok :
      (fs : Fields) (vk : ParsedVk)
      → parse_vk truncate fs ≡ ok vk
      → Encodes fs vk × (length vk.ic ≡ num_public_inputs + 1)
  unfolding parse_vk
  parse_vk-ok fs vk h =
      let (v, ev, h1) = >>=-eq-ok (rewrapped (fields_of truncate fs)) in_sync h in
      let (same, count) = in_sync-ok v vk h1 in
      (
        subst (Encodes fs) same
            (fields_of-Encodes fs v (rewrapped-ok (fields_of truncate fs) v ev)),
        ap (λ (x : ParsedVk). length x.ic) (sym same) ∙ count,
      )

  -- the file holds an object
  load-ok :
      (file : KeyFile) (fs : Fields) → load_vk_fields_json file ≡ ok fs → file ≡ parsed (obj fs)
  unfolding load_vk_fields_json with_keys
  load-ok missing fs h = absurd (cc)
  load-ok (no_json e) fs h = absurd (cc)
  load-ok (parsed null) fs h = absurd (cc)
  load-ok (parsed (bool b)) fs h = absurd (cc)
  load-ok (parsed (num z)) fs h = absurd (cc)
  load-ok (parsed (float t)) fs h = absurd (cc)
  load-ok (parsed (str t)) fs h = absurd (cc)
  load-ok (parsed (arr xs)) fs h = absurd (cc)
  load-ok (parsed (obj gs)) fs h = elim (Bool-cases (has_all required_keys gs)) [
    | inl t ↦ let h' = rw t at h in ap (λ x. parsed (obj x)) (ok-injective h')
    | inr f ↦ let h' = rw f at h in absurd (cc)
  ]

  -- If `convert` writes a file, then the five declarations among its lines, read as the numbers behind
  -- the equals sign, are the points of the JSON object: of each point of the first kind x and y, of each
  -- of the second kind the limbs c1 and c0 of x and then those of y, as 32 bytes each with the high byte
  -- first; and the table has six points of 64 bytes.
  pub convert-Written :
      (file : KeyFile) (text : Str)
      → convert truncate file ≡ ok text
      → (fs : Fields) × (file ≡ parsed (obj fs))
        × (vk : ParsedVk) × Encodes fs vk
        × Written vk text
        × (length vk.ic ≡ 6)
  unfolding convert
  convert-Written file text h =
      let (fs, is_fs, h1) = >>=-eq-ok (load_vk_fields_json file) _ h in
      let (vk, is_vk, h2) = >>=-eq-ok (parse_vk truncate fs) _ h1 in
      let (encodes, count) = parse_vk-ok fs vk is_vk in
      (fs, load-ok file fs is_fs, vk, encodes, render-Written vk text h2, count)
