-- ===== src/VerifyingKey/Render.antt =====
-- The Rust source of the verifying key: backend/scripts/build_vk.py, from `_format_byte_array` to
-- `_render_verifier_vk`, with `textwrap.fill` for words that are not broken.
use bagsvault.Base.{
  ℕ, ◌+◌, ◌-◌, ◌++◌, List, [], ◌∷◌, Str, codes, leb, ◌==◌, length, show_ℕ, if◌then◌else◌,
}
use bagsvault.Exceptions.{Exn, raised, value_error, Result, ok, err, ◌>>=◌}
use bagsvault.Solana.Instruction.{Bytes}
use bagsvault.VerifyingKey.{num_public_inputs, ParsedVk}

abbrev pub generated_header : List Str
generated_header =
    codes "//! GENERATED — DO NOT EDIT BY HAND."
    ∷ codes "//!"
    ∷ codes "//! Run `python backend/scripts/build_vk.py all` after changing the"
    ∷ codes "//! circuit (`circuits/bagsvault_withdraw/src/main.nr`) to regenerate"
    ∷ codes "//! these constants from a fresh trusted-setup ceremony."
    ∷ codes "//!"
    ∷ codes "//! See `circuits/bagsvault_withdraw/README.md` for the operator runbook"
    ∷ codes "//! and the toxic-waste warning."
    ∷ codes "//!"
    ∷ codes "//! Byte layout (matches `groth16-solana 0.0.3`'s `Groth16Verifyingkey`):"
    ∷ codes "//!   * `vk_alpha_g1`  — BN254 G1 element, 64 bytes (compressed BE: x ‖ y)."
    ∷ codes "//!   * `vk_beta_g2`   — BN254 G2 element, 128 bytes. Light Protocol"
    ∷ codes "//!     convention: `[c1_x ‖ c0_x ‖ c1_y ‖ c0_y]` (Fp2 limb order swapped"
    ∷ codes "//!     vs. snarkjs JSON). The reference parser is"
    ∷ codes "//!     `groth16-solana/parse_vk_to_rust.js` — `build_vk.py convert`"
    ∷ codes "//!     mirrors that exact transformation."
    ∷ codes "//!   * `vk_gamma_g2`  — same encoding as `vk_beta_g2`."
    ∷ codes "//!   * `vk_delta_g2`  — same encoding as `vk_beta_g2`."
    ∷ codes "//!   * `vk_ic[i]`     — G1 element, 64 bytes; one entry per public"
    ∷ codes "//!     input plus one for the constant term, so"
    ∷ codes "//!     `VK_IC.len() == NUM_PUBLIC_INPUTS + 1`."
    ∷ codes ""
    ∷ []

-- "\n".join(lines)
unfoldable pub join_lines : List Str → Str
join_lines [] = []
join_lines (line ∷ []) = line
join_lines (line ∷ next ∷ lines) = line ++ (b'\n' ∷ join_lines (next ∷ lines))

-- the words of ", ".join(str(b) for b in raw)
unfoldable pub byte_words : Bytes → List Str
unfolding show_ℕ
byte_words [] = []
byte_words (b ∷ []) = show_ℕ b ∷ []
byte_words (b ∷ c ∷ rest) = (show_ℕ b ++ codes ",") ∷ byte_words (c ∷ rest)

-- What stands before the next word: a space if it fits on the line, which holds `used` characters
-- after its indent, or else a new line.
unfoldable pub gap : ℕ → Str → ℕ → Str → Str
gap room indent used w = if leb (used + (1 + length w)) room then codes " " else b'\n' ∷ indent

unfoldable pub used_after : ℕ → ℕ → Str → ℕ
used_after room used w =
    if leb (used + (1 + length w)) room then used + (1 + length w) else length w

unfoldable pub fill_from : ℕ → Str → ℕ → List Str → Str
unfolding gap used_after
fill_from room indent used [] = []
fill_from room indent used (w ∷ ws) =
    gap room indent used w ++ (w ++ fill_from room indent (used_after room used w) ws)

-- textwrap.fill, with one indent for all lines
unfoldable pub fill : ℕ → Str → List Str → Str
unfolding fill_from
fill width indent [] = []
fill width indent (w ∷ ws) = indent ++ (w ++ fill_from (width - length indent) indent (length w) ws)

unfoldable pub expected_bytes : Str → ℕ → ℕ → Exn
unfolding show_ℕ
expected_bytes name expected found =
    raised value_error
      (name ++ (codes ": expected " ++ (show_ℕ expected ++ (codes " bytes, got " ++ show_ℕ found))))

-- the declaration of one array
unfoldable pub byte_array : Str → Bytes → Str
unfolding fill byte_words show_ℕ
byte_array name raw =
    codes "pub const "
    ++ (name
        ++ (codes ": [u8; "
            ++ (show_ℕ (length raw)
                ++ (codes "] = [\n" ++ (fill 92 (codes "    ") (byte_words raw) ++ codes "\n];")))))

unfoldable pub format_byte_array : Str → Bytes → ℕ → Result Str
unfolding byte_array expected_bytes
format_byte_array name raw expected =
    if length raw == expected
    then ok (byte_array name raw)
    else err (expected_bytes name expected (length raw))

unfoldable pub ic_row : Bytes → Str
unfolding fill byte_words
ic_row entry =
    codes "    [\n" ++ (fill 88 (codes "        ") (byte_words entry) ++ codes "\n    ],")

ic_entry_bytes : Str → ℕ → Exn
unfolding show_ℕ
ic_entry_bytes name found =
    raised value_error (name ++ (codes ": IC entry must be 64 bytes, got " ++ show_ℕ found))

unfoldable pub ic_rows : Str → List Bytes → Result (List Str)
unfolding ic_entry_bytes
ic_rows name [] = ok []
ic_rows name (entry ∷ entries) =
    let rest = ic_rows name entries in
    do
      _ ← (if length entry == 64 then ok (tt {0}) else err (ic_entry_bytes name (length entry)))
      rows ← rest
      ok (ic_row entry ∷ rows)

unfoldable pub ic_table : Str → List Str → Str
unfolding join_lines
ic_table name rows =
    codes "pub const "
    ++ (name
        ++ (codes ": [[u8; 64]; NUM_PUBLIC_INPUTS + 1] = [\n" ++ (join_lines rows ++ codes "\n];")))

unfoldable pub format_vk_ic : Str → List Bytes → Result Str
unfolding ic_table
format_vk_ic name ic = do rows ← ic_rows name ic; ok (ic_table name rows)

-- The lines of the file, with the five declarations among them.
unfoldable pub file_lines : Str → Str → Str → Str → Str → List Str
unfolding show_ℕ
file_lines alpha beta gamma delta ic =
    generated_header
    ++ (codes ""
        ∷ codes "/// Number of public inputs the circuit exposes. Mirrored in"
        ∷ codes "/// `verifier.rs` so the Rust unit test there can detect a circuit"
        ∷ codes "/// edit that drifts away from the regenerated VK."
        ∷ (codes "pub const NUM_PUBLIC_INPUTS: usize = " ++ (show_ℕ num_public_inputs ++ codes ";"))
        ∷ codes ""
        ∷ codes "/// `vk_alpha_g1` (G1, 64 bytes BE-compressed)."
        ∷ alpha
        ∷ codes ""
        ∷ codes "/// `vk_beta_g2` (G2, 128 bytes; see module-level note on Fp2 swap)."
        ∷ beta
        ∷ codes ""
        ∷ codes "/// `vk_gamma_g2` (G2, 128 bytes; see module-level note on Fp2 swap)."
        ∷ gamma
        ∷ codes ""
        ∷ codes "/// `vk_delta_g2` (G2, 128 bytes; see module-level note on Fp2 swap)."
        ∷ delta
        ∷ codes ""
        ∷ codes "/// `vk_ic` table. Length must be `NUM_PUBLIC_INPUTS + 1`; this"
        ∷ codes "/// invariant is asserted by a unit test in `verifier.rs`."
        ∷ ic
        ∷ codes ""
        ∷ [])

-- `_render_verifier_vk`
unfoldable pub render_verifier_vk : ParsedVk → Result Str
unfolding file_lines join_lines
render_verifier_vk parsed = do
  alpha ← format_byte_array (codes "VK_ALPHA_G1") parsed.alpha_g1 64
  beta ← format_byte_array (codes "VK_BETA_G2") parsed.beta_g2 128
  gamma ← format_byte_array (codes "VK_GAMMA_G2") parsed.gamma_g2 128
  delta ← format_byte_array (codes "VK_DELTA_G2") parsed.delta_g2 128
  ic ← format_vk_ic (codes "VK_IC") parsed.ic
  ok (join_lines (file_lines alpha beta gamma delta ic))
