-- ===== src/VerifyingKey/ReadBack.antt =====
-- Reading the lines of bytes back: the numbers that stand in the text that is filled.
use bagsvault.Base.{
  ℕ, ◌+◌, ◌-◌, ◌++◌, false, [], ◌∷◌, none, Str, codes, ◌≡◌, refl, ◌∙◌, ap, append_assoc, leb,
  Bool-cases, inl, inr, length, show_ℕ,
}
use bagsvault.Base.Decimal.{
  is_digit, NoDigits, numbers_from, numbers_from-skip, numbers_from-show_ℕ,
}
use bagsvault.Solana.Instruction.{Bytes}
use bagsvault.VerifyingKey.Render.{byte_words, gap, used_after, fill_from, fill}

-- Between two words stand no digits.
gap-NoDigits :
    (room : ℕ) (indent : Str) (used : ℕ) (w : Str)
    → NoDigits indent
    → NoDigits (gap room indent used w)
unfolding gap
gap-NoDigits room indent used w h = elim (Bool-cases (leb (used + (1 + length w)) room)) [
  | inl e ↦ rw e (refl, tt)
  | inr e ↦ rw e (refl, h)
]

word_read :
    (b : ℕ) (r : Str) → numbers_from none ((show_ℕ b ++ codes ",") ++ r) ≡ b ∷ numbers_from none r
word_read b r =
    ap (numbers_from none) (append_assoc (show_ℕ b) (codes ",") r)
    ∙ numbers_from-show_ℕ b b',' r refl

-- What is read of a gap, a word and the text behind it.
gap_read :
    (room : ℕ) (indent : Str) (used : ℕ) (v w rest r : Str)
    → NoDigits indent
    → numbers_from none ((gap room indent used v ++ (w ++ rest)) ++ r)
      ≡ numbers_from none (w ++ (rest ++ r))
gap_read room indent used v w rest r h =
    ap (numbers_from none) (
      append_assoc (gap room indent used v) (w ++ rest) r
      ∙ ap (λ t. gap room indent used v ++ t) (append_assoc w rest r))
    ∙ numbers_from-skip (gap room indent used v) (w ++ (rest ++ r))
        (gap-NoDigits room indent used v h)

pub end_read :
    (c : ℕ) (r : Str) → is_digit c ≡ false → numbers_from none (c ∷ r) ≡ numbers_from none r
end_read c r h = numbers_from-skip (c ∷ []) r (h, tt)

fill_from-read :
    (room : ℕ) (indent : Str) (used : ℕ) (bs : Bytes) (c : ℕ) (r : Str)
    → NoDigits indent
    → is_digit c ≡ false
    → numbers_from none (fill_from room indent used (byte_words bs) ++ (c ∷ r))
      ≡ bs ++ numbers_from none r
unfolding fill_from byte_words
fill_from-read room indent used [] c r h no_digit = end_read c r no_digit
fill_from-read room indent used (b ∷ []) c r h no_digit =
    gap_read room indent used (show_ℕ b) (show_ℕ b) [] (c ∷ r) h
    ∙ numbers_from-show_ℕ b c r no_digit
fill_from-read room indent used (b ∷ d ∷ rest) c r h no_digit =
    let w = show_ℕ b ++ codes "," in
    let used' = used_after room used w in
    let rest' = fill_from room indent used' (byte_words (d ∷ rest)) in
    gap_read room indent used w w rest' (c ∷ r) h
    ∙ word_read b (rest' ++ (c ∷ r))
    ∙ ap (λ l. b ∷ l) (fill_from-read room indent used' (d ∷ rest) c r h no_digit)

pub fill-read :
    (width : ℕ) (indent : Str) (bs : Bytes) (c : ℕ) (r : Str)
    → NoDigits indent
    → is_digit c ≡ false
    → numbers_from none (fill width indent (byte_words bs) ++ (c ∷ r)) ≡ bs ++ numbers_from none r
unfolding fill byte_words
fill-read width indent [] c r h no_digit = end_read c r no_digit
fill-read width indent (b ∷ []) c r h no_digit =
    ap (numbers_from none) (
      append_assoc indent (show_ℕ b ++ []) (c ∷ r)
      ∙ ap (λ t. indent ++ t) (append_assoc (show_ℕ b) [] (c ∷ r)))
    ∙ numbers_from-skip indent (show_ℕ b ++ (c ∷ r)) h
    ∙ numbers_from-show_ℕ b c r no_digit
fill-read width indent (b ∷ d ∷ rest) c r h no_digit =
    let w = show_ℕ b ++ codes "," in
    let room = width - length indent in
    let rest' = fill_from room indent (length w) (byte_words (d ∷ rest)) in
    ap (numbers_from none) (
      append_assoc indent (w ++ rest') (c ∷ r)
      ∙ ap (λ t. indent ++ t) (append_assoc w rest' (c ∷ r)))
    ∙ numbers_from-skip indent (w ++ (rest' ++ (c ∷ r))) h
    ∙ word_read b (rest' ++ (c ∷ r))
    ∙ ap (λ l. b ∷ l) (fill_from-read room indent (length w) (d ∷ rest) c r h no_digit)
