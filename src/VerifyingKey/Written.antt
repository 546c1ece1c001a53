-- ===== src/VerifyingKey/Written.antt =====
-- Reading the declarations back: the numbers between the equals sign and the end.
use bagsvault.Base.{
  ℕ, zero, suc, ◌+◌, ◌%◌, ◌/◌, ◌++◌, false, List, [], ◌∷◌, none, Str, codes, ◌≡◌, refl, sym, ◌∙◌,
  ap, map, append_assoc, append-nil, ltb, ◌==◌, ==_iff, Bool-cases, inl, inr, All, length, show_ℕ,
  show_loop, arith, if◌then◌else◌,
}
use bagsvault.Base.Decimal.{numbers_from, numbers_from-skip}
use bagsvault.Exceptions.{ok, >>=-eq-ok, ok-injective}
use bagsvault.Solana.Instruction.{Bytes}
use bagsvault.VerifyingKey.{ParsedVk}
use bagsvault.VerifyingKey.ReadBack.{end_read, fill-read}
use bagsvault.VerifyingKey.Render.{
  join_lines, byte_words, fill, byte_array, format_byte_array, ic_row, ic_rows, ic_table,
  format_vk_ic, file_lines, render_verifier_vk,
}

-- The text after the first equals sign.
after_equals : Str → Str
after_equals [] = []
after_equals (c ∷ cs) = if c == b'=' then cs else after_equals cs

-- The numbers that a declaration gives its constant.
pub read_array : Str → List ℕ
unfolding after_equals
read_array t = numbers_from none (after_equals t)

abbrev NoEquals : Str → Type 0
NoEquals = All (λ c. (c == b'=') ≡ false)

after_equals-skip : (t r : Str) → NoEquals t → after_equals (t ++ (b'=' ∷ r)) ≡ r
unfolding after_equals
after_equals-skip [] r h = refl
after_equals-skip (c ∷ t) r h = rw h.0 (after_equals-skip t r h.1)

NoEquals-append : (s t : Str) → NoEquals s → NoEquals t → NoEquals (s ++ t)
NoEquals-append [] t hs ht = ht
NoEquals-append (c ∷ s) t hs ht = (hs.0, NoEquals-append s t hs.1 ht)

digit_ne_equals : (n : ℕ) → ((48 + n % 10) == b'=') ≡ false
digit_ne_equals n = ground arith

show_loop-NoEquals : (fuel n : ℕ) (acc : Str) → NoEquals acc → NoEquals (show_loop fuel n acc)
unfolding show_loop
show_loop-NoEquals zero n acc h = h
show_loop-NoEquals (suc fuel) n acc h = elim (Bool-cases (ltb n 10)) [
  | inl e ↦ rw e (digit_ne_equals n, h)
  | inr e ↦ rw e (show_loop-NoEquals fuel (n / 10) ((48 + n % 10) ∷ acc) (digit_ne_equals n, h))
]

show_ℕ-NoEquals : (n : ℕ) → NoEquals (show_ℕ n)
unfolding show_ℕ
show_ℕ-NoEquals n = show_loop-NoEquals (suc n) n [] tt

-- A declaration as the text before its equals sign and the text behind it.
array_parts :
    (name : Str) (raw : Bytes)
    → byte_array name raw
      ≡ (codes "pub const " ++ (name ++ (codes ": [u8; " ++ (show_ℕ (length raw) ++ codes "] "))))
        ++ (b'=' ∷ (codes " [\n" ++ (fill 92 (codes "    ") (byte_words raw) ++ codes "\n];")))
unfolding byte_array
array_parts name raw = simp append_assoc

byte_array-read :
    (name : Str) (raw : Bytes) → NoEquals name → read_array (byte_array name raw) ≡ raw
unfolding read_array numbers_from
byte_array-read name raw h =
    let before =
      codes "pub const " ++ (name ++ (codes ": [u8; " ++ (show_ℕ (length raw) ++ codes "] "))) in
    let body = fill 92 (codes "    ") (byte_words raw) ++ codes "\n];" in
    let no_equals : NoEquals before = NoEquals-append (codes "pub const ") _ (ground arith) (
      NoEquals-append name _ h (
        NoEquals-append (codes ": [u8; ") _ (ground arith) (
          NoEquals-append (show_ℕ (length raw)) (codes "] ") (show_ℕ-NoEquals (length raw))
            (ground arith)))) in
    ap (λ t. numbers_from none (after_equals t)) (array_parts name raw)
    ∙ ap (numbers_from none) (after_equals-skip before (codes " [\n" ++ body) no_equals)
    ∙ numbers_from-skip (codes " [\n") body (ground arith)
    ∙ fill-read 92 (codes "    ") raw b'\n' (codes "];") (ground arith) refl
    ∙ ap (λ t. raw ++ t) (numbers_from-skip (codes "];") [] (ground arith))
    ∙ append-nil raw

-- The bytes of all entries.
abbrev pub concat : List Bytes → Bytes
concat [] = []
concat (entry ∷ entries) = entry ++ concat entries

ic_row-read :
    (entry : Bytes) (r : Str) → numbers_from none (ic_row entry ++ r) ≡ entry ++ numbers_from none r
unfolding ic_row
ic_row-read entry r =
    let filled = fill 88 (codes "        ") (byte_words entry) in
    ap (numbers_from none) (
      append_assoc (codes "    [\n") (filled ++ codes "\n    ],") r
      ∙ ap (λ t. codes "    [\n" ++ t) (append_assoc filled (codes "\n    ],") r))
    ∙ numbers_from-skip (codes "    [\n") (filled ++ (codes "\n    ]," ++ r)) (ground arith)
    ∙ fill-read 88 (codes "        ") entry b'\n' (codes "    ]," ++ r) (ground arith) refl
    ∙ ap (λ t. entry ++ t) (numbers_from-skip (codes "    ],") r (ground arith))

rows_read :
    (ic : List Bytes) (r : Str)
    → numbers_from none (join_lines (map ic_row ic) ++ r) ≡ concat ic ++ numbers_from none r
unfolding join_lines
rows_read [] r = refl
rows_read (entry ∷ []) r =
    ic_row-read entry r ∙ ap (λ t. t ++ numbers_from none r) (sym (append-nil entry))
rows_read (entry ∷ next ∷ entries) r =
    let rows = join_lines (map ic_row (next ∷ entries)) in
    ap (numbers_from none) (append_assoc (ic_row entry) (b'\n' ∷ rows) r)
    ∙ ic_row-read entry (b'\n' ∷ (rows ++ r))
    ∙ ap (λ t. entry ++ t) (end_read b'\n' (rows ++ r) refl ∙ rows_read (next ∷ entries) r)
    ∙ sym (append_assoc entry (concat (next ∷ entries)) (numbers_from none r))

table_parts :
    (name : Str) (rows : List Str)
    → ic_table name rows
      ≡ (codes "pub const " ++ (name ++ codes ": [[u8; 64]; NUM_PUBLIC_INPUTS + 1] "))
        ++ (b'=' ∷ (codes " [\n" ++ (join_lines rows ++ codes "\n];")))
unfolding ic_table
table_parts name rows = simp append_assoc

ic_table-read :
    (name : Str) (ic : List Bytes)
    → NoEquals name
    → read_array (ic_table name (map ic_row ic)) ≡ concat ic
unfolding read_array numbers_from
ic_table-read name ic h =
    let before = codes "pub const " ++ (name ++ codes ": [[u8; 64]; NUM_PUBLIC_INPUTS + 1] ") in
    let rows = join_lines (map ic_row ic) in
    let no_equals : NoEquals before =
      NoEquals-append (codes "pub const ") _ (ground arith)
        (NoEquals-append name (codes ": [[u8; 64]; NUM_PUBLIC_INPUTS + 1] ") h (ground arith)) in
    ap (λ t. numbers_from none (after_equals t)) (table_parts name (map ic_row ic))
    ∙ ap (numbers_from none)
        (after_equals-skip before (codes " [\n" ++ (rows ++ codes "\n];")) no_equals)
    ∙ numbers_from-skip (codes " [\n") (rows ++ codes "\n];") (ground arith)
    ∙ rows_read ic (codes "\n];")
    ∙ ap (λ t. concat ic ++ t) (numbers_from-skip (codes "\n];") [] (ground arith))
    ∙ append-nil (concat ic)

ic_rows-ok :
    (name : Str) (ic : List Bytes) (rows : List Str)
    → ic_rows name ic ≡ ok rows
    → (rows ≡ map ic_row ic) × All (λ entry. length entry ≡ 64) ic
unfolding ic_rows
ic_rows-ok name [] rows h = (sym (ok-injective h), tt)
ic_rows-ok name (entry ∷ entries) rows h = elim (Bool-cases (length entry == 64)) [
  | inl e ↦
      let h' = rw e at h in
      let (rest, is_rest, h2) = >>=-eq-ok (ic_rows name entries) _ h' in
      let (same, lengths) = ic_rows-ok name entries rest is_rest in
      (
        sym (ok-injective h2) ∙ ap (λ l. ic_row entry ∷ l) same,
        ((==_iff (length entry) 64).0 e, lengths),
      )
  | inr e ↦ let h' = rw e at h in absurd (cc)
]

format_vk_ic-ok :
    (name : Str) (ic : List Bytes) (text : Str)
    → NoEquals name
    → format_vk_ic name ic ≡ ok text
    → (read_array text ≡ concat ic) × All (λ entry. length entry ≡ 64) ic
unfolding format_vk_ic
format_vk_ic-ok name ic text h e =
    let (rows, is_rows, h1) = >>=-eq-ok (ic_rows name ic) _ e in
    let (same, lengths) = ic_rows-ok name ic rows is_rows in
    (
      ap read_array (sym (ok-injective h1) ∙ ap (ic_table name) same) ∙ ic_table-read name ic h,
      lengths,
    )

format_byte_array-ok :
    (name : Str) (raw : Bytes) (expected : ℕ) (text : Str)
    → NoEquals name
    → format_byte_array name raw expected ≡ ok text
    → (read_array text ≡ raw) × (length raw ≡ expected)
unfolding format_byte_array
format_byte_array-ok name raw expected text h e = elim (Bool-cases (length raw == expected)) [
  | inl t ↦
      let e' = rw t at e in
      (
        ap read_array (sym (ok-injective e')) ∙ byte_array-read name raw h,
        (==_iff (length raw) expected).0 t,
      )
  | inr f ↦ let e' = rw f at e in absurd (cc)
]

-- The file has these five declarations among its lines, and they read as the key's bytes.
pub record Written (vk : ParsedVk) (text : Str) : Type 0 where
  pub alpha : Str
  pub beta : Str
  pub gamma : Str
  pub delta : Str
  pub ic : Str
  pub lines : text ≡ join_lines (file_lines alpha beta gamma delta ic)
  pub alpha_read : read_array alpha ≡ vk.alpha_g1
  pub beta_read : read_array beta ≡ vk.beta_g2
  pub gamma_read : read_array gamma ≡ vk.gamma_g2
  pub delta_read : read_array delta ≡ vk.delta_g2
  pub ic_read : read_array ic ≡ concat vk.ic
  pub entries : All (λ entry. length entry ≡ 64) vk.ic

pub render-Written :
    (vk : ParsedVk) (text : Str) → render_verifier_vk vk ≡ ok text → Written vk text
unfolding render_verifier_vk
render-Written vk text h =
    let (alpha, ea, h1) = >>=-eq-ok (format_byte_array (codes "VK_ALPHA_G1") vk.alpha_g1 64) _ h in
    let (beta, eb, h2) = >>=-eq-ok (format_byte_array (codes "VK_BETA_G2") vk.beta_g2 128) _ h1 in
    let (gamma, eg, h3) =
      >>=-eq-ok (format_byte_array (codes "VK_GAMMA_G2") vk.gamma_g2 128) _ h2 in
    let (delta, ed, h4) =
      >>=-eq-ok (format_byte_array (codes "VK_DELTA_G2") vk.delta_g2 128) _ h3 in
    let (ic, ei, h5) = >>=-eq-ok (format_vk_ic (codes "VK_IC") vk.ic) _ h4 in
    record {
      alpha = alpha;
      beta = beta;
      gamma = gamma;
      delta = delta;
      ic = ic;
      lines = sym (ok-injective h5);
      alpha_read = (format_byte_array-ok _ vk.alpha_g1 64 alpha (ground arith) ea).0;
      beta_read = (format_byte_array-ok _ vk.beta_g2 128 beta (ground arith) eb).0;
      gamma_read = (format_byte_array-ok _ vk.gamma_g2 128 gamma (ground arith) eg).0;
      delta_read = (format_byte_array-ok _ vk.delta_g2 128 delta (ground arith) ed).0;
      ic_read = (format_vk_ic-ok _ vk.ic ic (ground arith) ei).0;
      entries = (format_vk_ic-ok (codes "VK_IC") vk.ic ic (ground arith) ei).1;
    }
