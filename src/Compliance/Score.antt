-- ===== src/Compliance/Score.antt =====
-- The score and the verdict of an integer.
use bagsvault.Base.{
  ℕ, ◌*◌, suc, ◌≤◌, Bool-cases, inl, inr, pos, none, some, Str, codes, ◌≡◌, refl, ap, leb, ltb,
  ◌==◌, arith, if◌then◌else◌,
}
use bagsvault.Json.{Json, num, Fields, get_field, is_truthy, or_else, as_str}
use bagsvault.Exceptions.{ok}
use bagsvault.Compliance.{
  Verdict, approve, review, block, Double, clamp, verdict_from_score, verdict_for, scaled, score_of,
  float_of, coerce_score, Fresh, RiskScan, body_of, first_of_three, raw_score, scan_of,
  from_range_response,
}

-- Floats up to this are exact on the integers: what IEEE 754 says of doubles, for the numbers up to 10000.
pub record IsExact {W : Type 0} (double : Double W) : Type 0 where
  pub int_value : ℕ → W
  pub of_int_lem : (n : ℕ) → n ≤ 10000 → double.of_int (pos n) ≡ ok (int_value n)
  pub in_unit_lem : (n : ℕ) → n ≤ 10000 → double.in_unit (int_value n) ≡ leb n 1
  pub times_100_lem : (n : ℕ) → n ≤ 100 → double.times_100 (int_value n) ≡ int_value (n * 100)
  pub rounded_lem : (n : ℕ) → n ≤ 10000 → double.rounded (int_value n) ≡ ok (pos n)

raw_score_int :
    (body : Fields) (n : ℕ)
    → get_field (codes "score") body ≡ some (num (pos (suc n)))
    → raw_score body ≡ some (num (pos (suc n)))
unfolding raw_score first_of_three or_else is_truthy
raw_score_int body n found = rw found

-- The verdict of an integer score that is taken as it is, but for 1.
abbrev pub verdict_of_int : ℕ → Verdict
verdict_of_int n =
    if n == 1 then block else if ltb n 20 then approve else if ltb n 50 then review else block

verdict_int : (n : ℕ) → n ≤ 100 → verdict_for (if n == 1 then 100 else n) none ≡ verdict_of_int n
unfolding verdict_for verdict_from_score
verdict_int n h = ground arith

module _ {W : Type 0} (double : Double W) (exact : IsExact double) where
  open exact use {int_value, of_int_lem, in_unit_lem, times_100_lem, rounded_lem}

  scaled_int :
      (n : ℕ) → n ≤ 100 → scaled double (int_value n) ≡ int_value (if leb n 1 then n * 100 else n)
  unfolding scaled
  scaled_int n h = elim (Bool-cases (leb n 1)) [
    | inl e ↦ rw (in_unit_lem n (omega arith), e) (times_100_lem n h)
    | inr e ↦ rw (in_unit_lem n (omega arith), e)
  ]

  -- what is left of an integer
  abbrev taken : ℕ → ℕ
  taken n = if n == 1 then 100 else n

  clamped : (n : ℕ) → n ≤ 100 → clamp (pos (if leb n 1 then n * 100 else n)) ≡ taken n
  unfolding clamp
  clamped n h = ground arith

  small : (n : ℕ) → n ≤ 100 → (if leb n 1 then n * 100 else n) ≤ 10000
  small n h = ground arith

  coerce_score_int : (n : ℕ) → n ≤ 100 → coerce_score double (some (num (pos n))) ≡ ok (taken n)
  unfolding coerce_score score_of float_of
  coerce_score_int n h =
      rw (of_int_lem n (omega arith), scaled_int n h, rounded_lem _ (small n h))
        (ap ok (clamped n h))

  -- An answer with an integer score from 1 to 100 and no verdict of its own gets that score and the verdict
  -- that belongs to it, but for the score 1: that is taken for the highest of a scale from 0 to 1, and gets
  -- 100 and the verdict BLOCK, while 2 to 19 get APPROVE.
  pub from_range_response-int :
      (show : Json → Str) (fresh : Fresh) (address : Str) (raw : Fields) (n : ℕ)
      → let body = body_of raw (get_field (codes "data") raw) in
        get_field (codes "score") body ≡ some (num (pos (suc n)))
        → suc n ≤ 100
        → as_str (first_of_three (codes "verdict") (codes "decision") (codes "recommendation") body)
          ≡ none
        → (scan : RiskScan) × (from_range_response double show fresh address raw ≡ ok scan)
          × (scan.score ≡ (if suc n == 1 then 100 else suc n))
          × (scan.verdict ≡ verdict_of_int (suc n))
  unfolding from_range_response
  from_range_response-int show fresh address raw n found h unnamed =
      let body = body_of raw (get_field (codes "data") raw) in
      (
        scan_of show fresh address body (taken (suc n)),
        rw (raw_score_int body n found, coerce_score_int (suc n) h),
        unfold scan_of in refl,
        (unfold scan_of in rw unnamed (verdict_int (suc n) h)),
      )
