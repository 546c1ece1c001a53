-- ===== src/VerifyingKey/Count.antt =====
-- How many public inputs a key has, against those of a proof.
use bagsvault.Base.{
  ℕ, suc, ◌+◌, ℤ, List, [], ◌∷◌, some, Str, codes, ◌≡◌, refl, ◌∙◌, ap, inl, inr, length, arith,
}
use bagsvault.Json.{arr, Items, nil, cons, Fields, get_field}
use bagsvault.Exceptions.{Exn, Result, err, Result-cases}
use bagsvault.Solana.Instruction.{Bytes}
use bagsvault.Zk.{HashLibs, WithdrawProofInput}
use bagsvault.Zk.Prover.{public_inputs}
use bagsvault.VerifyingKey.{length_items, parse_vk}
use bagsvault.VerifyingKey.Encoded.{AreG1}
use bagsvault.VerifyingKey.Converted.{parse_vk-ok}

seven : (n m : ℕ) → n ≡ m → n ≡ 6 → m ≡ 7 → ⊥
seven n m e six seven_points = absurd (omega arith)

module _ (truncate : Str → Result ℤ) where
  length-AreG1 :
      (points : Items) (ic : List Bytes)
      → AreG1 truncate points ic
      → length ic ≡ length_items points
  unfolding length_items
  length-AreG1 nil [] h = refl
  length-AreG1 nil (b ∷ bs) h = absurd h
  length-AreG1 (cons p ps) [] h = absurd h
  length-AreG1 (cons p ps) (b ∷ bs) h = ap suc (length-AreG1 ps bs h.1)

  -- A key for the six public inputs that the proof service gives, which has one point more than
  -- inputs, is refused whatever its points are.
  pub parse_vk-refuses :
      (libs : HashLibs) (p : WithdrawProofInput) (root : ℤ) (fs : Fields) (points : Items)
      → get_field (codes "IC") fs ≡ some (arr points)
      → length_items points ≡ length (public_inputs libs p root) + 1
      → (e : Exn) × (parse_vk truncate fs ≡ err e)
  unfolding public_inputs
  parse_vk-refuses libs p root fs points given count = elim (Result-cases (parse_vk truncate fs)) [
    | inr (e, is) ↦ (e, is)
    | inl (vk, is) ↦
        let (encodes, six) = parse_vk-ok truncate fs vk is in
        let same : encodes.points ≡ points = cc (given, encodes.has_points) in
        let many = length-AreG1 encodes.points vk.ic encodes.ic in
        absurd (seven (length vk.ic) (length_items points) (many ∙ ap length_items same) six count)
  ]
