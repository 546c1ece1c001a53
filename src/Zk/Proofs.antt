-- ===== src/Zk/Proofs.antt =====
-- What a proof request returns.
use bagsvault.Base.{
  ℕ, zero, suc, ◌*◌, ◌%◌, replicate, ◌≡◌, refl, sym, ap, ◌∙◌, List, [], ◌∷◌, ◌++◌, some, Str, codes,
  ℤ, pos, negsuc, length, length-replicate, drop, ◌||◌, ◌&&◌, not, ◌==◌, Bool-cases, ==_iff, inl,
  inr, arith,
}
use bagsvault.Base.Bytes.{be_bytes, from_be, length-be_bytes, be_bytes-All, from_be-be_bytes}
use bagsvault.Base.Hex.{to_hex, unhexlify, unhexlify-to_hex, length-to_hex}
use bagsvault.Exceptions.{ok-injective, ok, >>=-eq-ok}
use bagsvault.Solana.Instruction.{Bytes}
use bagsvault.Zk.{
  bn254_r, hex32, bytes_to_field, HashLibs, WithdrawProofInput, WithdrawProofResult, nullifier_hash,
  commitment, merkle_root_from_path,
}
use bagsvault.Zk.Prover.{
  Toolchain, stub_proof, checked_proof, toolchain_failed, render_prover_toml, real_proof,
  produce_proof_bytes, public_inputs, hex32_all, generate_withdraw_proof,
}

-- A field element is written as 66 characters, and reading the hexadecimal text gives it back, reduced.
hex32_roundtrip :
    (z : ℤ) (s : Str)
    → hex32 z ≡ ok s
    → (n : ℕ) × (z ≡ pos n)
      × (length s ≡ 66)
      × ((raw : Bytes) × (unhexlify (drop 2 s) ≡ some raw) × (from_be raw ≡ n % bn254_r))
unfolding hex32
hex32_roundtrip (negsuc n) s h = absurd (cc)
hex32_roundtrip (pos n) s h =
    let raw = be_bytes 32 (n % bn254_r) in
    let is : codes "0x" ++ to_hex raw ≡ s = cc in
    (
      n,
      refl,
      rw (← is) (omega (arith, length-to_hex raw, length-be_bytes 32 (n % bn254_r))),
      (
        raw,
        rw (← is) (unhexlify-to_hex raw (be_bytes-All 32 (n % bn254_r))),
        from_be-be_bytes 32 (n % bn254_r) (omega arith),
      ),
    )

-- The hexadecimal text of as many bytes as a proof has.
abbrev pub IsProofText : Str → Type 0
IsProofText proof = (bytes : Bytes) × (length bytes ≡ 256) × (proof ≡ codes "0x" ++ to_hex bytes)

checked_proof-IsProofText :
    (bytes : Bytes) (proof : Str) → checked_proof bytes ≡ ok proof → IsProofText proof
unfolding checked_proof
checked_proof-IsProofText bytes proof h = elim (Bool-cases (length bytes == 256)) [
  | inl fits ↦
      let is : codes "0x" ++ to_hex bytes ≡ proof = ground arith in
      (bytes, (==_iff _ _).0 fits, sym is)
  | inr other ↦ absurd (ground arith)
]

to_hex-zeros : (n : ℕ) → replicate (n * 2) 48 ≡ to_hex (replicate n 0)
unfolding to_hex bagsvault.Base.Hex.hex_digit
to_hex-zeros zero = refl
to_hex-zeros (suc n) =
    let e : suc n * 2 ≡ suc (suc (n * 2)) = omega arith in
    rw e (ap (λ x. 48 ∷ 48 ∷ x) (to_hex-zeros n))

stub_proof-IsProofText : IsProofText stub_proof
unfolding stub_proof
stub_proof-IsProofText =
    (replicate 256 0, length-replicate {A = ℕ} 256 0, ap (λ x. codes "0x" ++ x) (to_hex-zeros 256))

module _ (tools : Toolchain) (p : WithdrawProofInput) (root : ℤ) (spent : ℕ) where
  real_proof-IsProofText :
      (proof : Str) → real_proof tools p root spent ≡ ok proof → IsProofText proof
  unfolding real_proof
  real_proof-IsProofText proof h = elim (Bool-cases tools.circuit_dir_exists) [
    | inr gone ↦ absurd (cc (rw gone at h))
    | inl there ↦
        let (toml, _, h') = >>=-eq-ok (render_prover_toml p root spent) _ (rw there at h) in
        let (bytes, _, h'') = >>=-eq-ok (toolchain_failed (tools.run_toolchain toml)) _ h' in
        checked_proof-IsProofText bytes proof h''
  ]

  produce_proof_bytes-IsProofText :
      (proof : Str) → produce_proof_bytes tools p root spent ≡ ok proof → IsProofText proof
  unfolding produce_proof_bytes
  produce_proof_bytes-IsProofText proof h =
      elim (Bool-cases (tools.stub_mode || not (tools.nargo_found && tools.bb_found))) [
        | inl stub ↦
            let is : stub_proof ≡ proof = cc (rw stub at h) in rw (← is) stub_proof-IsProofText
        | inr real ↦ real_proof-IsProofText proof (rw real at h)
      ]

hex32_all-cons :
    (v : ℤ) (vs : List ℤ) (hs : List Str)
    → hex32_all (v ∷ vs) ≡ ok hs
    → (h : Str) × (rest : List Str) × (hex32 v ≡ ok h) × (hex32_all vs ≡ ok rest) × (hs ≡ h ∷ rest)
unfolding hex32_all
hex32_all-cons v vs hs e =
    let (h, eh, e') = >>=-eq-ok (hex32 v) _ e in
    let (rest, er, e'') = >>=-eq-ok (hex32_all vs) _ e' in (h, rest, eh, er, cc)

length-hex32_all : (vs : List ℤ) (hs : List Str) → hex32_all vs ≡ ok hs → length hs ≡ length vs
length-hex32_all [] hs e = let is : [] ≡ hs = unfold hex32_all in cc in rw (← is)
length-hex32_all (v ∷ vs) hs e =
    let (h, rest, _, er, is) = hex32_all-cons v vs hs e in
    rw is (ap suc (length-hex32_all vs rest er))

leading :
    (libs : HashLibs) (p : WithdrawProofInput) (root : ℤ) (inputs : List Str) (rh sh : Str)
    → hex32_all (public_inputs libs p root) ≡ ok inputs
    → hex32 root ≡ ok rh
    → hex32 (pos (nullifier_hash libs p.nullifier p.leaf_index)) ≡ ok sh
    → (rest : List Str) × (inputs ≡ rh ∷ sh ∷ rest) × (length rest ≡ 4)
unfolding public_inputs
leading libs p root inputs rh sh e er es =
    let (h, more, eh, em, is) = hex32_all-cons root _ inputs e in
    let (k, rest, ek, en, is') =
      hex32_all-cons (pos (nullifier_hash libs p.nullifier p.leaf_index)) _ more em in
    let first : h ≡ rh = ok-injective (sym eh ∙ er) in
    let second : k ≡ sh = ok-injective (sym ek ∙ es) in (rest, cc, length-hex32_all _ rest en)

leading_fields :
    (inputs rest : List Str) (rh sh lh proof : Str) (r : WithdrawProofResult)
    → record {
      proof_hex = proof;
      root_hex = rh;
      nullifier_hash_hex = sh;
      commitment_hex = lh;
      public_inputs_hex = inputs;
    }
      ≡ r
    → inputs ≡ rh ∷ sh ∷ rest
    → r.public_inputs_hex ≡ r.root_hex ∷ r.nullifier_hash_hex ∷ rest
leading_fields inputs rest rh sh lh proof r same ends = rw (← same) ends

-- A proof that is returned is the hexadecimal text of 256 bytes, also in stub mode. Its public inputs are, in
-- this order, the root that the path leads to from the commitment, the nullifier hash, the recipient, the
-- amount, the relayer and the fee, each written as a field element; the result's root and nullifier hash
-- are the first two of them, and its commitment is the one that the path begins at.
pub generate_withdraw_proof-ok :
    (libs : HashLibs) (tools : Toolchain) (p : WithdrawProofInput) (r : WithdrawProofResult)
    → generate_withdraw_proof libs tools p ≡ ok r
    → (root : ℤ) × (rest : List Str) × (merkle_root_from_path libs
          (pos (commitment libs p.nullifier p.secret p.amount))
          p.merkle_path
          p.is_left
        ≡ ok root)
      × (hex32_all (
            root
            ∷ pos (nullifier_hash libs p.nullifier p.leaf_index)
            ∷ pos (bytes_to_field p.recipient_pubkey_bytes)
            ∷ p.amount
            ∷ pos (bytes_to_field p.relayer_pubkey_bytes)
            ∷ p.fee_bps
            ∷ [])
          ≡ ok r.public_inputs_hex)
      × (r.public_inputs_hex ≡ r.root_hex ∷ r.nullifier_hash_hex ∷ rest)
      × (length rest ≡ 4)
      × (hex32 (pos (commitment libs p.nullifier p.secret p.amount)) ≡ ok r.commitment_hex)
      × IsProofText r.proof_hex
unfolding generate_withdraw_proof public_inputs
generate_withdraw_proof-ok libs tools p r h =
    let leaf = commitment libs p.nullifier p.secret p.amount in
    let spent = nullifier_hash libs p.nullifier p.leaf_index in
    let (root, eroot, h1) =
      >>=-eq-ok (merkle_root_from_path libs (pos leaf) p.merkle_path p.is_left) _ h in
    let (inputs, einputs, h2) = >>=-eq-ok (hex32_all (public_inputs libs p root)) _ h1 in
    let (proof, eproof, h3) = >>=-eq-ok (produce_proof_bytes tools p root spent) _ h2 in
    let (root_hex, eroot_hex, h4) = >>=-eq-ok (hex32 root) _ h3 in
    let (spent_hex, espent_hex, h5) = >>=-eq-ok (hex32 (pos spent)) _ h4 in
    let (leaf_hex, eleaf_hex, h6) = >>=-eq-ok (hex32 (pos leaf)) _ h5 in
    let same = ok-injective h6 in
    let (rest, ends, n) =
      leading libs p root inputs root_hex spent_hex einputs eroot_hex espent_hex in
    (
      root,
      rest,
      eroot,
      einputs ∙ ap (λ (x : WithdrawProofResult). ok x.public_inputs_hex) same,
      leading_fields inputs rest root_hex spent_hex leaf_hex proof r same ends,
      n,
      eleaf_hex ∙ ap (λ (x : WithdrawProofResult). ok x.commitment_hex) same,
      rw (← same) (produce_proof_bytes-IsProofText tools p root spent proof eproof),
    )
