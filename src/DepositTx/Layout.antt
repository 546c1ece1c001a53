-- ===== src/DepositTx/Layout.antt =====
-- The instruction that an unsigned deposit carries, and the agreement of the two builders.
use bagsvault.Base.{
  ℕ, ◌≡◌, sym, ◌∙◌, ap, Str, codes, length, ◌==◌, arith, length-take, Bool-cases, inl, inr,
}
use bagsvault.Base.Hex.{to_hex}
use bagsvault.Exceptions.{ok-injective, ok, >>=-eq-ok}
use bagsvault.Solana.Instruction.{Bytes, Pubkey, Instruction}
use bagsvault.Solana.Keys.{Keys, sighash, HaveLength}
use bagsvault.DepositTx.{decode_pubkey, deposit_ix, derive_deposit_pdas}
use bagsvault.DepositTx.Builder.{
  serialized, padded_or_cut, program_of, resolve_deposit_mint, build_deposit_ix_at, Chain, Unsigned,
  build_unsigned_tx,
}

pub length-sighash : (keys : Keys) (name : Str) → HaveLength keys → length (sighash keys name) ≡ 8
unfolding sighash
length-sighash keys name h = omega (arith, length-take 8 (keys.sha256 name), h.digests name)

built-at :
    (keys : Keys) (program_id depositor vault tree_state : Pubkey) (c : Bytes) (ix : Instruction)
    → build_deposit_ix_at keys program_id depositor vault tree_state c ≡ ok ix
    → ix ≡ deposit_ix keys program_id depositor vault tree_state c
unfolding build_deposit_ix_at
built-at keys program_id depositor vault tree_state c ix h = elim (Bool-cases (length c == 32)) [
  | inl e ↦ let h' = rw e at h in cc
  | inr e ↦ absurd (let h' = rw e at h in cc)
]

-- What a result says of the way to it.
pub unsigned-ok :
    (keys : Keys) (id : Str) (chain : Chain) (hex depositor mint : Str) (amount : ℕ) (u : Unsigned)
    → build_unsigned_tx keys id chain hex amount depositor mint ≡ ok u
    → (c : Bytes) × (program_id : Pubkey) × (key : Pubkey) × (token : Pubkey) × (program_of keys id
        ≡ ok program_id)
      × (padded_or_cut hex (codes "commitment") ≡ ok c)
      × (resolve_deposit_mint keys mint ≡ ok token)
      × (decode_pubkey keys depositor (codes "depositor_pubkey") ≡ ok key)
      × (u.deposit
          ≡ deposit_ix keys program_id key
              (derive_deposit_pdas keys program_id token).vault
              (derive_deposit_pdas keys program_id token).tree_state
              c)
      × (u.commitment ≡ to_hex c)
unfolding build_unsigned_tx
unsigned-ok keys id chain hex depositor mint amount u h0 =
    let (program_id, e1, h1) = >>=-eq-ok (program_of keys id) _ h0 in
    let (c, e2, h2) = >>=-eq-ok (padded_or_cut hex (codes "commitment")) _ h1 in
    let (token, e3, h3) = >>=-eq-ok (resolve_deposit_mint keys mint) _ h2 in
    let (key, e4, h4) = >>=-eq-ok (decode_pubkey keys depositor (codes "depositor_pubkey")) _ h3 in
    let (ix, e5, h5) = >>=-eq-ok (build_deposit_ix_at keys program_id key _ _ c) _ h4 in
    let (tx, _, h6) = >>=-eq-ok (serialized chain ix key) _ h5 in
    let done = sym (ok-injective h6) in
    let is = built-at keys program_id key _ _ c ix e5 in
    (
      c,
      program_id,
      key,
      token,
      e1,
      e2,
      e3,
      e4,
      ap (λ v. v.deposit) done ∙ is,
      ap (λ v. v.commitment) done,
    )
