-- ===== src/Zk/Prover.antt =====
-- `ZkProofService.generate_withdraw_proof` of backend/app/services/zk_proof_service.py, with the
-- `Prover.toml` that it writes. Running nargo and bb on that file is an argument.
use bagsvault.Base.{
  ℕ, Bool, ◌&&◌, ◌||◌, not, List, [], ◌∷◌, ◌++◌, map, Str, codes, ℤ, pos, show_ℤ, ◌==◌, length,
  replicate, if◌then◌else◌,
}
use bagsvault.Base.Hex.{to_hex}
use bagsvault.Exceptions.{domain, service_unavailable, upstream, Result, ok, err, ◌>>=◌}
use bagsvault.Solana.Instruction.{Bytes}
use bagsvault.Zk.{
  hex32, bytes_to_field, HashLibs, WithdrawProofInput, WithdrawProofResult, commitment,
  nullifier_hash, merkle_root_from_path,
}

abbrev pub proof_byte_len : ℕ
proof_byte_len = 256

-- The machine: whether nargo and bb are on the path, whether the circuit directory is there, and what
-- running the toolchain on the `Prover.toml` gives or raises.
pub record Toolchain : Type 0 where
  pub stub_mode : Bool
  pub nargo_found : Bool
  pub bb_found : Bool
  pub circuit_dir_exists : Bool
  pub run_toolchain : Str → Result Bytes

-- [_hex32(v) for v in values]
unfoldable pub hex32_all : List ℤ → Result (List Str)
hex32_all [] = ok []
hex32_all (v ∷ vs) = do h ← hex32 v; hs ← hex32_all vs; ok (h ∷ hs)

-- sep.join(parts)
unfoldable pub join : Str → List Str → Str
join sep [] = []
join sep (p ∷ []) = p
join sep (p ∷ q ∷ ps) = p ++ (sep ++ join sep (q ∷ ps))

quoted : Str → Str
quoted s = b'"' ∷ (s ++ (b'"' ∷ []))

assign : Str → Str → Str
unfolding quoted
assign name value = name ++ (codes " = " ++ quoted value)

assign_list : Str → List Str → Str
unfolding quoted join
assign_list name values =
    name ++ (codes " = [" ++ (join (codes ", ") (map quoted values) ++ codes "]"))

unfoldable pub render_prover_toml : WithdrawProofInput → ℤ → ℕ → Result Str
unfolding assign assign_list join hex32_all
render_prover_toml p root nullifier_hash = do
  path ← hex32_all p.merkle_path
  root_hex ← hex32 root
  nullifier_hash_hex ← hex32 (pos nullifier_hash)
  recipient ← hex32 (pos (bytes_to_field p.recipient_pubkey_bytes))
  relayer ← hex32 (pos (bytes_to_field p.relayer_pubkey_bytes))
  nullifier ← hex32 p.nullifier
  secret ← hex32 p.secret
  ok (
      join (codes "\n") (
        assign (codes "root") root_hex
        ∷ assign (codes "nullifier_hash") nullifier_hash_hex
        ∷ assign (codes "recipient") recipient
        ∷ assign (codes "amount") (show_ℤ p.amount)
        ∷ assign (codes "relayer") relayer
        ∷ assign (codes "fee_bps") (show_ℤ p.fee_bps)
        ∷ []
        ∷ assign (codes "nullifier") nullifier
        ∷ assign (codes "secret") secret
        ∷ assign (codes "leaf_index") (show_ℤ p.leaf_index)
        ∷ assign_list (codes "merkle_path") path
        ∷ assign_list (codes "is_left") (map show_ℤ p.is_left)
        ∷ []
        ∷ []))

-- any exception of the toolchain becomes an `UpstreamError`
unfoldable pub toolchain_failed : Result Bytes → Result Bytes
toolchain_failed (ok bytes) = ok bytes
toolchain_failed (err e) = err (domain upstream (codes "Proof toolchain failed."))

unfoldable pub checked_proof : Bytes → Result Str
checked_proof bytes =
    if length bytes == proof_byte_len
    then ok (codes "0x" ++ to_hex bytes)
    else err (domain upstream (codes "Proof toolchain produced a proof with unexpected length."))

unfoldable pub stub_proof : Str
stub_proof = codes "0x" ++ replicate 512 b'0'

unfoldable pub real_proof : Toolchain → WithdrawProofInput → ℤ → ℕ → Result Str
unfolding render_prover_toml toolchain_failed checked_proof
real_proof tools p root nullifier_hash =
    if tools.circuit_dir_exists
    then (do
      prover_toml ← render_prover_toml p root nullifier_hash
      bytes ← toolchain_failed (tools.run_toolchain prover_toml)
      checked_proof bytes)
    else err (domain service_unavailable (codes "ZK circuit directory does not exist."))

unfoldable pub produce_proof_bytes : Toolchain → WithdrawProofInput → ℤ → ℕ → Result Str
unfolding real_proof stub_proof
produce_proof_bytes tools p root nullifier_hash =
    if tools.stub_mode || not (tools.nargo_found && tools.bb_found)
    then ok stub_proof
    else real_proof tools p root nullifier_hash

unfoldable pub public_inputs : HashLibs → WithdrawProofInput → ℤ → List ℤ
public_inputs libs p root =
    root
    ∷ pos (nullifier_hash libs p.nullifier p.leaf_index)
    ∷ pos (bytes_to_field p.recipient_pubkey_bytes)
    ∷ p.amount
    ∷ pos (bytes_to_field p.relayer_pubkey_bytes)
    ∷ p.fee_bps
    ∷ []

unfoldable pub generate_withdraw_proof :
    HashLibs → Toolchain → WithdrawProofInput → Result WithdrawProofResult
unfolding hex32_all produce_proof_bytes
generate_withdraw_proof libs tools p = do
  let leaf = commitment libs p.nullifier p.secret p.amount
  let spent = nullifier_hash libs p.nullifier p.leaf_index
  root ← merkle_root_from_path libs (pos leaf) p.merkle_path p.is_left
  inputs_hex ← hex32_all (public_inputs libs p root)
  proof ← produce_proof_bytes tools p root spent
  root_hex ← hex32 root
  spent_hex ← hex32 (pos spent)
  leaf_hex ← hex32 (pos leaf)
  ok (record {
    proof_hex = proof;
    root_hex = root_hex;
    nullifier_hash_hex = spent_hex;
    commitment_hex = leaf_hex;
    public_inputs_hex = inputs_hex;
  })
