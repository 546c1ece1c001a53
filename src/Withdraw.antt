-- ===== src/Withdraw.antt =====
-- backend/app/services/withdrawal_service.py: decoding a request and building the on-chain instruction.
pub mod Layout
pub mod Relay
pub mod Recent
use bagsvault.Base.{
  ℕ, zero, suc, ◌+◌, ◌^◌, ◌<◌, Bool, true, false, ◌||◌, ◌&&◌, not, List, [], ◌∷◌, ◌++◌, Option,
  none, some, Str, codes, is_empty, eq_str, ltb, length, drop, lower, starts_with, if◌then◌else◌,
}
use bagsvault.Base.Bytes.{le_bytes}
use bagsvault.Base.Hex.{unhexlify, pad32}
use bagsvault.Exceptions.{
  Exn, domain, raised, validation, value_error, overflow_error, Result, ok, err, ◌>>=◌,
}
use bagsvault.Solana.Instruction.{Bytes, Pubkey, AccountMeta, Instruction}
use bagsvault.Solana.Keys.{Keys, system_program_id, sighash}

abbrev pub withdraw_name : Str
withdraw_name = codes "global:withdraw"

abbrev pub withdraw_spl_name : Str
withdraw_spl_name = codes "global:withdraw_spl"

abbrev merkle_tree_seed : Bytes
merkle_tree_seed = codes "merkle_tree"

abbrev vault_seed : Bytes
vault_seed = codes "vault"

abbrev nullifier_seed : Bytes
nullifier_seed = codes "nullifier"

-- value[2:] if value.lower().startswith("0x") else value
unfoldable pub cleaned : Str → Str
cleaned value = if starts_with (codes "0x") (lower value) then drop 2 value else value

decoded_or : Str → Option Bytes → Result Bytes
decoded_or label none =
    err (domain validation (codes "Invalid hex value for " ++ (label ++ codes ".")))
decoded_or label (some raw) = ok raw

unfoldable pub hex_to_bytes : Str → Str → Result Bytes
unfolding decoded_or
hex_to_bytes value label = decoded_or label (unhexlify (cleaned value))

-- value.to_bytes(n, "little"), which raises `OverflowError` if the value does not fit
unfoldable pub to_bytes_le : ℕ → ℕ → Result Bytes
to_bytes_le n value =
    if ltb value (256 ^ n)
    then ok (le_bytes n value)
    else err (raised overflow_error (codes "int too big to convert"))

module _ (keys : Keys) where
  unfoldable pub decode_recipient : Str → Result Pubkey
  decode_recipient recipient = elim (keys.from_string recipient) [
    | none ↦ err (domain validation (codes "recipient is not a valid base58 Solana pubkey."))
    | some key ↦ ok key
  ]

  parsed_token : Option Pubkey → Result Pubkey
  parsed_token none = err (
      domain validation
        (codes "Unknown token tag for withdrawal — supply 'SOL', 'VAULT', or a base58 mint."))
  parsed_token (some mint) = ok mint

  -- `Pubkey.from_string` outside any `try`
  parsed_setting : Option Pubkey → Result Pubkey
  parsed_setting none = err (raised value_error (codes "invalid base58"))
  parsed_setting (some mint) = ok mint

  unfoldable pub resolve_token_mint : Str → Str → Result Pubkey
  unfolding parsed_token parsed_setting
  resolve_token_mint vault_token_mint token =
      if eq_str token (codes "SOL") || is_empty token
      then ok system_program_id
      else if not (is_empty vault_token_mint)
          && (eq_str token (codes "VAULT") || eq_str token vault_token_mint)
      then parsed_setting (keys.from_string vault_token_mint)
      else parsed_token (keys.from_string token)

  -- the associated token account of an owner
  unfoldable pub derive_ata : Pubkey → Pubkey → Pubkey
  derive_ata owner mint =
      keys.find_program_address (owner ∷ keys.spl_token_program_id ∷ mint ∷ [])
        keys.associated_token_program_id

  pub record Pdas : Type 0 where
    pub vault : Pubkey
    pub tree_state : Pubkey
    pub nullifier_pda : Pubkey

  unfoldable pub derive_pdas : Pubkey → Pubkey → Bytes → Pdas
  derive_pdas program_id token_mint nullifier32 = record {
    vault = keys.find_program_address (vault_seed ∷ token_mint ∷ []) program_id;
    tree_state = keys.find_program_address (merkle_tree_seed ∷ token_mint ∷ []) program_id;
    nullifier_pda = keys.find_program_address (nullifier_seed ∷ nullifier32 ∷ []) program_id;
  }

-- The arguments of the builders.
pub record WithdrawArgs : Type 0 where
  pub program_id : Pubkey
  pub token_mint : Pubkey
  pub recipient : Pubkey
  pub relayer : Pubkey
  pub proof_bytes : Bytes
  pub root_bytes : Bytes
  pub nullifier_bytes : Bytes
  pub amount : ℕ

-- the body of the instruction after its sighash, the same in both builders
unfoldable pub ix_data : Bytes → WithdrawArgs → Result Bytes
ix_data head a = do
  count ← to_bytes_le 4 (length a.proof_bytes)
  amount ← to_bytes_le 8 a.amount
  ok (
      head
      ++ (count
          ++ (a.proof_bytes
              ++ (pad32 a.root_bytes ++ (pad32 a.nullifier_bytes ++ (a.recipient ++ amount))))))

signer : Pubkey → AccountMeta
signer key = record { pubkey = key; is_signer = true; is_writable = true }

writable : Pubkey → AccountMeta
writable key = record { pubkey = key; is_signer = false; is_writable = true }

read_only : Pubkey → AccountMeta
read_only key = record { pubkey = key; is_signer = false; is_writable = false }

module _ (keys : Keys) where
  unfoldable pub build_withdraw_ix : WithdrawArgs → Result Instruction
  unfolding signer writable read_only derive_pdas
  build_withdraw_ix a = do
    body ← ix_data (sighash keys withdraw_name) a
    let pdas = derive_pdas keys a.program_id a.token_mint (pad32 a.nullifier_bytes)
    ok (record {
      program_id = a.program_id;
      accounts =
          signer a.relayer
          ∷ writable pdas.vault
          ∷ writable pdas.tree_state
          ∷ writable pdas.nullifier_pda
          ∷ writable a.recipient
          ∷ read_only system_program_id
          ∷ [];
      body = body;
    })

  unfoldable pub build_withdraw_spl_ix : WithdrawArgs → Result Instruction
  unfolding signer writable read_only derive_pdas derive_ata
  build_withdraw_spl_ix a = do
    body ← ix_data (sighash keys withdraw_spl_name) a
    let pdas = derive_pdas keys a.program_id a.token_mint (pad32 a.nullifier_bytes)
    ok (record {
      program_id = a.program_id;
      accounts =
          signer a.relayer
          ∷ writable pdas.vault
          ∷ writable (derive_ata keys pdas.vault a.token_mint)
          ∷ writable pdas.tree_state
          ∷ writable pdas.nullifier_pda
          ∷ read_only a.recipient
          ∷ writable (derive_ata keys a.recipient a.token_mint)
          ∷ read_only keys.spl_token_program_id
          ∷ read_only system_program_id
          ∷ [];
      body = body;
    })

  unfoldable pub build_withdraw_ix_for_pool : WithdrawArgs → Result Instruction
  build_withdraw_ix_for_pool a =
      if eq_str a.token_mint system_program_id then build_withdraw_ix a else build_withdraw_spl_ix a
