-- ===== src/DepositTx/Builder.antt =====
-- backend/app/services/deposit_builder.py: the unsigned deposit transaction.
use bagsvault.Base.{
  ℕ, ◌||◌, Option, none, some, Str, codes, is_empty, eq_str, length, ◌==◌, if◌then◌else◌,
}
use bagsvault.Base.Base64.{b64encode}
use bagsvault.Base.Hex.{pad32, to_hex}
use bagsvault.Json.{Json}
use bagsvault.Exceptions.{domain, service_unavailable, validation, upstream, Result, ok, err, ◌>>=◌}
use bagsvault.Solana.Instruction.{Bytes, Pubkey, Instruction}
use bagsvault.Solana.Keys.{Keys, system_program_id}
use bagsvault.Solana.Executor.{coerce_blockhash}
use bagsvault.Withdraw.Relay.{wrapped}
use bagsvault.DepositTx.{decode_hex, decode_pubkey, derive_deposit_pdas, deposit_ix, wrong_length}

-- `_hex_to_bytes32` of this file: pads, and cuts what is longer
unfoldable pub padded_or_cut : Str → Str → Result Bytes
padded_or_cut value label = do raw ← decode_hex value label; ok (pad32 raw)

module _ (keys : Keys) where
  unfoldable pub parsed_mint : Option Pubkey → Result Pubkey
  parsed_mint none =
      err (domain validation (codes "token must be 'SOL' or a base58 SPL mint pubkey."))
  parsed_mint (some key) = ok key

  -- `_resolve_token_mint` of this file
  unfoldable pub resolve_deposit_mint : Str → Result Pubkey
  unfolding parsed_mint
  resolve_deposit_mint token_mint =
      if eq_str token_mint (codes "SOL") || is_empty token_mint
      then ok system_program_id
      else parsed_mint (keys.from_string token_mint)

  -- `_build_deposit_ix`
  unfoldable pub build_deposit_ix_at :
      Pubkey → Pubkey → Pubkey → Pubkey → Bytes → Result Instruction
  build_deposit_ix_at program_id depositor vault tree_state commitment =
      if length commitment == 32
      then ok (deposit_ix keys program_id depositor vault tree_state commitment)
      else err wrong_length

  unfoldable pub parsed_program : Option Pubkey → Result Pubkey
  parsed_program none =
      err (domain service_unavailable (codes "BAGSVAULT_PROGRAM_ID is not a valid base58 pubkey."))
  parsed_program (some key) = ok key

  unfoldable pub program_of : Str → Result Pubkey
  unfolding parsed_program
  program_of id =
      if is_empty id
      then err (domain service_unavailable (codes "BAGSVAULT_PROGRAM_ID is not configured."))
      else parsed_program (keys.from_string id)

-- The RPC client, and solders: `compile` is none for a malformed blockhash, and otherwise the bytes of the
-- transaction with empty signatures.
pub record Chain : Type 0 where
  pub get_recent_blockhash : Result Json
  pub compile : Instruction → Pubkey → Str → Option (Result Bytes)

unfoldable pub compiled : Option (Result Bytes) → Result Bytes
compiled none = err (domain upstream (codes "Solana RPC returned a malformed blockhash."))
compiled (some r) = r

-- The transaction in base64, and the blockhash that it has.
pub record Serialized : Type 0 where
  pub tx_base64 : Str
  pub blockhash : Str

unfoldable pub serialized : Chain → Instruction → Pubkey → Result Serialized
unfolding compiled
serialized chain ix payer = do
  payload ←
      wrapped (domain upstream (codes "Failed to fetch recent blockhash from Solana RPC."))
        chain.get_recent_blockhash
  recent_blockhash ← coerce_blockhash payload
  tx_bytes ← compiled (chain.compile ix payer recent_blockhash)
  ok (record { tx_base64 = b64encode tx_bytes; blockhash = recent_blockhash })

-- The dictionary that is returned, with the instruction that the transaction carries.
pub record Unsigned : Type 0 where
  pub tx_base64 : Str
  pub blockhash : Str
  pub tree_state_pda : Pubkey
  pub vault_pda : Pubkey
  pub program_id : Pubkey
  pub depositor : Pubkey
  pub amount : ℕ
  pub token : Str
  pub commitment : Str
  pub deposit : Instruction

module _ (keys : Keys) (bagsvault_program_id : Str) (chain : Chain) where
  -- for a depositor that is given as a text
  unfoldable pub build_unsigned_tx : Str → ℕ → Str → Str → Result Unsigned
  build_unsigned_tx commitment_hex amount_lamports depositor token_mint = do
    program_id ← program_of keys bagsvault_program_id
    commitment ← padded_or_cut commitment_hex (codes "commitment")
    token_mint_pubkey ← resolve_deposit_mint keys token_mint
    depositor_pubkey ← decode_pubkey keys depositor (codes "depositor_pubkey")
    let pdas = derive_deposit_pdas keys program_id token_mint_pubkey
    ix ← build_deposit_ix_at keys program_id depositor_pubkey pdas.vault pdas.tree_state commitment
    tx ← serialized chain ix depositor_pubkey
    ok (record {
      tx_base64 = tx.tx_base64;
      blockhash = tx.blockhash;
      tree_state_pda = pdas.tree_state;
      vault_pda = pdas.vault;
      program_id = program_id;
      depositor = depositor_pubkey;
      amount = amount_lamports;
      token = token_mint;
      commitment = to_hex commitment;
      deposit = ix;
    })
