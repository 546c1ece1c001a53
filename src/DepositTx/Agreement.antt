-- ===== src/DepositTx/Agreement.antt =====
-- The three flows that build a deposit, against each other.
use bagsvault.Base.{some, Str, ◌≡◌}
use bagsvault.Base.Hex.{unhexlify, pad32}
use bagsvault.Json.{Json}
use bagsvault.Solana.Instruction.{Bytes, Pubkey, Instruction}
use bagsvault.Solana.Keys.{Keys}
use bagsvault.Withdraw.{cleaned}
use bagsvault.DepositTx.{derive_deposit_pdas, deposit_ix}

-- What a flow deposits: the keys that its texts stand for, and the bytes of its commitment.
record Deposits (keys : Keys) (program depositor mint commitment : Str) (ix : Instruction)
    : Type 0 where
  program_key : Pubkey
  depositor_key : Pubkey
  mint_key : Pubkey
  raw : Bytes
  is_program : keys.from_string program ≡ some program_key
  is_depositor : keys.from_string depositor ≡ some depositor_key
  is_mint : keys.from_string mint ≡ some mint_key
  is_raw : unhexlify (cleaned commitment) ≡ some raw
  built :
      ix
      ≡ deposit_ix keys program_key depositor_key
          (derive_deposit_pdas keys program_key mint_key).vault
          (derive_deposit_pdas keys program_key mint_key).tree_state
          (pad32 raw)
