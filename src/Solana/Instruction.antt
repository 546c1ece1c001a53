-- ===== src/Solana/Instruction.antt =====
-- Instructions as the `solders` classes hold them. A pubkey is its 32 bytes.
use bagsvault.Base.{ℕ, Bool, List}

abbrev pub Bytes : Type 0
Bytes = List ℕ

abbrev pub Pubkey : Type 0
Pubkey = List ℕ

pub record AccountMeta : Type 0 where
  pub pubkey : Pubkey
  pub is_signer : Bool
  pub is_writable : Bool

pub record Instruction : Type 0 where
  pub program_id : Pubkey
  pub accounts : List AccountMeta
  pub body : Bytes
