-- ===== src/Solana/Keys.antt =====
-- What the program takes from `solders` and from hashlib: addresses from their base58 text, derived
-- addresses, and SHA-256.
use bagsvault.Base.{Str, List, Option, length, replicate, take, ◌≡◌}
use bagsvault.Solana.Instruction.{Bytes, Pubkey}

pub record Keys : Type 0 where
  pub from_string : Str → Option Pubkey
  pub find_program_address : List Bytes → Pubkey → Pubkey
  pub sha256 : Bytes → Bytes
  -- `Pubkey.from_string` of the two constants
  pub spl_token_program_id : Pubkey
  pub associated_token_program_id : Pubkey

-- the System Program's address is 32 zero bytes
abbrev pub system_program_id : Pubkey
system_program_id = replicate 32 0

-- hashlib.sha256(name).digest()[:8]
unfoldable pub sighash : Keys → Str → Bytes
sighash keys name = take 8 (keys.sha256 name)

-- Addresses and digests have 32 bytes.
pub record HaveLength (keys : Keys) : Type 0 where
  pub digests : (s : Bytes) → length (keys.sha256 s) ≡ 32
