-- ===== src/PoolInit.antt =====
-- backend/scripts/initialize_pool.py: the script that creates the state of a pool on the chain.
pub mod Sent
use bagsvault.Base.{
  ℕ, ℤ, pos, negsuc, ◌&&◌, ◌||◌, ◌++◌, Bool, true, false, not, List, [], ◌∷◌, Option, none, some,
  Str, codes, eq_str, is_empty, ltb, if◌then◌else◌,
}
use bagsvault.Base.Base64.{b64encode}
use bagsvault.Json.{Json}
use bagsvault.Exceptions.{
  Exn, domain, raised, service_unavailable, upstream, bad_parameter, value_error, overflow_error,
  other, Result, ok, err, ◌>>=◌,
}
use bagsvault.Solana.Instruction.{Bytes, Pubkey, AccountMeta, Instruction}
use bagsvault.Solana.Keys.{Keys, system_program_id, sighash}
use bagsvault.Solana.Executor.{coerce_blockhash}
use bagsvault.Withdraw.{to_bytes_le}
use bagsvault.Withdraw.Relay.{wrapped}

abbrev pub initialize_name : Str
initialize_name = codes "global:initialize"

-- The relayer's key and its signer, and the RPC client.
pub record Tools : Type 0 where
  pub keys : Keys
  pub bagsvault_program_id : Str
  pub pubkey_obj : Result Pubkey
  pub build_and_sign : Instruction → Str → Pubkey → Result Bytes
  pub get_recent_blockhash : Result Json
  pub send_transaction : Str → Result Str

module _ (keys : Keys) where
  unfoldable pub mint_or_bad : Option Pubkey → Result Pubkey
  mint_or_bad none =
      err (raised bad_parameter (codes "--token-mint must be 'SOL' or a base58 pubkey"))
  mint_or_bad (some key) = ok key

  -- `_resolve_token_mint` of this file
  unfoldable pub resolve_pool_mint : Str → Result Pubkey
  unfolding mint_or_bad eq_str
  resolve_pool_mint token_mint =
      if eq_str token_mint (codes "SOL") || is_empty token_mint
      then ok system_program_id
      else mint_or_bad (keys.from_string token_mint)

  unfoldable pub derive_tree_state_pda : Pubkey → Pubkey → Pubkey
  derive_tree_state_pda program_id token_mint =
      keys.find_program_address (codes "merkle_tree" ∷ token_mint ∷ []) program_id

  -- `_build_initialize_ix`
  unfoldable pub build_initialize_ix : Pubkey → Pubkey → Pubkey → Pubkey → ℕ → Result Instruction
  build_initialize_ix program_id authority token_mint tree_state denomination = do
    amount ← to_bytes_le 8 denomination
    ok (record {
      program_id = program_id;
      accounts =
          record { pubkey = authority; is_signer = true; is_writable = true }
          ∷ record { pubkey = token_mint; is_signer = false; is_writable = false }
          ∷ record { pubkey = tree_state; is_signer = false; is_writable = true }
          ∷ record { pubkey = system_program_id; is_signer = false; is_writable = false }
          ∷ [];
      body = sighash keys initialize_name ++ amount;
    })

  -- a text of the settings that is no address raises ValueError
  parsed_id : Option Pubkey → Result Pubkey
  parsed_id none = err (raised value_error (codes "Invalid Base58 string"))
  parsed_id (some key) = ok key

-- The dictionary that is returned.
pub record Initialized : Type 0 where
  pub tree_state_pda : Pubkey
  pub signature : Str
  pub program_id : Pubkey
  pub authority : Pubkey
  pub token_mint : Pubkey
  pub denomination : ℕ

unfoldable pub configured_id : Tools → Result Pubkey
unfolding parsed_id
configured_id tools =
    if is_empty tools.bagsvault_program_id
    then err (domain service_unavailable (codes "BAGSVAULT_PROGRAM_ID is not configured."))
    else parsed_id tools.keys (tools.keys.from_string tools.bagsvault_program_id)

-- `_run`
unfoldable pub run : Tools → ℕ → Str → Result Initialized
run tools denomination token_mint_arg = do
  program_id ← configured_id tools
  token_mint ← resolve_pool_mint tools.keys token_mint_arg
  authority ← tools.pubkey_obj
  let tree_state = derive_tree_state_pda tools.keys program_id token_mint
  ix ← build_initialize_ix tools.keys program_id authority token_mint tree_state denomination
  payload ←
      wrapped (domain upstream (codes "Failed to fetch recent blockhash from Solana RPC."))
        tools.get_recent_blockhash
  recent_blockhash ← coerce_blockhash payload
  signed ← tools.build_and_sign ix recent_blockhash authority
  signature ←
      wrapped (domain upstream (codes "Solana RPC rejected the initialize transaction."))
        (tools.send_transaction (b64encode signed))
  ok (record {
    tree_state_pda = tree_state;
    signature = signature;
    program_id = program_id;
    authority = authority;
    token_mint = token_mint;
    denomination = denomination;
  })

-- How the command ends: with the dictionary, an exit code, or an exception that it lets through.
pub data Ended : Type 0 where
  printed : Initialized → Ended
  exit : ℕ → Ended
  escaped : Exn → Ended

unfoldable pub ended_by : Result Initialized → Ended
ended_by (ok result) = printed result
ended_by (err (domain kind message)) = exit 1
ended_by (err (raised class message)) = escaped (raised class message)

unfoldable pub or_cluster : Option Str → Str → Str
or_cluster none default = default
or_cluster (some []) default = default
or_cluster (some (c ∷ cs)) default = c ∷ cs

-- `main`, with the cluster of the settings
unfoldable pub main : Tools → Str → ℕ → Str → Option Str → Bool → Ended
unfolding ended_by or_cluster eq_str
main tools solana_cluster denomination token_mint cluster i_know_what_i_am_doing =
    let ended = ended_by (run tools denomination token_mint) in
    if eq_str (or_cluster cluster solana_cluster) (codes "mainnet-beta")
      && not i_know_what_i_am_doing
    then exit 2
    else ended
