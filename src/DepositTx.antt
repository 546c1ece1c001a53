-- ===== src/DepositTx.antt =====
-- backend/app/services/swap_to_deposit_service.py and claim_to_deposit_service.py: the unsigned deposit
-- transactions that follow a swap or a claim, and what deposit_builder.py has in common with them.
pub mod Builder
pub mod Layout
pub mod Claim
pub mod Agreement
use bagsvault.Base.{
  not, ◌&&◌, ℕ, zero, pos, Bool, true, false, not, ◌||◌, ◌&&◌, List, [], ◌∷◌, ◌++◌, Option, none,
  some, Str, codes, is_empty, eq_str, ltb, length, ◌==◌, if◌then◌else◌,
}
use bagsvault.Base.Hex.{unhexlify, pad32}
use bagsvault.Json.{
  is_truthy, or_else, float, Json, null, bool, num, str, arr, obj, Items, nil, cons, Fields, end,
  get_field,
}
use bagsvault.Exceptions.{
  Exn, domain, service_unavailable, validation, upstream, Result, ok, err, ◌>>=◌,
}
use bagsvault.Solana.Instruction.{Bytes, Pubkey, AccountMeta, Instruction}
use bagsvault.Solana.Keys.{Keys, system_program_id, sighash}
use bagsvault.Withdraw.{cleaned}

abbrev pub deposit_name : Str
deposit_name = codes "global:deposit"

decoded_hex : Str → Option Bytes → Result Bytes
decoded_hex label none =
    err (domain validation (codes "Invalid hex value for " ++ (label ++ codes ".")))
decoded_hex label (some raw) = ok raw

-- the part that both versions of `_hex_to_bytes32` share
unfoldable pub decode_hex : Str → Str → Result Bytes
unfolding decoded_hex
decode_hex value label = decoded_hex label (unhexlify (cleaned value))

-- pads, and refuses what is longer
unfoldable pub hex_to_bytes32 : Str → Str → Result Bytes
hex_to_bytes32 value label = do
  raw ← decode_hex value label
  short ←
      if ltb 32 (length raw)
      then err (domain validation (label ++ codes " is longer than 32 bytes."))
      else ok raw
  ok (pad32 short)

abbrev pub wrong_length : Exn
wrong_length = domain validation (codes "commitment must be exactly 32 bytes.")

module _ (keys : Keys) where
  unfoldable pub parsed_key : Str → Option Pubkey → Result Pubkey
  parsed_key label none =
      err (domain validation (label ++ codes " is not a valid base58 Solana pubkey."))
  parsed_key label (some key) = ok key

  unfoldable pub decode_pubkey : Str → Str → Result Pubkey
  unfolding parsed_key
  decode_pubkey value label = parsed_key label (keys.from_string value)

  pub record DepositPdas : Type 0 where
    pub vault : Pubkey
    pub tree_state : Pubkey

  unfoldable pub derive_deposit_pdas : Pubkey → Pubkey → DepositPdas
  derive_deposit_pdas program_id token_mint = record {
    vault = keys.find_program_address (codes "vault" ∷ token_mint ∷ []) program_id;
    tree_state = keys.find_program_address (codes "merkle_tree" ∷ token_mint ∷ []) program_id;
  }

  -- the accounts and the data that both builders give
  unfoldable pub deposit_ix : Pubkey → Pubkey → Pubkey → Pubkey → Bytes → Instruction
  deposit_ix program_id depositor vault tree_state commitment = record {
    program_id = program_id;
    accounts =
        record { pubkey = depositor; is_signer = true; is_writable = true }
        ∷ record { pubkey = vault; is_signer = false; is_writable = true }
        ∷ record { pubkey = tree_state; is_signer = false; is_writable = true }
        ∷ record { pubkey = system_program_id; is_signer = false; is_writable = false }
        ∷ [];
    body = sighash keys deposit_name ++ commitment;
  }

  unfoldable pub build_deposit_ix : Pubkey → Pubkey → Pubkey → Bytes → Result Instruction
  unfolding deposit_ix derive_deposit_pdas
  build_deposit_ix program_id token_mint depositor commitment_bytes32 =
      let pdas = derive_deposit_pdas program_id token_mint in
      if length commitment_bytes32 == 32
      then ok (deposit_ix program_id depositor pdas.vault pdas.tree_state commitment_bytes32)
      else err wrong_length

-- The services outside: what Bags answers, and the serialization of an unsigned transaction with the
-- placeholder blockhash.
pub record Outside : Type 0 where
  pub keys : Keys
  pub bagsvault_program_id : Str
  pub get_swap_quote : Str → Str → ℕ → ℕ → Result Fields
  pub build_claim_tx : Str → Str → Result Fields
  pub serialize_unsigned : Instruction → Pubkey → Result Str

-- a text that is not empty
full_text : Option Json → Option Str
full_text (some (str [])) = none
full_text (some (str (c ∷ cs))) = some (c ∷ cs)
full_text _ = none

-- the first element of a list, if it is a text
first_text : Option Json → Option Str
first_text (some (arr (cons (str s) rest))) = some s
first_text _ = none

first_of : Option Str → Option Str → Option Str
first_of none b = b
first_of (some a) b = some a

nested_text : Option Json → Option Str
unfolding or_else full_text get_field
nested_text (some (obj fs)) =
    full_text
      (or_else (get_field (codes "transaction") fs) (get_field (codes "swapTransaction") fs))
nested_text _ = none

found_swap : Fields → Option Str
unfolding or_else full_text first_text first_of nested_text get_field
found_swap raw =
    first_of
      (full_text (
        or_else (or_else (get_field (codes "transaction") raw) (get_field (codes "tx") raw))
          (get_field (codes "swapTransaction") raw)))
      (first_of (first_text (get_field (codes "transactions") raw)) (
        first_of (first_text (get_field (codes "txs") raw))
          (nested_text (get_field (codes "data") raw))))

required : Exn → Option Str → Result Str
required e none = err e
required e (some s) = ok s

unfoldable pub extract_swap_tx_b64 : Fields → Result Str
unfolding found_swap required
extract_swap_tx_b64 raw =
    required
      (domain service_unavailable
        (codes "Bags swap response did not include an unsigned transaction."))
      (found_swap raw)

unfoldable pub configured : Str → Result (Unit {0})
configured id =
    if is_empty id
    then err (domain service_unavailable (codes "BAGSVAULT_PROGRAM_ID is not configured."))
    else ok tt

pub record SwapChain : Type 0 where
  pub swap_tx : Str
  pub deposit_tx : Str
  pub deposit_program_id : Pubkey
  pub deposit_token_mint : Pubkey
  -- the instruction that `deposit_tx` carries
  pub deposit : Instruction

module _ (o : Outside) where
  -- `SwapToDepositService.build_chain`
  unfoldable pub build_swap_chain : Str → Str → ℕ → ℕ → Str → Str → Result SwapChain
  unfolding configured
  build_swap_chain input_mint output_mint amount_in slippage_bps depositor_pubkey commitment_hex =
      do
        _ ← configured o.bagsvault_program_id
        program_id ← decode_pubkey o.keys o.bagsvault_program_id (codes "BAGSVAULT_PROGRAM_ID")
        depositor ← decode_pubkey o.keys depositor_pubkey (codes "depositor_pubkey")
        token_mint ← decode_pubkey o.keys output_mint (codes "output_mint")
        commitment ← hex_to_bytes32 commitment_hex (codes "commitment_hex")
        swap_raw ← o.get_swap_quote input_mint output_mint amount_in slippage_bps
        swap_tx ← extract_swap_tx_b64 swap_raw
        ix ← build_deposit_ix o.keys program_id token_mint depositor commitment
        deposit_tx ← o.serialize_unsigned ix depositor
        ok (record {
          swap_tx = swap_tx;
          deposit_tx = deposit_tx;
          deposit_program_id = program_id;
          deposit_token_mint = token_mint;
          deposit = ix;
        })
