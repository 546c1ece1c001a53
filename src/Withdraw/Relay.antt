-- ===== src/Withdraw/Relay.antt =====
-- `WithdrawalService.relay` of backend/app/services/withdrawal_service.py.
pub mod Pipeline
pub mod Guard
pub mod Twice
pub mod Respelled
use bagsvault.Base.{
  ℕ, Bool, true, false, List, [], ◌∷◌, Option, none, some, Str, codes, is_empty, if◌then◌else◌,
}
use bagsvault.Base.Base64.{b64encode}
use bagsvault.Json.{Json}
use bagsvault.Exceptions.{
  Exn, domain, raised, conflict, service_unavailable, upstream, Result, ok, err, ◌>>=◌,
}
use bagsvault.Solana.Instruction.{Bytes, Pubkey, Instruction}
use bagsvault.Solana.Keys.{Keys}
use bagsvault.Solana.Executor.{coerce_blockhash}
use bagsvault.Withdraw.{
  hex_to_bytes, decode_recipient, resolve_token_mint, WithdrawArgs, build_withdraw_ix_for_pool,
}

-- `WithdrawalRelayRequest`, with its public inputs.
pub record Request : Type 0 where
  pub proof : Str
  pub root : Str
  pub nullifier_hash : Str
  pub recipient : Str
  pub amount : ℕ
  pub token : Str

-- The row that is stored. `id` and `created_at` are made when it is.
pub record Withdrawal : Type 0 where
  pub id : Str
  pub nullifier_hash : Str
  pub recipient : Str
  pub amount : ℕ
  pub token : Str
  pub relayer_id : Str
  pub tx_signature : Str
  pub created_at : ℕ

pub record Settings : Type 0 where
  pub bagsvault_program_id : Str
  pub vault_token_mint : Str
  pub relayer_fee_bps : ℕ

-- The fields of the picked relayer that are read; a legacy row has no fee.
pub record Picked : Type 0 where
  pub relayer_id : Str
  pub fee_bps : Option ℕ

-- The chain, through the executor where the RPC client has what that needs, and the signer.
pub record Chain : Type 0 where
  pub executor : Option (List Instruction → Pubkey → Result Str)
  pub get_recent_blockhash : Result Json
  pub pubkey_obj : Result Pubkey
  pub build_and_sign : List Instruction → Str → Pubkey → Result Bytes
  pub send_transaction : Str → Result Str

pub record Response : Type 0 where
  pub signature : Str
  pub status : Str
  pub fee_bps : ℕ

-- `except BagsVaultError: raise`, and any other exception becomes `e`
unfoldable pub wrapped {ℓ} : {A : Type ℓ} → Exn → Result A → Result A
wrapped e (ok a) = ok a
wrapped e (err (domain k message)) = err (domain k message)
wrapped e (err (raised c message)) = err e

abbrev rejected : Exn
rejected = domain upstream (codes "Solana RPC rejected the withdrawal transaction.")

module _ (chain : Chain) where
  legacy_broadcast : Instruction → Pubkey → Result Str
  unfolding wrapped coerce_blockhash
  legacy_broadcast ix payer = do
    payload ←
        wrapped (domain upstream (codes "Failed to fetch recent blockhash from Solana RPC."))
          chain.get_recent_blockhash
    recent_blockhash ← coerce_blockhash payload
    signed ←
        wrapped
          (domain service_unavailable (codes "Failed to build and sign withdrawal transaction."))
          (chain.build_and_sign (ix ∷ []) recent_blockhash payer)
    wrapped rejected (chain.send_transaction (b64encode signed))

  unfoldable pub broadcast : Instruction → Pubkey → Result Str
  unfolding legacy_broadcast wrapped
  broadcast ix payer = elim chain.executor [
    | some send ↦ wrapped rejected (send (ix ∷ []) payer)
    | none ↦ legacy_broadcast ix payer
  ]

-- What steps 2 to 4 give: the instruction, its payer, the relayer and its fee.
pub record Prepared : Type 0 where
  pub ix : Instruction
  pub payer : Pubkey
  pub relayer_id : Str
  pub active_fee_bps : ℕ

fee_or : Option ℕ → ℕ → ℕ
fee_or none default = default
fee_or (some fee) default = fee

-- the guard of step 2
unfoldable pub unspent : Option Withdrawal → Result (Unit {0})
unspent none = ok tt
unspent (some _) = err (domain conflict (codes "Nullifier already spent."))

module _ (keys : Keys) (settings : Settings) where
  parsed_program_id : Option Pubkey → Result Pubkey
  parsed_program_id none =
      err (domain service_unavailable (codes "BagsVault program id is not a valid base58 pubkey."))
  parsed_program_id (some key) = ok key

  -- step 3
  unfoldable pub configured_program : Result Pubkey
  unfolding parsed_program_id
  configured_program =
      if is_empty settings.bagsvault_program_id
      then err (domain service_unavailable (codes "BAGSVAULT_PROGRAM_ID is not configured."))
      else parsed_program_id (keys.from_string settings.bagsvault_program_id)

  -- Steps 2 to 4, on the row that `find_one` gave. Everything here may raise, before anything is sent.
  unfoldable pub prepare : Chain → Result Picked → Option Withdrawal → Request → Result Prepared
  unfolding unspent configured_program fee_or
  prepare chain picked existing q = do
    _ ← unspent existing
    program_id ← configured_program
    relayer ← picked
    proof ← hex_to_bytes q.proof (codes "proof")
    root ← hex_to_bytes q.root (codes "public_inputs.root")
    nullifier ← hex_to_bytes q.nullifier_hash (codes "public_inputs.nullifier_hash")
    recipient ← decode_recipient keys q.recipient
    token_mint ← resolve_token_mint keys settings.vault_token_mint q.token
    payer ← chain.pubkey_obj
    ix ← build_withdraw_ix_for_pool keys (record {
      program_id = program_id;
      token_mint = token_mint;
      recipient = recipient;
      relayer = payer;
      proof_bytes = proof;
      root_bytes = root;
      nullifier_bytes = nullifier;
      amount = q.amount;
    })
    ok (record {
      ix = ix;
      payer = payer;
      relayer_id = relayer.relayer_id;
      active_fee_bps = fee_or relayer.fee_bps settings.relayer_fee_bps;
    })
