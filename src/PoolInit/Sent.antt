-- ===== src/PoolInit/Sent.antt =====
-- The instruction that the script sends, and the pool that it creates.
use bagsvault.Base.{ℕ, ◌^◌, ◌<◌, true, false, [], ◌∷◌, Str, ◌≡◌, take, drop}
use bagsvault.Base.Base64.{b64encode}
use bagsvault.Base.Bytes.{from_le}
use bagsvault.Exceptions.{ok}
use bagsvault.Solana.Instruction.{Bytes, Pubkey, Instruction}
use bagsvault.Solana.Keys.{Keys, system_program_id, sighash}
use bagsvault.DepositTx.{derive_deposit_pdas}
use bagsvault.DepositTx.Builder.{resolve_deposit_mint}
use bagsvault.PoolInit.{initialize_name, Tools, configured_id, Initialized}

-- What an `initialize` instruction is: the program, the four accounts that it declares, in its order,
-- of which the authority signs and pays and the state is created, and the body.
abbrev pub Initializes : Keys → Pubkey → Pubkey → Pubkey → Pubkey → ℕ → Instruction → Type 0
Initializes keys program authority token_mint tree_state denomination ix =
    (ix.program_id ≡ program)
    × (ix.accounts
        ≡ record { pubkey = authority; is_signer = true; is_writable = true }
          ∷ record { pubkey = token_mint; is_signer = false; is_writable = false }
          ∷ record { pubkey = tree_state; is_signer = false; is_writable = true }
          ∷ record { pubkey = system_program_id; is_signer = false; is_writable = false }
          ∷ [])
    × (take 8 ix.body ≡ sighash keys initialize_name)
    × (from_le (drop 8 ix.body) ≡ denomination)
    × (denomination < 256 ^ 8)

-- What a result of the script says.
abbrev pub Sent : Tools → ℕ → Str → Initialized → Type 0
Sent tools denomination mint r =
    (ix : Instruction) × (hash : Str) × (signed : Bytes) × (configured_id tools ≡ ok r.program_id)
    × (tools.pubkey_obj ≡ ok r.authority)
    × Initializes tools.keys r.program_id r.authority r.token_mint
        (derive_deposit_pdas tools.keys r.program_id r.token_mint).tree_state denomination ix
    × (tools.build_and_sign ix hash r.authority ≡ ok signed)
    × (tools.send_transaction (b64encode signed) ≡ ok r.signature)
    × (r.tree_state_pda ≡ (derive_deposit_pdas tools.keys r.program_id r.token_mint).tree_state)
    × (resolve_deposit_mint tools.keys mint ≡ ok r.token_mint)
