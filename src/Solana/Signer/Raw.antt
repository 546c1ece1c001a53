-- ===== src/Solana/Signer/Raw.antt =====
-- The rest of `SolanaSignerClient`: its addresses, and signing a transaction that is given.
use bagsvault.Base.{List, [], ◌∷◌, Option, none, some, codes, map}
use bagsvault.Exceptions.{raised, value_error, Result, ok, err, ◌>>=◌}
use bagsvault.Solana.Instruction.{Bytes, Pubkey}
use bagsvault.Solana.Signer.{Solders, Signer, KeypairFile, load, load_pool, next_keypair}

-- A transaction, or its bytes; what solders does with one.
pub data Signable (Tx : Type 0) : Type 0 where
  given : Tx → Signable Tx
  raw_bytes : Bytes → Signable Tx

pub record Transactions (Keypair Tx : Type 0) : Type 0 where
  pub tx_from_bytes : Bytes → Option Tx
  -- the transaction of the same message, with the keypair's signature
  pub sign_message : Tx → Keypair → Result Bytes

module _ {Keypair Hash Tx : Type 0} (lib : Solders Keypair Hash)
    (txs : Transactions Keypair Tx) where
  or_value_error : Option Tx → Result Tx
  or_value_error none = err (raised value_error (codes "failed to deserialize a transaction"))
  or_value_error (some tx) = ok tx

  unfoldable pub tx_of : Signable Tx → Result Tx
  unfolding or_value_error
  tx_of (given tx) = ok tx
  tx_of (raw_bytes bytes) = or_value_error (txs.tx_from_bytes bytes)

  unfoldable pub signed_with : Signable Tx → Result Keypair → Result Bytes
  unfolding tx_of
  signed_with unsigned_tx r = do keypair ← r; tx ← tx_of unsigned_tx; txs.sign_message tx keypair

  unfoldable pub sign_transaction : Signer Keypair → Signable Tx → Result Bytes × Signer Keypair
  unfolding signed_with
  sign_transaction s unsigned_tx =
      let (r, s') = next_keypair lib s in (signed_with unsigned_tx r, s')

module _ {Keypair Hash : Type 0} (lib : Solders Keypair Hash) where
  addresses : Result (List Keypair) → Result (List Pubkey)
  addresses (err e) = err e
  addresses (ok keypairs) = ok (map (λ k. lib.pubkey k) keypairs)

  one_address : Result Keypair → Result (List Pubkey)
  one_address (err e) = err e
  one_address (ok keypair) = ok (lib.pubkey keypair ∷ [])

  pubkeys_by : List KeypairFile → Signer Keypair → Result (List Pubkey) × Signer Keypair
  unfolding addresses one_address
  pubkeys_by [] s = let (r, s') = load lib s in (one_address r, s')
  pubkeys_by (path ∷ paths) s = let (r, s') = load_pool lib s in (addresses r, s')

  unfoldable pub pubkeys : Signer Keypair → Result (List Pubkey) × Signer Keypair
  unfolding pubkeys_by
  pubkeys s = pubkeys_by s.configured_paths s
