-- ===== src/DepositTx/Claim.antt =====
-- backend/app/services/claim_to_deposit_service.py, and what it uses of bags_service.py: the claim
-- transactions of Bags, followed by a deposit.
use bagsvault.Base.{List, [], ◌∷◌, Option, none, some, Str, codes}
use bagsvault.Json.{
  Json, null, bool, num, float, str, arr, obj, Items, nil, cons, Fields, get_field, text_of,
}
use bagsvault.Exceptions.{domain, service_unavailable, Result, ok, err, ◌>>=◌}
use bagsvault.Solana.Instruction.{Pubkey, Instruction}
use bagsvault.DepositTx.{Outside, configured, decode_pubkey, hex_to_bytes32, build_deposit_ix}

-- `_coerce_list`
unfoldable pub coerce_list : Json → Items
coerce_list (arr xs) = xs
coerce_list null = nil
coerce_list (bool b) = cons (bool b) nil
coerce_list (num z) = cons (num z) nil
coerce_list (float t) = cons (float t) nil
coerce_list (str s) = cons (str s) nil
coerce_list (obj fs) = cons (obj fs) nil

-- [str(item) for item in items if item is not None]
unfoldable pub texts : (Json → Str) → Items → List Str
unfolding text_of
texts show nil = []
texts show (cons null xs) = texts show xs
texts show (cons (bool b) xs) = text_of show (bool b) ∷ texts show xs
texts show (cons (num z) xs) = text_of show (num z) ∷ texts show xs
texts show (cons (float t) xs) = text_of show (float t) ∷ texts show xs
texts show (cons (str s) xs) = text_of show (str s) ∷ texts show xs
texts show (cons (arr ys) xs) = text_of show (arr ys) ∷ texts show xs
texts show (cons (obj fs) xs) = text_of show (obj fs) ∷ texts show xs

-- the first of the keys that is there, also with null
unfoldable pub first_present : List Str → Fields → Option Json
unfolding get_field
first_present [] raw = none
first_present (key ∷ keys) raw =
    let rest = first_present keys raw in elim (get_field key raw) [ none ↦ rest | some v ↦ some v ]

single_tx : Option Json → List Str
single_tx (some (str s)) = s ∷ []
single_tx _ = []

listed_or_single : (Json → Str) → Fields → Option Json → List Str
unfolding texts coerce_list single_tx get_field
listed_or_single show raw (some v) = texts show (coerce_list v)
listed_or_single show raw none = single_tx (get_field (codes "transaction") raw)

-- `_extract_unsigned_txs`
unfoldable pub extract_unsigned_txs : (Json → Str) → Fields → List Str
unfolding listed_or_single first_present
extract_unsigned_txs show raw = listed_or_single show raw (
    first_present
      (codes "transactions"
        ∷ codes "txs"
        ∷ codes "unsignedTransactions"
        ∷ codes "unsigned_transactions"
        ∷ [])
      raw)

unfoldable pub some_txs : List Str → Result (List Str)
some_txs [] = err (
    domain service_unavailable
      (codes "Bags claim response did not include any unsigned transactions."))
some_txs (tx ∷ txs) = ok (tx ∷ txs)

pub record ClaimChain : Type 0 where
  pub claim_txs : List Str
  pub deposit_tx : Str
  pub claim_raw : Fields
  pub deposit_program_id : Pubkey
  pub deposit_token_mint : Pubkey
  pub creator_wallet : Pubkey
  -- the instruction that `deposit_tx` carries
  pub deposit : Instruction

module _ (o : Outside) (show : Json → Str) where
  -- `ClaimToDepositService.build_chain`
  unfoldable pub build_claim_chain : Str → Str → Str → Result ClaimChain
  unfolding configured extract_unsigned_txs some_txs
  build_claim_chain creator_wallet token_mint commitment_hex = do
    _ ← configured o.bagsvault_program_id
    program_id ← decode_pubkey o.keys o.bagsvault_program_id (codes "BAGSVAULT_PROGRAM_ID")
    creator_pubkey ← decode_pubkey o.keys creator_wallet (codes "creator_wallet")
    token_mint_pubkey ← decode_pubkey o.keys token_mint (codes "token_mint")
    commitment ← hex_to_bytes32 commitment_hex (codes "commitment_hex")
    claim_raw ← o.build_claim_tx creator_wallet token_mint
    claim_txs ← some_txs (extract_unsigned_txs show claim_raw)
    deposit_ix ← build_deposit_ix o.keys program_id token_mint_pubkey creator_pubkey commitment
    deposit_tx ← o.serialize_unsigned deposit_ix creator_pubkey
    ok (record {
      claim_txs = claim_txs;
      deposit_tx = deposit_tx;
      claim_raw = claim_raw;
      deposit_program_id = program_id;
      deposit_token_mint = token_mint_pubkey;
      creator_wallet = creator_pubkey;
      deposit = deposit_ix;
    })
