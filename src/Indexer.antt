-- ===== src/Indexer.antt =====
-- backend/app/services/merkle_indexer.py: the cache of the tree's roots, filled from the on-chain account,
-- and `get_anonymity_set` of deposit_service.py, which reads it.
pub mod Decode64
pub mod Account
pub mod Sync
pub mod Stream
pub mod Skips
pub mod Found
pub mod Anchor
pub mod Loaded
pub mod IdlState
use bagsvault.Base.{
  ℕ, ℤ, pos, ◌+◌, Bool, true, false, List, [], ◌∷◌, Option, none, some, Str, codes, eq_str, ltb,
  is_empty, length, take, drop, replicate, map, if◌then◌else◌,
}
use bagsvault.Base.Bytes.{from_le}
use bagsvault.Base.Hex.{to_hex}
use bagsvault.Json.{Json, bool, num, str, arr, Items, nil, cons, Fields, get_field}
use bagsvault.Exceptions.{Exn, raised, other, Result, ok, err}
use bagsvault.Mongo.{Insert, inserted, duplicate, failed, Collection}
use bagsvault.Solana.Instruction.{Bytes, Pubkey}
use bagsvault.Solana.Keys.{Keys}
use bagsvault.Indexer.Decode64.{b64decode}

-- A row of `db.merkle_roots`. `root` is in hex.
pub record MerkleRoot : Type 0 where
  pub root : Str
  pub commitment_count : ℕ
  pub block_height : Option ℤ
  pub indexed_at : ℕ
  pub source : Str

-- What an account's data decodes to: the root in hex and the number of commitments.
pub record State : Type 0 where
  pub root_hex : Str
  pub commitment_count : ℕ

-- The bytes before the count: the discriminator and the bump.
abbrev pub count_offset : ℕ
count_offset = 8 + 1

abbrev pub header_len : ℕ
header_len = 8 + (1 + 4)

abbrev pub root_len : ℕ
root_len = 32

unfoldable pub decode_state : Bytes → Option State
decode_state raw =
    if ltb (length raw) (header_len + root_len)
    then none
    else some (record {
      root_hex = to_hex (take root_len (drop header_len raw));
      commitment_count = from_le (take 4 (drop count_offset raw));
    })

encoded_as : Str → Str → Option Str
unfolding eq_str
encoded_as encoded encoding = if eq_str encoding (codes "base64") then some encoded else none

-- `_extract_b64`
unfoldable pub extract_b64 : Option Json → Option Str
unfolding encoded_as
extract_b64 (some (arr (cons (str encoded) (cons (str encoding) rest)))) =
    encoded_as encoded encoding
extract_b64 _ = none

-- `rentEpoch`, if it is an `int`, which a Python `bool` is
unfoldable pub block_height_of : Option Json → Option ℤ
block_height_of (some (num z)) = some z
block_height_of (some (bool true)) = some (pos 1)
block_height_of (some (bool false)) = some (pos 0)
block_height_of _ = none

module _ (keys : Keys) (vault_token_mint : Str) where
  parsed_mint : Option Pubkey → Bytes
  parsed_mint none = replicate 32 0
  parsed_mint (some mint) = mint

  pool_mint : Bytes
  unfolding parsed_mint
  pool_mint =
      if is_empty vault_token_mint
      then replicate 32 0
      else parsed_mint (keys.from_string vault_token_mint)

  -- `_derive_merkle_pda`, with none where the program id does not parse
  unfoldable pub derive_merkle_pda : Str → Option Pubkey
  unfolding pool_mint
  derive_merkle_pda program_id_b58 = elim (keys.from_string program_id_b58) [
    | none ↦ none
    | some program_id ↦
        some (keys.find_program_address (codes "merkle_tree" ∷ pool_mint ∷ []) program_id)
  ]

-- The roots that are stored, the account that the RPC gives for an address, and the state that the
-- decoder of the IDL makes of the account's base64 text, where there is a decoder.
pub record Sources (M : Type 0) : Type 0 where
  pub keys : Keys
  pub bagsvault_program_id : Str
  pub vault_token_mint : Str
  pub get_account_info : Pubkey → Result (Option Fields)
  pub decode_with_idl : Str → Result (Option State)
  pub merkle_roots : Collection M MerkleRoot

unfoldable pub root_row : ℕ → Option Json → State → MerkleRoot
unfolding block_height_of
root_row now rent_epoch st = record {
  root = st.root_hex;
  commitment_count = st.commitment_count;
  block_height = block_height_of rent_epoch;
  indexed_at = now;
  source = codes "indexed";
}

module _ {M : Type 0} (sources : Sources M) where
  unfoldable pub or_row : MerkleRoot → Option MerkleRoot → MerkleRoot
  or_row row none = row
  or_row row (some existing) = existing

  -- A root that is there already is no error: the existing row is the answer.
  unfoldable pub recorded : M → MerkleRoot → Insert M → M × Result (Option MerkleRoot)
  unfolding or_row
  recorded m row (inserted m') = (m', ok (some row))
  recorded m row duplicate = (m, ok (some (or_row row (sources.merkle_roots.find_one m row.root))))
  recorded m row (failed message) = (m, err (raised other message))

  unfoldable pub store_state : ℕ → M → Option Json → Option State → M × Result (Option MerkleRoot)
  store_state now m rent_epoch none = (m, ok none)
  store_state now m rent_epoch (some st) =
      let row = root_row now rent_epoch st in recorded m row (sources.merkle_roots.insert_one m row)

  -- the layout decoder, on what base64 gives
  unfoldable pub decoded_by_layout : Option Bytes → Option State
  decoded_by_layout none = none
  decoded_by_layout (some raw) = decode_state raw

  -- the decoder of the IDL first, then the layout
  unfoldable pub decoded_by : Str → Result (Option State) → Result (Option State)
  unfolding decoded_by_layout b64decode
  decoded_by b64 (err e) = err e
  decoded_by b64 (ok (some st)) = ok (some st)
  decoded_by b64 (ok none) = ok (decoded_by_layout (b64decode b64))

  unfoldable pub store_decoded :
      ℕ → M → Option Json → Result (Option State) → M × Result (Option MerkleRoot)
  store_decoded now m rent_epoch (err e) = (m, err e)
  store_decoded now m rent_epoch (ok st) = store_state now m rent_epoch st

  unfoldable pub from_b64 : ℕ → M → Option Json → Option Str → M × Result (Option MerkleRoot)
  unfolding store_decoded
  from_b64 now m rent_epoch none = (m, ok none)
  from_b64 now m rent_epoch (some b64) =
      store_decoded now m rent_epoch (decoded_by b64 (sources.decode_with_idl b64))

  -- `_record_from_account`
  unfoldable pub record_from_account : ℕ → M → Fields → M × Result (Option MerkleRoot)
  unfolding from_b64 get_field
  record_from_account now m account =
      from_b64 now m (get_field (codes "rentEpoch") account)
        (extract_b64 (get_field (codes "data") account))

  unfoldable pub from_account : ℕ → M → Result (Option Fields) → M × Result (Option MerkleRoot)
  from_account now m (err e) = (m, err e)
  from_account now m (ok none) = (m, ok none)
  from_account now m (ok (some account)) = record_from_account now m account

  unfoldable pub at_pda : ℕ → M → Option Pubkey → M × Result (Option MerkleRoot)
  unfolding from_account
  at_pda now m none = (m, ok none)
  at_pda now m (some pda) = from_account now m (sources.get_account_info pda)

  unfoldable pub sync_now : ℕ → M → M × Result (Option MerkleRoot)
  unfolding at_pda
  sync_now now m =
      if is_empty sources.bagsvault_program_id
      then (m, ok none)
      else at_pda now m
          (derive_merkle_pda sources.keys sources.vault_token_mint sources.bagsvault_program_id)
