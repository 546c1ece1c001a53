-- ===== src/Indexer/Stream.antt =====
-- The rest of backend/app/services/merkle_indexer.py: roots from the notifications of a subscription, the
-- cached roots, and the state in a dictionary that the decoder of the IDL gives.
use bagsvault.Base.{
  ℕ, zero, suc, ℤ, pos, negsuc, Bool, true, false, List, [], ◌∷◌, Option, none, some, Str, codes,
  eq_str, is_empty, take, lower, remove_prefix, if◌then◌else◌,
}
use bagsvault.Base.Hex.{to_hex}
use bagsvault.Base.Decimal.{parse_int}
use bagsvault.Json.Int.{or_value_error, int, all_ints, bytes_of_ints}
use bagsvault.Json.{Json, null, bool, num, float, str, arr, obj, cons, Fields, get_field, as_obj}
use bagsvault.Exceptions.{Exn, is_type_or_value, Result, ok, err, ◌>>=◌}
use bagsvault.Solana.Instruction.{Bytes, Pubkey}
use bagsvault.Indexer.{MerkleRoot, State, Sources, derive_merkle_pda, record_from_account}

-- whether `data` is a list of two or more
unfoldable pub has_data : Option Json → Bool
has_data (some (arr (cons a (cons b rest)))) = true
has_data _ = false

abbrev pub field_obj : Str → Option Fields → Option Fields
unfolding get_field
field_obj k none = none
field_obj k (some fs) = as_obj (get_field k fs)

-- a candidate that is there
abbrev and_then : Option Fields → List Fields → List Fields
and_then none rest = rest
and_then (some fs) rest = fs ∷ rest

-- `candidates`
unfoldable pub candidates : Fields → List Fields
unfolding field_obj
candidates notification =
    let result = field_obj (codes "result") (some notification) in
    let value = field_obj (codes "value") result in
    let inner_result =
      field_obj (codes "result") (field_obj (codes "params") (some notification)) in
    notification
    ∷ and_then result (
        and_then value (
          and_then (field_obj (codes "account") value)
            (and_then inner_result (and_then (field_obj (codes "value") inner_result) []))))

unfoldable pub first_with_data : List Fields → Option Fields
unfolding has_data get_field
first_with_data [] = none
first_with_data (candidate ∷ rest) =
    let found = first_with_data rest in
    if has_data (get_field (codes "data") candidate) then some candidate else found

-- `_extract_account_from_notification`
unfoldable pub extract_account_from_notification : Fields → Option Fields
unfolding candidates first_with_data
extract_account_from_notification notification = first_with_data (candidates notification)

-- A notification, and the time at which it is recorded.
pub record Arrival : Type 0 where
  pub now : ℕ
  pub notification : Fields

-- The store after a stream, the roots that it gave, and the exception that ended it.
pub record Stream (M : Type 0) : Type 0 where
  pub store : M
  pub roots : List MerkleRoot
  pub ended_by : Option Exn

module _ {M : Type 0} where
  abbrev pub ended : M → Option Exn → Stream M
  ended m e = record { store = m; roots = []; ended_by = e }

  abbrev pub and_root : MerkleRoot → Stream M → Stream M
  and_root row s = record s { roots = row ∷ s.roots }

module _ {M : Type 0} (sources : Sources M) where
  -- one notification: the store after it, and the row to be given
  unfoldable pub take_notification : ℕ → M → Option Fields → M × Result (Option MerkleRoot)
  take_notification now m none = (m, ok none)
  take_notification now m (some account) = record_from_account sources now m account

  -- the rest of the stream follows, unless an exception ends it
  unfoldable pub updates_after : (M → Stream M) → M × Result (Option MerkleRoot) → Stream M
  updates_after rest (m, err e) = ended m (some e)
  updates_after rest (m, ok none) = rest m
  updates_after rest (m, ok (some row)) = and_root row (rest m)

  -- the loop of `subscribe_root_updates`
  unfoldable pub root_updates : M → List Arrival → Stream M
  unfolding take_notification extract_account_from_notification updates_after
  root_updates m [] = ended m none
  root_updates m (a ∷ as') =
      updates_after (λ m'. root_updates m' as')
        (take_notification a.now m (extract_account_from_notification a.notification))

  updates_of : M → Option (List Arrival) → Stream M
  unfolding root_updates
  updates_of m none = ended m none
  updates_of m (some arrivals) = root_updates m arrivals

  -- what a subscription of the address gives
  at_address : (Pubkey → List Arrival) → Option Pubkey → Option (List Arrival)
  at_address arrivals none = none
  at_address arrivals (some pda) = some (arrivals pda)

  -- `subscribe_root_updates`
  unfoldable pub subscribe_root_updates : M → (Pubkey → List Arrival) → Stream M
  unfolding updates_of at_address
  subscribe_root_updates m arrivals =
      if is_empty sources.bagsvault_program_id
      then ended m none
      else updates_of m (
          at_address arrivals
            (derive_merkle_pda sources.keys sources.vault_token_mint sources.bagsvault_program_id))

-- `find({}).sort("indexed_at", -1)`, for the store.
pub record Newest (M : Type 0) : Type 0 where
  pub newest_first : M → List MerkleRoot

module _ {M : Type 0} (cache : Newest M) where
  -- a limit of 0 is none
  unfoldable pub get_recent_roots : M → ℕ → List MerkleRoot
  get_recent_roots m zero = cache.newest_first m
  get_recent_roots m (suc n) = take (suc n) (cache.newest_first m)

  abbrev first_row : List MerkleRoot → Option MerkleRoot
  first_row [] = none
  first_row (row ∷ rows) = some row

  -- `find_one` with the same order
  unfoldable pub get_current_root : M → Option MerkleRoot
  get_current_root m = first_row (cache.newest_first m)

-- A value that an account's decoder gives.
pub data Value : Type 0 where
  bytes : Bytes → Value
  plain : Json → Value

-- A decoded account: its keys in order.
pub data Decoded : Type 0 where
  end : Decoded
  entry : Str → Value → Decoded → Decoded

unfoldable pub find_value : Str → Decoded → Option Value
find_value k end = none
find_value k (entry j v d) = let rest = find_value k d in if eq_str j k then some v else rest

-- the value at the first of the keys that is there
unfoldable pub first_value : List Str → Decoded → Option Value
unfolding find_value
first_value [] d = none
first_value (k ∷ ks) d =
    let rest = first_value ks d in elim (find_value k d) [ none ↦ rest | some v ↦ some v ]

abbrev pub root_keys : List Str
root_keys = codes "root" ∷ codes "current_root" ∷ codes "currentRoot" ∷ []

abbrev pub count_keys : List Str
count_keys =
    codes "commitment_count"
    ∷ codes "commitmentCount"
    ∷ codes "next_index"
    ∷ codes "nextIndex"
    ∷ codes "leaf_count"
    ∷ []

hex_of_ints : Option (List ℤ) → Result (Option Str)
hex_of_ints none = ok none
hex_of_ints (some zs) = do bs ← bytes_of_ints zs; ok (some (to_hex bs))

-- `root_hex`, or none for a root that is not there or of another kind
unfoldable pub root_hex_of : Option Value → Result (Option Str)
unfolding hex_of_ints lower remove_prefix
root_hex_of none = ok none
root_hex_of (some (bytes bs)) = ok (some (to_hex bs))
root_hex_of (some (plain (str s))) = ok (some (remove_prefix (codes "0x") (lower s)))
root_hex_of (some (plain (arr vs))) = hex_of_ints (all_ints vs)
root_hex_of (some (plain null)) = ok none
root_hex_of (some (plain (bool b))) = ok none
root_hex_of (some (plain (num z))) = ok none
root_hex_of (some (plain (float t))) = ok none
root_hex_of (some (plain (obj fs))) = ok none

unfoldable pub not_negative : Result ℤ → Result ℕ
not_negative (ok (pos n)) = ok n
not_negative (ok (negsuc n)) = ok 0
not_negative (err e) = if is_type_or_value e then ok 0 else err e

module _ (truncate : Str → Result ℤ) where
  unfoldable pub count_of : Option Value → Result ℕ
  unfolding not_negative
  count_of none = ok 0
  count_of (some (bytes bs)) = not_negative (or_value_error (parse_int bs))
  count_of (some (plain v)) = not_negative (int truncate v)

  state_with : Decoded → Option Str → Result (Option State)
  unfolding count_of first_value
  state_with decoded none = ok none
  state_with decoded (some root_hex) = do
    commitment_count ← count_of (first_value count_keys decoded)
    ok (some (record { root_hex = root_hex; commitment_count = commitment_count }))

  -- `_state_from_decoded_dict`
  unfoldable pub state_from_decoded_dict : Decoded → Result (Option State)
  unfolding state_with root_hex_of first_value
  state_from_decoded_dict decoded = do
    root_hex ← root_hex_of (first_value root_keys decoded)
    state_with decoded root_hex
