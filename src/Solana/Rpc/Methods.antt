-- ===== src/Solana/Rpc/Methods.antt =====
-- The methods of `SolanaRpcClient`: what each makes of the result of its call.
use bagsvault.Base.{
  ℕ, ℤ, pos, true, false, List, [], ◌∷◌, Str, codes, Option, none, some, length, replicate,
}
use bagsvault.Json.{
  Json, null, bool, num, float, str, arr, obj, Items, nil, cons, Fields, end, field, get_field,
  or_else, text_of,
}
use bagsvault.Exceptions.{domain, upstream, Result, ok, err, ◌>>=◌}
use bagsvault.Solana.Rpc.{Post, call}

-- `isinstance(v, int)`, which a `bool` is
abbrev pub as_int : Option Json → Option ℤ
as_int (some (num z)) = some z
as_int (some (bool true)) = some (pos 1)
as_int (some (bool false)) = some (pos 0)
as_int _ = none

unfoldable pub health_of : (Json → Str) → Json → Str
unfolding text_of
health_of show null = []
health_of show (bool b) = text_of show (bool b)
health_of show (num z) = text_of show (num z)
health_of show (float t) = text_of show (float t)
health_of show (str s) = text_of show (str s)
health_of show (arr xs) = text_of show (arr xs)
health_of show (obj fs) = text_of show (obj fs)

unfoldable pub get_health : (Json → Str) → Post → Result Str
unfolding call health_of
get_health show post = do result ← call post; ok (health_of show result)

unfoldable pub slot_of : Option ℤ → Result ℤ
slot_of none = err (domain upstream (codes "Solana RPC getSlot returned non-integer result."))
slot_of (some z) = ok z

unfoldable pub get_slot : Post → Result ℤ
unfolding call slot_of
get_slot post = do result ← call post; slot_of (as_int (some result))

unfoldable pub transaction_of : Json → Result (Option Fields)
transaction_of null = ok none
transaction_of (obj fs) = ok (some fs)
transaction_of _ =
    err (domain upstream (codes "Solana RPC getTransaction returned non-dict result."))

unfoldable pub get_transaction : Post → Result (Option Fields)
unfolding call transaction_of
get_transaction post = do result ← call post; transaction_of result

unfoldable pub account_of : Option Json → Result (Option Fields)
account_of none = ok none
account_of (some null) = ok none
account_of (some (obj fs)) = ok (some fs)
account_of (some _) =
    err (domain upstream (codes "Solana RPC getAccountInfo returned non-dict value."))

unfoldable pub account_in : Json → Result (Option Fields)
unfolding account_of get_field
account_in (obj fs) = account_of (get_field (codes "value") fs)
account_in _ = ok none

unfoldable pub get_account_info : Post → Result (Option Fields)
unfolding call account_in
get_account_info post = do result ← call post; account_in result

-- each entry, where what is no dictionary is none
unfoldable pub normalized : Items → List (Option Fields)
normalized nil = []
normalized (cons (obj fs) vs) = some fs ∷ normalized vs
normalized (cons null vs) = none ∷ normalized vs
normalized (cons (bool b) vs) = none ∷ normalized vs
normalized (cons (num z) vs) = none ∷ normalized vs
normalized (cons (float t) vs) = none ∷ normalized vs
normalized (cons (str s) vs) = none ∷ normalized vs
normalized (cons (arr xs) vs) = none ∷ normalized vs

-- `values`, where what is false is an empty list
unfoldable pub values_of : Str → Option Json → Result (List (Option Fields))
unfolding normalized
values_of message (some (arr vs)) = ok (normalized vs)
values_of message _ = err (domain upstream message)

-- one entry for each of the keys where there is no dictionary
unfoldable pub entries_in : Str → ℕ → Json → Result (List (Option Fields))
unfolding values_of or_else get_field
entries_in message n (obj fs) =
    values_of message (or_else (get_field (codes "value") fs) (some (arr nil)))
entries_in message n _ = ok (replicate n none)

unfoldable pub get_multiple_accounts : List Str → Post → Result (List (Option Fields))
unfolding call entries_in
get_multiple_accounts pubkeys_b58 post = do
  result ← call post
  entries_in (codes "Solana RPC getMultipleAccounts returned non-list value.") (length pubkeys_b58)
      result

unfoldable pub get_signature_statuses : List Str → Post → Result (List (Option Fields))
unfolding call entries_in
get_signature_statuses signatures post = do
  result ← call post
  entries_in (codes "Solana RPC getSignatureStatuses returned non-list value.") (length signatures)
      result

-- the dictionaries of a list
unfoldable pub only_dicts : Items → List Fields
only_dicts nil = []
only_dicts (cons (obj fs) vs) = fs ∷ only_dicts vs
only_dicts (cons null vs) = only_dicts vs
only_dicts (cons (bool b) vs) = only_dicts vs
only_dicts (cons (num z) vs) = only_dicts vs
only_dicts (cons (float t) vs) = only_dicts vs
only_dicts (cons (str s) vs) = only_dicts vs
only_dicts (cons (arr xs) vs) = only_dicts vs

unfoldable pub program_accounts_of : Json → List Fields
unfolding only_dicts
program_accounts_of (arr vs) = only_dicts vs
program_accounts_of _ = []

unfoldable pub get_program_accounts : Post → Result (List Fields)
unfolding call program_accounts_of
get_program_accounts post = do result ← call post; ok (program_accounts_of result)

unfoldable pub dict_or : Str → Json → Result Fields
dict_or message (obj inner) = ok inner
dict_or message _ = err (domain upstream message)

unfoldable pub value_in : Str → Option Json → Result Fields
unfolding dict_or
value_in message none = err (domain upstream message)
value_in message (some v) = dict_or message v

-- `result.get("value")` where both are dictionaries
unfoldable pub dict_in : Str → Str → Json → Result Fields
unfolding value_in get_field
dict_in no_result no_value (obj fs) = value_in no_value (get_field (codes "value") fs)
dict_in no_result no_value _ = err (domain upstream no_result)

unfoldable pub blockhash_of : Option Json → Option ℤ → Result Fields
blockhash_of (some (str blockhash)) (some last_valid) = ok (
    field (codes "blockhash") (str blockhash)
      (field (codes "lastValidBlockHeight") (num last_valid) end))
blockhash_of _ _ =
    err (domain upstream (codes "Solana RPC getLatestBlockhash returned malformed value."))

unfoldable pub get_recent_blockhash : Post → Result Fields
unfolding call dict_in blockhash_of get_field
get_recent_blockhash post = do
  result ← call post
  value ←
      dict_in (codes "Solana RPC getLatestBlockhash returned non-dict result.")
        (codes "Solana RPC getLatestBlockhash returned non-dict value.") result
  blockhash_of (get_field (codes "blockhash") value)
      (as_int (get_field (codes "lastValidBlockHeight") value))

unfoldable pub simulate_transaction : Post → Result Fields
unfolding call dict_in
simulate_transaction post = do
  result ← call post
  dict_in (codes "Solana RPC simulateTransaction returned non-dict result.")
      (codes "Solana RPC simulateTransaction returned non-dict value.") result
