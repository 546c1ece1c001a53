-- ===== src/Examples/Streams.antt =====
-- Subscriptions, the decoder of the IDL, and the answers of a node.
use bagsvault.Base.{
  ℕ, ℤ, pos, Bool, true, false, List, [], ◌∷◌, ◌++◌, Option, none, some, Str, codes, ◌≡◌, ◌≢◌, refl,
  All, take, drop, replicate,
}
use bagsvault.Base.Base64.{b64encode}
use bagsvault.Base.Bytes.{from_le}
use bagsvault.Base.Hex.{to_hex}
use bagsvault.Json.{Json, null, str, arr, obj, cons, nil, Fields, field, end}
use bagsvault.Exceptions.{Result, ok}
use bagsvault.Solana.Instruction.{Bytes}
use bagsvault.Solana.Rpc.{response, send_transaction}
use bagsvault.Solana.Rpc.Methods.{
  get_health, get_slot, get_transaction, get_account_info, get_multiple_accounts,
  get_program_accounts, get_recent_blockhash, simulate_transaction, get_signature_statuses,
}
use bagsvault.Solana.Rpc.Errors.{IsUpstream, methods-IsUpstream}
use bagsvault.Solana.Ws.{
  Connection, Notification, listed, closed, failed, cancelled, reconnect_loop,
}
use bagsvault.Solana.Ws.Reconnect.{
  Uncancelled, items_in, pauses_in, all_items, pauses_from, reconnect_loop-resumes,
}
use bagsvault.Indexer.{MerkleRoot, Sources, State, decoded_by}
use bagsvault.Indexer.Stream.{Arrival, root_updates}
use bagsvault.Indexer.Skips.{states_only, root_updates-skips}
use bagsvault.Indexer.Found.{IsStored, root_updates-IsStored}
use bagsvault.Indexer.Account.{MerkleTreeState, serialize}
use bagsvault.Indexer.Decode64.{b64decode}
use bagsvault.Indexer.Anchor.{Member, scalar, Account, Decoder, Disk, new_decoder, decode_with_idl}
use bagsvault.Indexer.IdlState.{stored_entries, decoded_by-serialized}
use bagsvault.Examples.Gateway.{sources, unique, discriminator}

abbrev loads : Str → Result Json
loads s = ok (obj end)

abbrev note : Notification
note = record { to_json = some (ok (str (codes "{}"))); repr = codes "n"; is_true = true }

-- one that fails at once, one that gives an item, and one that is closed at once
abbrev connections : List Connection
connections =
    record { msgs = []; ending = failed; is_cancelled_after = false }
    ∷ record { msgs = listed (note ∷ []) ∷ []; ending = failed; is_cancelled_after = false }
    ∷ record { msgs = []; ending = closed; is_cancelled_after = false }
    ∷ []

goes_on : Uncancelled loads connections
unfolding bagsvault.Solana.Ws.open_stream bagsvault.Solana.Ws.give_items
    bagsvault.Solana.Ws.normalize_msg bagsvault.Solana.Ws.is_full bagsvault.Solana.Ws.to_dict
    bagsvault.Solana.Ws.dict_or_raw bagsvault.Solana.Ws.parsed
goes_on = ((λ e. cc), refl, ((λ e. cc), refl, ((λ e. cc), refl, tt)))

reconnect_loop-resumes_example :
    (items_in (reconnect_loop loads 1 connections).events ≡ all_items loads connections)
    × (pauses_in (reconnect_loop loads 1 connections).events ≡ pauses_from loads 0 connections)
    × ((reconnect_loop loads 1 connections).is_cancelled ≡ false)
reconnect_loop-resumes_example = reconnect_loop-resumes loads connections goes_on

abbrev account : Fields
account =
    field (codes "data") (arr (cons (str (codes "AA==")) (cons (str (codes "base64")) nil))) end

abbrev arrivals : List Arrival
arrivals =
    record { now = 1; notification = end }
    ∷ record { now = 2; notification = field (codes "result") (obj account) end }
    ∷ []

root_updates-skips_example :
    root_updates sources [] arrivals ≡ root_updates sources [] (states_only sources arrivals)
root_updates-skips_example = root_updates-skips sources [] arrivals

root_updates-IsStored_example :
    ((k : Str) (row : MerkleRoot)
      → sources.merkle_roots.find_one [] k ≡ some row
      → sources.merkle_roots.find_one (root_updates sources [] arrivals).store k ≡ some row)
    × All
        (IsStored sources unique (root_updates sources [] arrivals).store)
        (root_updates sources [] arrivals).roots
root_updates-IsStored_example = root_updates-IsStored sources unique [] arrivals

-- coders are numbers
abbrev disk : Disk ℕ
disk = record { exists = λ p. true; resolve = λ p. p; has_anchorpy = true; load = λ p. some 3 }

abbrev decoder : Decoder ℕ
decoder = new_decoder (λ k. none) (some (codes "idl.json"))

abbrev tree : MerkleTreeState
tree = record {
  authority = replicate 32 1;
  token_mint = replicate 32 0;
  denomination = 1000;
  commitment_count = 12;
  relayer_fee_bps = 30;
  root_cursor = 2;
  paused = 0;
  filled_subtrees = [];
  roots = [];
  bump = 255;
}

abbrev text : Str
text = b64encode (serialize discriminator tree)

is_text : b64decode text ≡ some (serialize discriminator tree)
unfolding b64decode b64encode serialize bagsvault.Indexer.Account.serialize_rest
    bagsvault.Base.Bytes.le_bytes
is_text = refl

abbrev members : Str → Member
members k = scalar null

abbrev decode : ℕ → Bytes → Option Account
decode c raw = some (record { is_dict = false; entries = stored_entries members })

abbrev truncate : Str → Result ℤ
truncate t = ok (pos 0)

abbrev by_idl : Sources (List MerkleRoot)
by_idl = record sources {
  decode_with_idl = λ b64. (decode_with_idl decode truncate disk decoder b64).1;
}

decoded_by-serialized_example :
    decoded_by by_idl text (by_idl.decode_with_idl text)
    ≡ ok (
        some (record {
          root_hex = to_hex (drop 5 (replicate 32 1) ++ take 5 (replicate 32 0));
          commitment_count = from_le (take 4 (drop 1 (replicate 32 1)));
        }))
decoded_by-serialized_example =
    decoded_by-serialized decode by_idl truncate disk decoder text discriminator tree false members
      is_text (λ c. refl) refl refl refl refl

methods-IsUpstream_example :
    IsUpstream (get_health (λ v. []) (response 200 none))
    × IsUpstream (get_slot (response 200 none))
    × IsUpstream (get_transaction (response 200 none))
    × IsUpstream (get_account_info (response 200 none))
    × IsUpstream (get_multiple_accounts (codes "k" ∷ []) (response 200 none))
    × IsUpstream (get_program_accounts (response 200 none))
    × IsUpstream (get_recent_blockhash (response 200 none))
    × IsUpstream (send_transaction (response 200 none))
    × IsUpstream (simulate_transaction (response 200 none))
    × IsUpstream (get_signature_statuses (codes "s" ∷ []) (response 200 none))
methods-IsUpstream_example =
    methods-IsUpstream (λ v. []) (codes "k" ∷ []) (codes "s" ∷ []) (response 200 none)
