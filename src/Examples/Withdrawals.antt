-- ===== src/Examples/Withdrawals.antt =====
-- Withdrawals: the instruction and the relay.
use bagsvault.Base.{
  ℕ, ◌^◌, Bool, true, false, List, [], ◌∷◌, ◌++◌, Option, none, some, Str, codes, ◌≡◌, refl, ◌⊎◌,
  replicate, length, lower, starts_with, arith,
}
use bagsvault.Base.Hex.{pad32}
use bagsvault.Json.{str}
use bagsvault.Exceptions.{domain, conflict, Result, ok, err}
use bagsvault.Mongo.Table.{table, table-Laws, find, insert}
use bagsvault.Solana.Instruction.{Instruction}
use bagsvault.Solana.Keys.{sighash}
use bagsvault.Withdraw.{WithdrawArgs, build_withdraw_ix_for_pool}
use bagsvault.Withdraw.Relay.{
  Request, Withdrawal, Settings, Picked, Chain, Response, Prepared, prepare,
}
use bagsvault.Withdraw.Relay.Pipeline.{World, Services, Fresh, withdrawal, relay}
use bagsvault.Withdraw.Relay.Guard.{nullifier_of, Succeeded, relay-ok, relay-err}
use bagsvault.Withdraw.Relay.Twice.{Later, before, relay_all, Raised, relay_twice}
use bagsvault.Withdraw.Relay.Respelled.{respelled, relay-respelled}
use bagsvault.Withdraw.Layout.{handler_name, read_args, build-read}
use bagsvault.Examples.Fixtures.{ok_or, keys, keys_HaveLength, one_key}

abbrev chain : Chain
chain = record {
  executor = none;
  get_recent_blockhash = ok (str (codes "h"));
  pubkey_obj = ok one_key;
  build_and_sign = λ ixs hash payer. ok [];
  send_transaction = λ b64. ok (codes "sig");
}

abbrev services : Services (List Withdrawal) ℕ
services = record {
  keys = keys;
  settings = record {
    bagsvault_program_id = codes "P";
    vault_token_mint = [];
    relayer_fee_bps = 30;
  };
  chain = chain;
  rows = table nullifier_of;
  pick_best = λ r token. ok (record { relayer_id = codes "r"; fee_bps = none });
  update_last_seen = λ r id now. some now;
}

abbrev request : Request
request = record {
  proof = codes "01";
  root = codes "02";
  nullifier_hash = codes "ab";
  recipient = codes "R";
  amount = 5;
  token = codes "SOL";
}

abbrev empty : World (List Withdrawal) ℕ
empty = record { withdrawals = []; relayers = 0; submitted = [] }

abbrev fresh : Fresh
fresh = record { id = codes "1"; now = 9 }

abbrev after : World (List Withdrawal) ℕ
after = (relay services empty fresh request).0

abbrev answer : Response
answer = record { signature = codes "sig"; status = codes "submitted"; fee_bps = 30 }

abbrev prepared : Result Prepared
prepared = prepare keys services.settings chain (services.pick_best 0 request.token) none request

abbrev no_ix : Instruction
no_ix = record { program_id = []; accounts = []; body = [] }

abbrev accepted : Prepared
accepted = ok_or (record { ix = no_ix; payer = []; relayer_id = []; active_fee_bps = 0 }) prepared

answers : relay services empty fresh request ≡ (after, ok answer)
unfolding relay bagsvault.Withdraw.Relay.Pipeline.proceed find
    bagsvault.Withdraw.Relay.Pipeline.finish bagsvault.Withdraw.Relay.Pipeline.handed
    bagsvault.Withdraw.Relay.broadcast bagsvault.Withdraw.Relay.wrapped
    bagsvault.Solana.Executor.coerce_blockhash bagsvault.Base.Base64.b64encode
    bagsvault.Json.get_field bagsvault.Withdraw.hex_to_bytes bagsvault.Base.Hex.unhexlify
    bagsvault.Withdraw.cleaned starts_with lower bagsvault.Base.Hex.digit_value
    bagsvault.Base.Hex.pad32 bagsvault.Base.Hex.with_byte bagsvault.Base.to_lower
    bagsvault.Base.eq_str bagsvault.Withdraw.decode_recipient bagsvault.Withdraw.resolve_token_mint
    build_withdraw_ix_for_pool bagsvault.Withdraw.build_withdraw_ix bagsvault.Withdraw.ix_data
    bagsvault.Withdraw.to_bytes_le bagsvault.Base.Bytes.le_bytes bagsvault.Withdraw.derive_pdas
    sighash keys bagsvault.Withdraw.Relay.configured_program bagsvault.Withdraw.Relay.unspent
    prepare
answers = refl

relay-ok_example : Succeeded services empty fresh request after answer
relay-ok_example = relay-ok services empty after fresh request answer answers

refused :
    relay services after fresh request
    ≡ (after, err (domain conflict (codes "Nullifier already spent.")))
unfolding relay bagsvault.Withdraw.Relay.Pipeline.proceed find
    bagsvault.Withdraw.Relay.Pipeline.finish insert bagsvault.Withdraw.Relay.Pipeline.persisted
    bagsvault.Withdraw.Relay.Pipeline.withdrawal bagsvault.Withdraw.Relay.Pipeline.handed
    bagsvault.Withdraw.Relay.broadcast bagsvault.Withdraw.Relay.wrapped
    bagsvault.Solana.Executor.coerce_blockhash bagsvault.Base.Base64.b64encode
    bagsvault.Json.get_field bagsvault.Withdraw.hex_to_bytes bagsvault.Base.Hex.unhexlify
    bagsvault.Withdraw.cleaned starts_with lower bagsvault.Base.Hex.digit_value
    bagsvault.Base.Hex.pad32 bagsvault.Base.Hex.with_byte bagsvault.Base.to_lower
    bagsvault.Base.eq_str bagsvault.Withdraw.decode_recipient bagsvault.Withdraw.resolve_token_mint
    build_withdraw_ix_for_pool bagsvault.Withdraw.build_withdraw_ix bagsvault.Withdraw.ix_data
    bagsvault.Withdraw.to_bytes_le bagsvault.Base.Bytes.le_bytes bagsvault.Withdraw.derive_pdas
    sighash keys bagsvault.Withdraw.Relay.configured_program bagsvault.Withdraw.Relay.unspent
    prepare
refused = refl

relay-err_example : (after.withdrawals ≡ after.withdrawals) × (after.relayers ≡ after.relayers)
relay-err_example =
    relay-err services after after fresh request
      (domain conflict (codes "Nullifier already spent.")) refused

abbrev another : List Later
another =
    record {
      chain = chain;
      fresh = fresh;
      request = record {
        proof = codes "01";
        root = codes "02";
        nullifier_hash = codes "cd";
        recipient = codes "R";
        amount = 7;
        token = codes "SOL";
      };
    }
    ∷ []

relay_twice_example :
    ((p : Prepared) × (prepared ≡ ok p)
      × Raised (services.rows.insert_one [] (withdrawal fresh request p (codes "sig")))
      × (after.withdrawals ≡ empty.withdrawals))
    ⊎ (relay (before services chain) (relay_all services after another) fresh request ≡ (
      relay_all services after another,
      err (domain conflict (codes "Nullifier already spent.")),
    ))
unfolding find
relay_twice_example =
    relay_twice services (table-Laws nullifier_of) empty after fresh fresh request request answer
      another chain answers refl

is_prepared : prepared ≡ ok accepted
unfolding bagsvault.Withdraw.hex_to_bytes bagsvault.Base.Hex.unhexlify bagsvault.Withdraw.cleaned
    starts_with lower bagsvault.Base.Hex.digit_value bagsvault.Base.Hex.pad32
    bagsvault.Base.Hex.with_byte bagsvault.Base.to_lower bagsvault.Base.eq_str
    bagsvault.Withdraw.decode_recipient bagsvault.Withdraw.resolve_token_mint
    build_withdraw_ix_for_pool bagsvault.Withdraw.build_withdraw_ix bagsvault.Withdraw.ix_data
    bagsvault.Withdraw.to_bytes_le bagsvault.Base.Bytes.le_bytes bagsvault.Withdraw.derive_pdas
    sighash keys bagsvault.Withdraw.Relay.configured_program bagsvault.Withdraw.Relay.unspent
    prepare
is_prepared = refl

abbrev stored : Withdrawal
stored = record {
  id = [];
  nullifier_hash = codes "ab";
  recipient = [];
  amount = 0;
  token = [];
  relayer_id = [];
  tx_signature = [];
  created_at = 0;
}

abbrev with_row : World (List Withdrawal) ℕ
with_row = record { withdrawals = stored ∷ []; relayers = 0; submitted = [] }

no_prefix : starts_with (codes "0x") (lower request.nullifier_hash) ≡ false
unfolding starts_with lower
no_prefix = refl

found_plain : find nullifier_of (stored ∷ []) request.nullifier_hash ≡ some stored
unfolding find bagsvault.Base.eq_str
found_plain = refl

missing_prefixed : find nullifier_of (stored ∷ []) (codes "0x" ++ request.nullifier_hash) ≡ none
unfolding find bagsvault.Base.eq_str
missing_prefixed = refl

relay-respelled_example :
    (relay services with_row fresh (respelled request)).0.submitted ≡ accepted.ix ∷ []
relay-respelled_example =
    relay-respelled services with_row fresh request accepted stored no_prefix found_plain
      missing_prefixed is_prepared

abbrev args : WithdrawArgs
args = record {
  program_id = one_key;
  token_mint = one_key;
  recipient = one_key;
  relayer = one_key;
  proof_bytes = 1 ∷ 2 ∷ [];
  root_bytes = 3 ∷ [];
  nullifier_bytes = 4 ∷ [];
  amount = 500;
}

abbrev built : Instruction
built = ok_or no_ix (build_withdraw_ix_for_pool keys args)

is_built : build_withdraw_ix_for_pool keys args ≡ ok built
unfolding build_withdraw_ix_for_pool bagsvault.Withdraw.build_withdraw_ix
    bagsvault.Withdraw.build_withdraw_spl_ix bagsvault.Withdraw.ix_data
    bagsvault.Withdraw.to_bytes_le bagsvault.Base.eq_str
is_built = refl

build-read_example : read_args built.body ≡ record {
  discriminator = sighash keys (handler_name one_key);
  proof = 1 ∷ 2 ∷ [];
  root = pad32 (3 ∷ []);
  nullifier_hash = pad32 (4 ∷ []);
  recipient = one_key;
  amount = 500;
  rest = [];
}
build-read_example = build-read keys args built keys_HaveLength refl is_built
