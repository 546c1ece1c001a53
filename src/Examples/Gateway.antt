-- ===== src/Examples/Gateway.antt =====
-- The idempotency keys, the indexer and the unsigned deposits.
use bagsvault.Base.{
  ℕ, suc, ◌+◌, ◌^◌, ◌<◌, ◌≤◌, Bool, true, false, List, [], ◌∷◌, ◌++◌, Option, none, some, Str,
  codes, ◌≡◌, ◌⊎◌, refl, replicate, lower, eq_str, arith,
}
use bagsvault.Base.Bytes.{le_bytes}
use bagsvault.Base.Hex.{to_hex}
use bagsvault.Json.{str, arr, cons, nil, field, end}
use bagsvault.Exceptions.{Result, ok}
use bagsvault.Mongo.{inserted}
use bagsvault.Mongo.Table.{table, table-Laws, table_refuses, table_has, find, insert}
use bagsvault.Solana.Instruction.{Bytes}
use bagsvault.Idempotency.{
  Request, Response, Record, App, World, record_of, dispatch, is_idempotent,
}
use bagsvault.Idempotency.Kept.{key_of, Timed, dispatch_all}
use bagsvault.Idempotency.Replay.{AreDistinct, IsComplete, dispatch_replay}
use bagsvault.Indexer.{MerkleRoot, State, Sources, decode_state, sync_now}
use bagsvault.Indexer.Account.{decode_state-documented}
use bagsvault.Indexer.Sync.{root_of, Unique, sync_now_twice}
use bagsvault.DepositTx.Builder.{Chain, Unsigned, build_unsigned_tx}
use bagsvault.Examples.Fixtures.{keys, ok_or}

abbrev raw : Response
raw = record {
  status_code = 201;
  headers =
      record { name = codes "content-length"; value = codes "2" }
      ∷ record { name = codes "content-type"; value = codes "application/json" }
      ∷ [];
  body = codes "{}";
  media_type = none;
}

-- the application counts its runs
abbrev app : App (List Record) ℕ
app = record {
  idempotency_keys = table key_of;
  hash_body = λ body. body;
  rerender = λ body. some (ok body);
  init_headers = λ media_type status_code body headers. headers;
  call_next = λ n q. (suc n, ok raw);
}

abbrev request : Request
request = record {
  method = codes "POST";
  path = codes "/a";
  key = some (codes "k");
  body = codes "b";
}

abbrev elsewhere : Request
elsewhere = record request { method = codes "PUT"; path = codes "/b" }

abbrev before : World (List Record) ℕ
before = record { rows = []; inner = 0 }

abbrev row : Record
row = record_of app 5 request (codes "k") raw

abbrev after : World (List Record) ℕ
after = record { rows = row ∷ []; inner = 1 }

unsafe_request : is_idempotent request.method ≡ true
unfolding is_idempotent
unsafe_request = refl

unsafe_elsewhere : is_idempotent elsewhere.method ≡ true
unfolding is_idempotent
unsafe_elsewhere = refl

is_new : find key_of [] (codes "k") ≡ none
unfolding find
is_new = refl

is_stored : insert key_of [] row ≡ inserted (row ∷ [])
unfolding insert find
is_stored = refl

two_headers : AreDistinct raw.headers []
unfolding bagsvault.Idempotency.has_name bagsvault.Idempotency.set_header eq_str
two_headers = (refl, (refl, tt))

complete : IsComplete raw.headers
unfolding bagsvault.Idempotency.has_name eq_str lower bagsvault.Base.to_lower
complete = (refl, refl, refl)

same_body : (b : Result Bytes) → some (ok raw.body) ≡ some b → b ≡ ok raw.body
same_body b h = cc

abbrev others : List Timed
others = record { now = 7; request = elsewhere } ∷ []

dispatch_replay_example :
    (dispatch app 5 before request ≡ (after, ok raw))
    × (r : Response) × (dispatch app 8 (dispatch_all app after others) elsewhere
        ≡ (dispatch_all app after others, ok r))
    × (r.status_code ≡ 201)
    × (r.headers ≡ raw.headers)
    × (r.body ≡ codes "{}")
dispatch_replay_example =
    dispatch_replay app (λ media_type status_code body hs h. refl) (table-Laws key_of) 5 8 before
      request elsewhere (codes "k") 1 raw (row ∷ []) others (unsafe_request, refl, refl) is_new refl
      two_headers complete same_body is_stored (unsafe_elsewhere, refl, refl) refl

abbrev pub discriminator : Bytes
discriminator = replicate 8 5

abbrev root : Bytes
root = replicate 32 6

decode_state-documented_example :
    decode_state (discriminator ++ (le_bytes 1 255 ++ (le_bytes 4 300 ++ (root ++ []))))
    ≡ some (record { root_hex = to_hex root; commitment_count = 300 })
decode_state-documented_example =
    decode_state-documented discriminator root [] 255 300 refl refl (omega arith)

abbrev state : State
state = record { root_hex = codes "ab"; commitment_count = 3 }

abbrev pub sources : Sources (List MerkleRoot)
sources = record {
  keys = keys;
  bagsvault_program_id = codes "P";
  vault_token_mint = [];
  get_account_info = λ pda. ok (
      some (
        field (codes "data") (arr (cons (str (codes "AA==")) (cons (str (codes "base64")) nil)))
          end));
  decode_with_idl = λ b64. ok (some state);
  merkle_roots = table root_of;
}

pub unique : Unique sources
unique = record {
  laws = table-Laws root_of;
  refuses = λ m new existing h. table_refuses root_of m new existing h;
  is_there = λ m new h. table_has root_of m new h;
}

abbrev root_found : MerkleRoot
root_found = record {
  root = codes "ab";
  commitment_count = 3;
  block_height = none;
  indexed_at = 4;
  source = codes "indexed";
}

is_synced : sync_now sources 4 [] ≡ (root_found ∷ [], ok (some root_found))
unfolding sync_now bagsvault.Indexer.derive_merkle_pda keys bagsvault.Indexer.record_from_account
    bagsvault.Indexer.extract_b64 bagsvault.Indexer.decoded_by bagsvault.Indexer.store_state
    bagsvault.Indexer.recorded insert find bagsvault.Indexer.root_row
is_synced = refl

sync_now_twice_example :
    sync_now sources 9 (root_found ∷ []) ≡ (root_found ∷ [], ok (some root_found))
sync_now_twice_example = sync_now_twice sources unique [] (root_found ∷ []) 4 9 root_found is_synced

abbrev chain : Chain
chain = record {
  get_recent_blockhash = ok (str (codes "h"));
  compile = λ ix payer hash. some (ok []);
}

abbrev no_unsigned : Unsigned
no_unsigned = record {
  tx_base64 = [];
  blockhash = [];
  tree_state_pda = [];
  vault_pda = [];
  program_id = [];
  depositor = [];
  amount = 0;
  token = [];
  commitment = [];
  deposit = record { program_id = []; accounts = []; body = [] };
}

abbrev unsigned : Unsigned
unsigned =
    ok_or no_unsigned
      (build_unsigned_tx keys (codes "P") chain (codes "ab") 5 (codes "D") (codes "SOL"))
