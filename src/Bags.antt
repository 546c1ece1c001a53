-- ===== src/Bags.antt =====
-- backend/app/clients/bags_api.py and backend/app/services/bags_service.py: the requests to the Bags API,
-- how its answers are read, and the claim summary.
pub mod Claims
use bagsvault.Base.{
  ℕ, ℤ, pos, ◌++◌, Bool, true, false, not, ◌&&◌, List, [], ◌∷◌, Option, none, some, Str, codes,
  is_empty, leb, show_ℕ, if◌then◌else◌,
}
use bagsvault.Json.{
  Json, null, bool, num, float, str, arr, obj, Items, nil, cons, Fields, end, field, get_field,
  as_arr,
}
use bagsvault.Exceptions.{Exn, domain, service_unavailable, upstream, Result, ok, err, ◌>>=◌}
use bagsvault.Solana.Rpc.Methods.{only_dicts}
use bagsvault.DepositTx.Claim.{extract_unsigned_txs}

-- A request: its method and path, and the fields of its body or of its query.
pub record Request : Type 0 where
  pub method : Str
  pub path : Str
  pub fields : Fields

-- What the HTTP client does: an error with its text, or a status with a body, which may be empty or no JSON.
pub data Reply : Type 0 where
  http_error : Str → Reply
  no_content : ℕ → Reply
  response : ℕ → Option Json → Reply

unfoldable pub bags_message : ℕ → Str
unfolding show_ℕ
bags_message status = codes "Bags API returned HTTP " ++ (show_ℕ status ++ codes ".")

-- a list is put under a key
unfoldable pub as_dict : Option Json → Result Fields
as_dict none = err (domain upstream (codes "Bags API returned a non-JSON body."))
as_dict (some (arr vs)) = ok (field (codes "data") (arr vs) end)
as_dict (some (obj fs)) = ok fs
as_dict (some _) = err (domain upstream (codes "Bags API returned an unexpected JSON shape."))

unfoldable pub read_reply : Reply → Result Fields
unfolding bags_message as_dict
read_reply (http_error e) = err (domain upstream (codes "Failed to reach Bags API."))
read_reply (no_content status) =
    if leb 400 status then err (domain upstream (bags_message status)) else ok end
read_reply (response status body) =
    if leb 400 status then err (domain upstream (bags_message status)) else as_dict body

-- The client: its key, and the network, which answers by the number of the request in an operation: the same
-- request may be answered in another way at another time.
pub record Client : Type 0 where
  pub api_key : Str
  pub send : ℕ → Request → Reply

unfoldable pub ensure_configured : Client → Result (Unit {0})
ensure_configured client =
    if is_empty client.api_key
    then err (
        domain service_unavailable (
          codes
            "Bags API is not configured. Set the BAGS_API_KEY env variable to enable token / fee / swap integrations."))
    else ok tt

-- `_request`
unfoldable pub request : Client → ℕ → Request → Result Fields
unfolding ensure_configured read_reply
request client k r = do _ ← ensure_configured client; read_reply (client.send k r)

-- a key for a text that is there
unfoldable pub with_text : Str → Option Str → Fields
with_text k none = end
with_text k (some []) = end
with_text k (some (c ∷ cs)) = field k (str (c ∷ cs)) end

abbrev get : Str → Fields → Request
get path fs = record { method = codes "GET"; path = path; fields = fs }

abbrev post : Str → Fields → Request
post path fs = record { method = codes "POST"; path = path; fields = fs }

abbrev wallet_fields : Str → Option Str → Fields
unfolding with_text
wallet_fields creator_wallet token_mint =
    field (codes "wallet") (str creator_wallet) (with_text (codes "tokenMint") token_mint)

unfoldable pub claim_request : Str → Option Str → Request
unfolding wallet_fields
claim_request creator_wallet token_mint =
    post (codes "/token-launch/claim-txs/v3") (wallet_fields creator_wallet token_mint)

module _ (client : Client) (k : ℕ) where
  unfoldable pub get_claimable_fees : Str → Option Str → Result Fields
  unfolding request wallet_fields
  get_claimable_fees creator_wallet token_mint =
      request client k
        (get (codes "/token-launch/claimable/v3") (wallet_fields creator_wallet token_mint))

  unfoldable pub build_claim_tx : Str → Option Str → Result Fields
  unfolding request claim_request
  build_claim_tx creator_wallet token_mint =
      request client k (claim_request creator_wallet token_mint)

  unfoldable pub get_swap_quote : Str → Str → ℕ → ℕ → Result Fields
  unfolding request
  get_swap_quote input_mint output_mint amount slippage_bps = request client k (
      post (codes "/trade/swap") (
        field (codes "inputMint") (str input_mint) (
          field (codes "outputMint") (str output_mint) (
            field (codes "amount") (num (pos amount))
              (field (codes "slippageBps") (num (pos slippage_bps)) end)))))

  unfoldable pub get_fee_share : Str → Result Fields
  unfolding request
  get_fee_share token_mint = request client k (get (codes "/fee-share/v2/" ++ token_mint) end)

  unfoldable pub get_token_metadata : Str → Result Fields
  unfolding request
  get_token_metadata mint = request client k (get (codes "/token-launch/" ++ mint) end)

  unfoldable pub build_token_launch : Str → Str → ℕ → ℕ → Str → Option Str → Result Fields
  unfolding request with_text
  build_token_launch name symbol decimals supply authority_pubkey metadata_uri = request client k (
      post (codes "/token-launch/build") (
        field (codes "name") (str name) (
          field (codes "symbol") (str symbol) (
            field (codes "decimals") (num (pos decimals)) (
              field (codes "supply") (num (pos supply)) (
                field (codes "authority") (str authority_pubkey)
                  (with_text (codes "metadataUri") metadata_uri)))))))

-- the dictionary of `ping`
pub record Ping : Type 0 where
  pub reachable : Bool
  pub configured : Bool
  pub error : Option Str
  pub status_code : Option ℕ

unfoldable pub pinged : Reply → Ping
pinged (http_error e) = record {
  reachable = false;
  configured = true;
  error = some e;
  status_code = none;
}
pinged (no_content status) = record {
  reachable = true;
  configured = true;
  error = none;
  status_code = some status;
}
pinged (response status body) = record {
  reachable = true;
  configured = true;
  error = none;
  status_code = some status;
}

-- `ping`, which sends `GET /`
unfoldable pub ping : Client → Ping
unfolding pinged
ping client =
    if is_empty client.api_key
    then record {
      reachable = false;
      configured = false;
      error = some (codes "BAGS_API_KEY not set");
      status_code = none;
    }
    else pinged (client.send 0 (get (codes "/") end))

pub data HealthStatus : Type 0 where
  up down unconfigured : HealthStatus

-- `health`, with the ping as its details
unfoldable pub health : Client → HealthStatus × Ping
unfolding ping
health client =
    let p = ping client in
    (if not p.configured then unconfigured else if not p.reachable then down else up, p)

-- the first of the keys that has a list
unfoldable pub first_list : List Str → Fields → Option Items
unfolding get_field
first_list [] raw = none
first_list (k ∷ ks) raw =
    let rest = first_list ks raw in
    elim (as_arr (get_field k raw)) [ none ↦ rest | some vs ↦ some vs ]

dicts_in : Option Items → List Fields
unfolding only_dicts
dicts_in none = []
dicts_in (some vs) = only_dicts vs

-- `_extract_pending_fees`
unfoldable pub extract_pending_fees : Fields → List Fields
unfolding first_list dicts_in
extract_pending_fees raw = dicts_in (
    first_list (codes "pendingFees" ∷ codes "pending_fees" ∷ codes "claimable" ∷ codes "fees" ∷ [])
      raw)

pub record ClaimSummary : Type 0 where
  pub creator_wallet : Str
  pub token_mint : Option Str
  pub unsigned_transactions : List Str
  pub pending_fees : List Fields
  pub raw : Fields

abbrev or_fees : List Fields → List Fields → List Fields
or_fees [] other = other
or_fees (fee ∷ fees) other = fee ∷ fees

-- what the second request gives; an exception is no fees
unfoldable pub claimable_fees : Result Fields → List Fields
unfolding extract_pending_fees dicts_in get_field
claimable_fees (err e) = []
claimable_fees (ok raw) =
    or_fees (extract_pending_fees raw) (dicts_in (as_arr (get_field (codes "data") raw)))

-- `claim_fees`
unfoldable pub claim_fees : (Json → Str) → Client → Str → Option Str → Result ClaimSummary
unfolding build_claim_tx get_claimable_fees claimable_fees extract_pending_fees extract_unsigned_txs
claim_fees show client creator_wallet token_mint = do
  claim_raw ← build_claim_tx client 0 creator_wallet token_mint
  ok (record {
    creator_wallet = creator_wallet;
    token_mint = token_mint;
    unsigned_transactions = extract_unsigned_txs show claim_raw;
    pending_fees =
        or_fees (extract_pending_fees claim_raw)
          (claimable_fees (get_claimable_fees client 1 creator_wallet token_mint));
    raw = claim_raw;
  })
