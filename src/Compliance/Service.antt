-- ===== src/Compliance/Service.antt =====
-- backend/app/clients/range_risk.py and backend/app/services/compliance_service.py: asking for a score,
-- and the last scan of each address.
use bagsvault.Base.{
  ℕ, ◌+◌, ◌++◌, List, [], ◌∷◌, Option, none, some, Str, codes, is_empty, leb, show_ℕ, if◌then◌else◌,
}
use bagsvault.Json.{Json, obj, Fields}
use bagsvault.Exceptions.{domain, service_unavailable, upstream, not_found, Result, ok, err}
use bagsvault.Mongo.Upserts.{Upserts}
use bagsvault.Solana.Rpc.{Post, http_error, response}
use bagsvault.Compliance.{
  Verdict, approve, review, block, Double, Fresh, RiskScan, from_range_response,
}

unfoldable pub as_answer : Option Json → Result Fields
as_answer none = err (domain upstream (codes "Range Risk API returned a non-JSON body."))
as_answer (some (obj fs)) = ok fs
as_answer (some _) =
    err (domain upstream (codes "Range Risk API returned an unexpected JSON shape."))

unfoldable pub range_message : ℕ → Str
unfolding show_ℕ
range_message status = codes "Range Risk API returned HTTP " ++ (show_ℕ status ++ codes ".")

-- what `client.post` does, read
unfoldable pub read_post : Post → Result Fields
unfolding as_answer range_message
read_post (http_error e) = err (domain upstream (codes "Failed to reach Range Risk API."))
read_post (response status body) =
    if leb 400 status then err (domain upstream (range_message status)) else as_answer body

-- `scan_address`, with the key of the settings and the answer to the request
unfoldable pub scan_address : Str → Post → Result Fields
unfolding read_post
scan_address api_key post =
    if is_empty api_key
    then err (
        domain service_unavailable (
          codes
            "Range Risk API is not configured. Set the RANGE_API_KEY env variable to enable wallet risk scoring."))
    else read_post post

-- what `stats` gives
pub record Stats : Type 0 where
  pub total_scans : ℕ
  pub approvals : ℕ
  pub reviews : ℕ
  pub blocks : ℕ

-- A group of the aggregation: its verdict and how many scans have it.
pub record Group : Type 0 where
  pub verdict : Verdict
  pub count : ℕ

-- `counts`
pub record Counts : Type 0 where
  pub approve : ℕ
  pub review : ℕ
  pub block : ℕ

unfoldable pub set_count : Verdict → ℕ → Counts → Counts
set_count approve n c = record c { approve = n }
set_count review n c = record c { review = n }
set_count block n c = record c { block = n }

-- the loop over the cursor
unfoldable pub read_groups : List Group → Counts → Counts
unfolding set_count
read_groups [] c = c
read_groups (g ∷ gs) c = read_groups gs (set_count g.verdict g.count c)

unfoldable pub stats_of : Counts → Stats
stats_of c = record {
  total_scans = c.approve + (c.review + c.block);
  approvals = c.approve;
  reviews = c.review;
  blocks = c.block;
}

unfoldable pub stats : List Group → Stats
unfolding stats_of read_groups
stats groups = stats_of (read_groups groups (record { approve = 0; review = 0; block = 0 }))

module _ {S W : Type 0} (double : Double W) (show : Json → Str)
    (risk_scans : Upserts S RiskScan) where
  -- the scan is the answer if it is stored
  unfoldable pub stored : S → RiskScan → Result S → S × Result RiskScan
  stored s scan (ok s') = (s', ok scan)
  stored s scan (err e) = (s, err e)

  unfoldable pub store_scan : S → Str → Result RiskScan → S × Result RiskScan
  unfolding stored
  store_scan s address (err e) = (s, err e)
  store_scan s address (ok scan) = stored s scan (risk_scans.upsert_one s address scan)

  unfoldable pub scan_answer : S → Fresh → Str → Result Fields → S × Result RiskScan
  unfolding store_scan
  scan_answer s fresh address (err e) = (s, err e)
  scan_answer s fresh address (ok raw) =
      store_scan s address (from_range_response double show fresh address raw)

  -- `scan`
  unfoldable pub scan : Str → S → Fresh → Str → Post → S × Result RiskScan
  unfolding scan_answer
  scan api_key s fresh address post = scan_answer s fresh address (scan_address api_key post)

  unfoldable pub or_missing : Str → Option RiskScan → Result RiskScan
  or_missing address none =
      err (domain not_found (codes "No cached scan for address " ++ (address ++ codes ".")))
  or_missing address (some found) = ok found

  unfoldable pub get_cached : S → Str → Result RiskScan
  unfolding or_missing
  get_cached s address = or_missing address (risk_scans.find_one s address)
