-- ===== src/Compliance/Refines.antt =====
-- The service as a map from addresses to scans.
use bagsvault.Base.{
  ◌++◌, List, [], ◌∷◌, Option, none, some, Str, codes, ◌≡◌, refl, eq_str, if◌then◌else◌,
}
use mathlib.Core.Path.{fun_ext}
use bagsvault.Json.{Json, Fields}
use bagsvault.Exceptions.{Exn, domain, not_found, Result, ok, err}
use bagsvault.Mongo.Upserts.{Upserts, Laws}
use bagsvault.Solana.Rpc.{Post}
use bagsvault.Compliance.{Double, Fresh, RiskScan, from_range_response}
use bagsvault.Compliance.Service.{
  scan_address, stored, store_scan, scan_answer, scan, or_missing, get_cached,
}

-- The last scan of each address.
abbrev pub Cache : Type 0
Cache = Str → Option RiskScan

unfoldable pub update : Cache → Str → RiskScan → Cache
update cache address scan j = if eq_str address j then some scan else cache j

-- A request to the service, with what is made up and what Range answers.
pub data Request : Type 0 where
  scan_now : Fresh → Str → Post → Request
  cached : Str → Request

-- What putting a scan under an address raises, where it does.
abbrev pub Database : Type 0
Database = Str → RiskScan → Option Exn

module _ {W : Type 0} (double : Double W) (show : Json → Str) (api_key : Str)
    (database : Database) where
  -- What the service promises of one request: the cache after it, and the answer.
  pub data Promise (before : Cache) : Request → Cache → Result RiskScan → Type 0 where
    -- no answer of Range, or one that is no scan
    refused :
        (fresh : Fresh) (address : Str) (post : Post) (e : Exn)
        → scan_address api_key post ≡ err e
        → Promise before (scan_now fresh address post) before (err e)
    malformed :
        (fresh : Fresh) (address : Str) (post : Post) (raw : Fields) (e : Exn)
        → scan_address api_key post ≡ ok raw
        → from_range_response double show fresh address raw ≡ err e
        → Promise before (scan_now fresh address post) before (err e)
    -- the scan could not be stored
    unstored :
        (fresh : Fresh) (address : Str) (post : Post) (raw : Fields) (scan : RiskScan) (e : Exn)
        → scan_address api_key post ≡ ok raw
        → from_range_response double show fresh address raw ≡ ok scan
        → database address scan ≡ some e
        → Promise before (scan_now fresh address post) before (err e)
    scanned :
        (fresh : Fresh) (address : Str) (post : Post) (raw : Fields) (scan : RiskScan)
        → scan_address api_key post ≡ ok raw
        → from_range_response double show fresh address raw ≡ ok scan
        → database address scan ≡ none
        → Promise before (scan_now fresh address post) (update before address scan) (ok scan)
    found :
        (address : Str) (scan : RiskScan)
        → before address ≡ some scan
        → Promise before (cached address) before (ok scan)
    unknown :
        (address : Str)
        → before address ≡ none
        → Promise before
            (cached address)
            before
            (err (domain not_found (codes "No cached scan for address " ++ (address ++ codes "."))))

module _ {S W : Type 0} (double : Double W) (show : Json → Str) (api_key : Str)
    (risk_scans : Upserts S RiskScan) (laws : Laws risk_scans) where
  -- The state as a map.
  unfoldable pub view : S → Cache
  view s address = risk_scans.find_one s address

  unfoldable pub serve : S → Request → S × Result RiskScan
  serve s (scan_now fresh address post) = scan double show risk_scans api_key s fresh address post
  serve s (cached address) = (s, get_cached double show risk_scans s address)

  unfoldable pub serve_all : S → List Request → S × List (Result RiskScan)
  serve_all s [] = (s, [])
  serve_all s (r ∷ rs) =
      let (s', a) = serve s r in let (s'', as') = serve_all s' rs in (s'', a ∷ as')

  put_error : Result S → Option Exn
  put_error (ok s) = none
  put_error (err e) = some e

  -- What the database raises in a state.
  unfoldable pub raised_by : S → Database
  unfolding put_error
  raised_by s address scan = put_error (risk_scans.upsert_one s address scan)

  -- What the service promises of a run: of each request, with what the database raises at it.
  pub data Promises : S → List Request → S → List (Result RiskScan) → Type 0 where
    done : {s : S} → Promises s [] s []
    next :
        {before between after : S} {r : Request} {rs : List Request} {a : Result RiskScan}
        {as' : List (Result RiskScan)}
        → Promise double show api_key (raised_by before) (view before) r (view between) a
        → Promises between rs after as'
        → Promises before (r ∷ rs) after (a ∷ as')

  abbrev Kept : S → Request → S × Result RiskScan → Type 0
  Kept s r out = Promise double show api_key (raised_by s) (view s) r (view out.0) out.1

  view-upsert :
      (s s' : S) (address : Str) (scan : RiskScan)
      → risk_scans.upsert_one s address scan ≡ ok s'
      → view s' ≡ update (view s) address scan
  unfolding view update
  view-upsert s s' address scan h = fun_ext λ j. laws.finds s s' address j scan h

  stored-Kept :
      (s : S) (fresh : Fresh) (address : Str) (post : Post) (raw : Fields) (scan : RiskScan)
      (r : Result S)
      → scan_address api_key post ≡ ok raw
      → from_range_response double show fresh address raw ≡ ok scan
      → risk_scans.upsert_one s address scan ≡ r
      → Kept s (scan_now fresh address post) (stored double show risk_scans s scan r)
  unfolding stored raised_by
  stored-Kept s fresh address post raw scan (err e) given made h =
      unstored fresh address post raw scan e given made (rw h refl)
  stored-Kept s fresh address post raw scan (ok s') given made h =
      rw (view-upsert s s' address scan h)
        (scanned fresh address post raw scan given made (rw h refl))

  made-Kept :
      (s : S) (fresh : Fresh) (address : Str) (post : Post) (raw : Fields) (r : Result RiskScan)
      → scan_address api_key post ≡ ok raw
      → from_range_response double show fresh address raw ≡ r
      → Kept s (scan_now fresh address post) (store_scan double show risk_scans s address r)
  unfolding store_scan
  made-Kept s fresh address post raw (err e) given made =
      malformed fresh address post raw e given made
  made-Kept s fresh address post raw (ok scan) given made =
      stored-Kept s fresh address post raw scan _ given made refl

  answer-Kept :
      (s : S) (fresh : Fresh) (address : Str) (post : Post) (r : Result Fields)
      → scan_address api_key post ≡ r
      → Kept s (scan_now fresh address post) (scan_answer double show risk_scans s fresh address r)
  unfolding scan_answer
  answer-Kept s fresh address post (err e) given = refused fresh address post e given
  answer-Kept s fresh address post (ok raw) given = made-Kept s fresh address post raw _ given refl

  cached-Kept :
      (s : S) (address : Str) (o : Option RiskScan)
      → view s address ≡ o
      → Kept s (cached address) (s, or_missing double show risk_scans address o)
  unfolding or_missing
  cached-Kept s address none h = unknown address h
  cached-Kept s address (some scan) h = found address scan h

  serve-Kept : (s : S) (r : Request) → Kept s r (serve s r)
  unfolding serve scan get_cached view
  serve-Kept s (scan_now fresh address post) = answer-Kept s fresh address post _ refl
  serve-Kept s (cached address) = cached-Kept s address _ refl

  -- For a collection with an update that puts a document under its address: every run of the service over any
  -- requests is one that the map from addresses to scans promises. A fresh scan that the database takes replaces
  -- that of its address and is the answer; where Range or its answer fails, or the database raises at that scan,
  -- this very error is the answer and the map is unchanged; and a look-up answers what the map has, or that there
  -- is nothing.
  pub serve_all-refines :
      (s : S) (rs : List Request) → Promises s rs (serve_all s rs).0 (serve_all s rs).1
  unfolding serve_all
  serve_all-refines s [] = done
  serve_all-refines s (r ∷ rs) = next (serve-Kept s r) (serve_all-refines (serve s r).0 rs)
