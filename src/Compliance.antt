-- ===== src/Compliance.antt =====
-- backend/app/models/risk_scan.py: what the backend makes of an answer of the Range Risk API. Floats are an
-- argument. The client and the service are in Compliance.Service.
pub mod Service
pub mod Score
pub mod Matrix
pub mod Refines
pub mod Counts
use bagsvault.Base.{
  ℕ, ◌-◌, min, ℤ, pos, negsuc, Bool, true, false, ◌&&◌, ◌||◌, List, [], ◌∷◌, Option, none, some,
  Str, codes, eq_str, is_empty, ltb, leb, ◌==◌, contains, lower, map, if◌then◌else◌,
}
use bagsvault.Json.{
  Json, null, bool, num, float, str, arr, obj, Items, nil, cons, Fields, get_field, is_truthy,
  or_else, as_str, text_of,
}
use bagsvault.Exceptions.{raised, type_error, is_type_or_value, Result, ok, err, ◌>>=◌}

pub data Verdict : Type 0 where
  approve review block : Verdict

pub data CheckStatus : Type 0 where
  clean flagged : CheckStatus

pub record CheckResult : Type 0 where
  pub category : Str
  pub label : Str
  pub status : CheckStatus

-- An entry of `DEFAULT_CHECKS`.
pub record DefaultCheck : Type 0 where
  pub category : Str
  pub label : Str

abbrev check_of : Str → Str → DefaultCheck
check_of category label = record { category = category; label = label }

unfoldable pub default_checks : List DefaultCheck
default_checks =
    check_of (codes "Regulatory") (codes "OFAC / SDN sanctions list")
    ∷ check_of (codes "Threat Intel") (codes "Known hacker addresses")
    ∷ check_of (codes "Threat Intel") (codes "Ransomware clusters")
    ∷ check_of (codes "Threat Intel") (codes "Darknet market exposure")
    ∷ check_of (codes "Mixer") (codes "Tornado Cash interaction")
    ∷ check_of (codes "DeFi") (codes "Bridge exploit proceeds")
    ∷ check_of (codes "Fraud") (codes "Pig-butchering fund flows")
    ∷ check_of (codes "NFT") (codes "Stolen NFT proceeds")
    ∷ []

unfoldable pub verdict_from_score : ℕ → Verdict
verdict_from_score score = if ltb score 20 then approve else if ltb score 50 then review else block

-- What the code does with a float.
pub record Double (W : Type 0) : Type 0 where
  pub of_int : ℤ → Result W
  -- the value of a text, of JSON or in a string
  pub of_text : Str → Result W
  -- 0 <= value <= 1
  pub in_unit : W → Bool
  pub times_100 : W → W
  -- int(round(value))
  pub rounded : W → Result ℤ

-- max(0, min(100, value))
unfoldable pub clamp : ℤ → ℕ
clamp (pos n) = min 100 n
clamp (negsuc n) = 0

-- s.upper(), as far as it can give one of the verdicts: ASCII, and the dotless i
unfoldable pub to_upper : ℕ → ℕ
to_upper c = if leb b'a' c && leb c b'z' then c - 32 else if c == 305 then b'I' else c

unfoldable pub verdict_of_text : Str → Option Verdict
unfolding to_upper eq_str
verdict_of_text s =
    let upper = map to_upper s in
    if eq_str upper (codes "APPROVE")
    then some approve
    else if eq_str upper (codes "REVIEW")
    then some review
    else if eq_str upper (codes "BLOCK")
    then some block
    else none

or_verdict : Verdict → Option Verdict → Verdict
or_verdict v none = v
or_verdict v (some given) = given

-- the verdict of the answer, if it has one, and otherwise that of the score
unfoldable pub verdict_for : ℕ → Option Str → Verdict
unfolding or_verdict
verdict_for score none = verdict_from_score score
verdict_for score (some given) = or_verdict (verdict_from_score score) (verdict_of_text given)

-- `a or b or c`, of a dictionary's values
unfoldable pub first_of_three : Str → Str → Str → Fields → Option Json
unfolding get_field
first_of_three a b c fs = or_else (or_else (get_field a fs) (get_field b fs)) (get_field c fs)

unfoldable pub flag_text : Json → Option Str
unfolding first_of_three
flag_text (str s) = some s
flag_text (obj fs) = as_str (first_of_three (codes "label") (codes "name") (codes "category") fs)
flag_text _ = none

kept : Option Str → List Str → List Str
kept none flags = flags
kept (some f) flags = f ∷ flags

unfoldable pub flags_of_items : Items → List Str
unfolding kept flag_text
flags_of_items nil = []
flags_of_items (cons v vs) = kept (flag_text v) (flags_of_items vs)

unfoldable pub flags_of : Option Json → List Str
unfolding flags_of_items
flags_of (some (arr items)) = flags_of_items items
flags_of _ = []

-- a flag occurs in the label, or the label in a flag
unfoldable pub is_hit : List Str → Str → Bool
unfolding contains
is_hit [] label = false
is_hit (f ∷ fs) label = contains f label || contains label f || is_hit fs label

unfoldable pub status_of : Bool → CheckStatus
status_of hit = if hit then flagged else clean

unfoldable pub default_results : List Str → List DefaultCheck → List CheckResult
unfolding is_hit status_of lower
default_results lower_flags [] = []
default_results lower_flags (entry ∷ entries) =
    record {
      category = entry.category;
      label = entry.label;
      status = status_of (is_hit lower_flags (lower entry.label));
    }
    ∷ default_results lower_flags entries

-- What the defaults of `RiskScan` make up.
pub record Fresh : Type 0 where
  pub id : Str
  pub now : ℕ

pub record RiskScan : Type 0 where
  pub id : Str
  pub address : Str
  pub score : ℕ
  pub verdict : Verdict
  pub flags : List Str
  pub checks : List CheckResult
  pub scanned_at : ℕ

-- the body of the answer, which may be wrapped
unfoldable pub body_of : Fields → Option Json → Fields
body_of raw (some (obj fs)) = fs
body_of raw _ = raw

-- `show` is `str` of a value that is no text.
module _ (show : Json → Str) where
  -- str(value or default)
  unfoldable pub text_or : Str → Option Json → Str
  unfolding text_of
  text_or default none = default
  text_or default (some v) = if is_truthy (some v) then text_of show v else default

  unfoldable pub item_status : Fields → CheckStatus
  unfolding text_or status_of get_field lower eq_str
  item_status c =
      let default =
        if is_truthy (get_field (codes "hit") c) then codes "flagged" else codes "clean" in
      status_of (eq_str (lower (text_or default (get_field (codes "status") c))) (codes "flagged"))

  unfoldable pub item_results : Items → List CheckResult
  unfolding item_status text_or get_field
  item_results nil = []
  item_results (cons (obj c) items) =
      record {
        category = text_or (codes "General") (get_field (codes "category") c);
        label = text_or [] (or_else (get_field (codes "label") c) (get_field (codes "name") c));
        status = item_status c;
      }
      ∷ item_results items
  item_results (cons null items) = item_results items
  item_results (cons (bool b) items) = item_results items
  item_results (cons (num z) items) = item_results items
  item_results (cons (float t) items) = item_results items
  item_results (cons (str s) items) = item_results items
  item_results (cons (arr xs) items) = item_results items

  -- the detection matrix: the answer's checks, or the default ones
  unfoldable pub checks_of : List Str → Option Json → List CheckResult
  unfolding item_results default_results default_checks lower
  checks_of flags (some (arr (cons c items))) = item_results (cons c items)
  checks_of flags _ = default_results (map lower flags) default_checks

  -- the scan, but for the score
  unfoldable pub scan_of : Fresh → Str → Fields → ℕ → RiskScan
  unfolding first_of_three verdict_for flags_of checks_of get_field
  scan_of fresh address body score =
      let flags =
        flags_of (first_of_three (codes "flags") (codes "tags") (codes "categories") body) in
      record {
        id = fresh.id;
        address = address;
        score = score;
        verdict = verdict_for score (
            as_str
              (first_of_three (codes "verdict") (codes "decision") (codes "recommendation") body));
        flags = flags;
        checks = checks_of flags (get_field (codes "checks") body);
        scanned_at = fresh.now;
      }

unfoldable pub raw_score : Fields → Option Json
unfolding first_of_three get_field
raw_score body =
    or_else (first_of_three (codes "score") (codes "risk_score") (codes "riskScore") body)
      (get_field (codes "risk") body)

module _ {W : Type 0} (double : Double W) where
  -- float(raw), where None does not get there
  float_of : Json → Result W
  float_of (num z) = double.of_int z
  float_of (bool true) = double.of_int (pos 1)
  float_of (bool false) = double.of_int (pos 0)
  float_of (float t) = double.of_text t
  float_of (str s) = double.of_text s
  float_of null =
      err (raised type_error (codes "float() argument must be a string or a real number"))
  float_of (arr xs) =
      err (raised type_error (codes "float() argument must be a string or a real number"))
  float_of (obj fs) =
      err (raised type_error (codes "float() argument must be a string or a real number"))

  unfoldable pub scaled : W → W
  scaled value = if double.in_unit value then double.times_100 value else value

  score_of : Result W → Result ℕ
  unfolding is_type_or_value scaled clamp
  score_of (err e) = if is_type_or_value e then ok 0 else err e
  score_of (ok value) = do n ← double.rounded (scaled value); ok (clamp n)

  unfoldable pub coerce_score : Option Json → Result ℕ
  unfolding score_of float_of
  coerce_score none = ok 0
  coerce_score (some null) = ok 0
  coerce_score (some v) = score_of (float_of v)

  -- `RiskScan.from_range_response`
  unfoldable pub from_range_response : (Json → Str) → Fresh → Str → Fields → Result RiskScan
  unfolding body_of raw_score coerce_score get_field
  from_range_response show fresh address raw =
      let body = body_of raw (get_field (codes "data") raw) in
      do score ← coerce_score (raw_score body); ok (scan_of show fresh address body score)
