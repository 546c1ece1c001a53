-- ===== src/Examples/Scans.antt =====
-- Risk scans, with whole numbers for the floats.
use bagsvault.Base.{
  ℕ, ◌*◌, ℤ, pos, negsuc, List, [], ◌∷◌, Option, none, some, Str, codes, ◌≡◌, refl, eq_str, leb,
  map, lower, arith, if◌then◌else◌,
}
use bagsvault.Json.{Json, num, str, arr, cons, nil, Fields, field, end}
use bagsvault.Exceptions.{Result, ok}
use bagsvault.Mongo.Upserts.{Upserts, Laws}
use bagsvault.Solana.Rpc.{response}
use bagsvault.Compliance.{
  Verdict, Double, Fresh, RiskScan, default_checks, checks_of, from_range_response,
}
use bagsvault.Compliance.Score.{IsExact, verdict_of_int, from_range_response-int}
use bagsvault.Compliance.Matrix.{IsMatrix, checks_of-IsMatrix}
use bagsvault.Compliance.Refines.{Request, scan_now, cached, Promises, serve_all, serve_all-refines}

abbrev show : Json → Str
show v = codes "?"

abbrev of_int : ℤ → Result ℕ
of_int (pos n) = ok n
of_int (negsuc n) = ok 0

abbrev double : Double ℕ
double = record {
  of_int = of_int;
  of_text = λ t. ok 0;
  in_unit = λ n. leb n 1;
  times_100 = λ n. n * 100;
  rounded = λ n. ok (pos n);
}

exact : IsExact double
exact = record {
  int_value = λ n. n;
  of_int_lem = λ n h. refl;
  in_unit_lem = λ n h. refl;
  times_100_lem = λ n h. refl;
  rounded_lem = λ n h. refl;
}

abbrev fresh : Fresh
fresh = record { id = codes "1"; now = 5 }

abbrev answer : Fields
answer = field (codes "score") (num (pos 1)) end

from_range_response-int_example :
    (scan : RiskScan) × (from_range_response double show fresh (codes "w") answer ≡ ok scan)
    × (scan.score ≡ 100)
    × (scan.verdict ≡ verdict_of_int 1)
unfolding bagsvault.Compliance.body_of bagsvault.Json.get_field eq_str
    bagsvault.Compliance.first_of_three bagsvault.Json.or_else
from_range_response-int_example =
    from_range_response-int double exact show fresh (codes "w") answer 0 refl (omega arith) refl

checks_of-IsMatrix_example :
    IsMatrix
      (map lower (codes "SDN" ∷ codes "other" ∷ []))
      default_checks
      (checks_of show (codes "SDN" ∷ codes "other" ∷ []) (some (arr nil)))
checks_of-IsMatrix_example =
    checks_of-IsMatrix show (codes "SDN" ∷ codes "other" ∷ []) (some (arr nil)) tt

-- A document and its key.
record Row : Type 0 where
  key : Str
  doc : RiskScan

find_row : List Row → Str → Option RiskScan
find_row [] k = none
find_row (r ∷ rs) k = if eq_str r.key k then some r.doc else find_row rs k

abbrev risk_scans : Upserts (List Row) RiskScan
risk_scans = record {
  find_one = find_row;
  upsert_one = λ rs k doc. ok (record { key = k; doc = doc } ∷ rs);
}

laws : Laws risk_scans
unfolding find_row
laws = record {
  finds = λ s s' k j d h. let is : record { key = k; doc = d } ∷ s ≡ s' = cc in rw (← is);
}

abbrev requests : List Request
requests =
    cached (codes "w") ∷ scan_now fresh (codes "w") (response 200 none) ∷ cached (codes "w") ∷ []

serve_all-refines_example :
    Promises double show
      (codes "k")
      risk_scans
      laws
      []
      requests
      (serve_all double show (codes "k") risk_scans laws [] requests).0
      (serve_all double show (codes "k") risk_scans laws [] requests).1
serve_all-refines_example = serve_all-refines double show (codes "k") risk_scans laws [] requests
