-- ===== src/Compliance/Counts.antt =====
-- The counts of the dashboard, against the scans.
use bagsvault.Base.{
  ℕ, zero, suc, ◌+◌, ◌≤◌, List, [], ◌∷◌, ◌≡◌, refl, sym, subst, ◌∙◌, ap, ◌⊎◌, inl, inr, All, length,
  arith,
}
use bagsvault.Compliance.{Verdict, approve, review, block, RiskScan}
use bagsvault.Compliance.Service.{Group, Counts, set_count, read_groups, stats_of, stats}

abbrev one_if : Verdict → Verdict → ℕ
one_if approve approve = 1
one_if approve review = 0
one_if approve block = 0
one_if review approve = 0
one_if review review = 1
one_if review block = 0
one_if block approve = 0
one_if block review = 0
one_if block block = 1

-- How many of the scans have a verdict.
abbrev pub tally : Verdict → List RiskScan → ℕ
tally v [] = 0
tally v (scan ∷ scans) = one_if v scan.verdict + tally v scans

abbrev pub HasGroup : Verdict → List Group → Type 0
HasGroup v [] = ⊥
HasGroup v (g ∷ gs) = (g.verdict ≡ v) ⊎ HasGroup v gs

-- What MongoDB documents of `$group` with `$sum`: each group has the number of the documents with its value,
-- and each value that occurs has a group.
pub record IsGrouping (scans : List RiskScan) (groups : List Group) : Type 0 where
  pub counted : All (λ g. g.count ≡ tally g.verdict scans) groups
  pub complete : (v : Verdict) → 1 ≤ tally v scans → HasGroup v groups

abbrev count_of : Verdict → Counts → ℕ
count_of approve c = c.approve
count_of review c = c.review
count_of block c = c.block

set_count-keeps :
    (v w : Verdict) (n m : ℕ) (c : Counts)
    → count_of v c ≡ n
    → (w ≡ v → m ≡ n)
    → count_of v (set_count w m c) ≡ n
unfolding set_count
set_count-keeps approve approve n m c h same = same refl
set_count-keeps approve review n m c h same = h
set_count-keeps approve block n m c h same = h
set_count-keeps review approve n m c h same = h
set_count-keeps review review n m c h same = same refl
set_count-keeps review block n m c h same = h
set_count-keeps block approve n m c h same = h
set_count-keeps block review n m c h same = h
set_count-keeps block block n m c h same = same refl

count-set_count : (v : Verdict) (m : ℕ) (c : Counts) → count_of v (set_count v m c) ≡ m
unfolding set_count
count-set_count approve m c = refl
count-set_count review m c = refl
count-set_count block m c = refl

module _ (scans : List RiskScan) where
  kept_count :
      (v : Verdict) (groups : List Group) (c : Counts)
      → All (λ g. g.count ≡ tally g.verdict scans) groups
      → count_of v c ≡ tally v scans
      → count_of v (read_groups groups c) ≡ tally v scans
  unfolding read_groups
  kept_count v [] c counted h = h
  kept_count v (g ∷ gs) c (n, counted) h =
      kept_count v gs (set_count g.verdict g.count c) counted
        (set_count-keeps v g.verdict (tally v scans) g.count c h λ e. n ∙ ap (λ w. tally w scans) e)

  found_count :
      (v : Verdict) (groups : List Group) (c : Counts)
      → All (λ g. g.count ≡ tally g.verdict scans) groups
      → HasGroup v groups
      → count_of v (read_groups groups c) ≡ tally v scans
  unfolding read_groups
  found_count v [] c counted has = absurd has
  found_count v (g ∷ gs) c (n, counted) (inl e) =
      kept_count v gs (set_count g.verdict g.count c) counted (
        subst (λ w. count_of v (set_count w g.count c) ≡ tally v scans) (sym e)
          (count-set_count v g.count c ∙ n ∙ ap (λ w. tally w scans) e))
  found_count v (g ∷ gs) c (n, counted) (inr has) =
      found_count v gs (set_count g.verdict g.count c) counted has

  read_count :
      (v : Verdict) (groups : List Group) (c : Counts) (n : ℕ)
      → IsGrouping scans groups
      → tally v scans ≡ n
      → count_of v c ≡ 0
      → count_of v (read_groups groups c) ≡ tally v scans
  read_count v groups c zero g is h = kept_count v groups c g.counted (h ∙ sym is)
  read_count v groups c (suc n) g is h =
      found_count v groups c g.counted (g.complete v (omega (arith, is)))

whole_tally :
    (scans : List RiskScan)
    → tally approve scans + (tally review scans + tally block scans) ≡ length scans
whole_tally [] = refl
whole_tally (scan ∷ scans) = omega (arith, whole_tally scans, one_of scan.verdict)
  where
    one_of : (v : Verdict) → one_if approve v + (one_if review v + one_if block v) ≡ 1
    one_of approve = refl
    one_of review = refl
    one_of block = refl

-- On the groups of the stored scans, the dashboard's total is the number of scans, and its three counts
-- are the numbers of scans with each verdict.
stats-counts :
    (scans : List RiskScan) (groups : List Group)
    → IsGrouping scans groups
    → ((stats groups).total_scans ≡ length scans)
      × ((stats groups).approvals ≡ tally approve scans)
      × ((stats groups).reviews ≡ tally review scans)
      × ((stats groups).blocks ≡ tally block scans)
unfolding stats stats_of
stats-counts scans groups g =
    let none : Counts = record { approve = 0; review = 0; block = 0 } in
    let a = read_count scans approve groups none _ g refl refl in
    let r = read_count scans review groups none _ g refl refl in
    let b = read_count scans block groups none _ g refl refl in
    (omega (arith, a, r, b, whole_tally scans), a, r, b)
