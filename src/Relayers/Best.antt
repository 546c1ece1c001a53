-- ===== src/Relayers/Best.antt =====
-- The relayer that a withdrawal gets, and the identity of a row that is updated.
use bagsvault.Base.{
  ◌≤◌, false, List, [], ◌∷◌, Option, some, Str, ◌≡◌, ◌∙◌, eq_str, eq_str_refl, arith, take,
  if◌then◌else◌,
}
use bagsvault.Exceptions.{Result, ok, err}
use bagsvault.Relayers.{
  Relayer, ascending, descending, SortField, Registry, by_uptime, sort_field, kept_identity,
  first_or_unavailable, updated, upsert, list_active, pick_best,
}

pub data Member (r : Relayer) : List Relayer → Type 0 where
  here : {rs : List Relayer} → Member r (r ∷ rs)
  there : {s : Relayer} {rs : List Relayer} → Member r rs → Member r (s ∷ rs)

-- In the order of a sorted cursor, the first comes before the second.
abbrev pub Precedes : SortField → Relayer → Relayer → Type 0
Precedes f r s = elim f.direction [
  | ascending ↦ f.field r ≤ f.field s
  | descending ↦ f.field s ≤ f.field r
]

abbrev pub IsFirst : SortField → Relayer → List Relayer → Type 0
IsFirst f r [] = Unit
IsFirst f r (s ∷ rs) = Precedes f r s × IsFirst f r rs

abbrev pub IsSorted : SortField → List Relayer → Type 0
IsSorted f [] = Unit
IsSorted f (r ∷ rs) = IsFirst f r rs × IsSorted f rs

-- What MongoDB documents of the three operations.
pub record Laws {R : Type 0} (registry : Registry R) : Type 0 where
  pub in_order : (s : R) (f : SortField) → IsSorted f (registry.sorted s f)
  -- the cursor has every row
  pub complete :
      (s : R) (f : SortField) (k : Str) (r : Relayer)
      → registry.find_one s k ≡ some r
      → Member r (registry.sorted s f)
  pub finds :
      (s s' : R) (k j : Str) (doc : Relayer)
      → registry.upsert_one s k doc ≡ ok s'
      → registry.find_one s' j ≡ (if eq_str k j then some doc else registry.find_one s j)

first-Member :
    (r s : Relayer) (rs : List Relayer)
    → IsFirst by_uptime r rs
    → Member s rs
    → s.uptime_pct ≤ r.uptime_pct
first-Member r s [] u m = elim m [ ]
first-Member r s (t ∷ rs) (le, rest) here = le
first-Member r s (t ∷ rs) (le, rest) (there m) = first-Member r s rs rest m

best_of :
    (xs : List Relayer) (best r : Relayer)
    → IsSorted by_uptime xs
    → first_or_unavailable (take 1 xs) ≡ ok best
    → Member r xs
    → r.uptime_pct ≤ best.uptime_pct
unfolding first_or_unavailable
best_of [] best r u h m = elim m [ ]
best_of (x ∷ xs) best r (first, _) h here = let same : x ≡ best = cc in rw same (omega arith)
best_of (x ∷ xs) best r (first, _) h (there m) =
    let same : x ≡ best = cc in rw (← same) (first-Member x r xs first m)

module _ {R : Type 0} (registry : Registry R) where
  -- If a relayer is picked, its uptime is the highest: that of every relayer that is registered is at
  -- most as high.
  pub pick_best-highest :
      Laws registry
      → (s : R) (token : Option Str) (best r : Relayer) (k : Str)
      → pick_best registry s token ≡ ok best
      → registry.find_one s k ≡ some r
      → r.uptime_pct ≤ best.uptime_pct
  unfolding pick_best list_active sort_field eq_str
  pick_best-highest laws s token best r k h found =
      best_of (registry.sorted s by_uptime) best r (laws.in_order s by_uptime) h
        (laws.complete s by_uptime k r found)

  updated-ok :
      (new doc : Relayer) (s s' : R) (i : Result R)
      → updated registry new i s ≡ (s', ok doc)
      → (i ≡ ok s') × (doc ≡ new)
  unfolding updated
  updated-ok new doc s s' (ok t) h = (cc, cc)
  updated-ok new doc s s' (err e) h = absurd (cc)

  -- If an update of a registered relayer returns, the row under its id afterwards has the fields that
  -- were given, and the id and the time of registration that it had; the rows of other relayers are
  -- those that they were.
  upsert-registered :
      Laws registry
      → (s s' : R) (r existing doc : Relayer) (k : Str)
      → registry.find_one s r.relayer_id ≡ some existing
      → upsert registry s r ≡ (s', ok doc)
      → (registry.find_one s' r.relayer_id ≡ some (kept_identity (some existing) r))
        × (doc ≡ kept_identity (some existing) r)
        × (eq_str r.relayer_id k ≡ false → registry.find_one s' k ≡ registry.find_one s k)
  unfolding upsert
  upsert-registered laws s s' r existing doc k found h =
      let (e, is) =
        updated-ok new doc s s' (registry.upsert_one s r.relayer_id new) (rw found at h) in
      (
        laws.finds s s' r.relayer_id r.relayer_id new e ∙ rw (eq_str_refl r.relayer_id),
        is,
        λ differ. laws.finds s s' r.relayer_id k new e ∙ rw differ,
      )
    where
      new : Relayer
      new = kept_identity (some existing) r
