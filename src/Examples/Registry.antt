-- ===== src/Examples/Registry.antt =====
-- The relayers, in a registry that has room for one.
use bagsvault.Base.{
  ◌≤◌, Bool, true, false, List, [], ◌∷◌, Option, none, some, Str, codes, ◌≡◌, refl, eq_str,
  eq_str_iff, Bool-cases, if◌then◌else◌, inl, inr,
}
use bagsvault.Exceptions.{raised, other, Result, ok, err}
use bagsvault.Relayers.{
  Relayer, SortField, Registry, kept_identity, upsert, pick_best, day, counts_for, stats,
}
use bagsvault.Relayers.Best.{Member, here, IsSorted, Laws, pick_best-highest}

pub record Slot : Type 0 where
  pub key : Str
  pub doc : Relayer

find_slot : Option Slot → Str → Option Relayer
find_slot none k = none
find_slot (some s) k = if eq_str s.key k then some s.doc else none

put_slot : Option Slot → Str → Relayer → Result (Option Slot)
put_slot none k doc = ok (some (record { key = k; doc = doc }))
put_slot (some s) k doc =
    if eq_str s.key k
    then ok (some (record { key = k; doc = doc }))
    else err (raised other (codes "full"))

rows : Option Slot → List Relayer
rows none = []
rows (some s) = s.doc ∷ []

abbrev registry : Registry (Option Slot)
registry = record { find_one = find_slot; upsert_one = put_slot; sorted = λ s f. rows s }

same_test :
    (b : Bool) (x y : Option Relayer)
    → (if b then x else none) ≡ (if b then x else (if b then y else none))
same_test true x y = refl
same_test false x y = refl

finds :
    (s s' : Option Slot) (k j : Str) (doc : Relayer)
    → put_slot s k doc ≡ ok s'
    → find_slot s' j ≡ (if eq_str k j then some doc else find_slot s j)
unfolding put_slot find_slot
finds none s' k j doc h = let is : some (record { key = k; doc = doc }) ≡ s' = cc in rw (← is)
finds (some s) s' k j doc h = elim (Bool-cases (eq_str s.key k)) [
  | inl e ↦
      let h' = rw e at h in
      let is : some (record { key = k; doc = doc }) ≡ s' = cc in
      rw (← is, (eq_str_iff s.key k).0 e) (same_test (eq_str k j) (some doc) (some s.doc))
  | inr e ↦ let h' = rw e at h in absurd (cc)
]

in_order : (s : Option Slot) (f : SortField) → IsSorted f (rows s)
unfolding rows
in_order none f = tt
in_order (some s) f = (tt, tt)

complete : (s : Option Slot) (k : Str) (r : Relayer) → find_slot s k ≡ some r → Member r (rows s)
unfolding rows find_slot
complete none k r h = absurd (cc)
complete (some s) k r h = elim (Bool-cases (eq_str s.key k)) [
  | inl e ↦ let h' = rw e at h in let is : s.doc ≡ r = cc in rw is here
  | inr e ↦ let h' = rw e at h in absurd (cc)
]

laws : Laws registry
laws = record { in_order = in_order; complete = λ s f k r h. complete s k r h; finds = finds }

abbrev relayer : Relayer
relayer = record {
  id = codes "1";
  relayer_id = codes "r";
  name = codes "n";
  operator = codes "o";
  pubkey = codes "p";
  region = codes "eu";
  fee_bps = 30;
  ping_ms = 10;
  uptime_pct = 99;
  jobs_24h = 0;
  volume_24h_lamports = 0;
  last_seen = none;
  registered_at = 2;
}

abbrev held : Option Slot
held = some (record { key = codes "r"; doc = relayer })

is_found : find_slot held (codes "r") ≡ some relayer
unfolding find_slot eq_str
is_found = refl

is_picked : pick_best registry held none ≡ ok relayer
unfolding pick_best bagsvault.Relayers.list_active rows
is_picked = refl

pick_best-highest_example : 99 ≤ 99
pick_best-highest_example =
    pick_best-highest registry laws held none relayer relayer (codes "r") is_picked is_found
