-- ===== src/Relayers.antt =====
-- backend/app/services/relayer_service.py: the registry of relayers, the choice of one, and their numbers
-- of the last 24 hours. `uptime_pct` is a float that is only compared and shown: it is counted here in
-- whole units of its precision.
pub mod Best
pub mod Counted
use bagsvault.Base.{
  ℕ, ◌+◌, ◌-◌, ◌*◌, Bool, true, false, ◌&&◌, List, [], ◌∷◌, Option, none, some, Str, codes, eq_str,
  leb, length, take, max, if◌then◌else◌,
}
use bagsvault.Exceptions.{Exn, domain, service_unavailable, Result, ok, err, ◌>>=◌}
use bagsvault.Withdraw.Relay.{Withdrawal}

pub record Relayer : Type 0 where
  pub id : Str
  pub relayer_id : Str
  pub name : Str
  pub operator : Str
  pub pubkey : Str
  pub region : Str
  pub fee_bps : ℕ
  pub ping_ms : ℕ
  pub uptime_pct : ℕ
  pub jobs_24h : ℕ
  pub volume_24h_lamports : ℕ
  pub last_seen : Option ℕ
  pub registered_at : ℕ

pub data Direction : Type 0 where
  ascending descending : Direction

-- A value of `_SORT_FIELDS`.
pub record SortField : Type 0 where
  pub field : Relayer → ℕ
  pub direction : Direction

-- The driver's operations on `db.relayers`: a look-up, the update with `upsert=True`, and the sorted
-- cursor.
pub record Registry (R : Type 0) : Type 0 where
  pub find_one : R → Str → Option Relayer
  pub upsert_one : R → Str → Relayer → Result R
  pub sorted : R → SortField → List Relayer

abbrev pub by_uptime : SortField
by_uptime = record { field = λ r. r.uptime_pct; direction = descending }

-- `_SORT_FIELDS.get(sort, _SORT_FIELDS["uptime"])`
unfoldable pub sort_field : Str → SortField
sort_field sort =
    if eq_str sort (codes "uptime")
    then by_uptime
    else if eq_str sort (codes "fee")
    then record { field = λ r. r.fee_bps; direction = ascending }
    else if eq_str sort (codes "ping")
    then record { field = λ r. r.ping_ms; direction = ascending }
    else if eq_str sort (codes "jobs")
    then record { field = λ r. r.jobs_24h; direction = descending }
    else by_uptime

-- The document of an update: a row that is there keeps its id and its time of registration.
unfoldable pub kept_identity : Option Relayer → Relayer → Relayer
kept_identity none r = r
kept_identity (some existing) r = record {
  id = existing.id;
  relayer_id = r.relayer_id;
  name = r.name;
  operator = r.operator;
  pubkey = r.pubkey;
  region = r.region;
  fee_bps = r.fee_bps;
  ping_ms = r.ping_ms;
  uptime_pct = r.uptime_pct;
  jobs_24h = r.jobs_24h;
  volume_24h_lamports = r.volume_24h_lamports;
  last_seen = r.last_seen;
  registered_at = existing.registered_at;
}

unfoldable pub first_or_unavailable : List Relayer → Result Relayer
first_or_unavailable [] = err (domain service_unavailable (codes "No relayers registered."))
first_or_unavailable (r ∷ rs) = ok r

module _ {R : Type 0} (registry : Registry R) where
  unfoldable pub updated : Relayer → Result R → R → R × Result Relayer
  updated doc (ok s') s = (s', ok doc)
  updated doc (err e) s = (s, err e)

  unfoldable pub upsert : R → Relayer → R × Result Relayer
  unfolding updated
  upsert s r =
      let doc = kept_identity (registry.find_one s r.relayer_id) r in
      updated doc (registry.upsert_one s r.relayer_id doc) s

  unfoldable pub list_active : R → Str → ℕ → List Relayer
  list_active s sort limit = take limit (registry.sorted s (sort_field sort))

  -- The token is accepted and not used.
  unfoldable pub pick_best : R → Option Str → Result Relayer
  unfolding first_or_unavailable
  pick_best s token = first_or_unavailable (list_active s (codes "uptime") 1)

-- The stage `$match` of `stats`, and the sums of `$group`, over the withdrawals.
unfoldable pub counts_for : Str → ℕ → Withdrawal → Bool
counts_for relayer_id since w = eq_str w.relayer_id relayer_id && leb since w.created_at

unfoldable pub matched : Str → ℕ → List Withdrawal → List Withdrawal
matched relayer_id since [] = []
matched relayer_id since (w ∷ ws) =
    let rest = matched relayer_id since ws in
    if counts_for relayer_id since w then w ∷ rest else rest

unfoldable pub volume_of : List Withdrawal → ℕ
volume_of [] = 0
volume_of (w ∷ ws) = w.amount + volume_of ws

-- the group has no entry where nothing matched: the registry's own time stays
unfoldable pub last_of : Option ℕ → List Withdrawal → Option ℕ
last_of own [] = own
last_of own (w ∷ []) = some w.created_at
last_of own (w ∷ v ∷ ws) = elim (last_of own (v ∷ ws)) [
  | none ↦ some w.created_at
  | some t ↦ some (max w.created_at t)
]

pub record Stats : Type 0 where
  pub relayer_id : Str
  pub jobs_24h : ℕ
  pub volume_24h_lamports : ℕ
  pub last_seen : Option ℕ
  pub uptime_pct : ℕ
  pub ping_ms_avg : ℕ

-- 24 hours, in seconds
abbrev pub day : ℕ
day = 24 * 3600

unfoldable pub stats_of : Str → ℕ → List Withdrawal → Option Relayer → Stats
stats_of relayer_id now withdrawals none = record {
  relayer_id = relayer_id;
  jobs_24h = 0;
  volume_24h_lamports = 0;
  last_seen = none;
  uptime_pct = 0;
  ping_ms_avg = 0;
}
stats_of relayer_id now withdrawals (some relayer) =
    let entries = matched relayer_id (now - day) withdrawals in
    record {
      relayer_id = relayer_id;
      jobs_24h = length entries;
      volume_24h_lamports = volume_of entries;
      last_seen = last_of relayer.last_seen entries;
      uptime_pct = relayer.uptime_pct;
      ping_ms_avg = relayer.ping_ms;
    }

unfoldable pub stats : {R : Type 0} → Registry R → R → ℕ → List Withdrawal → Str → Stats
stats registry s now withdrawals relayer_id =
    stats_of relayer_id now withdrawals (registry.find_one s relayer_id)
