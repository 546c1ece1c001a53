-- ===== src/Withdraw/Recent.antt =====
-- `WithdrawalService.list_recent` of backend/app/services/withdrawal_service.py, and its helpers.
use bagsvault.Base.{
  ℕ, zero, suc, ◌-◌, ◌/◌, ◌≡◌, refl, ap₂, List, [], ◌∷◌, ◌++◌, Str, codes, eq_str, is_empty, show_ℕ,
  ltb, leb, length, take, last, map, if◌then◌else◌,
}
use bagsvault.Withdraw.Relay.{Withdrawal}

unfoldable pub short_hash : Str → Str
short_hash sig = if leb (length sig) 8 then sig else take 4 sig ++ (codes "…" ++ last 4 sig)

-- The difference is in whole seconds, and is taken as 0 where it is negative, as `max(seconds, 0)` does.
unfoldable pub relative_time : ℕ → ℕ → Str
relative_time now dt =
    let seconds = now - dt in
    let minutes = seconds / 60 in
    let hours = minutes / 60 in
    let days = hours / 24 in
    if ltb seconds 60
    then show_ℕ seconds ++ codes "s ago"
    else if ltb minutes 60
    then show_ℕ minutes ++ codes "m ago"
    else if ltb hours 24
    then show_ℕ hours ++ codes "h ago"
    else show_ℕ days ++ codes "d ago"

-- A name of the registry.
pub record Named : Type 0 where
  pub relayer_id : Str
  pub name : Str

-- names.get(relayer_id, relayer_id); an id has one row in the registry
unfoldable pub name_of : List Named → Str → Str
name_of [] relayer_id = relayer_id
name_of (n ∷ ns) relayer_id =
    let rest = name_of ns relayer_id in if eq_str n.relayer_id relayer_id then n.name else rest

-- An entry of the listing.
pub record Recent : Type 0 where
  pub hash : Str
  pub tx_signature : Str
  pub amount : ℕ
  pub token : Str
  pub relayer_name : Str
  pub relative_time : Str

unfoldable pub entry : ℕ → List Named → Withdrawal → Recent
entry now names w = record {
  hash = if is_empty w.tx_signature then [] else short_hash w.tx_signature;
  tx_signature = w.tx_signature;
  amount = w.amount;
  token = w.token;
  relayer_name = name_of names w.relayer_id;
  relative_time = relative_time now w.created_at;
}

-- On the rows as the cursor gives them, newest first.
unfoldable pub list_recent : ℕ → List Named → ℕ → List Withdrawal → List Recent
list_recent now names limit newest_first = map (entry now names) (take limit newest_first)

-- Two rows that a listing must not tell apart: they differ in the id, the recipient and the nullifier.
pub record AreAlike (v w : Withdrawal) : Type 0 where
  pub signatures : v.tx_signature ≡ w.tx_signature
  pub amounts : v.amount ≡ w.amount
  pub tokens : v.token ≡ w.token
  pub relayers : v.relayer_id ≡ w.relayer_id
  pub times : v.created_at ≡ w.created_at

abbrev pub AllAlike : List Withdrawal → List Withdrawal → Type 0
AllAlike [] [] = Unit
AllAlike [] (w ∷ ws) = ⊥
AllAlike (v ∷ vs) [] = ⊥
AllAlike (v ∷ vs) (w ∷ ws) = AreAlike v w × AllAlike vs ws

-- The listing does not depend on the recipients, the nullifiers and the ids: two collections whose rows
-- are pairwise equal in every other field have the same listing.
list_recent-anonymous :
    (now limit : ℕ) (names : List Named) (vs ws : List Withdrawal)
    → AllAlike vs ws
    → list_recent now names limit vs ≡ list_recent now names limit ws
unfolding list_recent entry
list_recent-anonymous now zero names vs ws h = refl
list_recent-anonymous now (suc limit) names [] [] h = refl
list_recent-anonymous now (suc limit) names [] (w ∷ ws) h = elim h [ ]
list_recent-anonymous now (suc limit) names (v ∷ vs) [] h = elim h [ ]
list_recent-anonymous now (suc limit) names (v ∷ vs) (w ∷ ws) (h, hs) =
    ap₂ (λ e es. e ∷ es) (rw (h.signatures, h.amounts, h.tokens, h.relayers, h.times))
      (list_recent-anonymous now limit names vs ws hs)
