-- ===== src/Indexer/Skips.antt =====
-- Notifications that hold no state of the tree.
use bagsvault.Base.{
  ℕ, Bool, true, false, List, [], ◌∷◌, Option, none, some, Str, codes, ◌≡◌, refl, ap, Bool-cases,
  inl, inr, if◌then◌else◌,
}
use bagsvault.Json.{Json, Fields, get_field}
use bagsvault.Exceptions.{Result, ok, err}
use bagsvault.Indexer.{
  MerkleRoot, State, Sources, extract_b64, decoded_by, store_state, store_decoded, from_b64,
  record_from_account,
}
use bagsvault.Indexer.Stream.{
  extract_account_from_notification, Arrival, Stream, take_notification, updates_after,
  root_updates, and_root,
}

module _ {M : Type 0} (sources : Sources M) where
  unfoldable is_state : Result (Option State) → Bool
  is_state (ok none) = false
  is_state (ok (some st)) = true
  is_state (err e) = true

  -- a base64 text that decodes to no state, by the IDL or by the layout
  unfoldable is_state_text : Option Str → Bool
  unfolding decoded_by is_state
  is_state_text none = false
  is_state_text (some b64) = is_state (decoded_by sources b64 (sources.decode_with_idl b64))

  unfoldable is_state_account : Option Fields → Bool
  unfolding extract_b64 get_field is_state_text
  is_state_account none = false
  is_state_account (some account) = is_state_text (extract_b64 (get_field (codes "data") account))

  -- Whether a notification has an account whose data decodes to a state, or whose decoder raises.
  unfoldable pub has_state : Arrival → Bool
  unfolding extract_account_from_notification is_state_account
  has_state a = is_state_account (extract_account_from_notification a.notification)

  unfoldable pub states_only : List Arrival → List Arrival
  unfolding has_state
  states_only [] = []
  states_only (a ∷ as') = let rest = states_only as' in if has_state a then a ∷ rest else rest

  decoded-skips :
      (now : ℕ) (m : M) (rent : Option Json) (r : Result (Option State))
      → is_state r ≡ false
      → store_decoded sources now m rent r ≡ (m, ok none)
  unfolding store_decoded store_state is_state
  decoded-skips now m rent (ok none) h = refl
  decoded-skips now m rent (ok (some st)) h = absurd (cc)
  decoded-skips now m rent (err e) h = absurd (cc)

  text-skips :
      (now : ℕ) (m : M) (rent : Option Json) (b64 : Option Str)
      → is_state_text b64 ≡ false
      → from_b64 sources now m rent b64 ≡ (m, ok none)
  unfolding from_b64 is_state_text
  text-skips now m rent none h = refl
  text-skips now m rent (some b64) h = decoded-skips now m rent _ h

  take-skips :
      (now : ℕ) (m : M) (account : Option Fields)
      → is_state_account account ≡ false
      → take_notification sources now m account ≡ (m, ok none)
  unfolding take_notification record_from_account is_state_account
  take-skips now m none h = refl
  take-skips now m (some account) h = text-skips now m _ _ h

  -- A stream depends on what follows only through the stores that it reaches.
  updates_after-same :
      (f g : M → Stream M) (p : M × Result (Option MerkleRoot))
      → ((m : M) → f m ≡ g m)
      → updates_after sources f p ≡ updates_after sources g p
  unfolding updates_after
  updates_after-same f g (m, err e) same = refl
  updates_after-same f g (m, ok none) same = same m
  updates_after-same f g (m, ok (some row)) same = ap (and_root row) (same m)

  -- Whatever else arrives among them, a stream of notifications leaves the same roots, gives the same rows and
  -- ends the same way as the stream of those alone that hold a state.
  pub root_updates-skips :
      (m : M) (arrivals : List Arrival)
      → root_updates sources m arrivals ≡ root_updates sources m (states_only arrivals)
  unfolding root_updates states_only has_state
  root_updates-skips m [] = refl
  root_updates-skips m (a ∷ as') = elim (Bool-cases (has_state a)) [
    | inl e ↦ rw e (
        updates_after-same (λ m'. root_updates sources m' as')
          (λ m'. root_updates sources m' (states_only as'))
          (take_notification sources a.now m (extract_account_from_notification a.notification))
          λ m'. root_updates-skips m' as')
    | inr e ↦ rw (e, take-skips a.now m _ e) (unfold updates_after in root_updates-skips m as')
  ]
