-- ===== src/Relayers/Counted.antt =====
-- What a stored withdrawal does to the numbers of the relayers.
use bagsvault.Base.{
  ℕ, suc, ◌+◌, ◌-◌, ◌≡◌, ◌⊎◌, true, false, List, ◌∷◌, some, Str, Bool-cases, inl, inr,
}
use bagsvault.Withdraw.Relay.{Withdrawal}
use bagsvault.Relayers.{Relayer, Registry, counts_for, matched, volume_of, stats_of, stats, day}

matched-counts :
    (relayer_id : Str) (since : ℕ) (w : Withdrawal) (ws : List Withdrawal)
    → counts_for relayer_id since w ≡ true
    → matched relayer_id since (w ∷ ws) ≡ w ∷ matched relayer_id since ws
unfolding matched
matched-counts relayer_id since w ws h = rw h

matched-other :
    (relayer_id : Str) (since : ℕ) (w : Withdrawal) (ws : List Withdrawal)
    → counts_for relayer_id since w ≡ false
    → matched relayer_id since (w ∷ ws) ≡ matched relayer_id since ws
unfolding matched
matched-other relayer_id since w ws h = rw h

module _ {R : Type 0} (registry : Registry R) where
  -- For a registered relayer, a new withdrawal of its own in the last 24 hours adds one job and its
  -- amount; a withdrawal of another relayer, or an older one, changes no number of the relayer.
  stats-withdrawal :
      (s : R) (now : ℕ) (w : Withdrawal) (ws : List Withdrawal) (relayer_id : Str) (r : Relayer)
      → registry.find_one s relayer_id ≡ some r
      → let before = stats registry s now ws relayer_id in
        let after = stats registry s now (w ∷ ws) relayer_id in
        ((counts_for relayer_id (now - day) w ≡ true)
          × (after.jobs_24h ≡ suc before.jobs_24h)
          × (after.volume_24h_lamports ≡ w.amount + before.volume_24h_lamports))
        ⊎ ((counts_for relayer_id (now - day) w ≡ false) × (after ≡ before))
  unfolding stats stats_of volume_of
  stats-withdrawal s now w ws relayer_id r found =
      elim (Bool-cases (counts_for relayer_id (now - day) w)) [
        | inl e ↦ inl (
          e,
          rw (found, matched-counts relayer_id (now - day) w ws e),
          rw (found, matched-counts relayer_id (now - day) w ws e),
        )
        | inr e ↦ inr (e, rw (found, matched-other relayer_id (now - day) w ws e))
      ]
