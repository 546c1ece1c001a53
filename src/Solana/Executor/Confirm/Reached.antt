-- ===== src/Solana/Executor/Confirm/Reached.antt =====
-- What a confirmation means, said without the ranks of the commitments.
use bagsvault.Base.{
  ℕ, zero, suc, ◌+◌, ◌*◌, ◌≡◌, ◌≢◌, ◌⊎◌, inl, inr, refl, sym, ◌∙◌, Bool, true, false, List, [], ◌∷◌,
  Option, none, some, Str, codes, leb, eq_str, eq_str_iff, Bool-cases, arith,
}
use bagsvault.Exceptions.{Result, ok, err}
use bagsvault.Solana.Executor.{
  Settings, Status, Node, commitment_rank, rank_meets, meets_commitment,
}
use bagsvault.Solana.Executor.Confirm.{
  Poll, ends, waits, first_status, read_status, poll, polls, timeout_seconds, await_confirmation,
}
use bagsvault.Solana.Executor.Confirm.Polls.{polls_end, polls_timeout, polls_next}

-- A commitment that a target accepts.
abbrev pub Accepts : Str → Str → Type 0
Accepts target actual =
    (actual ≡ codes "finalized")
    ⊎ (((actual ≡ codes "confirmed") × (target ≢ codes "finalized"))
        ⊎ ((actual ≡ codes "processed") × (target ≡ codes "processed")))

-- A poll for the signature was answered with a status that is no error and that the target accepts.
abbrev pub WasConfirmed : Node → Str → Str → Option ℕ → Type 0
WasConfirmed node signature target slot =
    (j : ℕ) × (status : Status) × (more : List (Option Status)) × (node.get_signature_statuses
        signature j
      ≡ ok (some status ∷ more))
    × (status.failed ≡ false)
    × (status.slot ≡ slot)
    × (actual : Str) × (status.confirmation_status ≡ some actual)
    × Accepts target actual

abbrev Ranked : Str → Type 0
Ranked s =
    ((s ≡ codes "processed") × (commitment_rank s ≡ some 0))
    ⊎ (((s ≡ codes "confirmed") × (commitment_rank s ≡ some 1))
        ⊎ (((s ≡ codes "finalized") × (commitment_rank s ≡ some 2)) ⊎ (commitment_rank s ≡ none)))

ranked : (s : Str) → Ranked s
unfolding commitment_rank
ranked s = elim (Bool-cases (eq_str s (codes "processed"))) [
  | inl e ↦ inl ((eq_str_iff s _).0 e, rw e refl)
  | inr e ↦ elim (Bool-cases (eq_str s (codes "confirmed"))) [
    | inl d ↦ inr (inl ((eq_str_iff s _).0 d, rw (e, d) refl))
    | inr d ↦ elim (Bool-cases (eq_str s (codes "finalized"))) [
      | inl c ↦ inr (inr (inl ((eq_str_iff s _).0 c, rw (e, d, c) refl)))
      | inr c ↦ inr (inr (inr (rw (e, d, c) refl)))
    ]
  ]
]

finalized_rank : (s : Str) → s ≡ codes "finalized" → commitment_rank s ≡ some 2
unfolding commitment_rank eq_str
finalized_rank s h = rw h refl

not_over : (o : Option ℕ) → rank_meets (some 1) o ≡ true → o ≢ some 2
unfolding rank_meets
not_over none h e = absurd (cc)
not_over (some n) h e = ground arith

only_zero :
    (target : Str)
    → rank_meets (some 0) (commitment_rank target) ≡ true
    → target ≡ codes "processed"
unfolding rank_meets
only_zero target h = elim (ranked target) [
  | inl (is, _) ↦ is
  | inr (inl (_, e)) ↦ let h' = rw e at h in absurd (ground arith)
  | inr (inr (inl (_, e))) ↦ let h' = rw e at h in absurd (ground arith)
  | inr (inr (inr e)) ↦ let h' = rw e at h in absurd (ground arith)
]

rank_meets-Accepts :
    (actual target : Str)
    → rank_meets (commitment_rank actual) (commitment_rank target) ≡ true
    → Accepts target actual
rank_meets-Accepts actual target h = elim (ranked actual) [
  | inl (is, e) ↦ inr (inr (is, only_zero target (rw e at h)))
  | inr (inl (is, e)) ↦ inr (
      inl
        (is, λ final. not_over (commitment_rank target) (rw e at h) (finalized_rank target final)))
  | inr (inr (inl (is, e))) ↦ inl is
  | inr (inr (inr e)) ↦ let h' = rw e at h in absurd (unfold rank_meets in cc)
]

meets-Accepts :
    (status : Status) (target : Str)
    → meets_commitment (some status) target ≡ true
    → (actual : Str) × (status.confirmation_status ≡ some actual) × Accepts target actual
unfolding meets_commitment
meets-Accepts status target h = by_actual status.confirmation_status refl
  where
    by_actual :
        (o : Option Str)
        → status.confirmation_status ≡ o
        → (actual : Str) × (status.confirmation_status ≡ some actual) × Accepts target actual
    by_actual none e = let h' = rw e at h in absurd (cc)
    by_actual (some actual) e =
        let h' = rw e at h in (actual, e, rank_meets-Accepts actual target h')

abbrev Confirms : Status → Str → Option ℕ → Type 0
Confirms status target slot =
    (status.failed ≡ false)
    × (status.slot ≡ slot)
    × (actual : Str) × (status.confirmation_status ≡ some actual)
    × Accepts target actual

status-Confirms :
    (status : Status) (target : Str) (slot : Option ℕ)
    → read_status target (some status) ≡ ends (ok slot)
    → Confirms status target slot
unfolding read_status
status-Confirms status target slot h = elim (Bool-cases status.failed) [
  | inl e ↦ let h' = rw e at h in absurd (cc)
  | inr e ↦
      let h' = rw e at h in
      elim (Bool-cases (meets_commitment (some status) target)) [
        | inl d ↦
            let h'' = rw d at h' in
            let (actual, is, accepts) = meets-Accepts status target d in
            (e, cc, actual, is, accepts)
        | inr d ↦ let h'' = rw d at h' in absurd (cc)
      ]
]

poll-Confirms :
    (target : Str) (r : Result (List (Option Status))) (slot : Option ℕ)
    → poll target r ≡ ends (ok slot)
    → (status : Status) × (more : List (Option Status)) × (r ≡ ok (some status ∷ more))
      × Confirms status target slot
unfolding poll first_status read_status
poll-Confirms target (err e) slot h = absurd (cc)
poll-Confirms target (ok []) slot h = absurd (cc)
poll-Confirms target (ok (none ∷ more)) slot h = absurd (cc)
poll-Confirms target (ok (some status ∷ more)) slot h =
    (status, more, refl, status-Confirms status target slot h)

module _ (node : Node) (signature target : Str) (deadline : ℕ) where
  polls-ok :
      (fuel k : ℕ) (slot : Option ℕ)
      → polls node signature target deadline fuel k ≡ some (ok slot)
      → (j : ℕ) × (poll target (node.get_signature_statuses signature j) ≡ ends (ok slot))
  polls-ok zero k slot h = absurd (unfold polls in cc)
  polls-ok (suc fuel) k slot h =
      by_poll (λ later. polls-ok fuel (suc k) slot later)
        (poll target (node.get_signature_statuses signature k)) refl
    where
      by_clock :
          (polls node signature target deadline fuel (suc k) ≡ some (ok slot)
            → (j : ℕ) × (poll target (node.get_signature_statuses signature j) ≡ ends (ok slot)))
          → (b : Bool) → poll target (node.get_signature_statuses signature k) ≡ waits
          → leb deadline (node.monotonic k) ≡ b
          → (j : ℕ) × (poll target (node.get_signature_statuses signature j) ≡ ends (ok slot))
      by_clock later true e d =
          let late = polls_timeout node signature target deadline fuel k e d in absurd (cc)
      by_clock later false e d =
          later (sym (polls_next node signature target deadline fuel k e d) ∙ h)

      by_poll :
          (polls node signature target deadline fuel (suc k) ≡ some (ok slot)
            → (j : ℕ) × (poll target (node.get_signature_statuses signature j) ≡ ends (ok slot)))
          → (p : Poll) → poll target (node.get_signature_statuses signature k) ≡ p
          → (j : ℕ) × (poll target (node.get_signature_statuses signature j) ≡ ends (ok slot))
      by_poll later (ends r) e =
          let found = polls_end node signature target deadline fuel k r e in (k, cc)
      by_poll later waits e = by_clock later (leb deadline (node.monotonic k)) e refl

-- A wait that returns was ended by such an answer.
pub await_confirmation-ok :
    (node : Node) (s : Settings) (signature : Str) (slot : Option ℕ)
    → await_confirmation node s signature ≡ some (ok slot)
    → WasConfirmed node signature s.solana_commitment slot
unfolding await_confirmation
await_confirmation-ok node s signature slot h =
    let (j, found) =
      polls-ok node signature s.solana_commitment (node.start + 1000 * timeout_seconds s)
        (2 * timeout_seconds s + 1) 0 slot h in
    let (status, more, answered, confirms) =
      poll-Confirms s.solana_commitment (node.get_signature_statuses signature j) slot found in
    let (fine, at_slot, actual, is, accepts) = confirms in
    (j, status, more, answered, fine, at_slot, actual, is, accepts)
