-- ===== src/Solana/Executor/Confirm/Polls.antt =====
-- The polling loop ends, and what its end means.
use bagsvault.Base.{
  ℕ, zero, suc, ◌+◌, ◌*◌, ◌≤◌, ◌<◌, ◌≡◌, ◌⊎◌, inl, inr, refl, true, false, Option, some, Str, leb,
  Bool-cases, leb→le, ◌∙◌, arith,
}
use bagsvault.Exceptions.{Result, err}
use bagsvault.Solana.Executor.{Settings, Node}
use bagsvault.Solana.Executor.Confirm.{
  Poll, ends, waits, confirm_timeout, poll, polls, timeout_seconds, await_confirmation,
}

-- `asyncio.sleep(0.5)` lets at least half a second pass on a clock that never goes back.
pub record SleepsHalfSecond (node : Node) : Type 0 where
  pub begins : node.start ≤ node.monotonic 0
  pub passes : (k : ℕ) → node.monotonic k + 500 ≤ node.monotonic (suc k)

elapsed : (node : Node) → SleepsHalfSecond node → (k : ℕ) → node.start + 500 * k ≤ node.monotonic k
elapsed node c zero = omega (arith, c.begins)
elapsed node c (suc k) = omega (arith, elapsed node c k, c.passes k)

-- Polls `k` up to `k + d` found nothing, and the clock stood before the deadline.
abbrev pub Waited : Node → Str → Str → ℕ → ℕ → ℕ → Type 0
Waited node signature target deadline k zero = Unit
Waited node signature target deadline k (suc d) =
    (poll target (node.get_signature_statuses signature k) ≡ waits)
    × (node.monotonic k < deadline)
    × Waited node signature target deadline (suc k) d

-- The loop ended at the j-th poll: by what it found, or by the deadline.
abbrev pub EndsWith : Node → Str → Str → ℕ → ℕ → Result (Option ℕ) → Type 0
EndsWith node signature target deadline k r =
    (j : ℕ) × (d : ℕ) × (j ≡ k + d)
    × Waited node signature target deadline k d
    × ((poll target (node.get_signature_statuses signature j) ≡ ends r)
        ⊎ ((poll target (node.get_signature_statuses signature j) ≡ waits)
            × (deadline ≤ node.monotonic j)
            × (r ≡ err confirm_timeout)))

Poll-cases : (p : Poll) → ((r : Result (Option ℕ)) × (p ≡ ends r)) ⊎ (p ≡ waits)
Poll-cases (ends r) = inl (r, refl)
Poll-cases waits = inr refl

module _ (node : Node) (signature target : Str) (deadline : ℕ) where
  pub polls_end :
      (fuel k : ℕ) (r : Result (Option ℕ))
      → poll target (node.get_signature_statuses signature k) ≡ ends r
      → polls node signature target deadline (suc fuel) k ≡ some r
  unfolding polls
  polls_end fuel k r e = rw (e, polls)

  pub polls_timeout :
      (fuel k : ℕ)
      → poll target (node.get_signature_statuses signature k) ≡ waits
      → leb deadline (node.monotonic k) ≡ true
      → polls node signature target deadline (suc fuel) k ≡ some (err confirm_timeout)
  unfolding polls
  polls_timeout fuel k e late = rw (e, polls) (rw late)

  pub polls_next :
      (fuel k : ℕ)
      → poll target (node.get_signature_statuses signature k) ≡ waits
      → leb deadline (node.monotonic k) ≡ false
      → polls node signature target deadline (suc fuel) k
        ≡ polls node signature target deadline fuel (suc k)
  unfolding polls
  polls_next fuel k e early = rw (e, polls) (rw early)

  abbrev Finishes : ℕ → ℕ → Type 0
  Finishes fuel k =
      (r : Result (Option ℕ)) × (polls node signature target deadline fuel k ≡ some r)
      × EndsWith node signature target deadline k r

  Finishes-next :
      (fuel k : ℕ)
      → poll target (node.get_signature_statuses signature k) ≡ waits
      → leb deadline (node.monotonic k) ≡ false
      → Finishes fuel (suc k)
      → Finishes (suc fuel) k
  Finishes-next fuel k e early (r, run, (j, d, at, before, end)) =
      (r, polls_next fuel k e early ∙ run, (j, suc d, omega arith, (e, ground arith, before), end))

  polls_total :
      SleepsHalfSecond node
      → (fuel k : ℕ) → 0 < fuel
      → deadline + 500 ≤ node.start + 500 * (k + fuel)
      → Finishes fuel k
  polls_total c zero k p h = absurd (omega arith)
  polls_total c (suc fuel) k p h =
      let rest = polls_total c fuel (suc k) in
      elim (Poll-cases (poll target (node.get_signature_statuses signature k))) [
        | inl (r, e) ↦ (r, polls_end fuel k r e, (k, 0, omega arith, tt, inl e))
        | inr e ↦ elim (Bool-cases (leb deadline (node.monotonic k))) [
          | inl late ↦ (
            err confirm_timeout,
            polls_timeout fuel k e late,
            (k, 0, omega arith, tt, inr (e, leb→le _ _ late, refl)),
          )
          | inr early ↦
              let before : node.monotonic k < deadline = ground arith in
              Finishes-next fuel k e early (rest (omega (arith, elapsed node c k)) (omega arith))
        ]
      ]

-- The wait for a confirmation ends, whatever the node answers: it returns or raises what some poll
-- found, every poll before it found nothing before the deadline; or it raises the timeout, and the
-- deadline had passed.
pub await_confirmation_total :
    (node : Node) (s : Settings) (signature : Str)
    → SleepsHalfSecond node
    → (r : Result (Option ℕ)) × (await_confirmation node s signature ≡ some r)
      × EndsWith node signature s.solana_commitment (node.start + 1000 * timeout_seconds s) 0 r
unfolding await_confirmation
await_confirmation_total node s signature c =
    polls_total node signature s.solana_commitment (node.start + 1000 * timeout_seconds s) c
      (2 * timeout_seconds s + 1) 0 (omega arith) (omega arith)
