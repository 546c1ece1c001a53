-- ===== src/Solana/Executor/Send/Outcome.antt =====
-- What a caller of `TxExecutor.send` can rely on.
use bagsvault.Base.{
  Bool-cases, ℕ, suc, ◌≤◌, ◌≡◌, ◌≢◌, refl, ap, sym, ◌∙◌, ◌⊎◌, inl, inr, false, List, [], Option,
  some, Str, codes, at_least, length, arith,
}
use bagsvault.Exceptions.{Exn, Result, ok, err, ◌>>=◌}
use bagsvault.Solana.Instruction.{Instruction}
use bagsvault.Solana.Executor.{Settings, Simulation, Node, with_compute_budget}
use bagsvault.Solana.Executor.Broadcast.{Broadcast, broadcast_with_retry}
use bagsvault.Solana.Executor.Broadcast.Attempts.{StopsAt, RunsOut, broadcast-cases}
use bagsvault.Solana.Executor.Confirm.{await_confirmation}
use bagsvault.Solana.Executor.Confirm.Polls.{SleepsHalfSecond, await_confirmation_total}
use bagsvault.Solana.Executor.Confirm.Reached.{WasConfirmed, await_confirmation-ok}
use bagsvault.Solana.Executor.Send.{
  read_simulation, TxResult, Sending, simulate, prepare, confirmed, after_broadcast, send,
}

module _ (node : Node) (s : Settings) where
  after_broadcast_total :
      SleepsHalfSecond node
      → (logs : List Str) (b : Broadcast)
      → (x : Result TxResult) × ((after_broadcast node s logs b).outcome ≡ some x)
  unfolding after_broadcast
  after_broadcast_total c logs b = by_outcome b.outcome refl
    where
      by_outcome :
          (o : Result (Str × ℕ))
          → b.outcome ≡ o
          → (x : Result TxResult) × ((after_broadcast node s logs b).outcome ≡ some x)
      by_outcome (err e) p = (err e, rw (p, after_broadcast))
      by_outcome (ok (signature, n)) p =
          let (r, e, _) = await_confirmation_total node s signature c in
          (confirmed signature n logs r, rw (p, after_broadcast) (rw e))

  after_broadcast-ok :
      (logs : List Str) (b : Broadcast) (r : TxResult)
      → (after_broadcast node s logs b).outcome ≡ some (ok r)
      → (b.outcome ≡ ok (r.signature, r.attempts))
        × (r.simulation_logs ≡ logs)
        × (await_confirmation node s r.signature ≡ some (ok r.slot))
        × (r.status ≡ codes "confirmed")
  unfolding after_broadcast
  after_broadcast-ok logs b r h = ground arith

  -- A signature counts the payloads sent, and there is at least one and at most the configured number.
  broadcast-attempts :
      (instructions : List Instruction) (payload signature : Str) (n : ℕ)
      → let b = broadcast_with_retry node s instructions payload in
        b.outcome ≡ ok (signature, n)
        → (length b.sent ≡ n) × (1 ≤ n) × (n ≤ at_least 1 s.tx_retry_max_attempts)
  broadcast-attempts instructions payload signature n h =
      by_case (broadcast-cases node s instructions payload)
    where
      b : Broadcast
      b = broadcast_with_retry node s instructions payload

      by_case :
          StopsAt node instructions payload b 0 (at_least 1 s.tx_retry_max_attempts)
            ⊎ RunsOut node instructions payload b 0 (at_least 1 s.tx_retry_max_attempts)
          → (length b.sent ≡ n) × (1 ≤ n) × (n ≤ at_least 1 s.tx_retry_max_attempts)
      by_case (inl (j, d, at, below, _, sent, _, inl (_, _, out))) =
          let same : n ≡ suc j = cc in (omega arith, omega arith, omega arith)
      by_case (inl (j, d, at, below, _, sent, _, inr (_, _, _, out))) = absurd (cc)
      by_case (inr (_, out, _)) = absurd (cc)

abbrev pub run_broadcast : Node → Settings → List Instruction → Str → Broadcast
run_broadcast node s instructions payload =
    broadcast_with_retry node s (with_compute_budget node s instructions) payload

module _ (node : Node) (s : Settings) (instructions : List Instruction) (recent : Option Str) where
  send_unprepared :
      (e : Exn)
      → prepare node s instructions recent ≡ err e
      → send node s instructions recent ≡ record { outcome = some (err e); sent = [] }
  unfolding send
  send_unprepared e p = rw (p, send)

  send_unsimulated :
      (payload : Str) (e : Exn)
      → prepare node s instructions recent ≡ ok payload
      → simulate node s payload ≡ err e
      → send node s instructions recent ≡ record { outcome = some (err e); sent = [] }
  unfolding send
  send_unsimulated payload e p q = rw (p, send) (rw q)

  send_stages :
      (payload : Str) (logs : List Str)
      → prepare node s instructions recent ≡ ok payload
      → simulate node s payload ≡ ok logs
      → send node s instructions recent
        ≡ after_broadcast node s logs (run_broadcast node s instructions payload)
  unfolding send
  send_stages payload logs p q = rw (p, send) (rw q)

  abbrev Stages : Type 0
  Stages =
      ((e : Exn) × (send node s instructions recent ≡ record { outcome = some (err e); sent = [] }))
      ⊎ ((payload : Str) × (logs : List Str) × (prepare node s instructions recent ≡ ok payload)
          × (simulate node s payload ≡ ok logs)
          × (send node s instructions recent
              ≡ after_broadcast node s logs (run_broadcast node s instructions payload)))

  send-stages : Stages
  send-stages = by_prepared (prepare node s instructions recent) refl
    where
      by_simulated :
          (payload : Str) (q : Result (List Str))
          → prepare node s instructions recent ≡ ok payload
          → simulate node s payload ≡ q
          → Stages
      by_simulated payload (err e) p q = inl (e, send_unsimulated payload e p q)
      by_simulated payload (ok logs) p q = inr (payload, logs, p, q, send_stages payload logs p q)

      by_prepared : (r : Result Str) → prepare node s instructions recent ≡ r → Stages
      by_prepared (err e) p = inl (e, send_unprepared e p)
      by_prepared (ok payload) p = by_simulated payload (simulate node s payload) p refl

-- With a clock that moves on, `send` ends: it returns a result or raises, whatever the node answers.
pub send_total :
    (node : Node) (s : Settings) (instructions : List Instruction) (recent : Option Str)
    → SleepsHalfSecond node
    → (x : Result TxResult) × ((send node s instructions recent).outcome ≡ some x)
send_total node s instructions recent c = by_stage (send-stages node s instructions recent)
  where
    by_stage :
        Stages node s instructions recent
        → (x : Result TxResult) × ((send node s instructions recent).outcome ≡ some x)
    by_stage (inl (e, is)) = (err e, ap (λ (x : Sending). x.outcome) is)
    by_stage (inr (payload, logs, _, _, is)) =
        rw is (after_broadcast_total node s c logs (run_broadcast node s instructions payload))

abbrev pub PassedSimulation : Node → Settings → Str → Type 0
PassedSimulation node s payload =
    (s.tx_simulation_required ≡ false)
    ⊎ ((sim : Simulation) × (node.simulate_transaction payload ≡ ok sim) × (sim.failed ≡ false))

simulate-ok :
    (node : Node) (s : Settings) (payload : Str) (logs : List Str)
    → simulate node s payload ≡ ok logs
    → PassedSimulation node s payload
unfolding simulate
simulate-ok node s payload logs h = elim (Bool-cases s.tx_simulation_required) [
  | inr off ↦ inl off
  | inl on ↦ inr (by_answer (node.simulate_transaction payload) refl (rw on at h))
]
  where
    by_answer :
        (r : Result Simulation)
        → node.simulate_transaction payload ≡ r
        → (r >>= read_simulation) ≡ ok logs
        → (sim : Simulation) × (node.simulate_transaction payload ≡ ok sim) × (sim.failed ≡ false)
    by_answer (err e) p q = absurd (cc)
    by_answer (ok sim) p q = (sim, p, ground arith)

sent-after_broadcast :
    (node : Node) (s : Settings) (logs : List Str) (b : Broadcast)
    → (after_broadcast node s logs b).sent ≡ b.sent
unfolding after_broadcast
sent-after_broadcast node s logs b = ground arith

-- Where anything was broadcast, the transaction was built, and it had passed the simulation or none
-- is required; what was broadcast is what the retry loop sent.
send-simulated :
    (node : Node) (s : Settings) (instructions : List Instruction) (recent : Option Str)
    → (send node s instructions recent).sent ≢ []
    → (payload : Str) × (prepare node s instructions recent ≡ ok payload)
      × PassedSimulation node s payload
      × ((send node s instructions recent).sent ≡ (run_broadcast node s instructions payload).sent)
send-simulated node s instructions recent h = by_stage (send-stages node s instructions recent)
  where
    by_stage :
        Stages node s instructions recent
        → (payload : Str) × (prepare node s instructions recent ≡ ok payload)
          × PassedSimulation node s payload
          × ((send node s instructions recent).sent
              ≡ (run_broadcast node s instructions payload).sent)
    by_stage (inl (e, is)) = absurd (h (ap (λ (x : Sending). x.sent) is))
    by_stage (inr (payload, logs, p, q, is)) = (
      payload,
      p,
      simulate-ok node s payload logs q,
      ap (λ (x : Sending). x.sent) is ∙ sent-after_broadcast node s logs _,
    )

-- A result of `send` is backed by every stage: the transaction was built and, where a simulation is
-- required, passed it; the retry loop returned the signature, after as many payloads sent as the result
-- counts, at least one and at most the configured number; and a poll for that signature was answered with a
-- status without an error, of the result's slot, whose commitment is finalized, or confirmed where the
-- configured one is not finalized, or processed where processed is configured.
pub send-ok :
    (node : Node) (s : Settings) (instructions : List Instruction) (recent : Option Str)
    (r : TxResult)
    → (send node s instructions recent).outcome ≡ some (ok r)
    → (payload : Str) × (prepare node s instructions recent ≡ ok payload)
      × PassedSimulation node s payload
      × ((run_broadcast node s instructions payload).outcome ≡ ok (r.signature, r.attempts))
      × (length (send node s instructions recent).sent ≡ r.attempts)
      × (1 ≤ r.attempts)
      × (r.attempts ≤ at_least 1 s.tx_retry_max_attempts)
      × WasConfirmed node r.signature s.solana_commitment r.slot
      × (r.status ≡ codes "confirmed")
send-ok node s instructions recent r h = by_stage (send-stages node s instructions recent)
  where
    by_stage :
        Stages node s instructions recent
        → (payload : Str) × (prepare node s instructions recent ≡ ok payload)
          × PassedSimulation node s payload
          × ((run_broadcast node s instructions payload).outcome ≡ ok (r.signature, r.attempts))
          × (length (send node s instructions recent).sent ≡ r.attempts)
          × (1 ≤ r.attempts)
          × (r.attempts ≤ at_least 1 s.tx_retry_max_attempts)
          × WasConfirmed node r.signature s.solana_commitment r.slot
          × (r.status ≡ codes "confirmed")
    by_stage (inl (e, is)) = absurd (cc (ap (λ (x : Sending). x.outcome) is))
    by_stage (inr (payload, logs, p, q, is)) =
        let (out, _, settled, status) =
          after_broadcast-ok node s logs (run_broadcast node s instructions payload) r
            (sym (ap (λ (x : Sending). x.outcome) is) ∙ h) in
        let (count, lo, hi) =
          broadcast-attempts node s (with_compute_budget node s instructions) payload r.signature
            r.attempts out in
        let same = ap (λ (x : Sending). length x.sent) is in
        let kept =
          ap length
            (sent-after_broadcast node s logs (run_broadcast node s instructions payload)) in
        (
          payload,
          p,
          simulate-ok node s payload logs q,
          out,
          same ∙ kept ∙ count,
          lo,
          hi,
          await_confirmation-ok node s r.signature r.slot settled,
          status,
        )
