-- ===== src/Solana/Executor/Broadcast.antt =====
-- `_broadcast_with_retry` of backend/app/clients/tx_executor.py.
pub mod Attempts
pub mod Pauses
use bagsvault.Base.{
  ℕ, zero, suc, ◌+◌, ◌*◌, ◌^◌, Bool, true, false, List, [], ◌∷◌, Option, none, some, Str, codes, ℤ,
  at_least, leb, if◌then◌else◌,
}
use bagsvault.Exceptions.{Exn, domain, upstream, Result, ok, err, ◌>>=◌}
use bagsvault.Solana.Instruction.{Instruction}
use bagsvault.Solana.Classify.{Class, retryable, fatal, exception, classify_rpc_error}
use bagsvault.Solana.Executor.{Settings, Node, coerce_blockhash, build_signed_b64}

-- What a run of the loop does: the payloads that it sent and the pauses in milliseconds, in order,
-- and the signature with `_last_attempts_used`, or what it raises.
pub record Broadcast : Type 0 where
  pub outcome : Result (Str × ℕ)
  pub sent : List Str
  pub sleeps : List ℕ

abbrev pub exhausted : Exn
exhausted = domain upstream (codes "tx broadcast exhausted retries")

rebuilt : Node → List Instruction → ℕ → Result Str
unfolding coerce_blockhash build_signed_b64
rebuilt node instructions k = do
  raw ← node.get_recent_blockhash k
  blockhash ← coerce_blockhash raw
  build_signed_b64 node k instructions blockhash

-- A new blockhash and a new signature; the old payload stays where either fails.
unfoldable pub refreshed : Node → List Instruction → ℕ → Str → Str
unfolding rebuilt
refreshed node instructions attempt payload = elim (rebuilt node instructions (suc attempt)) [
  | ok fresh ↦ fresh
  | err _ ↦ payload
]

-- the branches of the `except` block
after_error : Class → Bool → Exn → Str → ℕ → Broadcast → Broadcast
after_error fatal is_last e payload pause rest = record {
  outcome = err e;
  sent = payload ∷ [];
  sleeps = [];
}
after_error retryable true e payload pause rest = record {
  outcome = err exhausted;
  sent = payload ∷ [];
  sleeps = [];
}
after_error retryable false e payload pause rest = record {
  outcome = rest.outcome;
  sent = payload ∷ rest.sent;
  sleeps = pause ∷ rest.sleeps;
}

after_send : Result Str → ℕ → Bool → Str → ℕ → Broadcast → Broadcast
unfolding after_error
after_send (ok signature) attempt is_last payload pause rest = record {
  outcome = ok (signature, suc attempt);
  sent = payload ∷ [];
  sleeps = [];
}
after_send (err e) attempt is_last payload pause rest =
    after_error (classify_rpc_error (exception e)) is_last e payload pause rest

module _ (node : Node) (instructions : List Instruction) (max_attempts backoff : ℕ) where
  -- `left` rounds of `for attempt in range(max_attempts)` from `attempt` on
  unfoldable pub attempts : ℕ → ℕ → Str → Broadcast
  unfolding after_send
  attempts zero attempt payload = record { outcome = err exhausted; sent = []; sleeps = [] }
  attempts (suc left) attempt payload =
      let rest = attempts left (suc attempt) (refreshed node instructions attempt payload) in
      after_send (node.send_transaction attempt payload) attempt (leb max_attempts (suc attempt))
        payload (backoff * 2 ^ attempt) rest

unfoldable pub broadcast_with_retry : Node → Settings → List Instruction → Str → Broadcast
unfolding attempts
broadcast_with_retry node s instructions payload =
    let max_attempts = at_least 1 s.tx_retry_max_attempts in
    let backoff = at_least 0 s.tx_retry_initial_backoff_ms in
    attempts node instructions max_attempts backoff max_attempts 0 payload
