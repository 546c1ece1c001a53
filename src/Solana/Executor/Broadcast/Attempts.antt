-- ===== src/Solana/Executor/Broadcast/Attempts.antt =====
-- The retry loop against its description attempt by attempt.
use bagsvault.Base.{
  ℕ, zero, suc, ◌+◌, ◌*◌, ◌^◌, ◌<◌, ◌≡◌, refl, ap, ◌⊎◌, inl, inr, true, false, List, [], ◌∷◌, Str,
  leb, length, arith, at_least,
}
use bagsvault.Exceptions.{Exn, Result, ok, err}
use bagsvault.Solana.Instruction.{Instruction}
use bagsvault.Solana.Classify.{Class, retryable, fatal, exception, classify_rpc_error}
use bagsvault.Solana.Executor.{Settings, Node}
use bagsvault.Solana.Executor.Broadcast.{
  Broadcast, exhausted, refreshed, after_error, after_send, attempts, broadcast_with_retry,
}

-- The payload of the n-th attempt, each made from the one before.
pub payload_at : Node → List Instruction → Str → ℕ → Str
payload_at node instructions payload zero = payload
payload_at node instructions payload (suc n) =
    refreshed node instructions n (payload_at node instructions payload n)

-- The attempt raised an error that is worth a retry.
abbrev pub FailsRetryably : Result Str → Type 0
FailsRetryably r = (e : Exn) × (r ≡ err e) × (classify_rpc_error (exception e) ≡ retryable)

-- All attempts from `a`, `n` of them, failed so.
abbrev pub AllRetryable : Node → List Instruction → Str → ℕ → ℕ → Type 0
AllRetryable node instructions payload a zero = Unit
AllRetryable node instructions payload a (suc n) =
    FailsRetryably (node.send_transaction a (payload_at node instructions payload a))
    × AllRetryable node instructions payload (suc a) n

-- The loop stopped at the j-th attempt, after `d` failures that were worth a retry.
abbrev pub StopsAt : Node → List Instruction → Str → Broadcast → ℕ → ℕ → Type 0
StopsAt node instructions payload b a left =
    (j : ℕ) × (d : ℕ) × (j ≡ a + d)
    × (d < left)
    × AllRetryable node instructions payload a d
    × (length b.sent ≡ suc d)
    × (length b.sleeps ≡ d)
    × (((signature : Str) × (node.send_transaction j (payload_at node instructions payload j)
            ≡ ok signature)
          × (b.outcome ≡ ok (signature, suc j)))
        ⊎ ((e : Exn) × (node.send_transaction j (payload_at node instructions payload j) ≡ err e)
            × (classify_rpc_error (exception e) ≡ fatal)
            × (b.outcome ≡ err e)))

-- Every attempt failed in a way that was worth a retry.
abbrev pub RunsOut : Node → List Instruction → Str → Broadcast → ℕ → ℕ → Type 0
RunsOut node instructions payload b a left =
    AllRetryable node instructions payload a left
    × (b.outcome ≡ err exhausted)
    × (length b.sent ≡ left)

module _ (node : Node) (instructions : List Instruction) (max_attempts backoff : ℕ)
    (first : Str) where
  abbrev loop : ℕ → ℕ → Broadcast
  loop left a =
      attempts node instructions max_attempts backoff left a (payload_at node instructions first a)

  abbrev send : ℕ → Result Str
  send a = node.send_transaction a (payload_at node instructions first a)

  loop_ok :
      (left a : ℕ) (signature : Str)
      → send a ≡ ok signature
      → loop (suc left) a ≡ record {
        outcome = ok (signature, suc a);
        sent = payload_at node instructions first a ∷ [];
        sleeps = [];
      }
  unfolding attempts
  loop_ok left a signature e = rw (e, after_send)

  loop_fatal :
      (left a : ℕ) (x : Exn)
      → send a ≡ err x
      → classify_rpc_error (exception x) ≡ fatal
      → loop (suc left) a
        ≡ record { outcome = err x; sent = payload_at node instructions first a ∷ []; sleeps = [] }
  unfolding attempts
  loop_fatal left a x e c = rw (e, after_send) (rw (c, after_error))

  loop_last :
      (left a : ℕ) (x : Exn)
      → send a ≡ err x
      → classify_rpc_error (exception x) ≡ retryable
      → leb max_attempts (suc a) ≡ true
      → loop (suc left) a ≡ record {
        outcome = err exhausted;
        sent = payload_at node instructions first a ∷ [];
        sleeps = [];
      }
  unfolding attempts
  loop_last left a x e c l = rw (e, after_send) (rw (c, after_error) (rw l))

  loop_retry :
      (left a : ℕ) (x : Exn)
      → send a ≡ err x
      → classify_rpc_error (exception x) ≡ retryable
      → leb max_attempts (suc a) ≡ false
      → loop (suc left) a ≡ record {
        outcome = (loop left (suc a)).outcome;
        sent = payload_at node instructions first a ∷ (loop left (suc a)).sent;
        sleeps = (backoff * 2 ^ a) ∷ (loop left (suc a)).sleeps;
      }
  unfolding attempts payload_at
  loop_retry left a x e c l = rw (e, after_send) (rw (c, after_error) (rw l))

  abbrev Ends : ℕ → ℕ → Type 0
  Ends left a =
      StopsAt node instructions first (loop left a) a left
      ⊎ RunsOut node instructions first (loop left a) a left

  Ends-ok : (left a : ℕ) (signature : Str) → send a ≡ ok signature → Ends (suc left) a
  Ends-ok left a signature e =
      rw (loop_ok left a signature e)
        (inl (a, 0, omega arith, omega arith, tt, refl, refl, inl (signature, e, refl)))

  Ends-fatal :
      (left a : ℕ) (x : Exn)
      → send a ≡ err x
      → classify_rpc_error (exception x) ≡ fatal
      → Ends (suc left) a
  Ends-fatal left a x e c =
      rw (loop_fatal left a x e c)
        (inl (a, 0, omega arith, omega arith, tt, refl, refl, inr (x, e, c, refl)))

  Ends-last :
      (a : ℕ) (x : Exn)
      → send a ≡ err x
      → classify_rpc_error (exception x) ≡ retryable
      → suc a ≡ max_attempts
      → Ends 1 a
  Ends-last a x e c l = rw (loop_last 0 a x e c (ground arith)) (inr (((x, e, c), tt), refl, refl))

  Ends-retry :
      (left a : ℕ) (x : Exn)
      → send a ≡ err x
      → classify_rpc_error (exception x) ≡ retryable
      → leb max_attempts (suc a) ≡ false
      → Ends left (suc a)
      → Ends (suc left) a
  Ends-retry left a x e c l (inl (j, d, at, below, before, n, m, stop)) =
      rw (loop_retry left a x e c l)
        (inl (j, suc d, omega arith, omega arith, ((x, e, c), before), ap suc n, ap suc m, stop))
  Ends-retry left a x e c l (inr (before, out, n)) =
      rw (loop_retry left a x e c l) (inr (((x, e, c), before), out, ap suc n))

  Class-cases : (c : Class) → (c ≡ fatal) ⊎ (c ≡ retryable)
  Class-cases fatal = inl refl
  Class-cases retryable = inr refl

  Ends-err :
      (left a : ℕ) (x : Exn)
      → a + suc left ≡ max_attempts
      → send a ≡ err x
      → Ends left (suc a)
      → Ends (suc left) a
  Ends-err left a x h e rest = elim (Class-cases (classify_rpc_error (exception x))) [
    | inl c ↦ Ends-fatal left a x e c
    | inr c ↦ by_left left h rest c
  ]
    where
      by_left :
          (k : ℕ)
          → a + suc k ≡ max_attempts
          → Ends k (suc a)
          → classify_rpc_error (exception x) ≡ retryable
          → Ends (suc k) a
      by_left zero h' rest' c = Ends-last a x e c (omega arith)
      by_left (suc k) h' rest' c = Ends-retry (suc k) a x e c (ground arith) rest'

  Result-cases : (r : Result Str) → ((s : Str) × (r ≡ ok s)) ⊎ ((x : Exn) × (r ≡ err x))
  Result-cases (ok s) = inl (s, refl)
  Result-cases (err x) = inr (x, refl)

  attempts-cases : (left a : ℕ) → a + left ≡ max_attempts → Ends left a
  attempts-cases zero a h = inr (tt, unfold attempts in refl, unfold attempts in refl)
  attempts-cases (suc left) a h =
      let rest : Ends left (suc a) = attempts-cases left (suc a) (omega arith) in
      elim (Result-cases (send a)) [
        | inl (s, e) ↦ Ends-ok left a s e
        | inr (x, e) ↦ Ends-err left a x h e rest
      ]

-- Which errors end the loop, and with what: either an attempt j, below the number of attempts, is the
-- first that succeeds or that fails with a fatal error, and its answer is the outcome; or every one
-- failed in a way that is worth a retry, and the outcome is the error of exhaustion. The number of
-- payloads sent is that of the attempts made.
pub broadcast-cases :
    (node : Node) (s : Settings) (instructions : List Instruction) (payload : Str)
    → let max_attempts = at_least 1 s.tx_retry_max_attempts in
      let b = broadcast_with_retry node s instructions payload in
      StopsAt node instructions payload b 0 max_attempts
      ⊎ RunsOut node instructions payload b 0 max_attempts
unfolding broadcast_with_retry payload_at
broadcast-cases node s instructions payload =
    attempts-cases node instructions (at_least 1 s.tx_retry_max_attempts)
      (at_least 0 s.tx_retry_initial_backoff_ms) payload (at_least 1 s.tx_retry_max_attempts) 0
      (omega arith)
