-- ===== src/Solana/Executor/Broadcast/Pauses.antt =====
-- The exponential backoff of the retry loop.
use bagsvault.Base.{
  ℕ, ℤ, zero, suc, ◌+◌, ◌*◌, ◌^◌, ◌≤◌, ◌≡◌, refl, ap, Bool, true, false, List, [], ◌∷◌, Str, leb,
  length, arith, at_least, pos, negsuc,
}
use bagsvault.Exceptions.{Exn, Result, ok, err}
use bagsvault.Solana.Instruction.{Instruction}
use bagsvault.Solana.Classify.{Class, retryable, fatal, exception, classify_rpc_error}
use bagsvault.Solana.Executor.{Settings, Node}
use bagsvault.Solana.Executor.Broadcast.{
  Broadcast, refreshed, after_error, after_send, attempts, broadcast_with_retry,
}

-- `n` pauses, each twice the one before, from that of attempt `a` on.
unfoldable pub pauses : (backoff a n : ℕ) → List ℕ
pauses backoff a zero = []
pauses backoff a (suc n) = backoff * 2 ^ a ∷ pauses backoff (suc a) n

-- One payload more than pauses, and these are the doubling ones.
abbrev pub Paced : ℕ → ℕ → Broadcast → Type 0
Paced backoff a b = (n : ℕ) × (b.sleeps ≡ pauses backoff a n) × (length b.sent ≡ suc n)

after_error-Paced :
    (c : Class) (is_last : Bool) (e : Exn) (payload : Str) (backoff a : ℕ) (rest : Broadcast)
    → (is_last ≡ false → Paced backoff (suc a) rest)
    → Paced backoff a (after_error c is_last e payload (backoff * 2 ^ a) rest)
unfolding after_error pauses
after_error-Paced fatal is_last e payload backoff a rest h = (0, refl, refl)
after_error-Paced retryable true e payload backoff a rest h = (0, refl, refl)
after_error-Paced retryable false e payload backoff a rest h =
    let (n, slept, sent) = h refl in (suc n, ap (λ x. backoff * 2 ^ a ∷ x) slept, ap suc sent)

after_send-Paced :
    (r : Result Str) (is_last : Bool) (payload : Str) (backoff a : ℕ) (rest : Broadcast)
    → (is_last ≡ false → Paced backoff (suc a) rest)
    → Paced backoff a (after_send r a is_last payload (backoff * 2 ^ a) rest)
unfolding after_send pauses
after_send-Paced (ok s) is_last payload backoff a rest h = (0, refl, refl)
after_send-Paced (err e) is_last payload backoff a rest h =
    after_error-Paced (classify_rpc_error (exception e)) is_last e payload backoff a rest h

not_last : (n a : ℕ) → a + 1 ≡ n → leb n (suc a) ≡ true
not_last n a h = ground arith

module _ (node : Node) (instructions : List Instruction) (max_attempts backoff : ℕ) where
  attempts-Paced :
      (left a : ℕ) (payload : Str)
      → a + suc left ≡ max_attempts
      → Paced backoff a (attempts node instructions max_attempts backoff (suc left) a payload)
  unfolding attempts
  attempts-Paced zero a payload h =
      after_send-Paced (node.send_transaction a payload) (leb max_attempts (suc a)) payload backoff
        a _ λ e. let t = not_last max_attempts a h in absurd (cc)
  attempts-Paced (suc left) a payload h =
      after_send-Paced (node.send_transaction a payload) (leb max_attempts (suc a)) payload backoff
        a _
        λ e. attempts-Paced left (suc a) (refreshed node instructions a payload) (omega (arith, h))

  attempts-all :
      (n : ℕ) (payload : Str)
      → 1 ≤ n
      → n ≡ max_attempts
      → Paced backoff 0 (attempts node instructions max_attempts backoff n 0 payload)
  attempts-all zero payload some_left h = absurd (omega arith)
  attempts-all (suc left) payload some_left h = attempts-Paced left 0 payload (omega (arith, h))

one_at_least : (z : ℤ) → 1 ≤ at_least 1 z
unfolding at_least
one_at_least (pos n) = omega arith
one_at_least (negsuc n) = omega arith

-- A run of the retry loop sleeps between its payloads, once before each but the first: for n + 1 payloads
-- the pauses are n, the first is the configured one, and each of the others is twice the one before.
pub sleeps_double :
    (node : Node) (s : Settings) (instructions : List Instruction) (payload : Str)
    → let b = broadcast_with_retry node s instructions payload in
      let backoff = at_least 0 s.tx_retry_initial_backoff_ms in
      (n : ℕ) × (b.sleeps ≡ pauses backoff 0 n) × (length b.sent ≡ suc n)
unfolding broadcast_with_retry
sleeps_double node s instructions payload =
    attempts-all node instructions (at_least 1 s.tx_retry_max_attempts)
      (at_least 0 s.tx_retry_initial_backoff_ms) (at_least 1 s.tx_retry_max_attempts) payload
      (one_at_least s.tx_retry_max_attempts) refl
