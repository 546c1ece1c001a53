-- ===== src/Solana/Executor.antt =====
-- `TxExecutor` of backend/app/clients/tx_executor.py. What the RPC node, the signer and the clock
-- answer is given by the attempt, or by the poll, at which they are asked. Times are milliseconds.
pub mod Broadcast
pub mod Confirm
pub mod Send
use bagsvault.Base.{
  ℕ, zero, suc, ◌+◌, ◌*◌, ◌^◌, ◌≡◌, Bool, true, false, List, [], ◌∷◌, ◌++◌, Option, none, some, Str,
  codes, is_empty, eq_str, ℤ, pos, negsuc, at_least, ltb, leb, if◌then◌else◌,
}
use bagsvault.Base.Base64.{b64encode}
use bagsvault.Json.{Json, str, obj, get_field}
use bagsvault.Exceptions.{Exn, domain, raised, upstream, Result, ok, err, exn_str, ◌>>=◌}
use bagsvault.Solana.Instruction.{Instruction, Bytes}
use bagsvault.Solana.Classify.{Class, retryable, fatal, exception, classify_rpc_error}

-- The slice of `Settings` that the executor reads.
pub record Settings : Type 0 where
  pub tx_simulation_required : Bool
  pub tx_priority_fee_microlamports : ℤ
  pub tx_retry_max_attempts : ℤ
  pub tx_retry_initial_backoff_ms : ℤ
  pub tx_confirm_timeout_seconds : ℤ
  pub solana_commitment : Str
  pub relayer_max_compute_units : ℤ

-- An entry of `getSignatureStatuses`: whether `err` is set, `confirmationStatus` if it is a text,
-- and `slot` if it is a number.
pub record Status : Type 0 where
  pub failed : Bool
  pub confirmation_status : Option Str
  pub slot : Option ℕ

-- The result of `simulateTransaction`: whether `err` is set, and the log lines.
pub record Simulation : Type 0 where
  pub failed : Bool
  pub logs : List Str

pub record Node : Type 0 where
  pub get_recent_blockhash : ℕ → Result Json
  pub build_and_sign : ℕ → List Instruction → Str → Result Bytes
  -- signing once more with `additional_signers`, where there are any
  pub sign_again : Option (Bytes → Result Bytes)
  pub simulate_transaction : Str → Result Simulation
  pub send_transaction : ℕ → Str → Result Str
  pub get_signature_statuses : Str → ℕ → Result (List (Option Status))
  -- the clock when the wait begins, and at each poll
  pub start : ℕ
  pub monotonic : ℕ → ℕ
  pub set_compute_unit_limit : ℤ → Instruction
  pub set_compute_unit_price : ℤ → Instruction

unfoldable pub coerce_blockhash : Json → Result Str
unfolding get_field
coerce_blockhash (str s) = ok s
coerce_blockhash (obj fields) = elim (get_field (codes "blockhash") fields) [
  | some (str s) ↦ ok s
  | _ ↦ err (domain upstream (codes "Solana RPC returned an unexpected blockhash payload."))
]
coerce_blockhash _ =
    err (domain upstream (codes "Solana RPC returned an unexpected blockhash payload."))

unfoldable pub commitment_rank : Str → Option ℕ
unfolding eq_str
commitment_rank s =
    if eq_str s (codes "processed")
    then some 0
    else if eq_str s (codes "confirmed")
    then some 1
    else if eq_str s (codes "finalized")
    then some 2
    else none

-- `get(target, 1)` against `get(actual, -1)`
unfoldable pub rank_meets : Option ℕ → Option ℕ → Bool
rank_meets none target = false
rank_meets (some actual) none = leb 1 actual
rank_meets (some actual) (some target) = leb target actual

unfoldable pub meets_commitment : Option Status → Str → Bool
unfolding commitment_rank rank_meets
meets_commitment none target = false
meets_commitment (some status) target = elim status.confirmation_status [
  | none ↦ false
  | some actual ↦ rank_meets (commitment_rank actual) (commitment_rank target)
]

is_positive : ℤ → Bool
is_positive (pos n) = ltb 0 n
is_positive (negsuc n) = false

unfoldable pub with_compute_budget : Node → Settings → List Instruction → List Instruction
unfolding is_positive
with_compute_budget node s instructions =
    let limit =
      if is_positive s.relayer_max_compute_units
      then node.set_compute_unit_limit s.relayer_max_compute_units ∷ []
      else [] in
    let price =
      if is_positive s.tx_priority_fee_microlamports
      then node.set_compute_unit_price s.tx_priority_fee_microlamports ∷ []
      else [] in
    limit ++ (price ++ instructions)

-- `except UpstreamError: raise`, and any other exception becomes an `UpstreamError`
sign_error : Exn → Exn
sign_error (domain upstream message) = domain upstream message
sign_error _ = domain upstream (codes "Failed to build and sign transaction.")

-- what the second signing raises, nothing catches here
signed_again : Option (Bytes → Result Bytes) → Bytes → Result Bytes
signed_again none bytes = ok bytes
signed_again (some f) bytes = f bytes

unfoldable pub build_signed_b64 : Node → ℕ → List Instruction → Str → Result Str
unfolding sign_error signed_again
build_signed_b64 node k instructions blockhash =
    elim (node.build_and_sign k instructions blockhash) [
      | ok bytes ↦ (do full ← signed_again node.sign_again bytes; ok (b64encode full))
      | err e ↦ err (sign_error e)
    ]
