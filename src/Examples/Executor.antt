-- ===== src/Examples/Executor.antt =====
-- The executor, the classification of errors and the signer.
use bagsvault.Base.{
  ap, sym, ◌∙◌, eq_str, eq_str_iff, Bool-cases, if◌then◌else◌, ℕ, zero, suc, ◌*◌, ◌≤◌, ◌<◌, pos,
  true, false, List, [], ◌∷◌, Option, none, some, Str, codes, ◌≡◌, ◌≢◌, ◌⊎◌, refl, length, at_least,
  arith, inl, inr,
}
use bagsvault.Json.{str}
use bagsvault.Exceptions.{Exn, domain, raised, value_error, upstream, Result, ok, err}
use bagsvault.Solana.Instruction.{Bytes, Pubkey}
use bagsvault.Solana.Classify.{classify_rpc_error}
use bagsvault.Solana.Executor.{Settings, Node, with_compute_budget}
use bagsvault.Solana.Executor.Broadcast.{broadcast_with_retry}
use bagsvault.Solana.Executor.Broadcast.Attempts.{StopsAt, RunsOut, broadcast-cases}
use bagsvault.Solana.Executor.Broadcast.Pauses.{pauses, sleeps_double}
use bagsvault.Solana.Executor.Confirm.{timeout_seconds, await_confirmation}
use bagsvault.Solana.Executor.Confirm.Polls.{SleepsHalfSecond}
use bagsvault.Solana.Executor.Send.{TxResult, prepare, send}
use bagsvault.Solana.Executor.Confirm.Reached.{WasConfirmed}
use bagsvault.Solana.Executor.Send.Outcome.{PassedSimulation, run_broadcast, send_total, send-ok}
use bagsvault.Solana.Signer.{Solders, Signer, missing, pubkey_obj, build_and_sign}
use bagsvault.Solana.Signer.Rotation.{RefusesOthers, IsPool, AreDistinct, build_and_sign-pool}

-- the first attempt is answered with too many requests
answer_at : ℕ → Str → Result Str
answer_at zero payload = err (domain upstream (codes "Solana RPC returned HTTP 429."))
answer_at (suc k) payload = ok (codes "sig")

unfoldable node : Node
unfolding answer_at
node = record {
  get_recent_blockhash = λ k. ok (str (codes "h"));
  build_and_sign = λ k ixs hash. ok [];
  sign_again = none;
  simulate_transaction = λ payload. ok (record { failed = false; logs = [] });
  send_transaction = answer_at;
  get_signature_statuses = λ signature k. ok (
      some
        (record { failed = false; confirmation_status = some (codes "finalized"); slot = some 8 })
      ∷ []);
  start = 0;
  monotonic = λ k. 500 * k;
  set_compute_unit_limit = λ z. record { program_id = []; accounts = []; body = [] };
  set_compute_unit_price = λ z. record { program_id = []; accounts = []; body = [] };
}

abbrev settings : Settings
settings = record {
  tx_simulation_required = true;
  tx_priority_fee_microlamports = pos 0;
  tx_retry_max_attempts = pos 3;
  tx_retry_initial_backoff_ms = pos 100;
  tx_confirm_timeout_seconds = pos 2;
  solana_commitment = codes "confirmed";
  relayer_max_compute_units = pos 0;
}

ticks : SleepsHalfSecond node
unfolding node
ticks = record { begins = omega arith; passes = λ k. omega arith }

abbrev result : TxResult
result = record {
  signature = codes "sig";
  status = codes "confirmed";
  attempts = 2;
  slot = some 8;
  simulation_logs = [];
}

is_sent : (send node settings [] none).outcome ≡ some (ok result)
unfolding send prepare node bagsvault.Solana.Executor.build_signed_b64
    bagsvault.Solana.Executor.Send.simulate broadcast_with_retry at_least classify_rpc_error
    await_confirmation bagsvault.Solana.Executor.Confirm.poll
is_sent = refl

different : (m n : ℕ) → m < n → m ≢ n
different m n l h = omega arith

broadcast-cases_example :
    StopsAt node [] [] (broadcast_with_retry node settings [] []) 0 3
    ⊎ RunsOut node [] [] (broadcast_with_retry node settings [] []) 0 3
unfolding at_least
broadcast-cases_example = broadcast-cases node settings [] []

sleeps_double_example :
    (n : ℕ) × ((broadcast_with_retry node settings [] []).sleeps ≡ pauses 100 0 n)
    × (length (broadcast_with_retry node settings [] []).sent ≡ suc n)
unfolding at_least
sleeps_double_example = sleeps_double node settings [] []

send_total_example : (x : Result TxResult) × ((send node settings [] none).outcome ≡ some x)
send_total_example = send_total node settings [] none ticks

send-ok_example :
    (payload : Str) × (prepare node settings [] none ≡ ok payload)
    × PassedSimulation node settings payload
    × ((run_broadcast node settings [] payload).outcome ≡ ok (codes "sig", 2))
    × (length (send node settings [] none).sent ≡ 2)
    × (1 ≤ 2)
    × (2 ≤ 3)
    × WasConfirmed node (codes "sig") (codes "confirmed") (some 8)
    × (codes "confirmed" ≡ codes "confirmed")
unfolding at_least
send-ok_example = send-ok node settings [] none result is_sent

-- A keypair is its public key, and signs for itself alone.
abbrev solders : Solders Bytes (Unit {0})
solders = record {
  from_bytes = some;
  pubkey = λ k. k;
  hash_from_string = λ s. some tt;
  compile_and_sign = λ k payer ixs h.
      if eq_str k payer then ok [] else err (raised value_error (codes "not enough signers"));
}

refuses : RefusesOthers solders
refuses k payer ixs h differ = elim (Bool-cases (eq_str k payer)) [
  | inl e ↦ absurd (differ ((eq_str_iff k payer).0 e))
  | inr e ↦ (raised value_error (codes "not enough signers"), rw e)
]

abbrev pool : List Bytes
pool = (1 ∷ []) ∷ (2 ∷ []) ∷ []

abbrev signer : Signer Bytes
signer = record {
  configured_path = missing;
  configured_paths = missing ∷ missing ∷ [];
  keypair = none;
  keypairs = some pool;
  rotation_index = 0;
}

is_pool : IsPool solders pool signer
is_pool = record { configured = λ h. absurd (cc); loaded = refl; within = omega arith }

first_byte : Bytes → ℕ
first_byte [] = 0
first_byte (b ∷ bs) = b

first_of : Option Bytes → ℕ
unfolding first_byte
first_of none = 0
first_of (some k) = first_byte k

distinct : AreDistinct solders pool
unfolding first_of
distinct zero zero a b ea eb differ same = differ refl
distinct zero (suc zero) a b ea eb differ same =
    different 1 2 (omega arith) (ap first_of (ea ∙ (ap some same ∙ sym eb)))
distinct zero (suc (suc j)) a b ea eb differ same = absurd (cc)
distinct (suc zero) zero a b ea eb differ same =
    different 1 2 (omega arith) (ap first_of (eb ∙ (ap some (sym same) ∙ sym ea)))
distinct (suc zero) (suc zero) a b ea eb differ same = differ refl
distinct (suc zero) (suc (suc j)) a b ea eb differ same = absurd (cc)
distinct (suc (suc i)) j a b ea eb differ same = absurd (cc)

build_and_sign-pool_example :
    (payer : Pubkey) × ((pubkey_obj solders signer).0 ≡ ok payer)
    × ((e : Exn) × ((build_and_sign solders (pubkey_obj solders signer).1 [] [] (some payer)).0
          ≡ err e))
build_and_sign-pool_example =
    build_and_sign-pool solders (1 ∷ []) ((2 ∷ []) ∷ []) signer [] [] refuses is_pool (omega arith)
      distinct
