-- ===== src/Solana/Executor/Confirm.antt =====
-- `_await_confirmation` of backend/app/clients/tx_executor.py.
pub mod Polls
pub mod Reached
use bagsvault.Base.{
  ℕ, zero, suc, ◌+◌, ◌*◌, Bool, true, false, List, [], ◌∷◌, Option, none, some, Str, codes, ℤ,
  at_least, leb, if◌then◌else◌,
}
use bagsvault.Exceptions.{Exn, domain, upstream, Result, ok, err}
use bagsvault.Solana.Executor.{Settings, Status, Node, meets_commitment}

-- What one poll finds before the clock is read: an end, or nothing yet.
pub data Poll : Type 0 where
  ends : Result (Option ℕ) → Poll
  waits : Poll

abbrev pub on_chain_error : Exn
on_chain_error = domain upstream (codes "tx confirmation reported on-chain error")

abbrev pub confirm_timeout : Exn
confirm_timeout = domain upstream (codes "tx confirm timeout")

unfoldable pub first_status : List (Option Status) → Option Status
first_status [] = none
first_status (s ∷ _) = s

unfoldable pub read_status : Str → Option Status → Poll
unfolding meets_commitment
read_status target none = waits
read_status target (some status) =
    if status.failed
    then ends (err on_chain_error)
    else if meets_commitment (some status) target
    then ends (ok status.slot)
    else waits

unfoldable pub poll : Str → Result (List (Option Status)) → Poll
unfolding first_status read_status
poll target (err e) = ends (err e)
poll target (ok statuses) = read_status target (first_status statuses)

-- `while True`, on fuel, from the k-th poll on; `none` if the fuel runs out.
unfoldable pub polls : Node → Str → Str → ℕ → ℕ → ℕ → Option (Result (Option ℕ))
polls node signature target deadline zero k = none
polls node signature target deadline (suc fuel) k =
    elim (poll target (node.get_signature_statuses signature k)) [
      | ends r ↦ some r
      | waits ↦ elim (leb deadline (node.monotonic k)) [
        | true ↦ some (err confirm_timeout)
        | false ↦ polls node signature target deadline fuel (suc k)
      ]
    ]

-- Half a second passes between two polls, so two polls a second and one more are enough.
abbrev pub timeout_seconds : Settings → ℕ
timeout_seconds s = at_least 1 s.tx_confirm_timeout_seconds

unfoldable pub await_confirmation : Node → Settings → Str → Option (Result (Option ℕ))
unfolding polls
await_confirmation node s signature =
    polls node signature s.solana_commitment (node.start + 1000 * timeout_seconds s)
      (2 * timeout_seconds s + 1) 0
