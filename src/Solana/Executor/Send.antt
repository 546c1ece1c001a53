-- ===== src/Solana/Executor/Send.antt =====
-- `TxExecutor.send` of backend/app/clients/tx_executor.py.
pub mod Outcome
use bagsvault.Base.{
  ℕ, suc, Bool, true, false, List, [], ◌∷◌, Option, none, some, Str, codes, if◌then◌else◌,
}
use bagsvault.Exceptions.{Exn, domain, upstream, Result, ok, err, ◌>>=◌}
use bagsvault.Solana.Instruction.{Instruction}
use bagsvault.Solana.Executor.{
  Settings, Simulation, Node, coerce_blockhash, with_compute_budget, build_signed_b64,
}
use bagsvault.Solana.Executor.Broadcast.{Broadcast, broadcast_with_retry}
use bagsvault.Solana.Executor.Confirm.{await_confirmation}

pub record TxResult : Type 0 where
  pub signature : Str
  pub status : Str
  pub attempts : ℕ
  pub slot : Option ℕ
  pub simulation_logs : List Str

-- What a call does: the payloads broadcast, and what it returns or raises; `none` would be a wait
-- that does not end.
pub record Sending : Type 0 where
  pub outcome : Option (Result TxResult)
  pub sent : List Str

-- `recent_blockhash or _coerce_blockhash(await ...)`
chosen_blockhash : Node → Option Str → Result Str
unfolding coerce_blockhash
chosen_blockhash node none = do raw ← node.get_recent_blockhash 0; coerce_blockhash raw
chosen_blockhash node (some []) = do raw ← node.get_recent_blockhash 0; coerce_blockhash raw
chosen_blockhash node (some (c ∷ cs)) = ok (c ∷ cs)

abbrev pub simulation_failed : Exn
simulation_failed = domain upstream (codes "tx simulation failed")

read_simulation : Simulation → Result (List Str)
read_simulation sim = if sim.failed then err simulation_failed else ok sim.logs

unfoldable pub simulate : Node → Settings → Str → Result (List Str)
unfolding read_simulation
simulate node s payload =
    if s.tx_simulation_required
    then (do sim ← node.simulate_transaction payload; read_simulation sim)
    else ok []

unfoldable pub prepare : Node → Settings → List Instruction → Option Str → Result Str
unfolding chosen_blockhash
prepare node s instructions recent = do
  blockhash ← chosen_blockhash node recent
  build_signed_b64 node 0 (with_compute_budget node s instructions) blockhash

confirmed : Str → ℕ → List Str → Result (Option ℕ) → Result TxResult
confirmed signature attempts logs (err e) = err e
confirmed signature attempts logs (ok slot) = ok (record {
  signature = signature;
  status = codes "confirmed";
  attempts = attempts;
  slot = slot;
  simulation_logs = logs;
})

confirm_after : Str → ℕ → List Str → Option (Result (Option ℕ)) → Option (Result TxResult)
unfolding confirmed
confirm_after signature attempts logs none = none
confirm_after signature attempts logs (some r) = some (confirmed signature attempts logs r)

unfoldable pub after_broadcast : Node → Settings → List Str → Broadcast → Sending
unfolding confirm_after
after_broadcast node s logs b = elim b.outcome [
  | err e ↦ record { outcome = some (err e); sent = b.sent }
  | ok (signature, attempts) ↦ record {
    outcome = confirm_after signature attempts logs (await_confirmation node s signature);
    sent = b.sent;
  }
]

abbrev nothing_sent : Exn → Sending
nothing_sent e = record { outcome = some (err e); sent = [] }

unfoldable pub send : Node → Settings → List Instruction → Option Str → Sending
unfolding after_broadcast
send node s instructions recent = elim (prepare node s instructions recent) [
  | err e ↦ nothing_sent e
  | ok payload ↦ elim (simulate node s payload) [
    | err e ↦ nothing_sent e
    | ok logs ↦
        after_broadcast node s logs
          (broadcast_with_retry node s (with_compute_budget node s instructions) payload)
  ]
]
