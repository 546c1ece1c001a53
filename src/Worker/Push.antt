-- ===== src/Worker/Push.antt =====
-- The WebSocket mode of backend/app/services/indexer_worker.py, and the status of the worker.
use bagsvault.Base.{ℕ, suc, Bool, false, List, [], ◌∷◌, Option, none, some, Str}
use bagsvault.Exceptions.{Exn, exn_str}
use bagsvault.Solana.Instruction.{Pubkey}
use bagsvault.Indexer.{MerkleRoot, Sources}
use bagsvault.Indexer.Stream.{Arrival, Stream, subscribe_root_updates}
use bagsvault.Worker.{Worker, is_running}

-- each root, at the time that the worker's clock shows when it is the k-th
unfoldable pub capture : (ℕ → ℕ) → ℕ → List MerkleRoot → Worker → Worker
capture clock k [] w = w
capture clock k (row ∷ rows) w =
    capture clock (suc k) rows (record w { last_sync_at = some (clock k); last_sync_error = none })

-- an exception is the last error; the mode ends with it
unfoldable pub push_ended : Option Exn → Worker → Worker
push_ended none w = w
push_ended (some e) w = record w { last_sync_error = some (exn_str e) }

-- what a stream leaves, in the store and in the worker
unfoldable pub pushed : {M : Type 0} → (ℕ → ℕ) → Worker → Stream M → Worker × M
unfolding capture push_ended
pushed clock w s = (push_ended s.ended_by (capture clock 0 s.roots w), s.store)

-- `run_with_ws`, on the notifications that a subscription gives
unfoldable pub run_with_ws :
    {M : Type 0} → Sources M → (ℕ → ℕ) → (Pubkey → List Arrival) → Worker → M → Worker × M
unfolding pushed
run_with_ws sources clock arrivals w m = pushed clock w (subscribe_root_updates sources m arrivals)

pub record Snapshot : Type 0 where
  pub running : Bool
  pub last_sync_at : Option ℕ
  pub last_sync_error : Option Str

-- `status_snapshot`, of the process's worker
unfoldable pub status_snapshot : Option Worker → Snapshot
unfolding is_running
status_snapshot none = record { running = false; last_sync_at = none; last_sync_error = none }
status_snapshot (some w) = record {
  running = is_running w;
  last_sync_at = w.last_sync_at;
  last_sync_error = w.last_sync_error;
}
