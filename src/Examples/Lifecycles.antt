-- ===== src/Examples/Lifecycles.antt =====
-- A worker that is started and stopped, and the text of an error.
use bagsvault.Base.{pos, ◌≤◌, false, some, Str, codes, ◌≡◌, ◌↔◌, refl, arith}
use bagsvault.Base.Occurs.{AnyOccurs}
use bagsvault.Exceptions.{domain, upstream}
use bagsvault.Worker.{
  finished, Worker, new_worker, create, start, begin_stop, cancelled, end_stop, is_running,
}
use bagsvault.Worker.Lifecycle.{
  Reachable, created, then_step, starts, stops, ends, Reachable-one_loop, start-stop_orphan,
}
use bagsvault.Solana.Classify.{
  exception, classify_rpc_error, retryable, retryable_markers, fatal_markers,
}
use bagsvault.Solana.Classify.Markers.{text_of, classify_rpc_error_iff}

-- started, asked to stop, and ended
abbrev waited : Worker
waited = cancelled (begin_stop (start (new_worker 5)))

reached : Reachable (pos 5) waited
unfolding create start begin_stop is_running bagsvault.Worker.begin_task
reached =
    then_step
      (then_step (then_step (created refl) (starts (new_worker 5) refl))
        (stops (start (new_worker 5))))
      (ends (begin_stop (start (new_worker 5))) refl)

Reachable-one_loop_example : (waited.loops ≤ 1) × (is_running waited ≡ false → waited.loops ≡ 0)
Reachable-one_loop_example = Reachable-one_loop reached

abbrev done : Worker
done = record (new_worker 5) { task = some finished; stopping = 1 }

start-stop_orphan_example :
    (is_running (end_stop (start done)) ≡ false)
    × ((end_stop (start done)).loops ≡ 1)
    × ((start (end_stop (start done))).loops ≡ 2)
start-stop_orphan_example = start-stop_orphan done refl (omega arith) refl

abbrev late : Str
late = codes "BlockhashNotFound"

classify_rpc_error_iff_example :
    (classify_rpc_error (exception (domain upstream late)) ≡ retryable) ↔ (
      (AnyOccurs fatal_markers (text_of (exception (domain upstream late))) → ⊥)
      × AnyOccurs retryable_markers (text_of (exception (domain upstream late))))
classify_rpc_error_iff_example = classify_rpc_error_iff (exception (domain upstream late))
