-- ===== src/Worker.antt =====
-- backend/app/services/indexer_worker.py: the background task that calls the indexer. `stop` waits for the
-- task that it cancels, so another coroutine may run between its two parts.
pub mod Lifecycle
pub mod Push
use bagsvault.Base.{
  ℕ, suc, ◌-◌, ℤ, pos, negsuc, Bool, true, false, Option, none, some, Str, codes, ltb,
  if◌then◌else◌,
}
use bagsvault.Exceptions.{Exn, raised, value_error, exn_str, Result, ok, err}

-- `_task`: it runs, has been asked to end and still runs, or is done.
pub data Task : Type 0 where
  running cancelling finished : Task

pub record Worker : Type 0 where
  pub interval : ℕ
  pub task : Option Task
  pub last_sync_at : Option ℕ
  pub last_sync_error : Option Str
  -- how many calls of `stop` wait for a task
  pub stopping : ℕ
  -- how many loops run
  pub loops : ℕ

abbrev pub new_worker : ℕ → Worker
new_worker n = record {
  interval = n;
  task = none;
  last_sync_at = none;
  last_sync_error = none;
  stopping = 0;
  loops = 0;
}

-- the constructor
unfoldable pub create : ℤ → Result Worker
create (negsuc n) = err (raised value_error (codes "interval_seconds must be positive"))
create (pos n) =
    if ltb 0 n
    then ok (new_worker n)
    else err (raised value_error (codes "interval_seconds must be positive"))

-- `task is not None and not task.done()`
abbrev pub is_live : Option Task → Bool
is_live none = false
is_live (some running) = true
is_live (some cancelling) = true
is_live (some finished) = false

unfoldable pub is_running : Worker → Bool
is_running w = is_live w.task

abbrev pub spawned : Worker → Worker
spawned w = record w { task = some running; loops = suc w.loops }

unfoldable pub start : Worker → Worker
unfolding is_running
start w = if is_running w then w else spawned w

unfoldable pub begin_task : Option Task → Worker → Worker
begin_task none w = w
begin_task (some running) w = record w { task = some cancelling; stopping = suc w.stopping }
begin_task (some cancelling) w = record w { stopping = suc w.stopping }
begin_task (some finished) w = record w { task = none }

-- `stop`, up to `await task`, or to its end where there is nothing to wait for
unfoldable pub begin_stop : Worker → Worker
unfolding begin_task
begin_stop w = begin_task w.task w

-- `self._task = None`, after the wait
unfoldable pub end_stop : Worker → Worker
end_stop w = record w { task = none; stopping = w.stopping - 1 }

-- the loop of a cancelled task ends
unfoldable pub cancelled : Worker → Worker
cancelled w = record w { task = some finished; loops = w.loops - 1 }

-- `_tick`, where `sync_now` gives `r` and the clock shows `now`
unfoldable pub tick : ℕ → Result (Unit {0}) → Worker → Worker
tick now (ok u) w = record w { last_sync_at = some now; last_sync_error = none }
tick now (err e) w = record w { last_sync_error = some (exn_str e) }
