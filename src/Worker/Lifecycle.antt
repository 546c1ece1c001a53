-- ===== src/Worker/Lifecycle.antt =====
-- The runs of a worker as steps, and how many loops there are.
use bagsvault.Base.{
  ℕ, ◌≤◌, ℤ, pos, negsuc, false, Option, none, some, ◌≡◌, refl, ◌∙◌, ap, inl, inr, ltb, arith,
  Bool-cases,
}
use bagsvault.Exceptions.{Result, ok, err}
use bagsvault.Worker.{
  Task, running, cancelling, finished, Worker, create, new_worker, is_live, is_running, start,
  begin_task, begin_stop, end_stop, cancelled, tick,
}

-- A step, where no `start` comes while a `stop` waits.
pub data Step : Worker → Worker → Type 0 where
  starts : (w : Worker) → w.stopping ≡ 0 → Step w (start w)
  stops : (w : Worker) → Step w (begin_stop w)
  ends : (w : Worker) → w.task ≡ some cancelling → Step w (cancelled w)
  returns : (w : Worker) → 1 ≤ w.stopping → is_live w.task ≡ false → Step w (end_stop w)
  ticks : (w : Worker) (now : ℕ) (r : Result (Unit {0})) → Step w (tick now r w)

pub data Reachable (interval : ℤ) : Worker → Type 0 where
  created : {w : Worker} → create interval ≡ ok w → Reachable interval w
  then_step : {v w : Worker} → Reachable interval v → Step v w → Reachable interval w

-- The loops that run are those of the task.
loops_of : Option Task → ℕ
loops_of none = 0
loops_of (some running) = 1
loops_of (some cancelling) = 1
loops_of (some finished) = 0

IsSound : Worker → Type 0
IsSound w = w.loops ≡ loops_of w.task

IsSound-created : (w v : Worker) → v.task ≡ none → v.loops ≡ 0 → v ≡ w → IsSound w
unfolding IsSound loops_of
IsSound-created w v t l h = rw (← h) (rw (t) l)

create-IsSound : (interval : ℤ) (w : Worker) → create interval ≡ ok w → IsSound w
unfolding create
create-IsSound (negsuc n) w h = absurd (cc)
create-IsSound (pos n) w h = elim (Bool-cases (ltb 0 n)) [
  | inl e ↦
      let h' = rw e at h in
      let is : new_worker n ≡ w = cc in IsSound-created w (new_worker n) refl refl is
  | inr e ↦ let h' = rw e at h in absurd (cc)
]

idle_loops : (t : Option Task) → is_live t ≡ false → loops_of t ≡ 0
unfolding loops_of
idle_loops none h = refl
idle_loops (some running) h = absurd (cc)
idle_loops (some cancelling) h = absurd (cc)
idle_loops (some finished) h = refl

start-IsSound : (w : Worker) → IsSound w → IsSound (start w)
unfolding IsSound start is_running loops_of
start-IsSound w h = elim (Bool-cases (is_live w.task)) [
  | inl e ↦ rw e h
  | inr e ↦ rw e (rw (h, idle_loops w.task e) refl)
]

begin_task-IsSound :
    (t : Option Task) (w : Worker) → w.task ≡ t → IsSound w → IsSound (begin_task t w)
unfolding IsSound begin_task loops_of
begin_task-IsSound none w e h = h
begin_task-IsSound (some running) w e h = h ∙ ap loops_of e
begin_task-IsSound (some cancelling) w e h = h
begin_task-IsSound (some finished) w e h = h ∙ ap loops_of e

begin_stop-IsSound : (w : Worker) → IsSound w → IsSound (begin_stop w)
unfolding begin_stop
begin_stop-IsSound w h = begin_task-IsSound w.task w refl h

cancelled-IsSound : (w : Worker) → w.task ≡ some cancelling → IsSound w → IsSound (cancelled w)
unfolding IsSound cancelled loops_of
cancelled-IsSound w is h = rw (h, is) refl

step-IsSound : {v w : Worker} → Step v w → IsSound v → IsSound w
unfolding IsSound end_stop tick loops_of
step-IsSound (starts w free) h = start-IsSound w h
step-IsSound (stops w) h = begin_stop-IsSound w h
step-IsSound (ends w is) h = cancelled-IsSound w is h
step-IsSound (returns w some_stop done) h = h ∙ idle_loops w.task done
step-IsSound (ticks w now (ok u)) h = h
step-IsSound (ticks w now (err e)) h = h

Reachable-IsSound : {interval : ℤ} {w : Worker} → Reachable interval w → IsSound w
Reachable-IsSound (created h) = create-IsSound _ _ h
Reachable-IsSound (then_step r s) = step-IsSound s (Reachable-IsSound r)

loops_of_le : (t : Option Task) → loops_of t ≤ 1
unfolding loops_of
loops_of_le none = omega arith
loops_of_le (some running) = omega arith
loops_of_le (some cancelling) = omega arith
loops_of_le (some finished) = omega arith

-- However a worker is started, stopped, cancelled and run, if no start comes while a stop waits, at
-- most one loop runs, and none when the worker says that it does not run.
pub Reachable-one_loop :
    {interval : ℤ} {w : Worker}
    → Reachable interval w
    → (w.loops ≤ 1) × (is_running w ≡ false → w.loops ≡ 0)
unfolding IsSound is_running
Reachable-one_loop {interval} {w} r =
    let sound : w.loops ≡ loops_of w.task = Reachable-IsSound r in
    (rw sound (loops_of_le w.task), λ idle. sound ∙ idle_loops w.task idle)

-- If the task that a `stop` waits for has ended and a `start` comes before that `stop` goes on, then
-- after both a loop runs, the worker says that it does not run, and another `start` makes two.
pub start-stop_orphan :
    (w : Worker)
    → w.task ≡ some finished
    → 1 ≤ w.stopping
    → w.loops ≡ 0
    → let v = end_stop (start w) in (is_running v ≡ false) × (v.loops ≡ 1) × ((start v).loops ≡ 2)
unfolding start end_stop is_running
start-stop_orphan w is waits none_run = rw (is, none_run) (refl, refl, refl)
