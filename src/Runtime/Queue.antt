-- ===== src/Runtime/Queue.antt =====
-- The order of the run queue, and the choice of a worker: `dispatch_queued_run` of
-- core/runtime_execution.py.
use xyn.Base.{
  ℕ, ◌+◌, String, Bool, true, false, ◌&&◌, Option, none, some, List, [], ◌∷◌, ltb, leb, ◌==◌,
  if◌then◌else◌,
}
use xyn.Base.Exec.{Result, ok, err, pure, lift, gets, ◌>>=◌, ◌>>◌}
use xyn.Base.Sort.{sort_by}
use xyn.Base.Table.{first, select}
use xyn.Runtime.Contract.{RunPayloadV1, is_valid}
use xyn.Runtime.Models.{RunStatus, queued, running, Run, text, uuid, flag, RuntimeWorker}
use xyn.Runtime.Session.{Host, Db, Fault, validation_error, M, seconds, read_host, update_run}
use xyn.Runtime.Events.{publish_runtime_event, text_or_null}
use xyn.Runtime.Transitions.{transition_run_status}
use xyn.Runtime.Workers.{
  Driver, get_worker_driver, can_accept, is_idle, list_healthy_workers, mark_worker_busy,
}

-- `RunPayloadV1.model_validate(run.prompt_payload or {})`
unfoldable pub model_validate : Option RunPayloadV1 → Result Fault RunPayloadV1
unfolding is_valid
model_validate none = err validation_error
model_validate (some p) = if is_valid p then ok p else err validation_error

abbrev is_queued : RunStatus → Bool
is_queued queued = true
is_queued _ = false

abbrev pub is_some {ℓ} : {A : Type ℓ} → Option A → Bool
is_some none = false
is_some (some a) = true

unfoldable pub waiting : Run → Bool
waiting run = is_queued run.status && is_some run.worker_type

-- A comparison of one column, and of the next columns where the first ties.
unfoldable pub then_by : ℕ → ℕ → Bool → Bool
then_by a b rest = if ltb a b then true else if a == b then rest else false

-- `NULLS LAST`
unfoldable pub then_by_nulls_last : Option ℕ → Option ℕ → Bool → Bool
unfolding then_by
then_by_nulls_last none none rest = rest
then_by_nulls_last none (some b) rest = false
then_by_nulls_last (some a) none rest = true
then_by_nulls_last (some a) (some b) rest = then_by a b rest

-- `ORDER BY priority, queued_at NULLS LAST, created_at, id`
unfoldable pub queue_order : Run → Run → Bool
unfolding then_by then_by_nulls_last
queue_order a b =
    then_by a.priority b.priority (
      then_by_nulls_last a.queued_at b.queued_at
        (then_by a.created_at b.created_at (leb a.id b.id)))

unfoldable pub queued_runs : Db → List Run
queued_runs db = sort_by queue_order (select waiting db.runs)

abbrev pub or_empty : Option String → String
or_empty none = ""
or_empty (some s) = s

-- What dispatching assigns to the run, the transition to `running` included.
unfoldable pub assigned : ℕ → ℕ → ℕ → RuntimeWorker → Run → Result Fault Run
unfolding transition_run_status
assigned current now heartbeat_timeout_seconds worker run =
    elim (transition_run_status running now none none none run) [
      | err e ↦ err e
      | ok moved ↦ ok (record moved {
        locked_by = some worker.worker_id;
        heartbeat_at = some current;
        locked_at = some current;
        lease_expires_at = some (current + seconds heartbeat_timeout_seconds);
        attempt = moved.attempt + 1;
      })
    ]

abbrev pub idle_worker : List RuntimeWorker → Option RuntimeWorker
idle_worker workers = first (λ w. is_idle w.status) workers

module _ (host : Host) (current heartbeat_timeout_seconds : ℕ) where
  unfoldable pub start_on : Run → RunPayloadV1 → RuntimeWorker → M (Option Run)
  start_on run payload worker = do
    now ← read_host host.utcnow
    started ← update_run run.id (assigned current now heartbeat_timeout_seconds worker)
    mark_worker_busy host worker.worker_id run.id
    publish_runtime_event host "run.started" run.id none worker.worker_id
        (some started.correlation_id)
        (("run_id", uuid run.id)
          ∷ ("work_item_id", text_or_null started.work_item_id)
          ∷ ("worker_id", text worker.worker_id)
          ∷ ("worker_type", text_or_null started.worker_type)
          ∷ ("accepted", flag true)
          ∷ [])
    pure (some started)

  -- The body of the loop for a run that a driver may take; `rest` is the rest of the loop.
  unfoldable pub try_worker :
      Run → RunPayloadV1 → Option RuntimeWorker → M (Option Run) → M (Option Run)
  try_worker run payload none rest = rest
  try_worker run payload (some worker) rest = start_on run payload worker

  unfoldable pub try_driver : Run → RunPayloadV1 → Option Driver → M (Option Run) → M (Option Run)
  try_driver run payload none rest = rest
  try_driver run payload (some driver) rest = do
    accepts ← can_accept host driver payload
    workers ←
        gets (list_healthy_workers (or_empty run.worker_type) current heartbeat_timeout_seconds)
    if accepts then try_worker run payload (idle_worker workers) rest else rest

  unfoldable pub dispatch_loop : List Run → M (Option Run)
  dispatch_loop [] = pure none
  dispatch_loop (run ∷ runs) = do
    payload ← lift (model_validate run.prompt_payload)
    try_driver run payload (get_worker_driver (or_empty run.worker_type)) (dispatch_loop runs)

  unfoldable pub dispatch_queued_run : M (Option Run)
  dispatch_queued_run = do runs ← gets queued_runs; dispatch_loop runs
