-- ===== src/Runtime/History.antt =====
-- Histories of the database: the routes of core/api/runs.py on a run of the runtime, the calls that a
-- worker makes while it executes a run, the watch over stale runs, the dispatch, and the lease queue
-- of core/worker.py, in any order. A call that raises leaves what its session had written before. A
-- rollback goes back to an earlier state, which is the state after a shorter history.
--
-- A worker that cannot complete a run ends it by `_mark_blocked` or `_handle_failure` of
-- core/codex_local_worker.py, which assign a status without asking the table of transitions. They are
-- steps of a history only where the run is running. Not in a history are such an end of a run that is
-- not running any more, the route `create_run`, which runs the demo executor, and the blueprint
-- runner of core/blueprints/runner.py.
use xyn.Base.{ℕ, String, ◌≡◌, Bool, Option, some, List, []}
use xyn.Runtime.Contract.{RunPayloadV1}
use xyn.Runtime.Models.{Run, running, Datum}
use xyn.Runtime.Session.{Host, Db, find_run}
use xyn.Runtime.Events.{publish_runtime_event}
use xyn.Runtime.CodexWorker.{mark_blocked}
use xyn.Runtime.CodexOutcome.{settle_failure}
use xyn.Runtime.Workers.{WorkerInfoPayload, register_worker}
use xyn.Runtime.Runs.{complete_run, fail_run, record_run_heartbeat}
use xyn.Runtime.Queue.{dispatch_queued_run}
use xyn.Runtime.Stale.{handle_stale_heartbeats}
use xyn.Runtime.Steps.{report_run_step}
use xyn.Runtime.Leases.{WorkerConfig, claim_run, renew_lease}
use xyn.Runtime.Api.{
  cancel_run, submit_runtime_execution_run, pause_runtime_run, continue_runtime_run, retry_run,
}

pub data Call : Type 0 where
  submits : RunPayloadV1 → Call
  pauses continues retries cancels : ℕ → Call
  registers : WorkerInfoPayload → Call
  beats : String → ℕ → Call
  reports : ℕ → String → String → String → ℕ → Option String → Call
  completes : ℕ → Option String → Call
  fails : ℕ → Option String → Option String → Option String → Call
  watches : ℕ → ℕ → Call
  dispatches : ℕ → ℕ → Call
  claims : WorkerConfig → ℕ → (Run → Bool) → Call
  renews : WorkerConfig → ℕ → ℕ → Call
  announces : String → ℕ → Option ℕ → String → Option String → List (String × Datum) → Call

module _ (host : Host) where
  abbrev pub perform : Call → Db → Db
  perform (submits payload) db = (submit_runtime_execution_run host payload db).1
  perform (pauses run_id) db = (pause_runtime_run host run_id db).1
  perform (continues run_id) db = (continue_runtime_run host run_id db).1
  perform (retries run_id) db = (retry_run host run_id db).1
  perform (cancels run_id) db = (cancel_run run_id db).1
  perform (registers info) db = (register_worker host info db).1
  perform (beats worker_id run_id) db = (record_run_heartbeat host worker_id run_id db).1
  perform (reports run_id step_key label status sequence_no summary) db =
      (report_run_step host run_id step_key label status sequence_no summary db).1
  perform (completes run_id summary) db = (complete_run host run_id summary db).1
  perform (fails run_id summary failure_reason escalation_reason) db =
      (fail_run host run_id summary failure_reason escalation_reason db).1
  perform (watches current stale_after_seconds) db =
      (handle_stale_heartbeats host current stale_after_seconds db).1
  perform (dispatches current heartbeat_timeout_seconds) db =
      (dispatch_queued_run host current heartbeat_timeout_seconds db).1
  perform (claims config now skipped) db = (claim_run config now skipped db).1
  perform (renews config now run_id) db = (renew_lease config now run_id db).1
  perform (announces name run_id step_id actor correlation_id given) db =
      (publish_runtime_event host name run_id step_id actor correlation_id given db).1

  pub data Reaches : Db → Db → Type 0 where
    here : {db : Db} → Reaches db db
    after : {db db' : Db} (c : Call) → Reaches (perform c db) db' → Reaches db db'
    -- `_mark_blocked` of a running run.
    blocks :
        {db db' : Db} (run_id : ℕ) (worker_id summary escalation_reason : String) (run : Run)
        → find_run run_id db ≡ some run
        → run.status ≡ running
        → Reaches (mark_blocked host run_id worker_id summary escalation_reason db).1 db'
        → Reaches db db'
    -- `_handle_failure` of a running run, after its events and artifacts.
    breaks :
        {db db' : Db} (run_id : ℕ) (worker_id summary failure_reason : String) (run : Run)
        → find_run run_id db ≡ some run
        → run.status ≡ running
        → Reaches (settle_failure host run_id worker_id summary failure_reason db).1 db'
        → Reaches db db'

abbrev pub empty_db : Db
empty_db = record { runs = []; steps = []; workers = []; events = []; reads = 0 }
