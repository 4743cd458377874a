-- ===== src/Runtime/CodexWorker.antt =====
-- What core/codex_local_worker.py does to the database around the work of Codex: the worker's
-- registration, the check that a run is assigned, the reports of its steps, and a blocked run.
use xyn.Base.{ℕ, String, Bool, true, false, Option, none, some, List, [], ◌∷◌, ◌=?◌, if◌then◌else◌}
use xyn.Base.Exec.{lift, Result, ok, err, pure, ◌>>=◌, ◌>>◌}
use xyn.Runtime.Contract.{RunPayloadV1}
use xyn.Runtime.Models.{
  RunStatus, created, cancelled, running, blocked, Run, Step, RuntimeWorker, idle, offline, text,
}
use xyn.Runtime.Session.{
  Host, M, Fault, not_assigned, validation_error, one_run, read_host, update_run,
}
use xyn.Runtime.Events.{publish_runtime_event}
use xyn.Runtime.Workers.{register_worker, mark_worker_idle}
use xyn.Runtime.Runs.{record_run_heartbeat}
use xyn.Runtime.Steps.{report_run_step}

abbrev pub codex_local_capabilities : List String
codex_local_capabilities =
    "repo_modification" ∷ "code_generation" ∷ "patch_creation" ∷ "test_execution" ∷ []

-- What the driver answers to `start_run`.
pub record WorkerAcceptedRun : Type 0 where
  pub accepted : Bool
  pub worker_id : String
  pub run_id : String
  pub snapshot_status : String
  pub message : Option String

unfoldable pub start_run : RunPayloadV1 → WorkerAcceptedRun
start_run payload = record {
  accepted = true;
  worker_id = "codex_local-dispatcher";
  run_id = payload.run_id;
  snapshot_status = "running";
  message = some "queued for codex_local execution";
}

pub record WorkerRunSnapshot : Type 0 where
  pub run_id : ℕ
  pub status : RunStatus
  pub worker_id : Option String
  pub heartbeat_at : Option ℕ
  pub summary : Option String
  pub failure_reason : Option String
  pub escalation_reason : Option String

-- The statuses that `RunStatusLiteral` lists.
abbrev pub is_reportable : RunStatus → Bool
is_reportable created = false
is_reportable cancelled = false
is_reportable _ = true

unfoldable pub snapshot_of : Run → Result Fault WorkerRunSnapshot
snapshot_of run =
    if is_reportable run.status
    then ok (record {
      run_id = run.id;
      status = run.status;
      worker_id = run.locked_by;
      heartbeat_at = run.heartbeat_at;
      summary = run.summary;
      failure_reason = run.failure_reason;
      escalation_reason = run.escalation_reason;
    })
    else err validation_error

unfoldable pub snapshot_run : ℕ → M WorkerRunSnapshot
snapshot_run run_id = do run ← one_run run_id; lift (snapshot_of run)

abbrev is_assigned : RunStatus → Option String → String → Bool
is_assigned running (some holder) worker_id = holder =? worker_id
is_assigned status holder worker_id = false

unfoldable pub ensure_assigned_run : Run → String → Result Fault (Unit {0})
ensure_assigned_run run worker_id =
    if is_assigned run.status run.locked_by worker_id then ok tt else err not_assigned

unfoldable pub set_blocked : ℕ → String → String → Run → Run
set_blocked now summary escalation_reason run = record run {
  status = blocked;
  completed_at = some now;
  summary = some summary;
  escalation_reason = some escalation_reason;
}

abbrev label_of : Step → String
label_of step = elim step.label [ none ↦ step.name | some l ↦ if l =? "" then step.name else l ]

abbrev key_of : Step → String
key_of step = if step.step_key =? "" then step.name else step.step_key

module _ (host : Host) where
  -- `resolved_id` is the worker's identifier, with the process number where none is given.
  unfoldable pub register_codex_local_worker : String → M (Option RuntimeWorker)
  register_codex_local_worker resolved_id = do
    available ← read_host host.codex_available
    now ← read_host host.utcnow
    register_worker host (record {
      worker_id = resolved_id;
      worker_type = "codex_local";
      runtime_environment = "local_process";
      status = if available then idle else offline;
      last_heartbeat = now;
      capabilities = codex_local_capabilities;
    })

  unfoldable pub mark_blocked : ℕ → String → String → String → M Run
  mark_blocked run_id worker_id summary escalation_reason = do
    now ← read_host host.utcnow
    run ← update_run run_id (λ r. ok (set_blocked now summary escalation_reason r))
    mark_worker_idle host worker_id
    publish_runtime_event host "run.blocked" run_id none worker_id (some run.correlation_id)
        (("summary", text summary) ∷ ("escalation_reason", text escalation_reason) ∷ [])
    pure run

  unfoldable pub start_step : ℕ → String → String → String → ℕ → M Step
  start_step run_id worker_id step_key label sequence_no = do
    record_run_heartbeat host worker_id run_id
    report_run_step host run_id step_key label "running" sequence_no (some "started")

  unfoldable pub complete_step : ℕ → String → Step → String → M Step
  complete_step run_id worker_id step summary = do
    record_run_heartbeat host worker_id run_id
    report_run_step host run_id (key_of step) (label_of step) "completed" step.idx (some summary)

  unfoldable pub fail_step : ℕ → String → Step → String → M Step
  fail_step run_id worker_id step summary = do
    record_run_heartbeat host worker_id run_id
    report_run_step host run_id (key_of step) (label_of step) "failed" step.idx (some summary)
