-- ===== src/Runtime/Runs.antt =====
-- The operations on runs of core/runtime_execution.py: submission, completion, failure, pause,
-- continuation, retry and heartbeat.
use xyn.Base.{ℕ, ◌+◌, String, Bool, true, false, Option, none, some, [], ◌∷◌, ◌=?◌, if◌then◌else◌}
use xyn.Base.Exec.{Result, ok, err, pure, raise, lift, gets, ◌>>=◌, ◌>>◌}
use xyn.Runtime.Contract.{RunPayloadV1}
use xyn.Runtime.Models.{
  RunStatus, queued, completed, failed, blocked, RuntimeControls, ExecutionPolicy, Run, text, time,
  RuntimeWorker,
}
use xyn.Runtime.Session.{
  Host, Db, Fault, invalid_uuid, M, seconds, read_host, find_run, one_run, update_run, add_run,
}
use xyn.Runtime.Events.{publish_runtime_event, status_value, text_or_null}
use xyn.Runtime.Transitions.{transition_run_status}
use xyn.Runtime.Workers.{default_health_window_seconds, heartbeat, mark_worker_idle}
use xyn.Runtime.Queue.{model_validate}

-- `payload.policy.model_dump`
unfoldable pub policy_column : RunPayloadV1 → ExecutionPolicy
policy_column payload = record {
  auto_continue = some payload.policy.auto_continue;
  max_retries = some payload.policy.max_retries;
  require_human_review_on_failure = some payload.policy.require_human_review_on_failure;
  timeout_seconds = payload.policy.timeout_seconds;
  runtime_controls = none;
}

-- `_runtime_controls`
unfoldable pub runtime_controls : Run → RuntimeControls
runtime_controls run = elim run.execution_policy.runtime_controls [
  | none ↦ record { pause_requested = none; pause_requested_by = none; pause_requested_at = none }
  | some controls ↦ controls
]

-- `_set_runtime_controls`
unfoldable pub set_runtime_controls : RuntimeControls → Run → Run
set_runtime_controls controls run =
    let policy = run.execution_policy in
    record run { execution_policy = record policy { runtime_controls = some controls } }

unfoldable pub pause_requested : Run → Bool
unfolding runtime_controls
pause_requested run = elim (runtime_controls run).pause_requested [ none ↦ false | some b ↦ b ]

unfoldable pub ask_pause : String → ℕ → Run → Run
unfolding runtime_controls set_runtime_controls
ask_pause actor now run =
    set_runtime_controls
      (record {
        pause_requested = some true;
        pause_requested_by = some actor;
        pause_requested_at = some now;
      })
      run

abbrev is_queued : RunStatus → Bool
is_queued queued = true
is_queued _ = false

-- The assignments of `request_pause_run`.
unfoldable pub paused : String → ℕ → ℕ → Run → Result Fault Run
paused actor asked_at now run =
    if is_queued run.status
    then transition_run_status blocked now (some "Run paused before execution.") none
        (some "paused_by_user") (ask_pause actor asked_at run)
    else (let asked = ask_pause actor asked_at run in
        ok (record asked {
          summary = some "Pause requested. Run will block at the next safe checkpoint.";
        }))

-- The assignments that `continue_blocked_run` makes after the transition.
unfoldable pub requeued : ℕ → Run → Run
requeued now run = record run {
  completed_at = none;
  started_at = none;
  locked_by = none;
  locked_at = none;
  lease_expires_at = none;
  heartbeat_at = none;
  failure_reason = none;
  escalation_reason = none;
  queued_at = some now;
}

-- The controls that `continue_blocked_run` assigns before the transition, which stay if that raises.
unfoldable pub release_controls : String → Run → Result Fault Run
release_controls actor run =
    let controls = runtime_controls run in
    ok (
      set_runtime_controls
        (record controls { pause_requested = some false; pause_requested_by = some actor }) run)

-- The transition of `continue_blocked_run`, and its assignments after that.
unfoldable pub continued : ℕ → ℕ → Run → Result Fault Run
continued moved_at now run =
    elim (transition_run_status queued moved_at (some "Run re-queued from conversation hold.") none
      none run) [ err e ↦ err e | ok run' ↦ ok (requeued now run') ]

abbrev pub actor_of : Run → String
actor_of run = elim run.locked_by [
  | none ↦ "runtime"
  | some worker_id ↦ if worker_id =? "" then "runtime" else worker_id
]

-- `BLOCKED if escalation_reason else FAILED`
abbrev pub failure_status : Option String → RunStatus
failure_status none = failed
failure_status (some reason) = if reason =? "" then failed else blocked

abbrev pub failure_event : Option String → String
failure_event none = "run.failed"
failure_event (some reason) = if reason =? "" then "run.failed" else "run.blocked"

abbrev pub locked_run : ℕ → String → Db → Option Run
locked_run run_id worker_id db = elim (find_run run_id db) [
  | none ↦ none
  | some run ↦ elim run.locked_by [
    | none ↦ none
    | some holder ↦ if holder =? worker_id then some run else none
  ]
]

unfoldable pub record_beat : ℕ → Run → Result Fault Run
record_beat now run = ok (record run {
  heartbeat_at = some now;
  lease_expires_at = some (now + seconds default_health_window_seconds);
})

-- The row that `create_runtime_run` adds, with its identifiers and the times that it reads.
unfoldable pub new_run : RunPayloadV1 → String → ℕ → String → ℕ → ℕ → ℕ → Run
new_run payload actor id correlation_id queued_at run_at created_at = record {
  id = id;
  name = payload.prompt.title;
  status = queued;
  actor = actor;
  correlation_id = correlation_id;
  inputs = some payload.prompt;
  queued_at = some queued_at;
  locked_at = none;
  locked_by = none;
  lease_expires_at = none;
  heartbeat_at = none;
  run_at = some run_at;
  priority = 100;
  attempt = 0;
  max_attempts = some payload.policy.max_retries;
  work_item_id = some payload.work_item_id;
  worker_type = some payload.worker_type;
  prompt_payload = some payload;
  execution_policy = policy_column payload;
  summary = none;
  escalation_reason = none;
  failure_reason = none;
  created_at = created_at;
  started_at = none;
  completed_at = none;
}

module _ (host : Host) where
  -- `if run.worker_id: mark_worker_idle(db, run.worker_id)`
  unfoldable pub release_worker : Option String → M (Unit {0})
  release_worker none = pure tt
  release_worker (some worker_id) =
      if worker_id =? "" then pure tt else (do mark_worker_idle host worker_id; pure tt)

  unfoldable pub parse_run_id : RunPayloadV1 → M ℕ
  parse_run_id payload = elim (host.parse_uuid payload.run_id) [
    | none ↦ raise (invalid_uuid payload.run_id)
    | some id ↦ pure id
  ]

  unfoldable pub create_runtime_run : RunPayloadV1 → String → M Run
  create_runtime_run payload actor = do
    id ← parse_run_id payload
    correlation ← read_host host.uuid4
    queued_at ← read_host host.utcnow
    run_at ← read_host host.utcnow
    created_at ← read_host host.utcnow
    let run = new_run payload actor id (host.uuid_text correlation) queued_at run_at created_at
    add_run run
    pure run

  unfoldable pub submit_found : RunPayloadV1 → String → Option Run → M Run
  submit_found payload actor none = create_runtime_run payload actor
  submit_found payload actor (some existing) = do
    lift (model_validate existing.prompt_payload)
    pure existing

  unfoldable pub submit_runtime_run : RunPayloadV1 → String → M Run
  submit_runtime_run payload actor = do
    id ← parse_run_id payload
    existing ← gets (find_run id)
    submit_found payload actor existing

  unfoldable pub retry_runtime_run : ℕ → String → M Run
  retry_runtime_run run_id actor = do
    run ← one_run run_id
    payload ← lift (model_validate run.prompt_payload)
    id ← read_host host.uuid4
    submit_runtime_run (record payload { run_id = host.uuid_text id }) actor

  unfoldable pub complete_run : ℕ → Option String → M Run
  complete_run run_id summary = do
    now ← read_host host.utcnow
    run ← update_run run_id (transition_run_status completed now summary none none)
    release_worker run.locked_by
    publish_runtime_event host "run.completed" run_id none (actor_of run) (some run.correlation_id)
        (("summary", text_or_null summary) ∷ [])
    pure run

  unfoldable pub fail_run : ℕ → Option String → Option String → Option String → M Run
  fail_run run_id summary failure_reason escalation_reason = do
    now ← read_host host.utcnow
    run ← update_run run_id (
        transition_run_status (failure_status escalation_reason) now summary failure_reason
          escalation_reason)
    release_worker run.locked_by
    publish_runtime_event host (failure_event escalation_reason) run_id none (actor_of run)
        (some run.correlation_id)
        (("summary", text_or_null summary)
          ∷ ("failure_reason", text_or_null failure_reason)
          ∷ ("escalation_reason", text_or_null escalation_reason)
          ∷ [])
    pure run

  unfoldable pub request_pause_run : ℕ → String → M Run
  request_pause_run run_id actor = do
    before ← one_run run_id
    asked_at ← read_host host.utcnow
    now ← read_host host.utcnow
    run ← update_run run_id (paused actor asked_at now)
    if is_queued before.status
        then publish_runtime_event host "run.blocked" run_id none actor (some run.correlation_id) (
            ("summary", text_or_null run.summary)
            ∷ ("escalation_reason", text_or_null run.escalation_reason)
            ∷ [])
        else pure tt
    pure run

  unfoldable pub continue_blocked_run : ℕ → String → M Run
  continue_blocked_run run_id actor = do
    update_run run_id (release_controls actor)
    moved_at ← read_host host.utcnow
    now ← read_host host.utcnow
    update_run run_id (continued moved_at now)

  unfoldable pub record_heartbeat_of :
      String → ℕ → Option RuntimeWorker → Option Run → M (Option Run)
  record_heartbeat_of worker_id run_id (some worker) (some found) = do
    now ← read_host host.utcnow
    run ← update_run run_id (record_beat now)
    publish_runtime_event host "run.heartbeat" run_id none worker_id (some run.correlation_id)
        (("heartbeat_at", time now) ∷ ("status", text (status_value run.status)) ∷ [])
    pure (some run)
  record_heartbeat_of worker_id run_id worker run = pure none

  unfoldable pub record_run_heartbeat : String → ℕ → M (Option Run)
  record_run_heartbeat worker_id run_id = do
    worker ← heartbeat host worker_id
    run ← gets (locked_run run_id worker_id)
    record_heartbeat_of worker_id run_id worker run
