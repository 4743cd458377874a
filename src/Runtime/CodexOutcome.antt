-- ===== src/Runtime/CodexOutcome.antt =====
-- How `execute_codex_local_run` of core/codex_local_worker.py ends, and `execute_assigned_run` and
-- `process_runtime_cycle` of core/runtime_execution.py.
use xyn.Base.{ℕ, String, Option, none, some, List, [], ◌∷◌, map, ◌=?◌, if◌then◌else◌}
use xyn.Base.Exec.{Result, ok, err, pure, raise, lift, ◌>>=◌, ◌>>◌}
use xyn.Runtime.Contract.{RunPayloadV1}
use xyn.Runtime.Models.{queued, failed, Run, text, flag}
use xyn.Runtime.Session.{Host, M, one_run, read_host, update_run}
use xyn.Runtime.Events.{publish_runtime_event}
use xyn.Runtime.Queue.{model_validate, dispatch_queued_run}
use xyn.Runtime.Workers.{Driver, get_worker_driver, heartbeat, mark_worker_idle}
use xyn.Runtime.Stale.{may_retry, requires_review, handle_stale_heartbeats}
use xyn.Runtime.CodexWorker.{ensure_assigned_run, mark_blocked}
use xyn.Runtime.Artifacts.{
  WorkerFault, blocked_run, failed_run, timed_out, crashed, W, run_db, commit, rollback,
  capture_run_artifact,
}
use xyn.Runtime.CodexHost.{or_else, CodexHost}
use xyn.Runtime.CodexRun.{attempt}

unfoldable pub requeue_after : ℕ → String → String → Run → Run
requeue_after now summary failure_reason run = record run {
  status = queued;
  summary = some summary;
  failure_reason = some failure_reason;
  queued_at = some now;
  heartbeat_at = none;
  locked_by = none;
  locked_at = none;
  lease_expires_at = none;
}

unfoldable pub fail_after : ℕ → String → String → Run → Run
fail_after now summary failure_reason run = record run {
  status = failed;
  completed_at = some now;
  summary = some summary;
  failure_reason = some failure_reason;
  escalation_reason =
      if requires_review run
      then some "human_review_required_after_failure"
      else run.escalation_reason;
}

-- The row that a failure leaves of `run`.
unfoldable pub after_failure : ℕ → String → String → Run → Run
unfolding may_retry requeue_after fail_after
after_failure now summary failure_reason run =
    if may_retry run
    then requeue_after now summary failure_reason run
    else fail_after now summary failure_reason run

module _ (host : Host) (run_id : ℕ) (worker_id : String) where
  -- The end of `_handle_failure`.
  unfoldable pub settle_failure : String → String → M Run
  unfolding after_failure
  settle_failure summary failure_reason = do
    now ← read_host host.utcnow
    run ← update_run run_id (λ r. ok (after_failure now summary failure_reason r))
    mark_worker_idle host worker_id
    pure run

module _ (ch : CodexHost) (run_id : ℕ) (worker_id : String) where
  -- `_handle_failure`
  unfoldable pub handle_failure : String → String → String → W Run
  unfolding run_db publish_runtime_event may_retry capture_run_artifact settle_failure commit
  handle_failure summary failure_reason log_text = do
    run ← run_db (one_run run_id)
    run_db (
        publish_runtime_event ch.host "run.failed" run_id none worker_id (some run.correlation_id) (
          ("summary", text summary)
          ∷ ("failure_reason", text failure_reason)
          ∷ ("retry_eligible", flag (may_retry run))
          ∷ []))
    capture_run_artifact ch.host ch.store_bytes run_id "summary" "final_summary.md" summary
    capture_run_artifact ch.host ch.store_bytes run_id "log" "build_logs.txt"
        (or_else log_text summary)
    settled ← run_db (settle_failure ch.host run_id worker_id summary failure_reason)
    commit
    pure settled

  -- The `except` clauses, after the rollback.
  unfoldable pub recover : WorkerFault → W Run
  unfolding run_db mark_blocked commit handle_failure
  recover (blocked_run summary escalation_reason) = do
    run ← run_db (mark_blocked ch.host run_id worker_id summary escalation_reason)
    commit
    pure run
  recover (failed_run summary failure_reason) = handle_failure summary failure_reason summary
  recover (timed_out summary) = handle_failure summary "timeout_exceeded" summary
  recover e = handle_failure (ch.exception_text e) "unexpected_error" (ch.exception_text e)

  abbrev pub or_recover : Result WorkerFault Run → W Run
  or_recover (ok run) = pure run
  or_recover (err e) = rollback >> recover e

  -- The `try` of `execute_codex_local_run` with its `except` clauses.
  unfoldable pub attempt_or_recover : RunPayloadV1 → W Run
  unfolding attempt recover rollback
  attempt_or_recover payload session =
      let (r, session') = attempt ch run_id worker_id payload session in or_recover r session'

  unfoldable pub if_available : RunPayloadV1 → Option String → W Run
  unfolding attempt_or_recover handle_failure
  if_available payload none = attempt_or_recover payload
  if_available payload (some reason) =
      handle_failure (or_else reason "codex unavailable") "worker_crashed" reason

  -- `execute_codex_local_run`; the host answers whether Codex is unavailable to the executor.
  unfoldable pub execute_codex_local_run : W Run
  unfolding run_db model_validate ensure_assigned_run if_available
  execute_codex_local_run = do
    run ← run_db (one_run run_id)
    payload ← run_db (lift (model_validate run.prompt_payload))
    run_db (lift (ensure_assigned_run run worker_id))
    unavailable ← run_db (read_host ch.unavailable)
    if_available payload unavailable

-- `execute_assigned_run`; without a driver for the worker type of the run it raises a RuntimeError.
unfoldable pub execute_assigned_run : CodexHost → ℕ → W Run
unfolding run_db get_worker_driver execute_codex_local_run
execute_assigned_run ch run_id = do
  run ← run_db (one_run run_id)
  execute_on run (get_worker_driver (text_or_empty run.worker_type))
  where
    text_or_empty : Option String → String
    text_or_empty none = ""
    text_or_empty (some s) = s

    execute_on : Run → Option Driver → W Run
    execute_on run none = raise (crashed "no execution worker registered")
    execute_on run (some driver) = execute_codex_local_run ch run.id (text_or_empty run.locked_by)

-- What `process_runtime_cycle` reports.
pub record CycleReport : Type 0 where
  pub stale_run_ids : List ℕ
  pub dispatched_run_id : Option ℕ
  pub executed_run_id : Option ℕ

module _ (ch : CodexHost) where
  unfoldable pub beat_if_named : Option String → W (Unit {0})
  unfolding run_db heartbeat
  beat_if_named none = pure tt
  beat_if_named (some worker_id) =
      if worker_id =? "" then pure tt else (run_db (heartbeat ch.host worker_id) >> pure tt)

  unfoldable pub execute_if_dispatched : Option Run → W (Option Run)
  unfolding execute_assigned_run
  execute_if_dispatched none = pure none
  execute_if_dispatched (some run) = do
    executed ← execute_assigned_run ch run.id
    pure (some executed)

  abbrev id_of : Option Run → Option ℕ
  id_of none = none
  id_of (some run) = some run.id

  -- `process_runtime_cycle`
  unfoldable pub process_runtime_cycle : Option String → ℕ → ℕ → ℕ → W CycleReport
  unfolding beat_if_named run_db handle_stale_heartbeats dispatch_queued_run execute_if_dispatched
      commit
  process_runtime_cycle worker_id current stale_after_seconds heartbeat_timeout_seconds = do
    beat_if_named worker_id
    stale ← run_db (handle_stale_heartbeats ch.host current stale_after_seconds)
    dispatched ← run_db (dispatch_queued_run ch.host current heartbeat_timeout_seconds)
    executed ← execute_if_dispatched dispatched
    commit
    pure (record {
      stale_run_ids = map (λ run. run.id) stale;
      dispatched_run_id = id_of dispatched;
      executed_run_id = id_of executed;
    })
