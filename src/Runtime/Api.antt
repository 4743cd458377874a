-- ===== src/Runtime/Api.antt =====
-- The routes of core/api/runs.py that change a run of the runtime. A route raises an HTTPException
-- with a status code, of which the text of the detail is left out.
use xyn.Base.{ℕ, Bool, true, false, Option, none, some, if◌then◌else◌}
use xyn.Base.Exec.{ok, pure, raise, gets, ◌>>=◌}
use xyn.Runtime.Contract.{RunPayloadV1}
use xyn.Runtime.Models.{RunStatus, created, running, completed, failed, blocked, cancelled, Run}
use xyn.Runtime.Session.{Host, M, http_exception, find_run, update_run}
use xyn.Runtime.Runs.{
  submit_runtime_run, retry_runtime_run, request_pause_run, continue_blocked_run,
}

-- `if not run: raise HTTPException(status_code=404)`
unfoldable pub or_not_found : Option Run → M Run
or_not_found none = raise (http_exception 404)
or_not_found (some run) = pure run

unfoldable pub requested_run : ℕ → M Run
requested_run run_id = do found ← gets (find_run run_id); or_not_found found

abbrev pub is_cancellable : RunStatus → Bool
is_cancellable created = true
is_cancellable running = true
is_cancellable _ = false

abbrev pub is_blocked : RunStatus → Bool
is_blocked blocked = true
is_blocked _ = false

abbrev pub is_retryable : RunStatus → Bool
is_retryable failed = true
is_retryable blocked = true
is_retryable completed = true
is_retryable cancelled = true
is_retryable _ = false

-- `run.status = CANCELLED`, and no other column.
unfoldable pub set_cancelled : Run → Run
set_cancelled run = record run { status = cancelled }

unfoldable pub cancel_run : ℕ → M Run
cancel_run run_id = do
  run ← requested_run run_id
  if is_cancellable run.status
      then update_run run_id (λ r. ok (set_cancelled r))
      else raise (http_exception 400)

module _ (host : Host) where
  unfoldable pub submit_runtime_execution_run : RunPayloadV1 → M Run
  submit_runtime_execution_run payload = submit_runtime_run host payload "runtime_submission"

  unfoldable pub pause_runtime_run : ℕ → M Run
  pause_runtime_run run_id = do run ← requested_run run_id; request_pause_run host run_id "api"

  unfoldable pub continue_runtime_run : ℕ → M Run
  continue_runtime_run run_id = do
    run ← requested_run run_id
    if is_blocked run.status
        then continue_blocked_run host run_id "api"
        else raise (http_exception 409)

  unfoldable pub retry_run : ℕ → M Run
  retry_run run_id = do
    run ← requested_run run_id
    if is_retryable run.status
        then retry_runtime_run host run_id "api_retry"
        else raise (http_exception 409)
