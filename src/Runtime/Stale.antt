-- ===== src/Runtime/Stale.antt =====
-- `handle_stale_heartbeats` of core/runtime_execution.py: runs whose worker went silent are queued
-- again, held for review, or failed.
use Prim.Native.Nat.{max}
use xyn.Base.{
  ℕ, ◌-◌, String, Bool, true, false, ◌&&◌, Option, none, some, List, [], ◌∷◌, ◌=?◌, ltb, leb,
  if◌then◌else◌,
}
use xyn.Base.Exec.{ok, pure, gets, ◌>>=◌, ◌>>◌}
use xyn.Base.Table.{select}
use xyn.Runtime.Models.{RunStatus, queued, running, failed, blocked, Run, text, flag}
use xyn.Runtime.Session.{Host, M, seconds, update_run}
use xyn.Runtime.Events.{publish_runtime_event}
use xyn.Runtime.Runs.{release_worker, actor_of}

abbrev pub is_running : RunStatus → Bool
is_running running = true
is_running _ = false

abbrev before : Option ℕ → ℕ → Bool
before none threshold = false
before (some beat) threshold = ltb beat threshold

unfoldable pub is_stale : ℕ → Run → Bool
is_stale threshold run = is_running run.status && before run.heartbeat_at threshold

-- `policy.get("max_retries") or 0`
abbrev pub max_retries_of : Run → ℕ
max_retries_of run = elim run.execution_policy.max_retries [ none ↦ 0 | some n ↦ n ]

abbrev pub requires_review : Run → Bool
requires_review run = elim run.execution_policy.require_human_review_on_failure [
  | none ↦ false
  | some b ↦ b
]

-- `current_attempt <= max_retries`
unfoldable pub may_retry : Run → Bool
may_retry run = leb (max run.attempt 1) (max_retries_of run)

-- `run.summary or "Worker heartbeat timed out."`
abbrev pub failure_summary : Run → String
failure_summary run = elim run.summary [
  | none ↦ "Worker heartbeat timed out."
  | some s ↦ if s =? "" then "Worker heartbeat timed out." else s
]

unfoldable pub unresponsive : Run → Run
unresponsive run = record run { failure_reason = some "worker_unresponsive" }

unfoldable pub queued_again : ℕ → String → Run → Run
queued_again current summary run = record run {
  status = queued;
  summary = some summary;
  queued_at = some current;
  heartbeat_at = none;
  locked_by = none;
  locked_at = none;
  lease_expires_at = none;
}

unfoldable pub held_for_review : ℕ → String → Run → Run
held_for_review current summary run = record run {
  status = blocked;
  completed_at = some current;
  summary = some summary;
  escalation_reason = some "human_review_required";
}

unfoldable pub given_up : ℕ → String → Run → Run
given_up current summary run = record run {
  status = failed;
  completed_at = some current;
  summary = some summary;
}

module _ (host : Host) (current : ℕ) where
  -- What follows the first event: `run` is the row as the query found it.
  unfoldable pub settle : Run → M Run
  settle run =
      if may_retry run
      then update_run run.id (λ r. ok (queued_again current (failure_summary run) r))
      else if requires_review run
      then (do
        held ← update_run run.id (λ r. ok (held_for_review current (failure_summary run) r))
        publish_runtime_event host "run.blocked" run.id none "runtime" (some run.correlation_id)
            (("failure_reason", text "worker_unresponsive") ∷ [])
        pure held)
      else update_run run.id (λ r. ok (given_up current (failure_summary run) r))

  -- The body of the loop up to the release of the worker.
  unfoldable pub announce : Run → M (Unit {0})
  announce run = do
    update_run run.id (λ r. ok (unresponsive r))
    publish_runtime_event host "run.failed" run.id none (actor_of run) (some run.correlation_id) (
        ("failure_reason", text "worker_unresponsive")
        ∷ ("retry_eligible", flag (may_retry run))
        ∷ [])
    release_worker host run.locked_by

  unfoldable pub handle_stale_run : Run → M Run
  handle_stale_run run = do announce run; settle run

  unfoldable pub stale_loop : List Run → M (List Run)
  stale_loop [] = pure []
  stale_loop (run ∷ runs) = do
    updated ← handle_stale_run run
    rest ← stale_loop runs
    pure (updated ∷ rest)

  unfoldable pub handle_stale_heartbeats : ℕ → M (List Run)
  handle_stale_heartbeats stale_after_seconds = do
    runs ← gets (λ db. select (is_stale (current - seconds stale_after_seconds)) db.runs)
    stale_loop runs
