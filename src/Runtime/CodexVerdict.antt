-- ===== src/Runtime/CodexVerdict.antt =====
-- The row that the end of `_handle_failure` leaves, column by column.
use xyn.Base.{ℕ, String, ◌≡◌, none, some, if◌then◌else◌}
use xyn.Runtime.Models.{queued, failed, Run}
use xyn.Runtime.Leaves.{Leaves}
use xyn.Runtime.Stale.{requires_review}
use xyn.Runtime.Verdict.{has_retries}
use xyn.Runtime.CodexHost.{CodexHost}

pub record IsFailureVerdict (now : ℕ) (summary reason : String) (run left : Run) : Type 0 where
  pub status : left.status ≡ (if has_retries run then queued else failed)
  pub summary_given : left.summary ≡ some summary
  pub reason_given : left.failure_reason ≡ some reason
  pub completed_at : left.completed_at ≡ (if has_retries run then run.completed_at else some now)
  pub queued_at : left.queued_at ≡ (if has_retries run then some now else run.queued_at)
  pub locked_by : left.locked_by ≡ (if has_retries run then none else run.locked_by)
  pub lease_expires_at :
      left.lease_expires_at ≡ (if has_retries run then none else run.lease_expires_at)
  pub attempt : left.attempt ≡ run.attempt
  pub escalation_reason : left.escalation_reason ≡ (
      if has_retries run
      then run.escalation_reason
      else if requires_review run
      then some "human_review_required_after_failure"
      else run.escalation_reason)
