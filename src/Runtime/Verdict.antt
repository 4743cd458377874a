-- ===== src/Runtime/Verdict.antt =====
-- What becomes of one stale run, on each branch of `handle_stale_heartbeats`.
use Prim.Native.Nat.{max}
use xyn.Base.{Bool, Bool-cases, String, if◌then◌else◌, inl, inr, leb, none, refl, some, ℕ, ◌∙◌, ◌≡◌}
use xyn.Base.Exec.{ok}
use xyn.Runtime.Models.{queued, failed, blocked, Run}
use xyn.Runtime.Session.{Host, Db, find_run}
use xyn.Runtime.Stale.{
  may_retry, max_retries_of, requires_review, unresponsive, queued_again, held_for_review, given_up,
  settle, announce, handle_stale_run, failure_summary,
}
use xyn.Runtime.Leaves.{update_run-Leaves, then-Leaves, publish-Leaves, release-Leaves, Leaves}

-- The row that a stale run is left with, by its attempts and its policy.
abbrev pub settled : ℕ → Run → Run
settled current run =
    if may_retry run
    then queued_again current (failure_summary run) (unresponsive run)
    else if requires_review run
    then held_for_review current (failure_summary run) (unresponsive run)
    else given_up current (failure_summary run) (unresponsive run)

-- The attempts, counted as one at least, do not exceed the retries of the policy.
unfoldable pub has_retries : Run → Bool
has_retries run = leb (max run.attempt 1) (max_retries_of run)

-- The row that a run is left with, column by column.
pub record IsVerdict (current : ℕ) (run left : Run) : Type 0 where
  pub failure_reason : left.failure_reason ≡ some "worker_unresponsive"
  pub status :
      left.status
      ≡ (if has_retries run then queued else if requires_review run then blocked else failed)
  pub completed_at :
      left.completed_at ≡ (if has_retries run then run.completed_at else some current)
  pub locked_by : left.locked_by ≡ (if has_retries run then none else run.locked_by)
  pub lease_expires_at :
      left.lease_expires_at ≡ (if has_retries run then none else run.lease_expires_at)
  pub heartbeat_at : left.heartbeat_at ≡ (if has_retries run then none else run.heartbeat_at)
  pub escalation_reason : left.escalation_reason ≡ (
      if has_retries run
      then run.escalation_reason
      else if requires_review run
      then some "human_review_required"
      else run.escalation_reason)

may_retry-has_retries : (run : Run) → may_retry run ≡ has_retries run
unfolding may_retry has_retries
may_retry-has_retries run = refl

settled-IsVerdict : (current : ℕ) (run : Run) → IsVerdict current run (settled current run)
unfolding queued_again held_for_review given_up unresponsive
settled-IsVerdict current run =
    rw (may_retry-has_retries run) (elim (Bool-cases (has_retries run)) [
      | inl e ↦ rw e (record {
        failure_reason = refl;
        status = rw e refl;
        completed_at = rw e refl;
        locked_by = rw e refl;
        lease_expires_at = rw e refl;
        heartbeat_at = rw e refl;
        escalation_reason = rw e refl;
      })
      | inr e ↦ rw e (elim (Bool-cases (requires_review run)) [
        | inl c ↦ rw c (record {
          failure_reason = refl;
          status = rw (e, c) refl;
          completed_at = rw e refl;
          locked_by = rw e refl;
          lease_expires_at = rw e refl;
          heartbeat_at = rw e refl;
          escalation_reason = rw (e, c) refl;
        })
        | inr c ↦ rw c (record {
          failure_reason = refl;
          status = rw (e, c) refl;
          completed_at = rw e refl;
          locked_by = rw e refl;
          lease_expires_at = rw e refl;
          heartbeat_at = rw e refl;
          escalation_reason = rw (e, c) refl;
        })
      ])
    ])

unresponsive-id : (r : Run) → (unresponsive r).id ≡ r.id
unfolding unresponsive
unresponsive-id r = refl

settled-ids :
    (current : ℕ) (summary : String) (r : Run)
    → ((queued_again current summary r).id ≡ r.id)
      × ((held_for_review current summary r).id ≡ r.id)
      × ((given_up current summary r).id ≡ r.id)
unfolding queued_again held_for_review given_up
settled-ids current summary r = (refl, refl, refl)

module _ (host : Host) where
  module _ (current : ℕ) (run : Run) where
    announce-Leaves :
        (db : Db)
        → find_run run.id db ≡ some run
        → Leaves db (announce host current run) tt run.id (unresponsive run)
    unfolding announce
    announce-Leaves db f =
        then-Leaves _ _ db (unresponsive run) tt run.id (unresponsive run) (unresponsive run)
          (update_run-Leaves run.id unresponsive db run f (unresponsive-id run))
          (λ f'.
            then-Leaves _ _ _ tt tt run.id (unresponsive run) (unresponsive run)
              (publish-Leaves host _ _ _ _ _ _ _ run.id (unresponsive run) f')
              (release-Leaves host run.locked_by _ run.id (unresponsive run)))

    settle-Leaves :
        (db : Db)
        → find_run run.id db ≡ some (unresponsive run)
        → Leaves db (settle host current run) (settled current run) run.id (settled current run)
    unfolding settle
    settle-Leaves db f =
        let s = failure_summary run in
        let u = unresponsive run in
        let (i, j, l) = settled-ids current s u in
        elim (Bool-cases (may_retry run)) [
          | inl e ↦
              rw e
                (update_run-Leaves run.id (queued_again current s) db u f (i ∙ unresponsive-id run))
          | inr e ↦ rw e (elim (Bool-cases (requires_review run)) [
            | inr c ↦
                rw c
                  (update_run-Leaves run.id (given_up current s) db u f (l ∙ unresponsive-id run))
            | inl c ↦ rw c (
                then-Leaves _ _ db _ _ run.id _ _
                  (update_run-Leaves run.id (held_for_review current s) db u f
                    (j ∙ unresponsive-id run))
                  (λ f'.
                    then-Leaves _ _ _ tt _ run.id _ _
                      (publish-Leaves host _ _ _ _ _ _ _ run.id _ f') (λ f''. (refl, f''))))
          ])
        ]

    -- Handling a run as stale, if it is the row that its identifier finds, returns the row that
    -- it leaves in the table. Its cause is `worker_unresponsive`. While the attempts, counted as
    -- one at least, do not exceed the retries of the policy, it is queued again without owner,
    -- lease and heartbeat. After that it is blocked for review if the policy asks for one, and
    -- failed if not, both with their end recorded.
    pub handle_stale_run-IsVerdict :
        (db : Db)
        → find_run run.id db ≡ some run
        → (left : Run) × ((handle_stale_run host current run db).0 ≡ ok left)
          × (find_run run.id (handle_stale_run host current run db).1 ≡ some left)
          × IsVerdict current run left
    unfolding handle_stale_run
    handle_stale_run-IsVerdict db f =
        let (a, b) =
          then-Leaves (announce host current run) (λ _. settle host current run) db tt
            (settled current run) run.id (unresponsive run) (settled current run)
            (announce-Leaves db f) (λ f'. settle-Leaves _ f') in
        (settled current run, a, b, settled-IsVerdict current run)
