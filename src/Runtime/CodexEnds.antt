-- ===== src/Runtime/CodexEnds.antt =====
-- Whatever Codex, git and the validation do, the execution of an assigned run ends it.
use xyn.Base.{
  ℕ, String, ◌≡◌, refl, ap, ◌∙◌, true, inl, inr, Option, none, some, List, [], ◌∷◌, Bool-cases,
}
use xyn.Base.Exec.{Result, Result-cases, ok, pure, lift, ◌>>=◌, ◌>>◌}
use xyn.Base.Exec.Ensures.{Ensures-lift}
use xyn.Runtime.Contract.{RunPayloadV1}
use xyn.Runtime.Models.{completed, Run, Datum, text, flag}
use xyn.Runtime.Session.{Host, Fault, find_run, one_run, read_host, add_event}
use xyn.Runtime.Flow.{moves_order, moves_preorder}
use xyn.Runtime.Neutral.{publish-Ensures}
use xyn.Runtime.Operations.{IsMoving, session_rules}
use xyn.Runtime.Outcomes.{EndsIn, complete_run-EndsIn}
use xyn.Runtime.Transitions.{run_transition_allowed, moved}
use xyn.Runtime.Events.{publish_runtime_event}
use xyn.Runtime.Queue.{model_validate}
use xyn.Runtime.Runs.{complete_run}
use xyn.Runtime.Stale.{may_retry}
use xyn.Runtime.CodexWorker.{ensure_assigned_run, mark_blocked}
use xyn.Runtime.Artifacts.{
  Session, WorkerFault, blocked_run, failed_run, timed_out, crashed, database,
  unknown_artifact_type, unstored, is_artifact_type, W, raised, run_db, commit, rollback,
  capture_run_artifact,
}
use xyn.Runtime.CodexHost.{or_else, CodexHost}
use xyn.Runtime.CodexRun.{run_steps, attempt}
use xyn.Runtime.CodexOutcome.{
  settle_failure, handle_failure, recover, or_recover, attempt_or_recover, if_available,
  execute_codex_local_run,
}
use xyn.Runtime.CodexKeeps.{HasRun, run_db-Keeps, run_steps-Keeps}
use xyn.Runtime.CodexSettles.{
  is_settled, Settles, Holds, then-Settles, finish-Settles, captured-Settles, settle_failure-Leaves,
  mark_blocked-Leaves,
}

one_run-IsMoving : (k : ℕ) → IsMoving (one_run k)
one_run-IsMoving k = search session_rules

read-IsMoving : {A : Type 0} (f : ℕ → A) → IsMoving (read_host f)
read-IsMoving f = search session_rules

lift-IsMoving : {A : Type 0} (r : Result Fault A) → IsMoving (lift r)
lift-IsMoving r = Ensures-lift r

one_run_ok :
    (k : ℕ) (s : Session) (r : Run) → find_run k s.db ≡ some r → (run_db (one_run k) s).0 ≡ ok r
unfolding run_db one_run
one_run_ok k s r f = rw (f, one_run) refl

publish_ok :
    (host : Host) (name : String) (k : ℕ) (source : String) (cause : Option String)
    (given : List (String × Datum)) (s : Session)
    → (run_db (publish_runtime_event host name k none source cause given) s).0 ≡ ok tt
unfolding run_db publish_runtime_event add_event read_host ◌>>=◌
publish_ok host name k source cause given s = refl

is_type : (is_artifact_type "summary" ≡ true) × (is_artifact_type "log" ≡ true)
unfolding is_artifact_type
is_type = (refl, refl)

module _ (ch : CodexHost) (k : ℕ) (w : String) where
  handle_failure-Settles :
      (summary reason log_text : String) (s : Session)
      → Holds k s
      → Settles ch k (handle_failure ch k w summary reason log_text) s
  unfolding handle_failure
  handle_failure-Settles summary reason log_text s h =
      let (r, f) = h.0 in
      let given : List (String × Datum) =
        ("summary", text summary)
        ∷ ("failure_reason", text reason)
        ∷ ("retry_eligible", flag (may_retry r))
        ∷ [] in
      let cause : Option String = some r.correlation_id in
      let announce : W (Unit {0}) =
        run_db (publish_runtime_event ch.host "run.failed" k none w cause given) in
      let t : Session = (run_db (one_run k) s).1 in
      let u : Session = (announce t).1 in
      let v : Session =
        (capture_run_artifact ch.host ch.store_bytes k "summary" "final_summary.md" summary u).1 in
      let x : Session =
        (capture_run_artifact ch.host ch.store_bytes k "log" "build_logs.txt"
          (or_else log_text summary) v).1 in
      then-Settles ch k (run_db (one_run k)) _ s r (run_db-Keeps (one_run k) (one_run-IsMoving k)) h
        (one_run_ok k s r f)
        (λ h₁.
          then-Settles ch k announce _ t tt
            (run_db-Keeps _ (publish-Ensures moves_order ch.host "run.failed" k none w cause given))
            h₁ (publish_ok ch.host "run.failed" k w cause given t)
            (λ h₂.
              captured-Settles ch k "summary" "final_summary.md" summary _ u is_type.0 h₂ (λ h₃.
                captured-Settles ch k "log" "build_logs.txt" (or_else log_text summary) _ v
                  is_type.1 h₃
                  (λ h₄.
                    let (q, g) = h₄.0 in
                    let (r', leaves, settled) =
                      settle_failure-Leaves k ch w summary reason x.db q g in
                    finish-Settles ch k (settle_failure ch.host k w summary reason) x r' leaves
                      settled))))

  recover-Settles : (e : WorkerFault) (s : Session) → Holds k s → Settles ch k (recover ch k w e) s
  unfolding recover
  recover-Settles (blocked_run summary reason) s h =
      let (r, f) = h.0 in
      let (r', leaves, settled) = mark_blocked-Leaves k ch w summary reason s.db r f in
      finish-Settles ch k (mark_blocked ch.host k w summary reason) s r' leaves settled
  recover-Settles (failed_run summary reason) s h =
      handle_failure-Settles summary reason summary s h
  recover-Settles (timed_out summary) s h =
      handle_failure-Settles summary "timeout_exceeded" summary s h
  recover-Settles (crashed summary) s h =
      handle_failure-Settles (ch.exception_text (crashed summary)) "unexpected_error"
        (ch.exception_text (crashed summary)) s h
  recover-Settles (database fault) s h =
      handle_failure-Settles (ch.exception_text (database fault)) "unexpected_error"
        (ch.exception_text (database fault)) s h
  recover-Settles unknown_artifact_type s h =
      handle_failure-Settles (ch.exception_text unknown_artifact_type) "unexpected_error"
        (ch.exception_text unknown_artifact_type) s h
  recover-Settles (unstored failure) s h =
      handle_failure-Settles (ch.exception_text (unstored failure)) "unexpected_error"
        (ch.exception_text (unstored failure)) s h

  rolled_back-Settles :
      (e : WorkerFault) (s : Session)
      → HasRun k s.committed_db
      → Settles ch k (rollback >> recover ch k w e) s
  unfolding rollback ◌>>=◌ find_run
  rolled_back-Settles e s h = recover-Settles e (rollback s).1 (h, h)

  -- Completing the run ends it; if the table of transitions refuses that, the failure is handled.
  completed-Settles :
      (summary : String) (s : Session)
      → Holds k s
      → (let (r, s') =
            (run_db (complete_run ch.host k (some summary)) >>= λ run. commit >>= λ _. pure run)
              s in
          Settles ch k (or_recover ch k w r) s')
  unfolding ◌>>=◌ run_db commit is_settled moved
  completed-Settles summary s h =
      let (r, f) = h.0 in
      let ends : EndsIn completed (complete_run ch.host k (some summary)) _ _ _ _ k r s.db =
        complete_run-EndsIn ch.host k (some summary) s.db r f in
      elim (Bool-cases (run_transition_allowed r.status completed)) [
        | inl a ↦ rw (ends.result, a) (inl (_, refl, ends.row ∙ rw a refl, refl, refl))
        | inr a ↦ rw (ends.result, a) (rolled_back-Settles _ _ h.1)
      ]

  attempt_or_recover-Settles :
      (p : RunPayloadV1) (s : Session) → Holds k s → Settles ch k (attempt_or_recover ch k w p) s
  unfolding attempt_or_recover attempt ◌>>=◌
  attempt_or_recover-Settles p s h =
      let h' = ((run_steps-Keeps ch k w p).at s).kept h.0 h.1 in
      elim (Result-cases (run_steps ch k w p s).0) [
        | inl (summary, e) ↦ rw e (completed-Settles summary (run_steps ch k w p s).1 h')
        | inr (fault, e) ↦ rw e (rolled_back-Settles fault (run_steps ch k w p s).1 h'.1)
      ]

  if_available-Settles :
      (p : RunPayloadV1) (reason : Option String) (s : Session)
      → Holds k s
      → Settles ch k (if_available ch k w p reason) s
  unfolding if_available
  if_available-Settles p none s h = attempt_or_recover-Settles p s h
  if_available-Settles p (some reason) s h =
      handle_failure-Settles (or_else reason "codex unavailable") "worker_crashed" reason s h

  -- Whatever the workspace, git, Codex and the validation answer, the execution of a run that is
  -- there and committed, is assigned to the worker and has a valid payload returns: the row that it
  -- returns stands under the identifier of the run, is completed, failed, blocked or queued again,
  -- and all that the execution wrote is committed. The only exception is that it raises what the
  -- object store raised, for an artifact that the store refused.
  pub execute_codex_local_run-Settles :
      (s : Session) (r : Run) (p : RunPayloadV1)
      → find_run k s.db ≡ some r
      → HasRun k s.committed_db
      → model_validate r.prompt_payload ≡ ok p
      → ensure_assigned_run r w ≡ ok tt
      → Settles ch k (execute_codex_local_run ch k w) s
  unfolding execute_codex_local_run run_db read_host
  execute_codex_local_run-Settles s r p f c valid assigned =
      let looked_up : W Run = run_db (one_run k) in
      let validated : W RunPayloadV1 = run_db (lift (model_validate r.prompt_payload)) in
      let checked : W (Unit {0}) = run_db (lift (ensure_assigned_run r w)) in
      let asked : W (Option String) = run_db (read_host ch.unavailable) in
      let t : Session = (looked_up s).1 in
      let u : Session = (validated t).1 in
      let v : Session = (checked u).1 in
      then-Settles ch k looked_up _ s r (run_db-Keeps (one_run k) (one_run-IsMoving k)) ((r, f), c)
        (one_run_ok k s r f)
        (λ h₁.
          then-Settles ch k validated _ t p (run_db-Keeps _ (lift-IsMoving _)) h₁ (ap raised valid)
            (λ h₂.
              then-Settles ch k checked _ u tt (run_db-Keeps _ (lift-IsMoving _)) h₂
                (ap raised assigned)
                (λ h₃.
                  then-Settles ch k asked _ v (ch.unavailable v.db.reads)
                    (run_db-Keeps _ (read-IsMoving ch.unavailable)) h₃ refl
                    (λ h₄. if_available-Settles p (ch.unavailable v.db.reads) (asked v).1 h₄))))
