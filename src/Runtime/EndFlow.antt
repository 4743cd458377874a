-- ===== src/Runtime/EndFlow.antt =====
-- `_mark_blocked` and the end of `_handle_failure` move a running run along the table of transitions.
use xyn.Base.{true, ℕ, suc, String, ◌≡◌, refl, inl, inr, some, Bool-cases, arith}
use xyn.Runtime.Models.{running, Run}
use xyn.Runtime.Session.{Host, Db, find_run, read_host}
use xyn.Runtime.Evolution.{Evolves, Ensures-read_host}
use xyn.Runtime.Flow.{Moves, moves_order, moves_preorder}
use xyn.Runtime.Neutral.{publish-Ensures, mark_worker_idle-Ensures}
use xyn.Runtime.StaleFlow.{bind_at, IsTidy, from_running}
use xyn.Runtime.Transitions.{run_transition_allowed}
use xyn.Runtime.Stale.{may_retry}
use xyn.Runtime.CodexWorker.{set_blocked, mark_blocked}
use xyn.Runtime.CodexOutcome.{requeue_after, fail_after, after_failure, settle_failure}

module _ (now : ℕ) (summary reason : String) where
  set_blocked-IsTidy : IsTidy (set_blocked now summary reason)
  unfolding set_blocked
  set_blocked-IsTidy = record { same_id = λ r. refl; sound = λ r w. ground arith }

  set_blocked_allowed :
      (r : Run) → run_transition_allowed running (set_blocked now summary reason r).status ≡ true
  unfolding set_blocked run_transition_allowed
  set_blocked_allowed r = refl

  requeue_after-IsTidy : IsTidy (requeue_after now summary reason)
  unfolding requeue_after
  requeue_after-IsTidy = record { same_id = λ r. refl; sound = λ r w. ground arith }

  fail_after-IsTidy : IsTidy (fail_after now summary reason)
  unfolding fail_after
  fail_after-IsTidy = record { same_id = λ r. refl; sound = λ r w. ground arith }

  after_failure-IsTidy : IsTidy (after_failure now summary reason)
  unfolding after_failure
  after_failure-IsTidy = record {
    same_id = λ r. elim (Bool-cases (may_retry r)) [
      | inl e ↦ rw e (requeue_after-IsTidy.same_id r)
      | inr e ↦ rw e (fail_after-IsTidy.same_id r)
    ];
    sound = λ r w. elim (Bool-cases (may_retry r)) [
      | inl e ↦ rw e (requeue_after-IsTidy.sound r w)
      | inr e ↦ rw e (fail_after-IsTidy.sound r w)
    ];
  }

  after_failure_allowed :
      (r : Run) → run_transition_allowed running (after_failure now summary reason r).status ≡ true
  unfolding after_failure requeue_after fail_after run_transition_allowed
  after_failure_allowed r = elim (Bool-cases (may_retry r)) [
    | inl e ↦ rw e refl
    | inr e ↦ rw e refl
  ]

module _ (host : Host) (k : ℕ) (w summary reason : String) where
  -- The clock is read, the running row is updated, and no other call touches a row of a run.
  pub mark_blocked-Moves :
      (db : Db) (r : Run)
      → find_run k db ≡ some r
      → r.status ≡ running
      → Evolves Moves db (mark_blocked host k w summary reason db).1
  unfolding mark_blocked find_run read_host
  mark_blocked-Moves db r f s =
      bind_at moves_preorder (read_host host.utcnow) _ db
        ((Ensures-read_host moves_order host.utcnow).at db)
        (λ now.
          bind_at moves_preorder _ _ (record db { reads = suc db.reads })
            (from_running k (set_blocked now summary reason) (record db { reads = suc db.reads }) r
              f s (set_blocked-IsTidy now summary reason) (set_blocked_allowed now summary reason))
            (λ run.
              bind_at moves_preorder _ _ _ ((mark_worker_idle-Ensures moves_order host w).at _)
                (λ _.
                  bind_at moves_preorder _ _ _ ((publish-Ensures moves_order host _ _ _ _ _ _).at _)
                    (λ _. moves_preorder.here _))))

  pub settle_failure-Moves :
      (db : Db) (r : Run)
      → find_run k db ≡ some r
      → r.status ≡ running
      → Evolves Moves db (settle_failure host k w summary reason db).1
  unfolding settle_failure find_run read_host
  settle_failure-Moves db r f s =
      bind_at moves_preorder (read_host host.utcnow) _ db
        ((Ensures-read_host moves_order host.utcnow).at db)
        (λ now.
          bind_at moves_preorder _ _ (record db { reads = suc db.reads })
            (from_running k (after_failure now summary reason) (record db { reads = suc db.reads })
              r f s (after_failure-IsTidy now summary reason)
              (after_failure_allowed now summary reason))
            (λ run.
              bind_at moves_preorder _ _ _ ((mark_worker_idle-Ensures moves_order host w).at _)
                (λ _. moves_preorder.here _)))
