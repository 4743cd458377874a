-- ===== src/Tests/RuntimeTests.antt =====
-- Histories, leases, the queue and the watch over stale runs at concrete inputs.
use mathlib.Core.List.{Perm}
use xyn.Base.{eq_iff, String, ◌≡◌, ◌≢◌, refl, true, false, some, List, [], ◌∷◌, arith, ◌=?◌}
use xyn.Base.Exec.{ok}
use xyn.Base.Sort.{sort_by, insert_sorted}
use xyn.Base.Table.{first, select, update}
use xyn.Runtime.Contract.{is_valid, contains}
use xyn.Runtime.Models.{running, completed, Run}
use xyn.Runtime.Session.{Db, find_run}
use xyn.Runtime.Rows.{IsWellFormed}
use xyn.Runtime.Flow.{Leads}
use xyn.Runtime.Runs.{new_run}
use xyn.Runtime.Leases.{WorkerConfig}
use xyn.Runtime.Workers.{list_healthy_workers, healthy}
use xyn.Runtime.Queue.{idle_worker, waiting, queued_runs, model_validate, dispatch_queued_run}
use xyn.Runtime.Stale.{handle_stale_run}
use xyn.Runtime.History.{Call, perform, Reaches}
use xyn.Runtime.CodexOutcome.{settle_failure}
use xyn.Runtime.Reached.{runs-Leads, Reaches-IsWellFormed, ended-is_final}
use xyn.Runtime.Exclusive.{LeaseCall, after_calls, lease-exclusive}
use xyn.Runtime.Dispatch.{occupied_row, started_row, dispatch-starts_first}
use xyn.Runtime.QueueOrder.{IsInOrder, is_waiting, queued_runs-IsInOrder}
use xyn.Runtime.Verdict.{IsVerdict, handle_stale_run-IsVerdict}
use xyn.Tests.Samples.{host, payload, queued_run, running_run, completed_run, worker, db_with}

running-IsWellFormed : IsWellFormed (db_with running_run).runs
running-IsWellFormed = record {
  distinct = (tt, tt);
  sound =
      (record { ended = λ h. cc; owned = λ h. refl; leased = λ h. refl; started = λ h. refl }, tt);
}

completed-IsWellFormed : IsWellFormed (db_with completed_run).runs
completed-IsWellFormed = record {
  distinct = (tt, tt);
  sound = (record { ended = λ h. refl; owned = λ h. cc; leased = λ h. cc; started = λ h. cc }, tt);
}

found_running : find_run 3 (db_with running_run) ≡ some running_run
unfolding find_run first new_run
found_running = refl

found_completed : find_run 3 (db_with completed_run) ≡ some completed_run
unfolding find_run first new_run
found_completed = refl

found_queued : find_run queued_run.id (db_with queued_run) ≡ some queued_run
unfolding find_run first new_run
found_queued = refl

found_running_id : find_run running_run.id (db_with running_run) ≡ some running_run
unfolding find_run first new_run
found_running_id = refl

-- The worker gives a running run up.
abbrev broken : Db
broken = (settle_failure host 3 "w1" "timed out" "timeout_exceeded" (db_with running_run)).1

runs-Leads_example :
    (r' : Run) × (find_run 3 (perform host (Call.cancels 3) broken) ≡ some r')
    × Leads running r'.status
runs-Leads_example =
    runs-Leads host
      (Reaches.breaks 3 "w1" "timed out" "timeout_exceeded" running_run found_running refl
        (Reaches.after (Call.cancels 3) Reaches.here))
      running-IsWellFormed 3 running_run found_running

Reaches-IsWellFormed_example :
    IsWellFormed (perform host (Call.watches 2_000_000_000 30) (db_with running_run)).runs
Reaches-IsWellFormed_example =
    Reaches-IsWellFormed host (Reaches.after (Call.watches 2_000_000_000 30) Reaches.here)
      running-IsWellFormed

ended-is_final_example :
    (r' : Run) × (find_run 3 (perform host (Call.continues 3) (db_with completed_run)) ≡ some r')
    × (r'.status ≡ completed)
ended-is_final_example =
    ended-is_final host (Reaches.after (Call.continues 3) Reaches.here) completed-IsWellFormed 3
      completed_run found_completed refl

abbrev rival : WorkerConfig
rival = record { worker_id = "w2"; lease_duration_seconds = 60; batch_size = 1 }

abbrev rival_calls : List LeaseCall
rival_calls = LeaseCall.claims rival 400 (λ r. false) ∷ LeaseCall.renews rival 450 3 ∷ []

rival-ne : ◌≢◌ {A = String} "w2" "w1"
rival-ne h = let e : false ≡ true = (eq_iff "w2" "w1").1 h in cc

lease-exclusive_example :
    find_run 3 (after_calls rival_calls (db_with running_run)) ≡ some running_run
lease-exclusive_example =
    lease-exclusive rival_calls "w1" 500 3 running_run (db_with running_run) (tt, tt) found_running
      (record { is_run = refl; holder = refl; until = refl })
      ((rival-ne, omega arith), ((rival-ne, omega arith), tt))

queue_of_one : queued_runs (db_with queued_run) ≡ queued_run ∷ []
unfolding queued_runs select waiting sort_by insert_sorted new_run
queue_of_one = refl

payload_valid : model_validate queued_run.prompt_payload ≡ ok payload
unfolding model_validate is_valid contains new_run
payload_valid = refl

worker_free :
    idle_worker (list_healthy_workers "codex_local" 1000 90 (db_with queued_run)) ≡ some worker
unfolding list_healthy_workers healthy select sort_by insert_sorted first
worker_free = refl

dispatch-starts_first_example :
    let started = started_row 1000 (host.utcnow 1) 90 worker queued_run in
    let after = dispatch_queued_run host 1000 90 (db_with queued_run) in
    (after.0 ≡ ok (some started))
    × (find_run queued_run.id after.1 ≡ some started)
    × (after.1.workers
        ≡ update
            (λ row. row.worker_id =? worker.worker_id)
            (occupied_row queued_run.id (host.utcnow 2))
            (worker ∷ []))
unfolding new_run
dispatch-starts_first_example =
    dispatch-starts_first host 1000 90 (db_with queued_run) queued_run [] payload worker
      queue_of_one found_queued refl payload_valid refl refl refl worker_free

queued_runs-IsInOrder_example :
    IsInOrder (queued_runs (db_with queued_run))
    × Perm
        (queued_runs (db_with queued_run))
        (select (λ run. is_waiting run.status run.worker_type) (queued_run ∷ []))
queued_runs-IsInOrder_example = queued_runs-IsInOrder (db_with queued_run)

handle_stale_run-IsVerdict_example :
    (left : Run) × ((handle_stale_run host 2000 running_run (db_with running_run)).0 ≡ ok left)
    × (find_run running_run.id (handle_stale_run host 2000 running_run (db_with running_run)).1
        ≡ some left)
    × IsVerdict 2000 running_run left
handle_stale_run-IsVerdict_example =
    handle_stale_run-IsVerdict host 2000 running_run (db_with running_run) found_running_id
