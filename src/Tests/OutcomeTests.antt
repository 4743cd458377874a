-- ===== src/Tests/OutcomeTests.antt =====
-- Ends, submissions and retries of runs at concrete inputs.
use xyn.Base.{true, ◌≡◌, refl, none, some, [], ◌∷◌, ◌++◌}
use xyn.Base.Exec.{ok}
use xyn.Base.Table.{first}
use xyn.Runtime.Contract.{RunPayloadV1, is_valid, contains}
use xyn.Runtime.Models.{completed, blocked, Run}
use xyn.Runtime.Session.{Db, find_run}
use xyn.Runtime.Queue.{model_validate}
use xyn.Runtime.Runs.{new_run, complete_run, fail_run, submit_runtime_run, retry_runtime_run}
use xyn.Runtime.Endings.{Ends, may_complete, may_fail, complete_run-Ends, fail_run-Ends}
use xyn.Runtime.Retry.{IsFresh, submit-IsFresh, submit_twice, retry-IsFresh}
use xyn.Runtime.Models.{Step, StepStatus}
use xyn.Runtime.Steps.{find_step, report_run_step}
use xyn.Runtime.StepFlow.{report_run_step_final}
use xyn.Tests.Samples.{host, payload, running_run, completed_run, db_with}

found :
    (find_run 3 (db_with running_run) ≡ some running_run)
    × (find_run 3 (db_with completed_run) ≡ some completed_run)
unfolding find_run first new_run
found = (refl, refl)

free : (find_run 4 (db_with running_run) ≡ none) × (find_run 50 (db_with completed_run) ≡ none)
unfolding find_run first new_run
free = (refl, refl)

valid :
    (model_validate running_run.prompt_payload ≡ ok payload)
    × (model_validate completed_run.prompt_payload ≡ ok payload)
unfolding model_validate is_valid contains new_run
valid = (refl, refl)

complete_run-Ends_example :
    Ends true completed
      (complete_run host 3 (some "done"))
      (some "done")
      none
      none
      1000
      3
      running_run
      (db_with running_run)
unfolding may_complete
complete_run-Ends_example =
    complete_run-Ends host 3 (some "done") (db_with running_run) running_run found.0

fail_run-Ends_example :
    Ends true blocked
      (fail_run host 3 none (some "tests") (some "review"))
      none
      (some "tests")
      (some "review")
      1000
      3
      running_run
      (db_with running_run)
unfolding may_fail
fail_run-Ends_example =
    fail_run-Ends host 3 none (some "tests") (some "review") (db_with running_run) running_run
      found.0

abbrev other_payload : RunPayloadV1
other_payload = record payload { run_id = "uuuu" }

submit-IsFresh_example :
    (run : Run) × IsFresh 4 other_payload "api" run
    × ((submit_runtime_run host other_payload "api" (db_with running_run)).0 ≡ ok run)
    × ((submit_runtime_run host other_payload "api" (db_with running_run)).1.runs
        ≡ (running_run ∷ []) ++ run ∷ [])
submit-IsFresh_example = submit-IsFresh host other_payload "api" 4 (db_with running_run) refl free.0

other_valid : model_validate (some other_payload) ≡ ok other_payload
unfolding model_validate is_valid contains
other_valid = refl

submit_twice_example :
    submit_runtime_run host other_payload "retry"
      (submit_runtime_run host other_payload "api" (db_with running_run)).1
    ≡ submit_runtime_run host other_payload "api" (db_with running_run)
submit_twice_example =
    submit_twice host other_payload "api" "retry" 4 (db_with running_run) other_valid refl

retry-IsFresh_example :
    (run : Run) × IsFresh 50 (record payload { run_id = host.uuid_text 50 }) "api_retry" run
    × ((retry_runtime_run host 3 "api_retry" (db_with completed_run)).0 ≡ ok run)
    × ((retry_runtime_run host 3 "api_retry" (db_with completed_run)).1.runs
        ≡ (completed_run ∷ []) ++ run ∷ [])
retry-IsFresh_example =
    retry-IsFresh host 3 "api_retry" completed_run payload (db_with completed_run) found.1 valid.1
      free.1

abbrev finished_step : Step
finished_step = record {
  id = 9;
  run_id = 3;
  name = "execute_codex";
  idx = 3;
  kind = "runtime";
  status = StepStatus.completed;
  step_key = "execute_codex";
  label = none;
  summary = none;
  created_at = 20;
  started_at = some 20;
  completed_at = some 30;
}

abbrev db_finished : Db
db_finished = record (db_with running_run) { steps = finished_step ∷ [] }

found_finished : find_step 9 db_finished ≡ some finished_step
unfolding find_step first
found_finished = refl

report_run_step_final_example :
    (s' : Step) × (find_step 9
        (report_run_step host 3 "execute_codex" "Execute" "running" 3 (some "again") db_finished).1
      ≡ some s')
    × (s'.status ≡ StepStatus.completed)
report_run_step_final_example =
    report_run_step_final host 3 "execute_codex" "Execute" "running" 3 (some "again") db_finished 9
      finished_step found_finished refl
