-- ===== src/Tests/CodexTests.antt =====
-- The execution of a run by a worker at a concrete session.
use xyn.Base.{refl, true, false, none, []}
use xyn.Base.Exec.{ok}
use xyn.Runtime.Session.{find_run}
use xyn.Base.Table.{first}
use xyn.Runtime.Queue.{model_validate}
use xyn.Runtime.Runs.{new_run}
use xyn.Runtime.CodexWorker.{ensure_assigned_run}
use xyn.Runtime.Artifacts.{Session}
use xyn.Runtime.CodexHost.{CodexHost}
use xyn.Runtime.CodexOutcome.{execute_codex_local_run}
use xyn.Runtime.Models.{Run, cancelled}
use xyn.Runtime.Leaves.{Leaves}
use xyn.Runtime.CodexSettles.{Settles}
use xyn.Runtime.CodexEnds.{execute_codex_local_run-Settles}
use xyn.Tests.Samples.{host, payload, running_run, db_with}
use xyn.Tests.RepoTests.{workspace}

-- A host whose git is clean, and whose Codex and validation succeed.
abbrev codex_host : CodexHost
codex_host = record {
  host = host;
  workspace = workspace;
  git = λ n path cmd. record { returncode = 0; stdout = ""; stderr = "" };
  repo_name = λ path. path;
  repo_message = λ fault. "no repository";
  exception_text = λ fault. "fault";
  store_bytes = λ n id content. none;
  unavailable = λ n. none;
  execute = λ n path title prompt seconds. ok (record { summary_text = "done"; log_text = "log" });
  validate = λ n path seconds.
      ok (record { success = true; summary = "passed"; report_payload = none; skipped = false });
}

abbrev session : Session
session = record {
  db = db_with running_run;
  artifacts = [];
  committed_db = db_with running_run;
  committed_artifacts = [];
}

execute_codex_local_run-Settles_example :
    Settles codex_host 3 (execute_codex_local_run codex_host 3 "w1") session
unfolding find_run model_validate ensure_assigned_run new_run first
execute_codex_local_run-Settles_example =
    execute_codex_local_run-Settles codex_host 3 "w1" session running_run payload refl
      (running_run, refl) refl refl

abbrev cancelled_run : Run
cancelled_run = record running_run { status = cancelled }
