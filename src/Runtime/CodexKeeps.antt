-- ===== src/Runtime/CodexKeeps.antt =====
-- The steps of a run keep its row, in the session and in what is committed.
use xyn.Base.{ℕ, String, ◌≡◌, Option, none, some, List}
use xyn.Base.Exec.{Result, ok, err}
use xyn.Base.Exec.Ensures.{
  IsPreorder, Ensures, ensures_rules, Ensures-pure, Ensures-raise, Ensures-bind,
}
use xyn.Runtime.Contract.{RunPayloadV1}
use xyn.Runtime.Models.{Run, Step}
use xyn.Runtime.Session.{Host, Db, M, find_run, read_host}
use xyn.Runtime.Flow.{moves_order, moves_preorder}
use xyn.Runtime.Neutral.{publish-Ensures}
use xyn.Runtime.Operations.{IsMoving, session_rules, record_run_heartbeat-IsMoving}
use xyn.Runtime.ApiFlow.{report_run_step-IsMoving}
use xyn.Runtime.CodexWorker.{start_step, complete_step, fail_step}
use xyn.Runtime.Artifacts.{
  RunArtifact, Session, WorkerFault, unstored, stored, W, run_db, commit, add_artifact, captured,
  capture_run_artifact,
}
use xyn.Runtime.CodexHost.{
  CodexHost, CodexExecutionResult, ValidationResult, git_stdout, on_error, catching,
}
use xyn.Runtime.CodexRun.{
  begin_step, finish_step, break_step, check_branch, check_clean, inspect, inspect_repository,
  prepare_context, execute_codex, validation, conclude_validation, validate_results, capture_patch,
  capture_report, finalize_outputs, run_steps,
}

abbrev pub HasRun : ℕ → Db → Type 0
HasRun k db = (r : Run) × (find_run k db ≡ some r)

-- A run that is there and committed stays so.
pub record KeepsRun (k : ℕ) (s t : Session) : Type 0 where
  pub kept : HasRun k s.db → HasRun k s.committed_db → HasRun k t.db × HasRun k t.committed_db

module _ {k : ℕ} where
  instance abbrev pub keeps_preorder : IsPreorder (KeepsRun k)
  keeps_preorder = record {
    here = λ s. record { kept = λ h c. (h, c) };
    next = λ s t u a b. record { kept = λ h c. let (h', c') = a.kept h c in b.kept h' c' };
  }

  pub run_db-Keeps : {A : Type 0} (m : M A) → IsMoving m → Ensures (KeepsRun k) (run_db m)
  unfolding run_db
  run_db-Keeps m e = record {
    at = λ s. record { kept = λ h c. let (r', f, _) = (e.at s.db).row k h.0 h.1 in ((r', f), c) };
  }

  pub commit-Keeps : Ensures (KeepsRun k) commit
  unfolding commit
  commit-Keeps = record { at = λ s. record { kept = λ h c. (h, h) } }

  add_artifact-Keeps : (a : RunArtifact) → Ensures (KeepsRun k) (add_artifact a)
  unfolding add_artifact
  add_artifact-Keeps a = record { at = λ s. record { kept = λ h c. (h, c) } }

  on_error-Keeps :
      {A : Type 0} (handler : WorkerFault → W (Unit {0})) (r : Result WorkerFault A)
      → ((e : WorkerFault) → Ensures (KeepsRun k) (handler e))
      → Ensures (KeepsRun k) (on_error handler r)
  on_error-Keeps handler (ok a) h = Ensures-pure a
  on_error-Keeps handler (err e) h = Ensures-bind (handler e) _ (h e) (λ _. Ensures-raise e)

  pub catching-Keeps :
      {A : Type 0} (body : W A) (handler : WorkerFault → W (Unit {0}))
      → Ensures (KeepsRun k) body
      → ((e : WorkerFault) → Ensures (KeepsRun k) (handler e))
      → Ensures (KeepsRun k) (catching body handler)
  unfolding catching
  catching-Keeps body handler b h = record {
    at = λ s.
        keeps_preorder.next s (body s).1 _ (b.at s)
          ((on_error-Keeps handler (body s).0 h).at (body s).1);
  }

read-IsMoving : {A : Type 0} (f : ℕ → A) → IsMoving (read_host f)
read-IsMoving f = search session_rules

ruleset keeps_rules = (
  ensures_rules, run_db-Keeps, commit-Keeps, add_artifact-Keeps, catching-Keeps, read-IsMoving,
  publish-Ensures, moves_order,
)

module _ (host : Host) (j : ℕ) where
  start_step-IsMoving : (w key label : String) (n : ℕ) → IsMoving (start_step host j w key label n)
  unfolding start_step
  start_step-IsMoving w key label n =
      search (session_rules, record_run_heartbeat-IsMoving, report_run_step-IsMoving)

  complete_step-IsMoving :
      (w : String) (s : Step) (t : String) → IsMoving (complete_step host j w s t)
  unfolding complete_step
  complete_step-IsMoving w s t =
      search (session_rules, record_run_heartbeat-IsMoving, report_run_step-IsMoving)

  fail_step-IsMoving : (w : String) (s : Step) (t : String) → IsMoving (fail_step host j w s t)
  unfolding fail_step
  fail_step-IsMoving w s t =
      search (session_rules, record_run_heartbeat-IsMoving, report_run_step-IsMoving)

stored-Keeps : {k : ℕ} (o : Option String) → Ensures (KeepsRun k) (stored o)
stored-Keeps none = Ensures-pure tt
stored-Keeps (some failure) = Ensures-raise (unstored failure)

module _ {k : ℕ} (host : Host) (store_bytes : ℕ → ℕ → String → Option String) (j : ℕ) where
  captured-Keeps :
      (kind label content : String)
      → Ensures (KeepsRun k) (captured host store_bytes j kind label content)
  unfolding captured
  captured-Keeps kind label content = search (keeps_rules, stored-Keeps) depth 16

  pub capture-Keeps :
      (kind label content : String)
      → Ensures (KeepsRun k) (capture_run_artifact host store_bytes j kind label content)
  unfolding capture_run_artifact
  capture-Keeps kind label content = search (keeps_rules, captured-Keeps)

module _ {k : ℕ} (ch : CodexHost) where
  git_stdout-Keeps :
      (path : String) (cmd : List String) → Ensures (KeepsRun k) (git_stdout ch path cmd)
  unfolding git_stdout
  git_stdout-Keeps path cmd = search keeps_rules

module _ {k : ℕ} (ch : CodexHost) (j : ℕ) (w : String) (p : RunPayloadV1) where
  begin_step-Keeps :
      (key label : String) (n : ℕ) → Ensures (KeepsRun k) (begin_step ch j w p key label n)
  unfolding begin_step
  begin_step-Keeps key label n = search (keeps_rules, start_step-IsMoving)

  finish_step-Keeps : (s : Step) (t : String) → Ensures (KeepsRun k) (finish_step ch j w p s t)
  unfolding finish_step
  finish_step-Keeps s t = search (keeps_rules, complete_step-IsMoving)

  break_step-Keeps : (s : Step) (t : String) → Ensures (KeepsRun k) (break_step ch j w p s t)
  unfolding break_step
  break_step-Keeps s t = search (keeps_rules, fail_step-IsMoving)

  check_branch-Keeps :
      (path current : String) → Ensures (KeepsRun k) (check_branch ch j w p path current)
  unfolding check_branch
  check_branch-Keeps path current = search keeps_rules

  check_clean-Keeps : (path dirty : String) → Ensures (KeepsRun k) (check_clean ch j w p path dirty)
  unfolding check_clean
  check_clean-Keeps path dirty = search keeps_rules

  inspect-Keeps : (s : Step) → Ensures (KeepsRun k) (inspect ch j w p s)
  unfolding inspect
  inspect-Keeps s =
      search
        (keeps_rules, git_stdout-Keeps, check_branch-Keeps, check_clean-Keeps, finish_step-Keeps)
        depth 14

  inspect_repository-Keeps : Ensures (KeepsRun k) (inspect_repository ch j w p)
  unfolding inspect_repository
  inspect_repository-Keeps = search (keeps_rules, begin_step-Keeps, inspect-Keeps, break_step-Keeps)

  prepare_context-Keeps : (path : String) → Ensures (KeepsRun k) (prepare_context ch j w p path)
  unfolding prepare_context
  prepare_context-Keeps path =
      search (keeps_rules, begin_step-Keeps, finish_step-Keeps, break_step-Keeps) depth 10

  execute_codex-Keeps :
      (path prompt : String) → Ensures (KeepsRun k) (execute_codex ch j w p path prompt)
  unfolding execute_codex
  execute_codex-Keeps path prompt =
      search (keeps_rules, begin_step-Keeps, finish_step-Keeps, break_step-Keeps) depth 12

  validation-Keeps : (path : String) → Ensures (KeepsRun k) (validation ch j w p path)
  unfolding validation
  validation-Keeps path = search keeps_rules

  conclude_validation-Keeps :
      (s : Step) (v : ValidationResult) → Ensures (KeepsRun k) (conclude_validation ch j w p s v)
  unfolding conclude_validation
  conclude_validation-Keeps s v = search (keeps_rules, finish_step-Keeps, break_step-Keeps)

  validate_results-Keeps : (path : String) → Ensures (KeepsRun k) (validate_results ch j w p path)
  unfolding validate_results
  validate_results-Keeps path =
      search
        (
          keeps_rules, begin_step-Keeps, validation-Keeps, break_step-Keeps,
          conclude_validation-Keeps,
        )
        depth 10

  capture_patch-Keeps : (diff : String) → Ensures (KeepsRun k) (capture_patch ch j w p diff)
  unfolding capture_patch
  capture_patch-Keeps diff = search (keeps_rules, capture-Keeps)

  capture_report-Keeps : (o : Option String) → Ensures (KeepsRun k) (capture_report ch j w p o)
  unfolding capture_report
  capture_report-Keeps none = search keeps_rules
  capture_report-Keeps (some r) =
      capture-Keeps ch.host ch.store_bytes j "report" "test_report.json" r

  finalize_outputs-Keeps :
      (path : String) (c : CodexExecutionResult) (v : ValidationResult)
      → Ensures (KeepsRun k) (finalize_outputs ch j w p path c v)
  unfolding finalize_outputs
  finalize_outputs-Keeps path c v =
      search
        (
          keeps_rules, begin_step-Keeps, git_stdout-Keeps, capture_patch-Keeps, capture-Keeps,
          capture_report-Keeps, finish_step-Keeps,
        )
        depth 16

  -- All the steps keep the row of the run, whether they return or raise.
  pub run_steps-Keeps : Ensures (KeepsRun k) (run_steps ch j w p)
  unfolding run_steps
  run_steps-Keeps =
      search
        (
          keeps_rules, inspect_repository-Keeps, prepare_context-Keeps, execute_codex-Keeps,
          validate_results-Keeps, finalize_outputs-Keeps,
        )
        depth 14
