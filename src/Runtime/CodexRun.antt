-- ===== src/Runtime/CodexRun.antt =====
-- `execute_codex_local_run` of core/codex_local_worker.py. The executor and the validation runner are
-- its arguments; git and the texts of exceptions are the host's.
use xyn.Base.{
  ℕ, String, Bool, true, false, not, ◌||◌, Option, none, some, List, [], ◌∷◌, map, ◌=?◌,
  if◌then◌else◌,
}
use xyn.Base.Text.{strip}
use xyn.Base.Text.Format.{concat, join}
use xyn.Base.Exec.{pure, raise, lift, ◌>>=◌, ◌>>◌}
use xyn.Runtime.Contract.{RunPayloadV1, RunContextAttachmentPayload}
use xyn.Runtime.Models.{Run, Step}
use xyn.Runtime.Session.{read_host}
use xyn.Runtime.Runs.{complete_run}
use xyn.Runtime.CodexWorker.{start_step, complete_step, fail_step}
use xyn.Runtime.Artifacts.{
  WorkerFault, blocked_run, failed_run, crashed, W, run_db, commit, capture_run_artifact,
}
use xyn.Runtime.CodexHost.{
  CodexExecutionResult, CodexHost, ValidationResult, catching, git_stdout, or_else,
  resolve_target_repo, should_run_validation, stripped,
}

module _ (ch : CodexHost) (run_id : ℕ) (worker_id : String) (payload : RunPayloadV1) where
  unfoldable pub begin_step : String → String → ℕ → W Step
  unfolding run_db commit start_step
  begin_step step_key label sequence_no = do
    step ← run_db (start_step ch.host run_id worker_id step_key label sequence_no)
    commit
    pure step

  unfoldable pub finish_step : Step → String → W (Unit {0})
  unfolding run_db commit complete_step
  finish_step step summary = run_db (complete_step ch.host run_id worker_id step summary) >> commit

  unfoldable pub break_step : Step → String → W (Unit {0})
  unfolding run_db commit fail_step
  break_step step summary = run_db (fail_step ch.host run_id worker_id step summary) >> commit

  abbrev inspection_summary : WorkerFault → String
  inspection_summary (failed_run summary reason) = "Repository resolution failed."
  inspection_summary e = ch.exception_text e

  unfoldable pub check_branch : String → String → W (Unit {0})
  unfolding concat
  check_branch repo_path current =
      let expected = stripped payload.target.branch in
      if (expected =? "") || (current =? expected)
      then pure tt
      else raise (
          blocked_run
            (concat (
              "Target branch '"
              ∷ expected
              ∷ "' is not checked out in "
              ∷ ch.repo_name repo_path
              ∷ " (current: "
              ∷ or_else current "detached"
              ∷ ")."
              ∷ []))
            "target_branch_mismatch")

  unfoldable pub check_clean : String → String → W (Unit {0})
  unfolding concat
  check_clean repo_path dirty =
      if dirty =? ""
      then pure tt
      else raise (
          blocked_run
            (concat (
              "Repository '"
              ∷ ch.repo_name repo_path
              ∷ "' has uncommitted changes; refusing to capture an unsafe patch baseline."
              ∷ []))
            "unsafe_repository_state")

  unfoldable pub inspect : Step → W String
  unfolding resolve_target_repo git_stdout check_branch check_clean finish_step concat strip
  inspect step = do
    repo_path ← lift (resolve_target_repo ch payload)
    branch ← git_stdout ch repo_path ("git" ∷ "branch" ∷ "--show-current" ∷ [])
    check_branch repo_path (strip branch)
    status ← git_stdout ch repo_path ("git" ∷ "status" ∷ "--porcelain" ∷ [])
    check_clean repo_path (strip status)
    finish_step step (
        concat (
          "Using repo "
          ∷ repo_path
          ∷ " on branch "
          ∷ or_else (strip branch) "<detached>"
          ∷ "."
          ∷ []))
    pure repo_path

  -- `_run_inspect_repository_step`
  unfoldable pub inspect_repository : W String
  unfolding begin_step catching inspect break_step
  inspect_repository = do
    step ← begin_step "inspect_repository" "Inspect repository" 1
    catching (inspect step) (λ e. break_step step (inspection_summary e))

  abbrev attachment_line : RunContextAttachmentPayload → String
  attachment_line item = concat (
      "- "
      ∷ item.kind
      ∷ ": "
      ∷ item.uri
      ∷ (elim item.label [
        | none ↦ ""
        | some l ↦ if l =? "" then "" else concat (" (" ∷ l ∷ ")" ∷ [])
      ])
      ∷ [])

  unfoldable pub execution_prompt : String → String
  unfolding concat join
  execution_prompt repo_path = concat (
      payload.prompt.title
      ∷ "\n\n"
      ∷ payload.prompt.body
      ∷ "\n\nTarget repo: "
      ∷ repo_path
      ∷ "\nRequested outputs: "
      ∷ join ", " payload.requested_outputs
      ∷ "\nWork item: "
      ∷ payload.work_item_id
      ∷ "\nAttachments:\n"
      ∷ or_else (join "\n" (map attachment_line payload.context.attachments)) "- none"
      ∷ "\nReturn a concise summary of changes and validation."
      ∷ [])

  -- `_run_prepare_context_step`
  unfoldable pub prepare_context : String → W String
  unfolding begin_step catching finish_step break_step execution_prompt
  prepare_context repo_path = do
    step ← begin_step "prepare_context" "Prepare execution context" 2
    catching (finish_step step "Execution context prepared." >> pure (execution_prompt repo_path))
        (λ e. break_step step (ch.exception_text e))

  -- `_run_execute_codex_step`
  unfoldable pub execute_codex : String → String → W CodexExecutionResult
  unfolding begin_step catching run_db finish_step break_step
  execute_codex repo_path prompt = do
    step ← begin_step "execute_codex" "Execute Codex task" 3
    result ←
        catching
          (run_db (
              read_host (λ n.
                ch.execute n repo_path payload.prompt.title prompt payload.policy.timeout_seconds))
            >>= lift)
          (λ e. break_step step (ch.exception_text e))
    finish_step step (or_else result.summary_text "Codex execution completed.")
    pure result

  unfoldable pub validation : String → W ValidationResult
  unfolding should_run_validation run_db
  validation repo_path =
      if should_run_validation payload
      then (run_db (read_host (λ n. ch.validate n repo_path payload.policy.timeout_seconds))
          >>= lift)
      else pure (record {
        success = true;
        summary = "Validation skipped by policy.";
        report_payload = none;
        skipped = true;
      })

  unfoldable pub conclude_validation : Step → ValidationResult → W ValidationResult
  unfolding finish_step break_step
  conclude_validation step result =
      if result.success
      then (finish_step step result.summary >> pure result)
      else (break_step step result.summary >> raise (crashed result.summary))

  -- `_run_validation_step`
  unfoldable pub validate_results : String → W ValidationResult
  unfolding begin_step catching validation break_step conclude_validation
  validate_results repo_path = do
    step ← begin_step "validate_results" "Validate results" 4
    result ← catching (validation repo_path) (λ e. break_step step (ch.exception_text e))
    conclude_validation step result

  unfoldable pub capture_patch : String → W (Unit {0})
  unfolding capture_run_artifact strip
  capture_patch patch_diff =
      if wants_patch payload.requested_outputs || not (strip patch_diff =? "")
      then capture_run_artifact ch.host ch.store_bytes run_id "patch" "patch.diff" patch_diff
      else pure tt
    where
      wants_patch : List String → Bool
      wants_patch [] = false
      wants_patch (output ∷ outputs) = (output =? "patch") || wants_patch outputs

  unfoldable pub capture_report : Option String → W (Unit {0})
  unfolding capture_run_artifact
  capture_report none = pure tt
  capture_report (some report) =
      capture_run_artifact ch.host ch.store_bytes run_id "report" "test_report.json" report

  -- `_run_finalize_outputs_step` up to the completion of the run.
  unfoldable pub finalize_outputs : String → CodexExecutionResult → ValidationResult → W (Unit {0})
  unfolding begin_step git_stdout capture_patch capture_run_artifact capture_report finish_step
  finalize_outputs repo_path codex_result validation_result = do
    step ← begin_step "finalize_outputs" "Finalize outputs" 5
    patch_diff ← git_stdout ch repo_path ("git" ∷ "diff" ∷ "--binary" ∷ [])
    capture_patch patch_diff
    capture_run_artifact ch.host ch.store_bytes run_id "log" "build_logs.txt" codex_result.log_text
    capture_run_artifact ch.host ch.store_bytes run_id "summary" "final_summary.md"
        codex_result.summary_text
    capture_report validation_result.report_payload
    finish_step step "Artifacts captured."

  -- The steps of `execute_codex_local_run`.
  unfoldable pub run_steps : W String
  unfolding inspect_repository prepare_context execute_codex validate_results finalize_outputs
  run_steps = do
    repo_path ← inspect_repository
    prompt ← prepare_context repo_path
    codex_result ← execute_codex repo_path prompt
    validation_result ← validate_results repo_path
    finalize_outputs repo_path codex_result validation_result
    pure codex_result.summary_text

  -- All that `try` covers.
  unfoldable pub attempt : W Run
  unfolding run_steps run_db complete_run commit
  attempt = do
    summary ← run_steps
    run ← run_db (complete_run ch.host run_id (some summary))
    commit
    pure run
