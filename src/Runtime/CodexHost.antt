-- ===== src/Runtime/CodexHost.antt =====
-- What the execution of a run by Codex asks of its host, and what the steps of a run share:
-- `resolve_target_repo`, `should_run_validation` and `_git_stdout` of core/codex_local_worker.py.
use xyn.Base.{
  ℕ, String, Bool, false, ◌||◌, Option, none, some, List, [], ◌∷◌, ◌=?◌, if◌then◌else◌, ◌==◌,
}
use xyn.Base.Text.{strip, lower}
use xyn.Base.Text.Format.{concat}
use xyn.Base.Text.Contains.{contains}
use xyn.Base.Exec.{Result, ok, err, pure, raise, lift, ◌>>=◌, ◌>>◌}
use xyn.Repos.Resolver.{Workspace, RepoFault, ResolvedRuntimeRepo, resolve_runtime_repo}
use xyn.Repos.Resolver as Resolver
use xyn.Runtime.Contract.{RunPayloadV1}
use xyn.Runtime.Session.{Host, read_host}
use xyn.Runtime.Artifacts.{WorkerFault, blocked_run, failed_run, W, run_db}

pub record CodexExecutionResult : Type 0 where
  pub summary_text : String
  pub log_text : String

pub record ValidationResult : Type 0 where
  pub success : Bool
  pub summary : String
  pub report_payload : Option String
  pub skipped : Bool

-- The return code and the texts of a git command.
pub record GitResult : Type 0 where
  pub returncode : ℕ
  pub stdout : String
  pub stderr : String

pub record CodexHost : Type 0 where
  pub host : Host
  pub workspace : Workspace
  pub git : ℕ → String → List String → GitResult
  pub repo_name : String → String
  pub repo_message : RepoFault → String
  pub exception_text : WorkerFault → String
  pub store_bytes : ℕ → ℕ → String → Option String
  pub unavailable : ℕ → Option String
  pub execute : ℕ → String → String → String → Option ℕ → Result WorkerFault CodexExecutionResult
  pub validate : ℕ → String → Option ℕ → Result WorkerFault ValidationResult

-- `str(value or "").strip()`
abbrev pub stripped : Option String → String
stripped none = ""
stripped (some s) = strip s

unfoldable pub repo_result :
    CodexHost → Result RepoFault ResolvedRuntimeRepo → Result WorkerFault String
repo_result ch (ok repo) = ok repo.path
repo_result ch (err (Resolver.blocked reason)) =
    err (blocked_run (ch.repo_message (Resolver.blocked reason)) reason)
repo_result ch (err (Resolver.failed reason)) =
    err (failed_run (ch.repo_message (Resolver.failed reason)) reason)

-- `resolve_target_repo`
unfoldable pub resolve_target_repo : CodexHost → RunPayloadV1 → Result WorkerFault String
unfolding repo_result resolve_runtime_repo strip
resolve_target_repo ch payload =
    repo_result ch (resolve_runtime_repo ch.workspace (strip payload.target.repo))

abbrev pub or_else : String → String → String
or_else s default = if s =? "" then default else s

unfoldable pub git_result : GitResult → Result WorkerFault String
unfolding strip
git_result result =
    if result.returncode == 0
    then ok (strip result.stdout)
    else err (
        blocked_run (strip (or_else result.stderr (or_else result.stdout "git command failed")))
          "unexpected_environment_state")

-- `_git_stdout`
unfoldable pub git_stdout : CodexHost → String → List String → W String
unfolding git_result run_db
git_stdout ch repo_path cmd =
    run_db (read_host (λ n. ch.git n repo_path cmd)) >>= λ result. lift (git_result result)

-- `should_run_validation`
unfoldable pub should_run_validation : RunPayloadV1 → Bool
unfolding lower concat contains
should_run_validation payload =
    let words = lower (concat (payload.prompt.title ∷ " " ∷ payload.prompt.body ∷ [])) in
    listed "report" payload.requested_outputs
    || contains "test" words
    || contains "tests" words
    || contains "validate" words
    || contains "validation" words
    || payload.policy.auto_continue
  where
    listed : String → List String → Bool
    listed name [] = false
    listed name (output ∷ outputs) = (output =? name) || listed name outputs

-- What handles an exception of a step, and raises it again.
abbrev pub on_error : {A : Type 0} → (WorkerFault → W (Unit {0})) → Result WorkerFault A → W A
on_error handler (ok a) = pure a
on_error handler (err e) = handler e >> raise e

unfoldable pub catching : {A : Type 0} → W A → (WorkerFault → W (Unit {0})) → W A
catching body handler session = let (r, session') = body session in on_error handler r session'
