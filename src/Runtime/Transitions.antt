-- ===== src/Runtime/Transitions.antt =====
-- The state machines of runs and steps: the tables and the two transition functions of
-- core/runtime_execution.py, on a row.
use xyn.Base.{◌≡◌, arith, ℕ, String, Bool, true, false, Option, none, some, if◌then◌else◌}
use xyn.Base.Exec.{Result, ok, err}
use xyn.Runtime.Models.{
  RunStatus, queued, created, running, completed, failed, blocked, cancelled, StepStatus, Run, Step,
}
use xyn.Runtime.Session.{Fault, invalid_run_status_transition, invalid_step_status_transition}

abbrev pub is_terminal : RunStatus → Bool
is_terminal completed = true
is_terminal failed = true
is_terminal blocked = true
is_terminal cancelled = true
is_terminal _ = false

abbrev pub is_terminal_step : StepStatus → Bool
is_terminal_step StepStatus.completed = true
is_terminal_step StepStatus.failed = true
is_terminal_step _ = false

-- `next_status in RUN_STATUS_TRANSITIONS.get(status, set())`
unfoldable pub run_transition_allowed : RunStatus → RunStatus → Bool
run_transition_allowed queued running = true
run_transition_allowed queued blocked = true
run_transition_allowed queued cancelled = true
run_transition_allowed running completed = true
run_transition_allowed running failed = true
run_transition_allowed running blocked = true
run_transition_allowed running cancelled = true
run_transition_allowed running queued = true
run_transition_allowed failed queued = true
run_transition_allowed blocked queued = true
run_transition_allowed created running = true
run_transition_allowed created cancelled = true
run_transition_allowed _ _ = false

unfoldable pub step_transition_allowed : StepStatus → StepStatus → Bool
step_transition_allowed StepStatus.queued StepStatus.running = true
step_transition_allowed StepStatus.queued StepStatus.failed = true
step_transition_allowed StepStatus.created StepStatus.running = true
step_transition_allowed StepStatus.created StepStatus.failed = true
step_transition_allowed StepStatus.running StepStatus.completed = true
step_transition_allowed StepStatus.running StepStatus.failed = true
step_transition_allowed _ _ = false

-- `if value is not None: column = value`
abbrev pub or_keep {ℓ} : {A : Type ℓ} → Option A → Option A → Option A
or_keep none old = old
or_keep (some a) old = some a

-- `if column is None: column = value`
abbrev pub or_set {ℓ} : {A : Type ℓ} → Option A → A → Option A
or_set none a = some a
or_set (some old) a = some old

abbrev is_running : RunStatus → Bool
is_running running = true
is_running _ = false

-- The assignments of `transition_run_status`, at the time `now`.
unfoldable pub moved : RunStatus → ℕ → Option String → Option String → Option String → Run → Run
moved next_status now summary failure_reason escalation_reason run = record run {
  status = next_status;
  started_at = if is_running next_status then or_set run.started_at now else run.started_at;
  completed_at = if is_terminal next_status then some now else run.completed_at;
  summary = or_keep summary run.summary;
  failure_reason = or_keep failure_reason run.failure_reason;
  escalation_reason = or_keep escalation_reason run.escalation_reason;
}

unfoldable pub transition_run_status :
    RunStatus → ℕ → Option String → Option String → Option String → Run → Result Fault Run
transition_run_status next_status now summary failure_reason escalation_reason run =
    if run_transition_allowed run.status next_status
    then ok (moved next_status now summary failure_reason escalation_reason run)
    else err (invalid_run_status_transition run.status next_status)

abbrev is_running_step : StepStatus → Bool
is_running_step StepStatus.running = true
is_running_step _ = false

unfoldable pub moved_step : StepStatus → ℕ → Option String → Step → Step
moved_step next_status now summary step = record step {
  status = next_status;
  started_at = if is_running_step next_status then or_set step.started_at now else step.started_at;
  completed_at = if is_terminal_step next_status then some now else step.completed_at;
  summary = or_keep summary step.summary;
}

unfoldable pub transition_step_status : StepStatus → ℕ → Option String → Step → Result Fault Step
transition_step_status next_status now summary step =
    if step_transition_allowed step.status next_status
    then ok (moved_step next_status now summary step)
    else err (invalid_step_status_transition step.status next_status)

-- A transition succeeds exactly along an edge of the table, and then assigns what `moved` does.
pub transition-eq-ok :
    (next : RunStatus) (now : ℕ) (s f e : Option String) (r r' : Run)
    → transition_run_status next now s f e r ≡ ok r'
    → (run_transition_allowed r.status next ≡ true) × (r' ≡ moved next now s f e r)
unfolding transition_run_status
transition-eq-ok next now s f e r r' h = ground arith
