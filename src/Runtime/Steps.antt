-- ===== src/Runtime/Steps.antt =====
-- `report_run_step` of core/runtime_execution.py.
use xyn.Base.{
  ℕ, ◌+◌, String, Bool, true, false, ◌&&◌, Option, none, some, List, [], ◌∷◌, ◌==◌, ◌=?◌, ltb, leb,
  if◌then◌else◌,
}
use xyn.Base.Exec.{Result, ok, err, pure, gets, ◌>>=◌, ◌>>◌}
use xyn.Base.Sort.{sort_by}
use xyn.Base.Table.{first, select, update}
use xyn.Runtime.Models.{StepStatus, Step, text, number, uuid}
use xyn.Runtime.Session.{
  Host, Db, Fault, no_result_found, invalid_step_status, M, read_host, add_step,
}
use xyn.Runtime.Events.{publish_runtime_event, text_or_null}
use xyn.Runtime.Transitions.{is_terminal_step, transition_step_status}

-- `StepStatus.value`
unfoldable pub step_status_value : StepStatus → String
step_status_value StepStatus.queued = "queued"
step_status_value StepStatus.created = "created"
step_status_value StepStatus.running = "running"
step_status_value StepStatus.completed = "completed"
step_status_value StepStatus.failed = "failed"
step_status_value StepStatus.skipped = "skipped"

-- `StepStatus(status)`
unfoldable pub parse_step_status : String → Result Fault StepStatus
parse_step_status s =
    if s =? "queued"
    then ok StepStatus.queued
    else if s =? "created"
    then ok StepStatus.created
    else if s =? "running"
    then ok StepStatus.running
    else if s =? "completed"
    then ok StepStatus.completed
    else if s =? "failed"
    then ok StepStatus.failed
    else if s =? "skipped"
    then ok StepStatus.skipped
    else err (invalid_step_status s)

abbrev pub same_step_status : StepStatus → StepStatus → Bool
same_step_status StepStatus.queued StepStatus.queued = true
same_step_status StepStatus.created StepStatus.created = true
same_step_status StepStatus.running StepStatus.running = true
same_step_status StepStatus.completed StepStatus.completed = true
same_step_status StepStatus.failed StepStatus.failed = true
same_step_status StepStatus.skipped StepStatus.skipped = true
same_step_status _ _ = false

abbrev pub has_step_id : ℕ → Step → Bool
has_step_id k s = s.id == k

unfoldable pub find_step : ℕ → Db → Option Step
find_step k db = first (has_step_id k) db.steps

unfoldable pub assign_step : ℕ → Result Fault Step → M Step
assign_step k (err e) db = (err e, db)
assign_step k (ok s) db = (ok s, record db { steps = update (has_step_id k) (λ _. s) db.steps })

unfoldable pub one_step : ℕ → M Step
one_step k db = elim (find_step k db) [ none ↦ (err no_result_found, db) | some s ↦ (ok s, db) ]

unfoldable pub update_step : ℕ → (Step → Result Fault Step) → M Step
update_step k f = one_step k >>= λ s. assign_step k (f s)

-- `ORDER BY idx DESC, created_at DESC`
unfoldable pub latest_first : Step → Step → Bool
latest_first a b =
    if ltb b.idx a.idx
    then true
    else if a.idx == b.idx
    then leb b.created_at a.created_at
    else false

abbrev head {ℓ} : {A : Type ℓ} → List A → Option A
head [] = none
head (x ∷ xs) = some x

unfoldable pub latest_step : (Step → Bool) → Db → Option Step
latest_step p db = head (sort_by latest_first (select p db.steps))

unfoldable pub step_of_key : ℕ → String → Db → Option Step
step_of_key run_id step_key db =
    latest_step (λ s. (s.run_id == run_id) && s.step_key =? step_key) db

unfoldable pub next_index : ℕ → ℕ → Db → ℕ
next_index run_id sequence_no db = elim (latest_step (λ s. s.run_id == run_id) db) [
  | none ↦ sequence_no
  | some s ↦ s.idx + 1
]

-- A finished step that runs again is a new row.
unfoldable pub is_reusable : StepStatus → Option Step → Bool
is_reusable desired none = false
is_reusable StepStatus.running (some step) = if is_terminal_step step.status then false else true
is_reusable desired (some step) = true

abbrev event_name_of : StepStatus → String
event_name_of StepStatus.running = "run.step.started"
event_name_of StepStatus.completed = "run.step.completed"
event_name_of _ = "run.step.failed"

unfoldable pub set_summary : Option String → Step → Step
set_summary none step = step
set_summary (some summary) step = record step { summary = some summary }

-- The assignments to the step that is reported.
unfoldable pub reported : StepStatus → ℕ → Option String → Step → Result Fault Step
reported desired now summary step =
    if same_step_status step.status desired
    then ok (set_summary summary step)
    else transition_step_status desired now summary step

module _ (host : Host) (run_id : ℕ) (step_key label : String) where
  unfoldable pub new_step : ℕ → M ℕ
  new_step sequence_no = do
    idx ← gets (next_index run_id sequence_no)
    id ← read_host host.uuid4
    now ← read_host host.utcnow
    add_step (record {
      id = id;
      run_id = run_id;
      name = step_key;
      idx = idx;
      kind = "runtime";
      status = StepStatus.queued;
      step_key = step_key;
      label = some label;
      summary = none;
      created_at = now;
      started_at = none;
      completed_at = none;
    })
    pure id

  unfoldable pub step_to_report : StepStatus → ℕ → Option Step → M ℕ
  step_to_report desired sequence_no none = new_step sequence_no
  step_to_report desired sequence_no (some step) =
      if is_reusable desired (some step) then pure step.id else new_step sequence_no

  unfoldable pub report_run_step : String → ℕ → Option String → M Step
  report_run_step status sequence_no summary = do
    found ← gets (step_of_key run_id step_key)
    desired ← (λ db. (parse_step_status status, db))
    id ← step_to_report desired sequence_no found
    now ← read_host host.utcnow
    step ← update_step id (reported desired now summary)
    publish_runtime_event host (event_name_of desired) run_id (some step.id) "runtime" none (
        ("step_id", uuid step.id)
        ∷ ("step_key", text step_key)
        ∷ ("label", text label)
        ∷ ("status", text (step_status_value desired))
        ∷ ("sequence_no", number sequence_no)
        ∷ ("summary", text_or_null summary)
        ∷ [])
    pure step
