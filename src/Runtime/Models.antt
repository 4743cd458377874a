-- ===== src/Runtime/Models.antt =====
-- The rows that the runtime reads and writes: core/models.py. Identifiers are numbers, and so are
-- points in time, in microseconds. Columns that no operation modelled here reads or writes are left
-- out, and so are the relationships.
use xyn.Base.{ℕ, String, Bool, Option, List}
use xyn.Runtime.Contract.{RunPromptPayload, RunPayloadV1}

pub data RunStatus : Type 0 where
  queued created running completed failed blocked cancelled : RunStatus

pub data StepStatus : Type 0 where
  queued created running completed failed skipped : StepStatus

pub data RuntimeWorkerStatus : Type 0 where
  idle busy offline : RuntimeWorkerStatus

-- `execution_policy["runtime_controls"]`
pub record RuntimeControls : Type 0 where
  pub pause_requested : Option Bool
  pub pause_requested_by : Option String
  pub pause_requested_at : Option ℕ

-- The `execution_policy` column, a dictionary in which every key may be missing.
pub record ExecutionPolicy : Type 0 where
  pub auto_continue : Option Bool
  pub max_retries : Option ℕ
  pub require_human_review_on_failure : Option Bool
  pub timeout_seconds : Option ℕ
  pub runtime_controls : Option RuntimeControls

pub record Run : Type 0 where
  pub id : ℕ
  pub name : String
  pub status : RunStatus
  pub actor : String
  pub correlation_id : String
  pub inputs : Option RunPromptPayload
  pub queued_at : Option ℕ
  pub locked_at : Option ℕ
  pub locked_by : Option String  -- also `worker_id`
  pub lease_expires_at : Option ℕ
  pub heartbeat_at : Option ℕ
  pub run_at : Option ℕ
  pub priority : ℕ
  pub attempt : ℕ  -- also `attempt_count`
  pub max_attempts : Option ℕ
  pub work_item_id : Option String
  pub worker_type : Option String
  pub prompt_payload : Option RunPayloadV1
  pub execution_policy : ExecutionPolicy
  pub summary : Option String
  pub escalation_reason : Option String
  pub failure_reason : Option String
  pub created_at : ℕ
  pub started_at : Option ℕ
  pub completed_at : Option ℕ

pub record Step : Type 0 where
  pub id : ℕ
  pub run_id : ℕ
  pub name : String
  pub idx : ℕ
  pub kind : String
  pub status : StepStatus
  pub step_key : String
  pub label : Option String
  pub summary : Option String
  pub created_at : ℕ
  pub started_at : Option ℕ
  pub completed_at : Option ℕ

pub record RuntimeWorker : Type 0 where
  pub id : ℕ
  pub worker_id : String
  pub worker_type : String
  pub runtime_environment : String
  pub status : RuntimeWorkerStatus
  pub last_heartbeat : ℕ
  pub capabilities_json : List String
  pub active_run_id : Option ℕ

-- The values of an event's `data`.
pub data Datum : Type 0 where
  null : Datum
  text : String → Datum
  number : ℕ → Datum
  flag : Bool → Datum
  uuid : ℕ → Datum
  time : ℕ → Datum

pub record Event : Type 0 where
  pub id : ℕ
  pub event_name : String
  pub occurred_at : ℕ
  pub env_id : String
  pub actor : String
  pub correlation_id : Option String
  pub run_id : ℕ
  pub step_id : Option ℕ
  pub event_data : List (String × Datum)
