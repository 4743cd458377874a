-- ===== src/Runtime/Contract.antt =====
-- The payload of a run: core/runtime_contract.py. A stored payload is `some` record once it has the
-- fields at their types; what pydantic checks besides is `is_valid`.
use xyn.Base.{
  ℕ, String, Bool, true, false, ◌&&◌, ◌||◌, Option, none, some, List, [], ◌∷◌, ◌=?◌, leb,
}

pub record RunTargetPayload : Type 0 where
  pub repo : String
  pub branch : Option String
  pub workspace_id : Option String
  pub artifact_id : Option String

pub record RunPromptPayload : Type 0 where
  pub title : String
  pub body : String

pub record RunContextAttachmentPayload : Type 0 where
  pub kind : String
  pub uri : String
  pub label : Option String

-- Of the free-form `metadata` the runtime reads the entry `thread_id` only.
pub record RunContextPayload : Type 0 where
  pub epic_id : Option String
  pub attachments : List RunContextAttachmentPayload
  pub thread_id : Option String

pub record RunPolicyPayload : Type 0 where
  pub auto_continue : Bool
  pub max_retries : ℕ
  pub require_human_review_on_failure : Bool
  pub timeout_seconds : Option ℕ

pub record RunPayloadV1 : Type 0 where
  pub schema_version : String
  pub run_id : String
  pub work_item_id : String
  pub worker_type : String
  pub target : RunTargetPayload
  pub prompt : RunPromptPayload
  pub context : RunContextPayload
  pub policy : RunPolicyPayload
  pub requested_outputs : List String

abbrev pub allowed_outputs : List String
allowed_outputs = "patch" ∷ "log" ∷ "report" ∷ "code" ∷ "summary" ∷ []

-- `item in items` on texts
unfoldable pub contains : String → List String → Bool
contains s [] = false
contains s (t ∷ ts) = (s =? t) || contains s ts

all_allowed : List String → Bool
unfolding contains
all_allowed [] = true
all_allowed (s ∷ ts) = contains s allowed_outputs && all_allowed ts

-- `if not value: raise` and the test on unknown entries
validate_requested_outputs : List String → Bool
unfolding all_allowed
validate_requested_outputs [] = false
validate_requested_outputs (s ∷ ts) = all_allowed (s ∷ ts)

-- `Field(default=None, ge=1)`
timeout_in_range : Option ℕ → Bool
timeout_in_range none = true
timeout_in_range (some n) = leb 1 n

unfoldable pub is_valid : RunPayloadV1 → Bool
unfolding validate_requested_outputs timeout_in_range
is_valid p =
    (p.schema_version =? "v1")
    && timeout_in_range p.policy.timeout_seconds
    && validate_requested_outputs p.requested_outputs
