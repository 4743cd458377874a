-- ===== src/Lifecycle/Service.antt =====
-- core/lifecycle/service.py and interfaces.py. `definitions` is LIFECYCLE_DEFINITIONS, which an
-- installed platform package may replace. Workspaces and runs are named by their identifiers, of
-- which `str` and `uuid.UUID` are left out, and `requested_at` is the time `now` of the request.
use xyn.Base.{ℕ, String, Option, none, some, List, [], ◌∷◌, ◌++◌, ◌=?◌, if◌then◌else◌}
use xyn.Base.Exec.{Result, ok, err, Exec, pure, lift, ◌>>=◌, ◌>>◌}
use xyn.Base.Text.{strip, lower}
use xyn.Base.Dict.{lookup}
use xyn.Runtime.Models.{Datum}
use xyn.Lifecycle.Definitions.{LifecycleDefinition, allows}

pub data LifecycleFault : Type 0 where
  unknown_lifecycle : String → LifecycleFault
  invalid_transition : Option String → String → LifecycleFault
  missing_to_state missing_object_type missing_object_id : LifecycleFault

-- What the caller states of a transition besides the states.
pub record Particulars : Type 0 where
  pub workspace_id : Option ℕ
  pub actor : Option String
  pub reason : Option String
  pub metadata : List (String × Datum)
  pub correlation_id : Option String
  pub run_id : Option ℕ

pub record TransitionRequest : Type 0 where
  pub lifecycle : String
  pub object_type : String
  pub object_id : String
  pub from_state : Option String
  pub to_state : String
  pub particulars : Particulars
  pub requested_at : ℕ

pub record LifecycleTransition : Type 0 where
  pub lifecycle_name : String
  pub object_type : String
  pub object_id : String
  pub from_state : Option String
  pub to_state : String
  pub particulars : Particulars
  pub created_at : ℕ

pub record TransitionResult : Type 0 where
  pub lifecycle : String
  pub object_type : String
  pub object_id : String
  pub from_state : Option String
  pub to_state : String
  pub created_at : ℕ

abbrev non_empty : String → Option String
non_empty s = if s =? "" then none else some s

abbrev or_empty : Option String → String
or_empty none = ""
or_empty (some s) = s

unfoldable pub normalize_state : Option String → Option String
normalize_state none = none
normalize_state (some value) = non_empty (lower (strip value))

-- `str(value or "").strip() or None`
unfoldable pub non_blank : Option String → Option String
non_blank value = non_empty (strip (or_empty value))

unfoldable pub cleaned : Particulars → Particulars
cleaned given = record given {
  actor = non_blank given.actor;
  reason = non_blank given.reason;
  correlation_id = non_blank given.correlation_id;
}

unfoldable pub build_transition_request :
    String
    → String
    → String
    → Option String
    → Option String
    → Particulars
    → ℕ
    → Result LifecycleFault TransitionRequest
build_transition_request lifecycle object_type object_id from_state to_state given now =
    elim (normalize_state to_state) [
      | none ↦ err missing_to_state
      | some next ↦ ok (record {
        lifecycle = lower (strip lifecycle);
        object_type = lower (strip object_type);
        object_id = strip object_id;
        from_state = normalize_state from_state;
        to_state = next;
        particulars = cleaned given;
        requested_at = now;
      })
    ]

unfoldable pub recorded : TransitionRequest → LifecycleTransition
recorded request = record {
  lifecycle_name = request.lifecycle;
  object_type = request.object_type;
  object_id = request.object_id;
  from_state = request.from_state;
  to_state = request.to_state;
  particulars = request.particulars;
  created_at = request.requested_at;
}

unfoldable pub result_of : LifecycleTransition → TransitionResult
result_of row = record {
  lifecycle = row.lifecycle_name;
  object_type = row.object_type;
  object_id = row.object_id;
  from_state = row.from_state;
  to_state = row.to_state;
  created_at = row.created_at;
}

-- The object whose status a transition changes.
pub record ModelObject : Type 0 where
  pub id : String
  pub workspace_id : Option ℕ
  pub status : Option String

-- `setattr(model_obj, status_attr, result.to_state)`
abbrev pub updated : ModelObject → Result LifecycleFault TransitionResult → ModelObject
updated model_obj (err e) = model_obj
updated model_obj (ok result) = record model_obj { status = some result.to_state }

module _ (definitions : List (String × LifecycleDefinition)) where
  unfoldable pub get_lifecycle_definition : String → Result LifecycleFault LifecycleDefinition
  get_lifecycle_definition name =
      let key = lower (strip name) in
      if key =? "" then err (unknown_lifecycle name) else elim (lookup key definitions) [
        | none ↦ err (unknown_lifecycle name)
        | some definition ↦ ok definition
      ]

  abbrev pub validate_against :
      TransitionRequest → LifecycleDefinition → Result LifecycleFault (Unit {0})
  validate_against request definition =
      if request.object_type =? ""
      then err missing_object_type
      else if request.object_id =? ""
      then err missing_object_id
      else if allows definition request.from_state request.to_state
      then ok tt
      else err (invalid_transition request.from_state request.to_state)

  unfoldable pub validate_transition : TransitionRequest → Result LifecycleFault (Unit {0})
  validate_transition request = elim (get_lifecycle_definition request.lifecycle) [
    | err e ↦ err e
    | ok definition ↦ validate_against request definition
  ]

  -- The table `lifecycle_transitions` is the state.
  unfoldable pub record_transition :
      TransitionRequest → Exec LifecycleFault (List LifecycleTransition) LifecycleTransition
  record_transition request log = (ok (recorded request), log ++ recorded request ∷ [])

  unfoldable pub apply_transition :
      String
      → String
      → String
      → Option String
      → Option String
      → Particulars
      → ℕ
      → Exec LifecycleFault (List LifecycleTransition) TransitionResult
  apply_transition lifecycle object_type object_id from_state to_state given now = do
    request ←
        lift
          (build_transition_request lifecycle object_type object_id from_state to_state given now)
    lift (validate_transition request)
    row ← record_transition request
    pure (result_of row)

  -- The state is the table and the object.
  unfoldable pub transition_model_status :
      String
      → String
      → Option String
      → Particulars
      → ℕ
      → Exec LifecycleFault (List LifecycleTransition × ModelObject) TransitionResult
  transition_model_status lifecycle object_type next_state given now (log, model_obj) =
      let given' : Particulars = record given { workspace_id = model_obj.workspace_id } in
      let (result, log') =
        apply_transition lifecycle object_type model_obj.id model_obj.status next_state given' now
          log in
      (result, (log', updated model_obj result))
