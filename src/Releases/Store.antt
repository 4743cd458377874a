-- ===== src/Releases/Store.antt =====
-- core/releases/store.py: the directories of the revisions, plans and operations of the releases. A
-- directory is the list of what it holds, in the order in which it is listed, and a document is
-- stored as the value that its JSON reads back. File names have no path separators.
use xyn.Base.{
  ℕ, String, Bool, ◌&&◌, Option, none, some, List, [], ◌∷◌, ltb, ◌==◌, ◌=?◌, if◌then◌else◌,
}
use xyn.Base.Text.Order.{text_leb}
use xyn.Base.Table.{first, select, put}
use xyn.Base.Dict.{lookup, insert}
use xyn.Base.Sort.{sort_by}
use xyn.Releases.Spec.{ReleaseSpec, RuntimeSpec}
use xyn.Releases.Plan.{Action}

-- The directory of one revision of a release, with its release.json, runtime.json and compose.yaml.
pub record Revision : Type 0 where
  pub release_id : String
  pub number : ℕ
  pub release_spec : Option ReleaseSpec
  pub runtime_spec : Option RuntimeSpec
  pub compose_yaml : Option String

-- The path of a file in the directory of a revision, as plans name it: the key under which it stands
-- says which file it is.
pub data ArtifactPath : Type 0 where
  in_revision : String → ℕ → ArtifactPath

-- The dictionary of paths by `releaseSpecPath`, `runtimeSpecPath` and `composeYamlPath`.
pub record Artifacts : Type 0 where
  pub release_spec_path : Option ArtifactPath
  pub runtime_spec_path : Option ArtifactPath
  pub compose_yaml_path : Option ArtifactPath

pub record Options : Type 0 where
  pub service_name : Option String
  pub remove_volumes : Bool

-- A difference between two revisions, or an action on a whole release.
pub data PlannedAction : Type 0 where
  change : Action → PlannedAction
  release_action : String → String → PlannedAction

pub record Plan : Type 0 where
  pub plan_id : String
  pub release_id : String
  pub revision_from : Option ℕ
  pub revision_to : ℕ
  pub actions : List PlannedAction
  pub artifacts : Artifacts
  pub action_kind : Option String
  pub options : Options

pub record OperationArtifacts : Type 0 where
  pub stdout_artifact_id : Option String
  pub stderr_artifact_id : Option String
  pub not_implemented : Option String

pub record Operation : Type 0 where
  pub operation_id : String
  pub release_id : String
  pub type : String
  pub succeeded : Bool
  pub created_at : String
  pub started_at : String
  pub finished_at : String
  pub plan_id : Option String
  pub message : String
  pub artifacts : OperationArtifacts

-- The workspace, and the number of readings of the host so far.
pub record Store : Type 0 where
  pub revisions : List Revision
  pub plans : List Plan
  pub operations : List Operation
  pub texts : List (String × String)
  pub reads : ℕ

abbrev pub is_revision : String → ℕ → Revision → Bool
is_revision release_id number revision =
    (revision.release_id =? release_id) && (revision.number == number)

abbrev pub larger : ℕ → Option ℕ → ℕ
larger n none = n
larger n (some m) = if ltb n m then m else n

unfoldable pub latest_number : String → List Revision → Option ℕ
latest_number release_id [] = none
latest_number release_id (revision ∷ rest) =
    let latest = latest_number release_id rest in
    if revision.release_id =? release_id then some (larger revision.number latest) else latest

-- `latest_revision`
unfoldable pub latest_revision : String → Store → Option ℕ
unfolding latest_number
latest_revision release_id store = latest_number release_id store.revisions

unfoldable pub find_revision : String → ℕ → Store → Option Revision
unfolding first
find_revision release_id number store = first (is_revision release_id number) store.revisions

-- `compose.yaml` is only written if there is one, so that one of a directory that is there stays.
unfoldable pub yaml_after : Option Revision → Option String → Option String
yaml_after none written = written
yaml_after (some old) none = old.compose_yaml
yaml_after (some old) (some yaml) = some yaml

unfoldable pub artifacts_written : String → ℕ → Option String → Artifacts
artifacts_written release_id number yaml = record {
  release_spec_path = some (in_revision release_id number);
  runtime_spec_path = some (in_revision release_id number);
  compose_yaml_path = elim yaml [ none ↦ none | some _ ↦ some (in_revision release_id number) ];
}

-- `save_revision_artifacts`
unfoldable pub save_revision_artifacts :
    String → ℕ → ReleaseSpec → RuntimeSpec → Option String → Store → Artifacts × Store
unfolding find_revision yaml_after artifacts_written put
save_revision_artifacts release_id number release_spec runtime_spec yaml store = (
  artifacts_written release_id number yaml,
  record store {
    revisions =
        put (is_revision release_id number)
          (record {
            release_id = release_id;
            number = number;
            release_spec = some release_spec;
            runtime_spec = some runtime_spec;
            compose_yaml = yaml_after (find_revision release_id number store) yaml;
          })
          store.revisions;
  },
)

abbrev pub is_plan : String → String → Plan → Bool
is_plan release_id plan_id plan = (plan.release_id =? release_id) && (plan.plan_id =? plan_id)

-- `save_plan`, for the release and under the identifier that the plan itself names.
unfoldable pub save_plan : Plan → Store → Store
unfolding put
save_plan plan store = record store {
  plans = put (is_plan plan.release_id plan.plan_id) plan store.plans;
}

abbrev pub is_operation : String → String → Operation → Bool
is_operation release_id operation_id operation =
    (operation.release_id =? release_id) && (operation.operation_id =? operation_id)

-- `save_operation`, for the release and under the identifier that the operation itself names.
unfoldable pub save_operation : Operation → Store → Store
unfolding put
save_operation operation store = record store {
  operations =
      put (is_operation operation.release_id operation.operation_id) operation store.operations;
}

unfoldable pub runtime_in : Option Revision → Option RuntimeSpec
runtime_in none = none
runtime_in (some revision) = revision.runtime_spec

unfoldable pub release_in : Option Revision → Option ReleaseSpec
release_in none = none
release_in (some revision) = revision.release_spec

unfoldable pub yaml_in : Option Revision → Option String
yaml_in none = none
yaml_in (some revision) = revision.compose_yaml

-- `load_runtime_revision`
unfoldable pub load_runtime_revision : String → ℕ → Store → Option RuntimeSpec
unfolding find_revision runtime_in
load_runtime_revision release_id number store = runtime_in (find_revision release_id number store)

-- `load_release_spec_revision`
unfoldable pub load_release_spec_revision : String → ℕ → Store → Option ReleaseSpec
unfolding find_revision release_in
load_release_spec_revision release_id number store =
    release_in (find_revision release_id number store)

abbrev pub at_latest : {A : Type 0} → Option ℕ → (ℕ → Option A) → Option A
at_latest none f = none
at_latest (some n) f = f n

-- `load_latest_runtime`
unfoldable pub load_latest_runtime : String → Store → Option RuntimeSpec
unfolding latest_revision load_runtime_revision
load_latest_runtime release_id store =
    at_latest (latest_revision release_id store) (λ n. load_runtime_revision release_id n store)

-- `load_latest_release_spec`
unfoldable pub load_latest_release_spec : String → Store → Option ReleaseSpec
unfolding latest_revision load_release_spec_revision
load_latest_release_spec release_id store =
    at_latest (latest_revision release_id store)
      (λ n. load_release_spec_revision release_id n store)

abbrev pub path_if : {A : Type 0} → Option A → ArtifactPath → Option ArtifactPath
path_if none path = none
path_if (some _) path = some path

-- `latest_compose_path`
unfoldable pub latest_compose_path : String → Store → Option ArtifactPath
unfolding latest_revision find_revision yaml_in
latest_compose_path release_id store =
    at_latest (latest_revision release_id store)
      (λ n. path_if (yaml_in (find_revision release_id n store)) (in_revision release_id n))

-- `latest_artifacts`
unfoldable pub latest_artifacts : String → Store → Option Artifacts
unfolding latest_revision find_revision release_in runtime_in yaml_in
latest_artifacts release_id store = at_latest (latest_revision release_id store) (λ n.
    let revision = find_revision release_id n store in
    some (record {
      release_spec_path = path_if (release_in revision) (in_revision release_id n);
      runtime_spec_path = path_if (runtime_in revision) (in_revision release_id n);
      compose_yaml_path = path_if (yaml_in revision) (in_revision release_id n);
    }))

-- `load_plan`
unfoldable pub load_plan : String → String → Store → Option Plan
unfolding first
load_plan release_id plan_id store = first (is_plan release_id plan_id) store.plans

-- `find_plan`, in whichever release comes first.
unfoldable pub find_plan : String → Store → Option Plan
unfolding first
find_plan plan_id store = first (λ plan. plan.plan_id =? plan_id) store.plans

-- `load_operation`
unfoldable pub load_operation : String → String → Store → Option Operation
unfolding first
load_operation release_id operation_id store =
    first (is_operation release_id operation_id) store.operations

-- `find_operation`
unfoldable pub find_operation : String → Store → Option Operation
unfolding first
find_operation operation_id store =
    first (λ operation. operation.operation_id =? operation_id) store.operations

-- `list_release_operations`: the latest first.
unfoldable pub list_release_operations : String → Store → List Operation
unfolding select sort_by
list_release_operations release_id store =
    sort_by (λ a b. text_leb b.created_at a.created_at)
      (select (λ operation. operation.release_id =? release_id) store.operations)

-- `load_runtime_by_path`
unfoldable pub load_runtime_by_path : ArtifactPath → Store → Option RuntimeSpec
unfolding load_runtime_revision
load_runtime_by_path (in_revision release_id n) store = load_runtime_revision release_id n store

-- `save_text_artifact` under an identifier that the host supplies.
unfoldable pub save_text : String → String → Store → Store
unfolding insert
save_text artifact_id payload store = record store {
  texts = insert artifact_id payload store.texts;
}

-- `load_artifact_text`
unfoldable pub load_artifact_text : String → Store → Option String
unfolding lookup
load_artifact_text artifact_id store = lookup artifact_id store.texts
