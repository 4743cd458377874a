-- ===== src/Releases/Api.antt =====
-- The routes of core/api/releases.py that plan and apply releases. Release specs with an
-- `artifactResolution`, which asks an image registry, are not modelled.
use xyn.Base.{
  ℕ, suc, String, Bool, true, false, Option, none, some, List, [], ◌∷◌, map, ◌=?◌, if◌then◌else◌,
}
use xyn.Base.Text.{strip}
use xyn.Base.Text.Format.{concat}
use xyn.Base.Text.Words.{split}
use xyn.Base.Exec.{Result, ok, err, Exec, pure, raise, lift, gets, modify, ◌>>=◌, ◌>>◌}
use xyn.Releases.Spec.{ReleaseSpec, Deployment, RuntimeSpec}
use xyn.Releases.Compiler.{compile_release_to_runtime}
use xyn.Releases.Renderer.{render_compose}
use xyn.Releases.K8s.{K8sFault, validate_runtime_spec}
use xyn.Releases.Plan.{Action, diff_actions}
use xyn.Releases.Store.{
  ArtifactPath, Artifacts, Options, change, release_action, Plan, Store, latest_revision,
  save_revision_artifacts, save_plan, load_runtime_revision, load_latest_runtime, latest_artifacts,
}

pub data ApiFault : Type 0 where
  http_exception : ℕ → ApiFault
  index_error : ApiFault

abbrev pub M : Type 0 → Type 0
M A = Exec ApiFault Store A

-- A command of docker compose: the program with its own arguments, the file, and the arguments.
pub record Command : Type 0 where
  pub program : List String
  pub file : ArtifactPath
  pub project : String
  pub arguments : List String

-- The return code and the stripped texts of standard output and standard error.
pub record Completed : Type 0 where
  pub returncode : ℕ
  pub stdout : String
  pub stderr : String

-- What the host supplies: environment variables, the validation against the contract schemas, and the
-- readings of uuid4, of the clock and of processes, by their number.
pub record ReleaseHost : Type 0 where
  pub api_token : String
  pub compose_bin : String
  pub has_docker_compose : Bool
  pub is_release_spec : ReleaseSpec → Bool
  pub is_runtime_spec : RuntimeSpec → Bool
  pub uuid4 : ℕ → String
  pub now_iso : ℕ → String
  pub run : ℕ → Command → Completed

module _ {A : Type 0} (reading : ℕ → A) where
  unfoldable pub read_host : M A
  read_host store = (ok (reading store.reads), record store { reads = suc store.reads })

-- `_compose_base_cmd`
unfoldable pub compose_base_cmd : ReleaseHost → List String
unfolding strip split
compose_base_cmd host =
    let override = strip host.compose_bin in
    if override =? ""
    then (if host.has_docker_compose then "docker-compose" ∷ [] else "docker" ∷ "compose" ∷ [])
    else split override

unfoldable pub check_token : String → String → M (Unit {0})
unfolding strip concat
check_token token authorization =
    if authorization =? ""
    then raise (http_exception 401)
    else (if strip authorization =? concat ("Bearer " ∷ token ∷ [])
        then pure tt
        else raise (http_exception 403))

-- `_require_auth`
unfoldable pub require_auth : ReleaseHost → Option String → M (Unit {0})
unfolding strip check_token
require_auth host authorization =
    let token = strip host.api_token in
    if token =? "" then pure tt else elim authorization [
      | none ↦ raise (http_exception 401)
      | some given ↦ check_token token given
    ]

abbrev pub found : {A : Type 0} → ℕ → Option A → M A
found code none = raise (http_exception code)
found code (some a) = pure a

unfoldable pub rendered : Option String → Result ApiFault (Option String)
rendered none = err index_error
rendered (some yaml) = ok (some yaml)

unfoldable pub validated : Result K8sFault (Unit {0}) → Result ApiFault (Option String)
validated (ok tt) = ok none
validated (err e) = err (http_exception 400)

-- What the backend of a release makes of the compiled spec: a compose file, or a check alone.
unfoldable pub backend_yaml : RuntimeSpec → Result ApiFault (Option String)
unfolding render_compose validate_runtime_spec rendered validated
backend_yaml runtime =
    if runtime.backend.type =? "compose"
    then rendered (render_compose runtime)
    else (if runtime.backend.type =? "k8s"
        then validated (validate_runtime_spec runtime)
        else ok none)

abbrev pub no_options : Options
no_options = record { service_name = none; remove_volumes = false }

abbrev pub previous_runtime : String → Option ℕ → Store → Option RuntimeSpec
previous_runtime release_id none store = none
previous_runtime release_id (some n) store = load_runtime_revision release_id n store

unfoldable pub plan_of : String → String → Option ℕ → ℕ → List Action → Artifacts → Plan
plan_of plan_id release_id from to actions artifacts = record {
  plan_id = plan_id;
  release_id = release_id;
  revision_from = from;
  revision_to = to;
  actions = map change actions;
  artifacts = artifacts;
  action_kind = none;
  options = no_options;
}

abbrev pub next_revision : Option ℕ → ℕ
next_revision none = 1
next_revision (some n) = suc n

-- `plan_release` from the saving of the revision on.
unfoldable pub save_planned :
    ReleaseHost → ReleaseSpec → RuntimeSpec → String → Option ℕ → Option String → M Plan
unfolding save_revision_artifacts load_runtime_revision diff_actions plan_of save_plan
save_planned host spec runtime release_id from yaml store =
    let to = next_revision from in
    let saved = save_revision_artifacts release_id to spec runtime yaml store in
    let actions = diff_actions (previous_runtime release_id from saved.1) runtime in
    let plan = plan_of (host.uuid4 store.reads) release_id from to actions saved.0 in
    (ok plan, save_plan plan (record saved.1 { reads = suc store.reads }))

abbrev pub release_id_of : ReleaseSpec → String
release_id_of spec = concat (spec.namespace ∷ "." ∷ spec.name ∷ [])

-- `plan_release` for a spec that its schema admits.
unfoldable pub plan_valid : ReleaseHost → ReleaseSpec → M Plan
unfolding latest_revision compile_release_to_runtime backend_yaml save_planned concat
plan_valid host spec =
    let release_id = release_id_of spec in
    gets (latest_revision release_id) >>= λ from.
    let runtime = compile_release_to_runtime spec (next_revision from) (some release_id) in
    if host.is_runtime_spec runtime
    then (lift (backend_yaml runtime) >>= save_planned host spec runtime release_id from)
    else raise (http_exception 400)

-- `plan_release`
unfoldable pub plan_release : ReleaseHost → Option String → ReleaseSpec → M Plan
unfolding require_auth plan_valid
plan_release host authorization spec =
    require_auth host authorization
    >> (if host.is_release_spec spec then plan_valid host spec else raise (http_exception 400))

unfoldable pub action_plan : String → String → ℕ → String → String → Options → Artifacts → Plan
action_plan plan_id release_id revision action_kind target options artifacts = record {
  plan_id = plan_id;
  release_id = release_id;
  revision_from = some revision;
  revision_to = revision;
  actions = release_action action_kind target ∷ [];
  artifacts = artifacts;
  action_kind = some action_kind;
  options = options;
}

-- `_build_action_plan`
unfoldable pub build_action_plan : String → String → String → Options → ReleaseHost → M Plan
unfolding latest_revision latest_artifacts read_host action_plan save_plan
build_action_plan release_id action_kind target options host =
    gets (latest_revision release_id) >>= found 404 >>= λ revision.
    gets (latest_artifacts release_id) >>= found 404 >>= λ artifacts.
    read_host host.uuid4 >>= λ plan_id.
    let plan = action_plan plan_id release_id revision action_kind target options artifacts in
    modify (save_plan plan) >> pure plan

-- `_load_latest_runtime_or_404`
unfoldable pub load_latest_runtime_or_404 : String → M RuntimeSpec
unfolding load_latest_runtime
load_latest_runtime_or_404 release_id = gets (load_latest_runtime release_id) >>= found 404

-- `plan_stop_release`
unfoldable pub plan_stop_release : ReleaseHost → Option String → String → M Plan
unfolding require_auth load_latest_runtime_or_404 build_action_plan
plan_stop_release host authorization release_id =
    require_auth host authorization
    >> load_latest_runtime_or_404 release_id
    >> build_action_plan release_id "stop" release_id no_options host

unfoldable pub is_service : String → List Deployment → Bool
is_service name [] = false
is_service name (deployment ∷ rest) =
    let other = is_service name rest in
    if deployment.name =? "" then other else (if deployment.name =? name then true else other)

-- `plan_restart_release`
unfoldable pub plan_restart_release : ReleaseHost → Option String → String → String → M Plan
unfolding require_auth load_latest_runtime_or_404 build_action_plan is_service
plan_restart_release host authorization release_id service_name =
    require_auth host authorization >> load_latest_runtime_or_404 release_id >>= λ runtime.
    if is_service service_name runtime.deployments
    then build_action_plan release_id "restart" service_name
        (record { service_name = some service_name; remove_volumes = false }) host
    else raise (http_exception 400)

-- `plan_destroy_release`
unfoldable pub plan_destroy_release : ReleaseHost → Option String → String → Bool → M Plan
unfolding require_auth load_latest_runtime_or_404 build_action_plan
plan_destroy_release host authorization release_id remove_volumes =
    require_auth host authorization
    >> load_latest_runtime_or_404 release_id
    >> build_action_plan release_id "destroy" release_id
        (record { service_name = none; remove_volumes = remove_volumes }) host
