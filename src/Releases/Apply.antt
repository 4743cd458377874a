-- ===== src/Releases/Apply.antt =====
-- The application of plans in core/api/releases.py, and one round of core/releases/reconciler.py.
use xyn.Base.{
  String, Bool, true, false, Option, none, some, List, [], ◌∷◌, ◌==◌, ◌=?◌, if◌then◌else◌,
}
use xyn.Base.Text.Format.{concat}
use xyn.Base.Exec.{Result, ok, err, pure, raise, gets, modify, ◌>>=◌, ◌>>◌}
use xyn.Releases.Spec.{RuntimeSpec}
use xyn.Releases.Compiler.{text_or}
use xyn.Releases.Store.{
  ArtifactPath, Options, Plan, OperationArtifacts, Operation, save_operation, load_plan, find_plan,
  load_runtime_by_path, save_text,
}
use xyn.Releases.Api.{
  http_exception, M, Completed, ReleaseHost, read_host, compose_base_cmd, require_auth, found,
}

-- `_compose_env`: the project under which compose runs.
unfoldable pub project_of : RuntimeSpec → String
unfolding concat
project_of runtime = concat (runtime.namespace ∷ "_" ∷ runtime.name ∷ [])

-- What an operation ends with.
pub record Verdict : Type 0 where
  pub succeeded : Bool
  pub message : String
  pub artifacts : OperationArtifacts

abbrev pub no_artifacts : OperationArtifacts
no_artifacts = record {
  stdout_artifact_id = none;
  stderr_artifact_id = none;
  not_implemented = none;
}

abbrev pub refused : String → Verdict
refused message = record { succeeded = false; message = message; artifacts = no_artifacts }

abbrev pub or_text : String → String → String
or_text s default = if s =? "" then default else s

unfoldable pub verdict_of : Completed → String → String → OperationArtifacts → Verdict
verdict_of completed failure success artifacts =
    if completed.returncode == 0
    then record {
      succeeded = true;
      message = or_text completed.stdout success;
      artifacts = artifacts;
    }
    else record {
      succeeded = false;
      message = or_text completed.stderr failure;
      artifacts = artifacts;
    }

-- A text that is not empty is saved as an artifact; none is made of an empty one.
unfoldable pub save_output : ReleaseHost → String → M (Option String)
unfolding read_host save_text concat
save_output host payload =
    if payload =? ""
    then pure none
    else (read_host host.uuid4 >>= λ uuid.
        let artifact_id = concat (uuid ∷ ".log" ∷ []) in
        modify (save_text artifact_id payload) >> pure (some artifact_id))

-- The arguments for an action of a plan, or the reason why there are none.
unfoldable pub compose_arguments : String → Options → Result String (List String)
unfolding concat
compose_arguments action_kind options =
    if action_kind =? "stop"
    then ok ("stop" ∷ [])
    else (if action_kind =? "restart"
        then (if text_or options.service_name "" =? ""
            then err "serviceName is required"
            else ok ("restart" ∷ text_or options.service_name "" ∷ []))
        else (if action_kind =? "destroy"
            then ok (if options.remove_volumes then "down" ∷ "--volumes" ∷ [] else "down" ∷ [])
            else err (concat ("Unsupported action '" ∷ action_kind ∷ "'" ∷ []))))

unfoldable pub run_action :
    ReleaseHost → RuntimeSpec → ArtifactPath → String → Result String (List String) → M Verdict
unfolding compose_base_cmd project_of read_host save_output verdict_of concat
run_action host runtime path action_kind (err reason) = pure (refused reason)
run_action host runtime path action_kind (ok arguments) =
    read_host (λ n. host.run n (record {
      program = compose_base_cmd host;
      file = path;
      project = project_of runtime;
      arguments = arguments;
    }))
    >>= λ completed. save_output host completed.stdout >>= λ stdout_id.
        save_output host completed.stderr >>= λ stderr_id. pure (
          verdict_of completed "compose action failed" (concat (action_kind ∷ " succeeded" ∷ []))
            (record {
              stdout_artifact_id = stdout_id;
              stderr_artifact_id = stderr_id;
              not_implemented = none;
            }))

-- `_apply_compose_action`
unfoldable pub apply_compose_action :
    ReleaseHost → RuntimeSpec → ArtifactPath → String → Options → M Verdict
unfolding compose_arguments run_action
apply_compose_action host runtime path action_kind options =
    run_action host runtime path action_kind (compose_arguments action_kind options)

unfoldable pub compose_up : ReleaseHost → RuntimeSpec → ArtifactPath → M Verdict
unfolding compose_base_cmd project_of read_host verdict_of
compose_up host runtime path =
    read_host (λ n. host.run n (record {
      program = compose_base_cmd host;
      file = path;
      project = project_of runtime;
      arguments = "up" ∷ "-d" ∷ [];
    }))
    >>= λ completed.
        pure (verdict_of completed "docker compose apply failed" "apply succeeded" no_artifacts)

unfoldable pub run_plan : ReleaseHost → RuntimeSpec → ArtifactPath → Plan → M Verdict
unfolding apply_compose_action compose_up text_or
run_plan host runtime path plan =
    let action_kind = text_or plan.action_kind "" in
    if action_kind =? ""
    then compose_up host runtime path
    else apply_compose_action host runtime path action_kind plan.options

unfoldable pub run_if_written : ReleaseHost → RuntimeSpec → Plan → Option ArtifactPath → M Verdict
unfolding run_plan
run_if_written host runtime plan none = pure (refused "composeYamlPath missing from plan")
run_if_written host runtime plan (some path) = run_plan host runtime path plan

-- What a plan leads to on the backend of its release.
unfoldable pub run_on_backend : ReleaseHost → RuntimeSpec → Plan → M Verdict
unfolding run_if_written concat
run_on_backend host runtime plan =
    if runtime.backend.type =? "compose"
    then run_if_written host runtime plan plan.artifacts.compose_yaml_path
    else pure (record {
      succeeded = false;
      message = concat ("backend '" ∷ runtime.backend.type ∷ "' apply not implemented" ∷ []);
      artifacts = record no_artifacts {
        not_implemented = if runtime.backend.type =? "k8s" then some "k8s" else none;
      };
    })

unfoldable pub operation_of :
    String → String → String → Plan → String → String → Verdict → Operation
unfolding text_or
operation_of operation_id release_id plan_id plan started_at finished_at verdict = record {
  operation_id = operation_id;
  release_id = release_id;
  type = text_or plan.action_kind "apply";
  succeeded = verdict.succeeded;
  created_at = started_at;
  started_at = started_at;
  finished_at = finished_at;
  plan_id = some plan_id;
  message = verdict.message;
  artifacts = verdict.artifacts;
}

-- `apply_release` from the plan and the runtime spec on.
unfoldable pub apply_found : ReleaseHost → String → String → Plan → RuntimeSpec → M Operation
unfolding read_host run_on_backend operation_of save_operation
apply_found host release_id plan_id plan runtime = read_host host.uuid4 >>= λ operation_id.
    read_host host.now_iso >>= λ started_at. run_on_backend host runtime plan >>= λ verdict.
    read_host host.now_iso >>= λ finished_at.
    let operation =
      operation_of operation_id release_id plan_id plan started_at finished_at verdict in
    modify (save_operation operation) >> pure operation

-- `apply_release`
unfoldable pub apply_release : ReleaseHost → Option String → String → String → M Operation
unfolding require_auth load_plan load_runtime_by_path apply_found
apply_release host authorization release_id plan_id =
    require_auth host authorization >> gets (load_plan release_id plan_id) >>= found 404 >>= λ plan.
    found 400 plan.artifacts.runtime_spec_path >>= λ path.
    gets (load_runtime_by_path path) >>= found 404 >>= λ runtime.
    apply_found host release_id plan_id plan runtime

-- `apply_plan`
unfoldable pub apply_plan : ReleaseHost → Option String → String → M Operation
unfolding require_auth find_plan apply_release
apply_plan host authorization plan_id =
    require_auth host authorization >> gets (find_plan plan_id) >>= found 404 >>= λ plan.
    if plan.release_id =? ""
    then raise (http_exception 400)
    else apply_release host authorization plan.release_id plan_id
