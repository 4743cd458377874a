-- ===== src/Releases/Applied.antt =====
-- Who may plan and apply releases, and what applying a plan does.
use xyn.Base.{
  ℕ, suc, String, ◌≡◌, refl, Bool, true, false, ◌||◌, inl, inr, Option, none, some, [], ◌∷◌, ◌==◌,
  ◌=?◌, Bool-cases, arith, eq_iff,
}
use xyn.Base.Text.{strip}
use xyn.Base.Text.Format.{concat}
use xyn.Base.Exec.{ok, err, ◌>>=◌}
use xyn.Base.Table.{first-put_self}
use xyn.Releases.Spec.{ReleaseSpec, RuntimeSpec}
use xyn.Releases.Compiler.{get_or, text_or}
use xyn.Releases.Store.{
  ArtifactPath, Plan, OperationArtifacts, Operation, Store, save_operation, load_plan,
  load_operation, load_runtime_by_path,
}
use xyn.Releases.Api.{
  http_exception, M, Command, Completed, ReleaseHost, read_host, compose_base_cmd, check_token,
  require_auth, plan_release, plan_stop_release, plan_restart_release, plan_destroy_release,
}
use xyn.Releases.Apply.{
  Verdict, project_of, no_artifacts, verdict_of, compose_up, run_plan, run_if_written,
  run_on_backend, operation_of, apply_found, apply_release, apply_plan,
}

-- The action raises 401 or 403 and changes nothing.
abbrev pub Refuses : {A : Type 0} → M A → Store → Type 0
Refuses m store =
    (code : ℕ) × (((code == 401) || (code == 403)) ≡ true)
    × (m store ≡ (err (http_exception code), store))

require_auth-Refuses :
    (host : ReleaseHost) (authorization : Option String) (store : Store)
    → (strip host.api_token =? "") ≡ false
    → (strip (get_or authorization "") =? concat ("Bearer " ∷ strip host.api_token ∷ [])) ≡ false
    → Refuses (require_auth host authorization) store
unfolding require_auth check_token
require_auth-Refuses host none store t h = (401, refl, rw t refl)
require_auth-Refuses host (some given) store t h = elim (Bool-cases (given =? "")) [
  | inl e ↦ (401, refl, rw (t, e) refl)
  | inr e ↦ (403, refl, rw (t, e) (rw h refl))
]

-- Every route that plans or applies refuses the request.
abbrev pub IsClosed : ReleaseHost → Option String → Store → Type 0
IsClosed host authorization store =
    ((spec : ReleaseSpec) → Refuses (plan_release host authorization spec) store)
    × ((release_id : String) → Refuses (plan_stop_release host authorization release_id) store)
    × ((release_id service : String)
        → Refuses (plan_restart_release host authorization release_id service) store)
    × ((release_id : String) (volumes : Bool)
        → Refuses (plan_destroy_release host authorization release_id volumes) store)
    × ((release_id plan_id : String)
        → Refuses (apply_release host authorization release_id plan_id) store)
    × ((plan_id : String) → Refuses (apply_plan host authorization plan_id) store)

-- If a token is set and the request does not carry it, no route plans or applies anything: each
-- raises 401 or 403 and leaves the store as it is.
pub routes-Refuses :
    (host : ReleaseHost) (authorization : Option String) (store : Store)
    → (strip host.api_token =? "") ≡ false
    → (strip (get_or authorization "") =? concat ("Bearer " ∷ strip host.api_token ∷ [])) ≡ false
    → IsClosed host authorization store
unfolding plan_release plan_stop_release plan_restart_release plan_destroy_release apply_release
    apply_plan ◌>>=◌
routes-Refuses host authorization store t h =
    let (code, c, q) = require_auth-Refuses host authorization store t h in
    (
      λ spec. (code, c, rw q refl),
      λ release_id. (code, c, rw q refl),
      λ release_id service. (code, c, rw q refl),
      λ release_id volumes. (code, c, rw q refl),
      λ release_id plan_id. (code, c, rw q refl),
      λ plan_id. (code, c, rw q refl),
    )

-- `docker compose up -d` for a runtime spec and a compose file.
abbrev pub up : ReleaseHost → RuntimeSpec → ArtifactPath → Command
up host runtime path = record {
  program = compose_base_cmd host;
  file = path;
  project = project_of runtime;
  arguments = "up" ∷ "-d" ∷ [];
}

verdict_of-succeeded :
    (completed : Completed) (failure success : String) (artifacts : OperationArtifacts)
    → (verdict_of completed failure success artifacts).succeeded ≡ (completed.returncode == 0)
unfolding verdict_of
verdict_of-succeeded completed failure success artifacts =
    elim (Bool-cases (completed.returncode == 0)) [ inl e ↦ rw e refl | inr e ↦ rw e refl ]

run_on_backend-up :
    (host : ReleaseHost) (plan : Plan) (file : ArtifactPath) (runtime : RuntimeSpec) (store : Store)
    → (runtime.backend.type =? "compose") ≡ true
    → plan.artifacts.compose_yaml_path ≡ some file
    → text_or plan.action_kind "" ≡ ""
    → run_on_backend host runtime plan store ≡ (
      ok (
          verdict_of
            (host.run store.reads (up host runtime file))
            "docker compose apply failed"
            "apply succeeded"
            no_artifacts),
      record store { reads = suc store.reads },
    )
unfolding run_on_backend run_if_written run_plan compose_up read_host ◌>>=◌
run_on_backend-up host plan file runtime store b c k = rw (b, c) (rw k refl)

-- Applying the plan returns an operation that succeeded exactly if `up -d` on the file returned 0; the
-- operation is stored, and the revisions and the plans stay.
abbrev pub IsApplied :
    ReleaseHost → Option String → String → String → RuntimeSpec → ArtifactPath → Store → Type 0
IsApplied host authorization release_id plan_id runtime file store =
    (operation : Operation) × (after : Store) × (apply_release host authorization release_id plan_id
        store
      ≡ (ok operation, after))
    × (operation.succeeded
        ≡ ((host.run (suc (suc store.reads)) (up host runtime file)).returncode == 0))
    × (load_operation release_id operation.operation_id after ≡ some operation)
    × (after.revisions ≡ store.revisions)
    × (after.plans ≡ store.plans)

-- Applying a stored plan without an action of its own, whose runtime spec is there, has the backend
-- `compose` and a compose file, runs `up -d` on that file, and returns an operation that succeeded
-- exactly if the command returned 0; the operation is stored, and the revisions and plans stay.
pub apply_release-runs :
    (host : ReleaseHost) (authorization : Option String) (release_id plan_id : String) (plan : Plan)
    (path file : ArtifactPath) (runtime : RuntimeSpec) (store : Store)
    → require_auth host authorization store ≡ (ok tt, store)
    → load_plan release_id plan_id store ≡ some plan
    → plan.artifacts.runtime_spec_path ≡ some path
    → load_runtime_by_path path store ≡ some runtime
    → (runtime.backend.type =? "compose") ≡ true
    → plan.artifacts.compose_yaml_path ≡ some file
    → text_or plan.action_kind "" ≡ ""
    → IsApplied host authorization release_id plan_id runtime file store
unfolding apply_release apply_found read_host operation_of save_operation load_operation ◌>>=◌
apply_release-runs host authorization release_id plan_id plan path file runtime store a p r l b c
      k =
    let store' : Store = record store { reads = suc (suc store.reads) } in
    let ran = run_on_backend-up host plan file runtime store' b c k in
    let verdict : Verdict =
      verdict_of (host.run store'.reads (up host runtime file)) "docker compose apply failed"
        "apply succeeded" no_artifacts in
    let operation : Operation =
      operation_of (host.uuid4 store.reads) release_id plan_id plan (host.now_iso (suc store.reads))
        (host.now_iso (suc (suc (suc store.reads)))) verdict in
    (
      operation,
      save_operation operation (record store { reads = suc (suc (suc (suc store.reads))) }),
      rw (a, p) (rw (r, l) (rw ran refl)),
      verdict_of-succeeded (host.run (suc (suc store.reads)) (up host runtime file)) _ _ _,
      first-put_self _ _ store.operations (
          ground (
            arith,
            eq_iff release_id release_id,
            eq_iff (host.uuid4 store.reads) (host.uuid4 store.reads),
          )),
      refl,
      refl,
    )
