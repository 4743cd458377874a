-- ===== src/Releases/Reconciler.antt =====
-- One round of core/releases/reconciler.py.
use xyn.Base.{
  ℕ, suc, ◌-◌, String, Bool, true, false, Option, none, some, List, [], ◌∷◌, ltb, leb, ◌==◌, ◌=?◌,
  if◌then◌else◌,
}
use xyn.Base.Dict.{lookup, insert}
use xyn.Releases.Spec.{RuntimeSpec}
use xyn.Releases.Store.{
  ArtifactPath, Operation, Store, save_operation, load_latest_runtime, latest_compose_path,
}
use xyn.Releases.Api.{Command, ReleaseHost}
use xyn.Releases.Apply.{Verdict, project_of, no_artifacts, verdict_of}

-- The host of the releases, with the monotonic clock, the interval of the environment (30 if it is no
-- number), and the states that `docker compose ps` lists, if it returns 0 and a list.
pub record LoopHost : Type 0 where
  pub releases : ReleaseHost
  pub interval : ℕ
  pub monotonic : ℕ → ℕ
  pub ps : ℕ → Command → Option (List (Option String))

-- The store, and `_last_action`.
pub record LoopState : Type 0 where
  pub store : Store
  pub last_action : List (String × ℕ)

-- `_should_reconcile`
unfoldable pub should_reconcile : Option ℕ → ℕ → ℕ → Bool
should_reconcile none now interval = true
should_reconcile (some last) now interval =
    if ltb now last then false else leb interval (now - last)

unfoldable pub is_running : Option String → Bool
is_running none = false
is_running (some state) = state =? "running"

-- `any(entry.get("State") != "running" for entry in payload)`
unfoldable pub drifted : List (Option String) → Bool
unfolding is_running
drifted [] = false
drifted (entry ∷ entries) = let rest = drifted entries in if is_running entry then rest else true

-- The reconciler has its own choice of the program, without the variable XYNSEED_COMPOSE_BIN.
abbrev pub compose_program : LoopHost → List String
compose_program host =
    if host.releases.has_docker_compose then "docker-compose" ∷ [] else "docker" ∷ "compose" ∷ []

abbrev pub compose_command : LoopHost → RuntimeSpec → ArtifactPath → List String → Command
compose_command host runtime path arguments = record {
  program = compose_program host;
  file = path;
  project = project_of runtime;
  arguments = arguments;
}

-- The operation that the loop records, which no plan asked for.
unfoldable pub reconcile_operation : LoopHost → String → ℕ → Verdict → Operation
reconcile_operation host release_id n verdict = record {
  operation_id = host.releases.uuid4 n;
  release_id = release_id;
  type = "reconcile";
  succeeded = verdict.succeeded;
  created_at = host.releases.now_iso (suc n);
  started_at = host.releases.now_iso (suc (suc n));
  finished_at = host.releases.now_iso (suc (suc (suc n)));
  plan_id = none;
  message = verdict.message;
  artifacts = no_artifacts;
}

-- `_compose_up`, and the record of it. The readings are the process, the identifier, three times of
-- the day, and the monotonic clock.
unfoldable pub bring_up : LoopHost → String → RuntimeSpec → ArtifactPath → LoopState → LoopState
unfolding reconcile_operation save_operation insert verdict_of project_of
bring_up host release_id runtime path state =
    let n = state.store.reads in
    let completed = host.releases.run n (compose_command host runtime path ("up" ∷ "-d" ∷ [])) in
    let verdict =
      verdict_of completed "docker compose up failed" "reconcile apply succeeded" no_artifacts in
    record {
      store =
          save_operation (reconcile_operation host release_id (suc n) verdict)
            (record state.store { reads = suc (suc (suc (suc (suc (suc n))))) });
      last_action =
          insert release_id (host.monotonic (suc (suc (suc (suc (suc n)))))) state.last_action;
    }

-- An unreadable or empty listing is left alone, and so is one without drift.
unfoldable pub on_listing :
    LoopHost
    → String
    → RuntimeSpec
    → ArtifactPath
    → Option (List (Option String))
    → LoopState
    → LoopState
unfolding drifted bring_up
on_listing host release_id runtime path none state = state
on_listing host release_id runtime path (some entries) state =
    if drifted entries then bring_up host release_id runtime path state else state

unfoldable pub on_path :
    LoopHost → String → RuntimeSpec → Option ArtifactPath → LoopState → LoopState
unfolding on_listing project_of
on_path host release_id runtime none state = state
on_path host release_id runtime (some path) state =
    on_listing host release_id runtime path
      (host.ps state.store.reads
        (compose_command host runtime path ("ps" ∷ "--format" ∷ "json" ∷ [])))
      (record state { store = record state.store { reads = suc state.store.reads } })

unfoldable pub on_runtime : LoopHost → String → Option RuntimeSpec → LoopState → LoopState
unfolding on_path latest_compose_path
on_runtime host release_id none state = state
on_runtime host release_id (some runtime) state =
    if runtime.backend.type =? "compose"
    then on_path host release_id runtime (latest_compose_path release_id state.store) state
    else state

-- The loop's body for one release.
unfoldable pub reconcile_release : LoopHost → ℕ → String → LoopState → LoopState
unfolding lookup should_reconcile on_runtime load_latest_runtime
reconcile_release host now release_id state =
    if should_reconcile (lookup release_id state.last_action) now host.interval
    then on_runtime host release_id (load_latest_runtime release_id state.store) state
    else state

unfoldable pub reconcile_all : LoopHost → ℕ → List String → LoopState → LoopState
unfolding reconcile_release
reconcile_all host now [] state = state
reconcile_all host now (release_id ∷ rest) state =
    reconcile_all host now rest (reconcile_release host now release_id state)

-- `reconcile_once` over the releases that `list_release_ids` lists.
unfoldable pub reconcile_once : LoopHost → List String → LoopState → LoopState
unfolding reconcile_all
reconcile_once host release_ids state =
    let now = host.monotonic state.store.reads in
    let state' = record state { store = record state.store { reads = suc state.store.reads } } in
    if host.interval == 0 then state' else reconcile_all host now release_ids state'
