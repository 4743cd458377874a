-- ===== src/Tests/ReleaseTests.antt =====
-- Theorems about releases at concrete inputs.
use mathlib.Core.List.Permᴰ
use mathlib.Core.List.{Permᴰ, Mem}
use xyn.Base.{arith, String, ◌≡◌, refl, true, false, none, some, [], ◌∷◌, ◌++◌, map}
use xyn.Base.Text.Format.{concat}
use xyn.Base.Text.{strip, is_space}
use xyn.Base.Text.Order.{text_leb}
use xyn.Base.Exec.{ok}
use xyn.Base.Sort.{All, sort_by}
use xyn.Base.Sort.Keys.{sort_on, IsSortedOn}
use xyn.Base.Table.{select}
use xyn.Base.Dict.{lookup}
use xyn.Releases.Spec.{Entry, Component, ReleaseSpec, RuntimeSpec}
use xyn.Releases.Compiler.{
  has_ports, deployment_of, service_of, container_of, compile_release_to_runtime,
}
use xyn.Releases.Renderer.{flat, service_lines, section_lines, compose_lines}
use xyn.Releases.K8s.{validate_runtime_spec}
use xyn.Releases.Plan.{deployment, create, index_by_name, targets_of, diff_actions}
use xyn.Releases.PlanDiff.{named, IsChange, action_type}
use xyn.Releases.Store.{Revision, Plan, Store, in_revision, load_plan, load_runtime_by_path}
use xyn.Releases.Api.{ReleaseHost, require_auth, plan_of}
use xyn.Releases.Reconciler.{LoopHost, LoopState, reconcile_once}
use xyn.Releases.Compiled.{compile-parts, compile-reorder, validate-compile}
use xyn.Releases.Rendered.{compose_lines-compile}
use xyn.Releases.Changes.{diff_actions_sound, diff_actions-complete}
use xyn.Releases.Published.{IsPublished, plan_release-Publishes}
use xyn.Releases.Applied.{IsClosed, IsApplied, routes-Refuses, apply_release-runs}
use xyn.Releases.Reconciled.{Spares, reconcile_once-Spares}

abbrev web : Component
web = record {
  name = "web";
  build_image_name = none;
  image = some "nginx";
  ports = record { container_port = 80; protocol = none; name = none; host_port = some 8080 } ∷ [];
  env = [];
  healthcheck = [];
  volume_mounts = [];
  resources = [];
  replicas = none;
  depends_on = "db" ∷ [];
}

abbrev db : Component
db = record web { name = "db"; image = none; ports = []; depends_on = [] }

abbrev entry : String → Entry
entry name = record { name = name; attributes = [] }

abbrev shop : ReleaseSpec
shop = record {
  name = "shop";
  namespace = "demo";
  labels = [];
  backend = record { type = "compose"; options = [] };
  networks = entry "front" ∷ [];
  volumes = entry "data" ∷ [];
  components = web ∷ db ∷ [];
  routes = [];
}

abbrev runtime : RuntimeSpec
runtime = compile_release_to_runtime shop 1 none

abbrev host : ReleaseHost
host = record {
  api_token = "";
  compose_bin = "";
  has_docker_compose = false;
  is_release_spec = λ s. true;
  is_runtime_spec = λ r. true;
  uuid4 = λ n. "id";
  now_iso = λ n. "now";
  run = λ n c. record { returncode = 0; stdout = ""; stderr = "" };
}

abbrev empty : Store
empty = record { revisions = []; plans = []; operations = []; texts = []; reads = 0 }

abbrev one_revision : Revision
one_revision = record {
  release_id = "demo.shop";
  number = 1;
  release_spec = some shop;
  runtime_spec = some runtime;
  compose_yaml = some "";
}

abbrev shop_plan : Plan
shop_plan = plan_of "p" "demo.shop" none 1 [] (record {
  release_spec_path = some (in_revision "demo.shop" 1);
  runtime_spec_path = some (in_revision "demo.shop" 1);
  compose_yaml_path = some (in_revision "demo.shop" 1);
})

abbrev planned : Store
planned = record empty { revisions = one_revision ∷ []; plans = shop_plan ∷ [] }

plan_release-Publishes_example : IsPublished host none shop planned
unfolding require_auth
plan_release-Publishes_example = plan_release-Publishes host none shop planned refl refl refl

diff_actions_sound_example :
    All
      (λ a. IsChange (named (action_type a) none) (named (action_type a) (some runtime)) a)
      (diff_actions none runtime)
diff_actions_sound_example = diff_actions_sound none runtime

diff_actions-complete_example : Mem (create deployment "web") (diff_actions none runtime)
unfolding lookup index_by_name targets_of compile_release_to_runtime sort_by text_leb
diff_actions-complete_example =
    diff_actions-complete none runtime (create deployment "web") (refl, _, refl)

compile-parts_example :
    IsSortedOn (λ c. c.name) (sort_on (λ c. c.name) shop.components)
    × (runtime.deployments
        ≡ map (deployment_of "demo" "shop") (sort_on (λ c. c.name) shop.components))
    × (runtime.services ≡ map service_of (select has_ports (sort_on (λ c. c.name) shop.components)))
compile-parts_example = compile-parts shop 1 none

compile-reorder_example :
    compile_release_to_runtime shop 1 none
    ≡ compile_release_to_runtime (record shop { components = db ∷ web ∷ [] }) 1 none
compile-reorder_example =
    compile-reorder shop 1 none (db ∷ web ∷ []) shop.networks shop.volumes shop.labels
      (Permᴰ.swap refl refl) (Permᴰ.refl shop.networks) (Permᴰ.refl shop.volumes)
      (Permᴰ.refl shop.labels) ((refl, tt), (tt, tt)) (tt, tt) (tt, tt) tt

validate-compile_example : validate_runtime_spec runtime ≡ ok tt
validate-compile_example = validate-compile shop 1 none

compose_lines-compile_example :
    compose_lines runtime
    ≡ some (
        concat ("name: " ∷ "demo" ∷ "_" ∷ "shop" ∷ [])
        ∷ ""
        ∷ "services:"
        ∷ (flat
              (λ c.
                service_lines runtime
                  ("front" ∷ [])
                  (deployment_of "demo" "shop" c)
                  (container_of "demo" "shop" c))
              (sort_on (λ c. c.name) shop.components)
            ++ section_lines "volumes:" ("data" ∷ [])
            ++ section_lines "networks:" ("front" ∷ [])))
unfolding sort_by
compose_lines-compile_example = compose_lines-compile shop 1 none

abbrev locked : ReleaseHost
locked = record host { api_token = "secret" }

routes-Refuses_example : IsClosed locked (some "Bearer guess") planned
unfolding strip is_space concat
routes-Refuses_example = routes-Refuses locked (some "Bearer guess") planned refl refl

apply_release-runs_example :
    IsApplied host none "demo.shop" "p" runtime (in_revision "demo.shop" 1) planned
unfolding require_auth load_plan plan_of load_runtime_by_path compile_release_to_runtime
apply_release-runs_example =
    apply_release-runs host none "demo.shop" "p" shop_plan (in_revision "demo.shop" 1)
      (in_revision "demo.shop" 1) runtime planned refl refl refl refl refl refl refl

abbrev loop : LoopHost
loop = record {
  releases = host;
  interval = 30;
  monotonic = λ n. 100;
  ps = λ n c. some (some "exited" ∷ []);
}

abbrev acted : LoopState
acted = record { store = planned; last_action = ("demo.shop", 90) ∷ [] }

reconcile_once-Spares_example :
    Spares "demo.shop" acted (reconcile_once loop ("demo.shop" ∷ []) acted)
unfolding lookup
reconcile_once-Spares_example =
    reconcile_once-Spares loop "demo.shop" ("demo.shop" ∷ []) acted 90 refl (omega arith)
