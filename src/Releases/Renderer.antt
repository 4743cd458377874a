-- ===== src/Releases/Renderer.antt =====
-- core/releases/compose_renderer.py: a runtime spec written as a compose file.
use mathlib.Core.Option
use xyn.Base.{zero, suc, String, Option, none, some, List, [], ◌∷◌, ◌++◌, map}
use xyn.Base.Text.{rstrip}
use xyn.Base.Text.Format.{concat, join, decimal}
use xyn.Base.Dict.{insert}
use xyn.Base.Sort.Keys.{sort_on}
use xyn.Base.Json.{Json, array, object, entries, elements}
use xyn.Base.Json.Format.{str_of}
use xyn.Releases.Spec.{RuntimePort, VolumeMount, Container, Deployment, RuntimeSpec}

unfoldable pub items_under : String → List Json → List String
unfolding concat str_of
items_under indent [] = []
items_under indent (v ∷ vs) = concat (indent ∷ "- " ∷ str_of v ∷ []) ∷ items_under indent vs

-- What `_append_yaml_value` writes for one entry of a dictionary inside the value.
unfoldable pub sub_value_lines : String × Json → List String
unfolding items_under elements
sub_value_lines (key, array is) =
    concat ("        " ∷ key ∷ ":" ∷ []) ∷ items_under "          " (elements is)
sub_value_lines (key, v) = concat ("        " ∷ key ∷ ": " ∷ str_of v ∷ []) ∷ []

unfoldable pub flat : {A : Type 0} → (A → List String) → List A → List String
flat f [] = []
flat f (x ∷ xs) = f x ++ flat f xs

-- `_append_yaml_value` at the indentation of six, the only one it is called with.
unfoldable pub append_yaml_value : String × Json → List String
unfolding items_under sub_value_lines flat elements entries
append_yaml_value (key, array is) =
    concat ("      " ∷ key ∷ ":" ∷ []) ∷ items_under "        " (elements is)
append_yaml_value (key, object ms) =
    concat ("      " ∷ key ∷ ":" ∷ []) ∷ flat sub_value_lines (sort_on (λ e. e.0) (entries ms))
append_yaml_value (key, v) = concat ("      " ∷ key ∷ ": " ∷ str_of v ∷ []) ∷ []

-- A heading with its lines, or nothing if there are none.
unfoldable pub headed : String → List String → List String
headed heading [] = []
headed heading (line ∷ lines) = heading ∷ line ∷ lines

unfoldable pub env_line : String × String → String
unfolding concat
env_line (name, value) = concat ("      " ∷ name ∷ ": " ∷ value ∷ [])

unfoldable pub port_line : RuntimePort → String
unfolding concat decimal
port_line port =
    let alone = concat ("      - \"" ∷ decimal port.container_port ∷ "\"" ∷ []) in
    elim port.published_port [
      | none ↦ alone
      | some zero ↦ alone
      | some (suc n) ↦
          concat ("      - \"" ∷ decimal (suc n) ∷ ":" ∷ decimal port.container_port ∷ "\"" ∷ [])
    ]

unfoldable pub mount_line : VolumeMount → String
unfolding concat
mount_line mount = concat ("      - " ∷ mount.name ∷ ":" ∷ mount.mount_path ∷ [])

unfoldable pub list_line : String → String
unfolding concat
list_line entry = concat ("      - " ∷ entry ∷ [])

-- The labels of a service: those of the release, the release, the revision and the service.
unfoldable pub labels_of : RuntimeSpec → String → List (String × String)
unfolding insert decimal
labels_of spec service =
    insert "service" service
      (insert "revision" (decimal spec.revision) (insert "release_id" spec.release_id spec.labels))

unfoldable pub container_lines : Container → List String
unfolding headed env_line flat append_yaml_value port_line mount_line
container_lines container =
    headed "    environment:" (map env_line (sort_on (λ e. e.0) container.env))
    ++ headed "    healthcheck:" (flat append_yaml_value (sort_on (λ e. e.0) container.healthcheck))
    ++ headed "    ports:" (map port_line container.ports)
    ++ headed "    volumes:" (map mount_line container.volume_mounts)

-- The lines of one service of the compose file.
unfoldable pub service_lines : RuntimeSpec → List String → Deployment → Container → List String
unfolding container_lines headed list_line labels_of
service_lines spec networks deployment container =
    concat ("  " ∷ deployment.name ∷ ":" ∷ [])
    ∷ concat ("    image: " ∷ container.image ∷ [])
    ∷ (container_lines container
        ++ headed "    depends_on:" (map list_line (sort_on (λ s. s) deployment.depends_on))
        ++ headed "    networks:" (map list_line networks)
        ++ headed "    labels:" (map env_line (sort_on (λ e. e.0) (labels_of spec deployment.name)))
        ++ "" ∷ [])

-- The loop over the deployments; a deployment without a container raises an IndexError.
unfoldable pub deployments_lines :
    RuntimeSpec → List String → List Deployment → Option (List String)
unfolding service_lines
deployments_lines spec networks [] = some []
deployments_lines spec networks (deployment ∷ rest) =
    let lines = deployments_lines spec networks rest in
    elim deployment.containers [
      | [] ↦ none
      | container ∷ _ ↦ elim lines [
        | none ↦ none
        | some ls ↦ some (service_lines spec networks deployment container ++ ls)
      ]
    ]

unfoldable pub section_lines : String → List String → List String
unfolding concat
section_lines heading [] = []
section_lines heading (name ∷ names) =
    heading ∷ (map (λ n. concat ("  " ∷ n ∷ ": {}" ∷ [])) (name ∷ names) ++ "" ∷ [])

unfoldable pub file_lines :
    RuntimeSpec → List String → List String → Option (List String) → Option (List String)
unfolding section_lines concat
file_lines spec networks volumes none = none
file_lines spec networks volumes (some services) = some (
    concat ("name: " ∷ spec.namespace ∷ "_" ∷ spec.name ∷ [])
    ∷ ""
    ∷ "services:"
    ∷ (services ++ section_lines "volumes:" volumes ++ section_lines "networks:" networks))

unfoldable pub compose_lines : RuntimeSpec → Option (List String)
unfolding deployments_lines file_lines
compose_lines spec =
    let networks = map (λ e. e.name) (sort_on (λ e. e.name) spec.networks) in
    let volumes = map (λ e. e.name) (sort_on (λ e. e.name) spec.volumes) in
    file_lines spec networks volumes
      (deployments_lines spec networks (sort_on (λ d. d.name) spec.deployments))

unfoldable pub file_text : List String → String
unfolding join rstrip concat
file_text lines = concat (rstrip (join "\n" lines) ∷ "\n" ∷ [])

-- `render_compose`
unfoldable pub render_compose : RuntimeSpec → Option String
unfolding compose_lines file_text
render_compose spec = Option.map file_text (compose_lines spec)
