-- ===== src/Releases/Compiler.antt =====
-- core/releases/compiler.py: a release spec compiled to a runtime spec.
use Prim.Native.String.{◌++◌}
use xyn.Base.{
  ℕ, String, Bool, not, Option, none, some, List, [], ◌∷◌, map, ◌=?◌, if◌then◌else◌, is_empty,
}
use xyn.Base.Table.{select}
use xyn.Base.Sort.Keys.{sort_on}
use xyn.Base.Json.{Json}
use xyn.Releases.Spec.{
  Entry, Port, Mount, Component, ReleaseSpec, RuntimePort, VolumeMount, Container, Deployment,
  ServicePort, Service, RuntimeSpec,
}

-- `value or default` on a text that may be missing.
unfoldable pub text_or : Option String → String → String
text_or none default = default
text_or (some s) default = if s =? "" then default else s

-- `d.get(key, default)`
abbrev pub get_or : {A : Type 0} → Option A → A → A
get_or none default = default
get_or (some a) default = a

-- `_env_dict_to_list`
unfoldable pub env_dict_to_list : List (String × String) → List (String × String)
env_dict_to_list env = sort_on (λ e. e.0) env

abbrev pub present : Option String → Option String
present none = none
present (some s) = if s =? "" then none else some s

unfoldable pub port_release_to_runtime : Port → RuntimePort
port_release_to_runtime port = record {
  container_port = port.container_port;
  protocol = get_or port.protocol "tcp";
  name = present port.name;
  published_port = port.host_port;
}

-- `_ports_release_to_runtime`
unfoldable pub ports_release_to_runtime : List Port → List RuntimePort
ports_release_to_runtime ports = map port_release_to_runtime ports

unfoldable pub without_type : Entry → Entry
without_type entry = record entry {
  attributes = select (λ (e : String × Json). not (e.0 =? "type")) entry.attributes;
}

-- The image that a component runs: the one it builds, the one it names, or a local one.
unfoldable pub image_of : String → String → Component → String
unfolding text_or
image_of namespace name component =
    text_or component.build_image_name
      (text_or component.image (namespace ++ "." ++ name ++ "." ++ component.name ++ ":local"))

unfoldable pub mount_of : Mount → VolumeMount
mount_of mount = record {
  name = mount.volume;
  mount_path = mount.mount_path;
  read_only = mount.read_only;
}

unfoldable pub container_of : String → String → Component → Container
unfolding env_dict_to_list ports_release_to_runtime image_of mount_of
container_of namespace name component = record {
  name = component.name;
  image = image_of namespace name component;
  ports = ports_release_to_runtime component.ports;
  env = env_dict_to_list component.env;
  healthcheck = component.healthcheck;
  volume_mounts = map mount_of component.volume_mounts;
  resources = component.resources;
}

unfoldable pub deployment_of : String → String → Component → Deployment
unfolding container_of
deployment_of namespace name component = record {
  name = component.name;
  replicas = get_or component.replicas 1;
  depends_on = sort_on (λ s. s) component.depends_on;
  labels = ("app", component.name) ∷ [];
  containers = container_of namespace name component ∷ [];
}

unfoldable pub service_port : Port → ServicePort
service_port port = record {
  name = port.name;
  port = get_or port.host_port port.container_port;
  target_port = port.container_port;
  protocol = get_or port.protocol "tcp";
}

unfoldable pub service_of : Component → Service
service_of component = record {
  name = component.name;
  selector = ("app", component.name) ∷ [];
  ports = map service_port component.ports;
}

unfoldable pub has_ports : Component → Bool
has_ports component = not (is_empty component.ports)

-- The loop over the components: one deployment each, and a service for one with ports.
unfoldable pub compile_components :
    String → String → List Component → List Deployment × List Service
unfolding deployment_of service_of has_ports
compile_components namespace name [] = ([], [])
compile_components namespace name (component ∷ rest) =
    let (deployments, services) = compile_components namespace name rest in
    (
      deployment_of namespace name component ∷ deployments,
      if has_ports component then service_of component ∷ services else services,
    )

-- `compile_release_to_runtime`
unfoldable pub compile_release_to_runtime : ReleaseSpec → ℕ → Option String → RuntimeSpec
unfolding compile_components without_type text_or
compile_release_to_runtime spec revision release_id =
    let compiled =
      compile_components spec.namespace spec.name (sort_on (λ c. c.name) spec.components) in
    record {
      api_version = "xyn.seed/v1";
      kind = "Runtime";
      name = spec.name;
      namespace = spec.namespace;
      labels = sort_on (λ l. l.0) spec.labels;
      release_id = text_or release_id (spec.namespace ++ "." ++ spec.name);
      revision = revision;
      backend = spec.backend;
      networks = sort_on (λ e. e.name) (map without_type spec.networks);
      volumes = sort_on (λ e. e.name) (map without_type spec.volumes);
      deployments = sort_on (λ d. d.name) compiled.0;
      services = sort_on (λ s. s.name) compiled.1;
      routes = spec.routes;
    }
