-- ===== src/Releases/Equality.antt =====
-- `==` of Python on the parts of a runtime spec.
use xyn.Base.{String, Bool, true, false, ◌&&◌, Option, none, some, List, [], ◌∷◌, ◌==◌, ◌=?◌}
use xyn.Base.Dict.{lookup}
use xyn.Base.Json.{of_entries, object}
use xyn.Base.Json.Equality.{json_eq}
use xyn.Releases.Spec.{
  Attributes, Entry, RuntimePort, VolumeMount, Container, Deployment, ServicePort, Service,
}

module _ {A : Type 0} (eq : A → A → Bool) where
  unfoldable pub list_eq : List A → List A → Bool
  list_eq [] [] = true
  list_eq (x ∷ xs) (y ∷ ys) = eq x y && list_eq xs ys
  list_eq _ _ = false

  unfoldable pub option_eq : Option A → Option A → Bool
  option_eq none none = true
  option_eq (some x) (some y) = eq x y
  option_eq _ _ = false

abbrev pub bool_eq : Bool → Bool → Bool
bool_eq true true = true
bool_eq false false = true
bool_eq _ _ = false

abbrev pub pair_eq : String × String → String × String → Bool
pair_eq p q = (p.0 =? q.0) && (p.1 =? q.1)

-- Dictionaries of JSON values.
unfoldable pub attributes_eq : Attributes → Attributes → Bool
unfolding json_eq of_entries
attributes_eq a b = json_eq (object (of_entries a)) (object (of_entries b))

unfoldable pub labels_within : List (String × String) → List (String × String) → Bool
unfolding lookup option_eq
labels_within [] b = true
labels_within ((k, v) ∷ a) b = option_eq ◌=?◌ (some v) (lookup k b) && labels_within a b

-- Dictionaries of texts.
unfoldable pub labels_eq : List (String × String) → List (String × String) → Bool
unfolding labels_within
labels_eq a b = labels_within a b && labels_within b a

unfoldable pub entry_eq : Entry → Entry → Bool
unfolding attributes_eq
entry_eq a b = (a.name =? b.name) && attributes_eq a.attributes b.attributes

unfoldable pub port_eq : RuntimePort → RuntimePort → Bool
unfolding option_eq
port_eq a b =
    (a.container_port == b.container_port)
    && (a.protocol =? b.protocol)
    && option_eq ◌=?◌ a.name b.name
    && option_eq ◌==◌ a.published_port b.published_port

unfoldable pub mount_eq : VolumeMount → VolumeMount → Bool
unfolding option_eq
mount_eq a b =
    (a.name =? b.name)
    && (a.mount_path =? b.mount_path)
    && option_eq bool_eq a.read_only b.read_only

unfoldable pub container_eq : Container → Container → Bool
unfolding list_eq port_eq mount_eq attributes_eq
container_eq a b =
    (a.name =? b.name)
    && (a.image =? b.image)
    && list_eq port_eq a.ports b.ports
    && list_eq pair_eq a.env b.env
    && attributes_eq a.healthcheck b.healthcheck
    && list_eq mount_eq a.volume_mounts b.volume_mounts
    && attributes_eq a.resources b.resources

unfoldable pub deployment_eq : Deployment → Deployment → Bool
unfolding list_eq labels_eq container_eq
deployment_eq a b =
    (a.name =? b.name)
    && (a.replicas == b.replicas)
    && list_eq ◌=?◌ a.depends_on b.depends_on
    && labels_eq a.labels b.labels
    && list_eq container_eq a.containers b.containers

unfoldable pub service_port_eq : ServicePort → ServicePort → Bool
unfolding option_eq
service_port_eq a b =
    option_eq ◌=?◌ a.name b.name
    && (a.port == b.port)
    && (a.target_port == b.target_port)
    && (a.protocol =? b.protocol)

unfoldable pub service_eq : Service → Service → Bool
unfolding list_eq labels_eq service_port_eq
service_eq a b =
    (a.name =? b.name) && labels_eq a.selector b.selector && list_eq service_port_eq a.ports b.ports
