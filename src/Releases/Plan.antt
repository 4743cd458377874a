-- ===== src/Releases/Plan.antt =====
-- The planning of core/api/releases.py: the actions that lead from one runtime spec to the next.
use xyn.Base.{
  String, Bool, false, Option, none, some, List, [], ◌∷◌, ◌++◌, map, ◌=?◌, if◌then◌else◌,
}
use xyn.Base.Text.Order.{text_leb}
use xyn.Base.Dict.{lookup, insert}
use xyn.Base.Sort.{sort_by}
use xyn.Releases.Spec.{Entry, Deployment, Service, RuntimeSpec}
use xyn.Releases.Equality.{entry_eq, deployment_eq, service_eq}

pub data TargetType : Type 0 where
  deployment service volume network route : TargetType

abbrev pub type_name : TargetType → String
type_name deployment = "deployment"
type_name service = "service"
type_name volume = "volume"
type_name network = "network"
type_name route = "route"

-- An item of one of the lists of a runtime spec.
pub data Target : Type 0 where
  deployed : Deployment → Target
  served : Service → Target
  entered : Entry → Target

abbrev pub target_name : Target → String
target_name (deployed d) = d.name
target_name (served s) = s.name
target_name (entered e) = e.name

-- `runtime_spec[f"{target_type}s"]`
unfoldable pub targets_of : TargetType → RuntimeSpec → List Target
targets_of deployment spec = map deployed spec.deployments
targets_of service spec = map served spec.services
targets_of volume spec = map entered spec.volumes
targets_of network spec = map entered spec.networks
targets_of route spec = map entered spec.routes

unfoldable pub same_target : Target → Target → Bool
unfolding deployment_eq service_eq entry_eq
same_target (deployed a) (deployed b) = deployment_eq a b
same_target (served a) (served b) = service_eq a b
same_target (entered a) (entered b) = entry_eq a b
same_target _ _ = false

-- An action of a plan; an update carries the item as it was and as it will be.
pub data Action : Type 0 where
  create : TargetType → String → Action
  update : TargetType → String → Target → Target → Action
  delete : TargetType → String → Action

unfoldable pub index_from : List (String × Target) → List Target → List (String × Target)
unfolding insert
index_from index [] = index
index_from index (target ∷ rest) =
    index_from
      (if target_name target =? "" then index else insert (target_name target) target index) rest

-- `_index_by_name`
unfoldable pub index_by_name : List Target → List (String × Target)
unfolding index_from
index_by_name targets = index_from [] targets

-- All that a first release names is created.
unfoldable pub create_all : TargetType → List Target → List Action
create_all type [] = []
create_all type (target ∷ rest) =
    let actions = create_all type rest in
    if target_name target =? "" then actions else create type (target_name target) ∷ actions

-- The action for a current item, beside what the previous spec has under its name.
unfoldable pub with_change :
    TargetType → String → Option Target → Target → List Action → List Action
unfolding same_target
with_change type name none current actions = create type name ∷ actions
with_change type name (some item) current actions =
    if same_target item current then actions else (update type name item current ∷ actions)

unfoldable pub create_or_update :
    TargetType → List (String × Target) → List (String × Target) → List Action
unfolding lookup with_change
create_or_update type previous [] = []
create_or_update type previous ((name, current) ∷ rest) =
    with_change type name (lookup name previous) current (create_or_update type previous rest)

unfoldable pub with_deletion : TargetType → String → Option Target → List Action → List Action
with_deletion type name none actions = delete type name ∷ actions
with_deletion type name (some _) actions = actions

unfoldable pub delete_missing :
    TargetType → List (String × Target) → List (String × Target) → List Action
unfolding lookup with_deletion
delete_missing type [] current = []
delete_missing type ((name, item) ∷ rest) current =
    with_deletion type name (lookup name current) (delete_missing type rest current)

unfoldable pub actions_for : TargetType → Option RuntimeSpec → RuntimeSpec → List Action
unfolding targets_of create_all index_by_name create_or_update delete_missing
actions_for type none current = create_all type (targets_of type current)
actions_for type (some previous) current =
    let before = index_by_name (targets_of type previous) in
    let after = index_by_name (targets_of type current) in
    create_or_update type before after ++ delete_missing type before after

unfoldable pub action_key : Action → String × String
action_key (create type name) = (type_name type, name)
action_key (update type name _ _) = (type_name type, name)
action_key (delete type name) = (type_name type, name)

-- The order of the pairs of target type and target name.
unfoldable pub action_order : Action → Action → Bool
unfolding text_leb action_key
action_order a b =
    let (s, m) = action_key a in
    let (t, n) = action_key b in if s =? t then text_leb m n else text_leb s t

-- `_diff_actions`
unfoldable pub diff_actions : Option RuntimeSpec → RuntimeSpec → List Action
unfolding actions_for sort_by action_order
diff_actions previous current = sort_by action_order (
    actions_for deployment previous current
    ++ (actions_for service previous current
        ++ (actions_for volume previous current
            ++ (actions_for network previous current ++ actions_for route previous current))))
