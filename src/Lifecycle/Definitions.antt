-- ===== src/Lifecycle/Definitions.antt =====
-- core/lifecycle/definitions.py: what a lifecycle allows, and the definitions that core falls back to.
use xyn.Base.{String, Bool, true, false, Option, none, some, List, [], ◌∷◌, ◌=?◌, if◌then◌else◌}
use xyn.Base.Dict.{lookup}

pub record LifecycleDefinition : Type 0 where
  pub name : String
  pub states : List String
  pub initial_state : String
  pub transitions : List (String × List String)
  pub terminal_states : List String

-- `s in xs`
unfoldable pub member : String → List String → Bool
member s [] = false
member s (x ∷ xs) = if x =? s then true else member s xs

-- `self.transitions.get(from_state, ())`
unfoldable pub targets : LifecycleDefinition → String → List String
targets definition from_state = elim (lookup from_state definition.transitions) [
  | none ↦ []
  | some states ↦ states
]

unfoldable pub allows : LifecycleDefinition → Option String → String → Bool
allows definition none to_state =
    if member to_state definition.states then to_state =? definition.initial_state else false
allows definition (some from_state) to_state =
    if member to_state definition.states
    then member to_state (targets definition from_state)
    else false

abbrev pub draft_lifecycle : LifecycleDefinition
draft_lifecycle = record {
  name = "draft";
  states = "draft" ∷ "ready" ∷ "submitted" ∷ "archived" ∷ [];
  initial_state = "draft";
  transitions =
      ("draft", "ready" ∷ "submitted" ∷ "archived" ∷ [])
      ∷ ("ready", "draft" ∷ "submitted" ∷ "archived" ∷ [])
      ∷ ("submitted", "archived" ∷ [])
      ∷ ("archived", [])
      ∷ [];
  terminal_states = "archived" ∷ [];
}

abbrev pub job_lifecycle : LifecycleDefinition
job_lifecycle = record {
  name = "job";
  states = "queued" ∷ "running" ∷ "succeeded" ∷ "failed" ∷ [];
  initial_state = "queued";
  transitions =
      ("queued", "running" ∷ "failed" ∷ [])
      ∷ ("running", "succeeded" ∷ "failed" ∷ [])
      ∷ ("succeeded", [])
      ∷ ("failed", "queued" ∷ [])
      ∷ [];
  terminal_states = "succeeded" ∷ [];
}

abbrev pub compat_fallback_definitions : List (String × LifecycleDefinition)
compat_fallback_definitions = ("draft", draft_lifecycle) ∷ ("job", job_lifecycle) ∷ []
