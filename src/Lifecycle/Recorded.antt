-- ===== src/Lifecycle/Recorded.antt =====
-- An allowed transition is recorded.
use mathlib.Core.Path.{subst}
use xyn.Base.{String, ◌≡◌, refl, sym, ap, ◌∙◌, true, false, some, List, [], ◌∷◌, ◌++◌, ◌=?◌}
use xyn.Base.Exec.{ok, ◌>>=◌}
use xyn.Base.Text.{strip, lower}
use xyn.Lifecycle.Definitions.{LifecycleDefinition, allows}
use xyn.Lifecycle.Service.{
  cleaned, TransitionRequest, LifecycleTransition, ModelObject, normalize_state,
  build_transition_request, recorded, result_of, get_lifecycle_definition, validate_transition,
  record_transition, apply_transition, transition_model_status,
}
use xyn.Lifecycle.Chain.{Attempt, IsNormal, after_attempt, validate_known}

module _ (definitions : List (String × LifecycleDefinition)) (lifecycle : String)
    (d : LifecycleDefinition)
    (known : get_lifecycle_definition definitions (lower (strip lifecycle)) ≡ ok d) where
  -- The request for the state `t` that an attempt makes.
  unfoldable requested : Attempt → ModelObject → String → TransitionRequest
  requested a o t = record {
    lifecycle = lower (strip lifecycle);
    object_type = lower (strip a.object_type);
    object_id = strip o.id;
    from_state = normalize_state o.status;
    to_state = t;
    particulars = cleaned (record a.given { workspace_id = o.workspace_id });
    requested_at = a.now;
  }

  module _ (a : Attempt) (o : ModelObject) (t : String) where
    requested-built :
        normalize_state a.next_state ≡ some t
        → build_transition_request lifecycle a.object_type o.id o.status a.next_state
            (record a.given { workspace_id = o.workspace_id })
            a.now
          ≡ ok (requested a o t)
    unfolding build_transition_request requested
    requested-built e = rw (e, build_transition_request) refl

    requested-valid :
        (lower (strip a.object_type) =? "") ≡ false
        → (strip o.id =? "") ≡ false
        → allows d (normalize_state o.status) t ≡ true
        → validate_transition definitions (requested a o t) ≡ ok tt
    unfolding requested
    requested-valid y i m =
        validate_known definitions lifecycle d known (requested a o t) refl ∙ rw (y, i, m) refl

    requested-recorded :
        (log : List LifecycleTransition)
        → build_transition_request lifecycle a.object_type o.id o.status a.next_state
            (record a.given { workspace_id = o.workspace_id })
            a.now
          ≡ ok (requested a o t)
        → validate_transition definitions (requested a o t) ≡ ok tt
        → after_attempt definitions lifecycle a (log, o) ≡ (
          log ++ recorded (requested a o t) ∷ [],
          record o { status = some (requested a o t).to_state },
        )
    unfolding transition_model_status apply_transition record_transition ◌>>=◌ result_of recorded
    requested-recorded log b v = rw (b, v) refl

    requested-states :
        ((recorded (requested a o t)).from_state ≡ normalize_state o.status)
        × ((recorded (requested a o t)).to_state ≡ t)
        × ((requested a o t).to_state ≡ t)
    unfolding requested recorded
    requested-states = (refl, refl, refl)

    -- An attempt at a transition that the registered definition allows, of an object whose identifier
    -- and type are not blank and whose status is normalized, is recorded, and gives the object the
    -- state that was asked for.
    pub attempt-records :
        (log : List LifecycleTransition)
        → IsNormal o.status
        → (lower (strip a.object_type) =? "") ≡ false
        → (strip o.id =? "") ≡ false
        → normalize_state a.next_state ≡ some t
        → allows d o.status t ≡ true
        → (row : LifecycleTransition) × (row.from_state ≡ o.status)
          × (row.to_state ≡ t)
          × (after_attempt definitions lifecycle a (log, o)
              ≡ (log ++ row ∷ [], record o { status = some t }))
    attempt-records log n y i e m =
        let (f, g, h) = requested-states in
        let valid = requested-valid y i (subst (λ s. allows d s t ≡ true) (sym n) m) in
        (
          recorded (requested a o t),
          f ∙ n,
          g,
          requested-recorded log (requested-built e) valid
              ∙ ap
                  (λ (s : String).
                    (log ++ recorded (requested a o t) ∷ [], record o { status = some s }))
                  h,
        )
