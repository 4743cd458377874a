-- ===== src/Lifecycle/Chain.antt =====
-- The history of an object: its recorded transitions form a chain that the definition allows.
use mathlib.Core.Path.{subst}
use xyn.Base.{
  ℕ, String, ◌≡◌, refl, sym, ap, ◌∙◌, ◌⊎◌, inl, inr, true, false, Option, none, some, List, [], ◌∷◌,
  ◌++◌, arith, ◌=?◌, Bool-cases,
}
use xyn.Base.Exec.{Result, ok, err, ◌>>=◌}
use xyn.Base.Text.{strip, lower, strip-lower, strip_idem, lower_idem}
use xyn.Lifecycle.Definitions.{LifecycleDefinition, member, targets, allows}
use xyn.Lifecycle.Service.{
  LifecycleFault, Particulars, TransitionRequest, LifecycleTransition, ModelObject, normalize_state,
  build_transition_request, recorded, result_of, get_lifecycle_definition, validate_against,
  validate_transition, record_transition, apply_transition, transition_model_status,
}

Result-cases : {E A : Type 0} (r : Result E A) → ((e : E) × (r ≡ err e)) ⊎ ((a : A) × (r ≡ ok a))
Result-cases (err e) = inl (e, refl)
Result-cases (ok a) = inr (a, refl)

normalize_idem : (s : String) → lower (strip (lower (strip s))) ≡ lower (strip s)
normalize_idem s = rw (strip-lower (strip s), lower_idem (strip (strip s)), strip_idem s) refl

-- A state that is normalized already.
abbrev pub IsNormal : Option String → Type 0
IsNormal s = normalize_state s ≡ s

normalize_state-IsNormal : (s : Option String) → IsNormal (normalize_state s)
unfolding normalize_state
normalize_state-IsNormal none = refl
normalize_state-IsNormal (some v) = elim (Bool-cases (lower (strip v) =? "")) [
  | inl e ↦ rw e refl
  | inr e ↦ rw e (rw (normalize_idem v, e) refl)
]

module _ (definitions : List (String × LifecycleDefinition)) (lifecycle : String) where
  request-lifecycle :
      (object_type object_id : String) (from to : Option String) (given : Particulars) (now : ℕ)
      (q : TransitionRequest)
      → build_transition_request lifecycle object_type object_id from to given now ≡ ok q
      → (q.lifecycle ≡ lower (strip lifecycle))
        × (q.from_state ≡ normalize_state from)
        × (normalize_state to ≡ some q.to_state)
  unfolding build_transition_request
  request-lifecycle object_type object_id from to given now q h = ground arith

module _ (definitions : List (String × LifecycleDefinition)) (lifecycle : String)
    (d : LifecycleDefinition)
    (known : get_lifecycle_definition definitions (lower (strip lifecycle)) ≡ ok d) where
  pub validate_known :
      (q : TransitionRequest)
      → q.lifecycle ≡ lower (strip lifecycle)
      → validate_transition definitions q ≡ validate_against definitions q d
  unfolding validate_transition
  validate_known q i =
      rw (ap (get_lifecycle_definition definitions) i ∙ known, validate_transition) refl

  validate-allows :
      (q : TransitionRequest)
      → validate_against definitions q d ≡ ok tt
      → allows d q.from_state q.to_state ≡ true
  validate-allows q h = ground arith

  module _ (object_type object_id : String) (from to : Option String) (given : Particulars)
      (now : ℕ) (log : List LifecycleTransition) where
    -- What a recorded transition is.
    record IsRecorded (q : TransitionRequest) : Type 0 where
      pub may : allows d q.from_state q.to_state ≡ true
      pub source : q.from_state ≡ normalize_state from
      pub target : normalize_state to ≡ some q.to_state
      pub done :
          apply_transition definitions lifecycle object_type object_id from to given now log
          ≡ (ok (result_of (recorded q)), log ++ recorded q ∷ [])

    apply-cases :
        ((e : LifecycleFault) × (apply_transition definitions lifecycle object_type object_id from
              to given now log
            ≡ (err e, log)))
        ⊎ ((q : TransitionRequest) × IsRecorded q)
    unfolding apply_transition ◌>>=◌ record_transition
    apply-cases =
        elim (Result-cases
          (build_transition_request lifecycle object_type object_id from to given now)) [
            | inl (e, p) ↦ inl (e, rw p refl)
            | inr (q, p) ↦ elim (Result-cases (validate_transition definitions q)) [
              | inl (e, v) ↦ inl (e, rw (p, v) refl)
              | inr (tt, v) ↦
                  let (i, f, t) =
                    request-lifecycle definitions lifecycle object_type object_id from to given now
                      q p in
                  inr (
                    q,
                    record {
                      may = validate-allows q (sym (validate_known q i) ∙ v);
                      source = f;
                      target = t;
                      done = rw (p, v) refl;
                    },
                  )
            ]
          ]

-- A call of `transition_model_status` on the object.
pub record Attempt : Type 0 where
  pub object_type : String
  pub next_state : Option String
  pub given : Particulars
  pub now : ℕ

-- Rows that lead from one state to another, each along an allowed transition.
pub data IsChain (d : LifecycleDefinition)
    : Option String → List LifecycleTransition → Option String → Type 0 where
  done : {s : Option String} → IsChain d s [] s
  then_row :
      {s t : Option String} {rows : List LifecycleTransition} (row : LifecycleTransition)
      → row.from_state ≡ s
      → allows d s row.to_state ≡ true
      → IsChain d (some row.to_state) rows t
      → IsChain d s (row ∷ rows) t

module _ (definitions : List (String × LifecycleDefinition)) (lifecycle : String) where
  abbrev pub after_attempt :
      Attempt → List LifecycleTransition × ModelObject → List LifecycleTransition × ModelObject
  after_attempt a s =
      (transition_model_status definitions lifecycle a.object_type a.next_state a.given a.now s).1

  abbrev pub after_attempts :
      List Attempt → List LifecycleTransition × ModelObject → List LifecycleTransition × ModelObject
  after_attempts [] s = s
  after_attempts (a ∷ rest) s = after_attempts rest (after_attempt a s)

module _ (definitions : List (String × LifecycleDefinition)) (lifecycle : String)
    (d : LifecycleDefinition)
    (known : get_lifecycle_definition definitions (lower (strip lifecycle)) ≡ ok d) where
  -- One attempt does nothing, or records one allowed transition from the object's status and gives
  -- the object the state that was asked for.
  attempt-cases :
      (a : Attempt) (log : List LifecycleTransition) (o : ModelObject)
      → IsNormal o.status
      → (after_attempt definitions lifecycle a (log, o) ≡ (log, o))
        ⊎ ((row : LifecycleTransition) × (row.from_state ≡ o.status)
            × (allows d o.status row.to_state ≡ true)
            × (normalize_state a.next_state ≡ some row.to_state)
            × (after_attempt definitions lifecycle a (log, o)
                ≡ (log ++ row ∷ [], record o { status = some row.to_state })))
  unfolding transition_model_status result_of recorded
  attempt-cases a log o n =
      elim (apply-cases definitions lifecycle d known a.object_type o.id o.status a.next_state
        (record a.given { workspace_id = o.workspace_id }) a.now log) [
          | inl (e, p) ↦ inl (rw p refl)
          | inr (q, r) ↦ inr (
            recorded q,
            r.source ∙ n,
            subst (λ s. allows d s q.to_state ≡ true) (r.source ∙ n) r.may,
            r.target,
            rw r.done refl,
          )
        ]

  append_assoc :
      (xs : List LifecycleTransition) (x : LifecycleTransition) (ys : List LifecycleTransition)
      → (xs ++ x ∷ []) ++ ys ≡ xs ++ x ∷ ys
  append_assoc [] x ys = refl
  append_assoc (y ∷ xs) x ys = ap (λ zs. y ∷ zs) (append_assoc xs x ys)

  append_nil : (xs : List LifecycleTransition) → xs ≡ xs ++ []
  append_nil [] = refl
  append_nil (x ∷ xs) = ap (λ zs. x ∷ zs) (append_nil xs)

  -- Whatever is attempted on an object whose status is normalized, the rows that it adds to the
  -- table are a chain of transitions that the definition allows, from the status that the object had
  -- to the status that it has, if the definition of the lifecycle is registered.
  pub attempts-IsChain :
      (attempts : List Attempt) (log : List LifecycleTransition) (o : ModelObject)
      → IsNormal o.status
      → (rows : List LifecycleTransition) × ((after_attempts definitions lifecycle attempts
            (log, o)).0
          ≡ log ++ rows)
        × IsChain d o.status rows (after_attempts definitions lifecycle attempts (log, o)).1.status
  attempts-IsChain [] log o n = ([], append_nil log, done)
  attempts-IsChain (a ∷ rest) log o n =
      let Goal = λ (s : List LifecycleTransition × ModelObject).
        (rows : List LifecycleTransition) × ((after_attempts definitions lifecycle rest s).0
          ≡ log ++ rows)
        × IsChain d o.status rows (after_attempts definitions lifecycle rest s).1.status in
      elim (attempt-cases a log o n) [
        | inl p ↦ subst Goal (sym p) (attempts-IsChain rest log o n)
        | inr (row, f, m, t, p) ↦
            let moved : ModelObject = record o { status = some row.to_state } in
            let normal : IsNormal moved.status =
              subst IsNormal t (normalize_state-IsNormal a.next_state) in
            let (rows, e, c) = attempts-IsChain rest (log ++ row ∷ []) moved normal in
            subst Goal (sym p) (row ∷ rows, e ∙ append_assoc log row rows, then_row row f m c)
      ]

  no_target : (s t : String) → targets d s ≡ [] → allows d (some s) t ≡ false
  unfolding allows member
  no_target s t h = elim (Bool-cases (member t d.states)) [
    | inl e ↦ rw (e, h) refl
    | inr e ↦ rw e refl
  ]

  -- An object in a normalized state to which the definition gives no target stays as it is, and
  -- nothing is recorded, whatever is attempted, if the definition of the lifecycle is registered.
  pub attempts-terminal :
      (attempts : List Attempt) (log : List LifecycleTransition) (o : ModelObject) (s : String)
      → IsNormal o.status
      → o.status ≡ some s
      → targets d s ≡ []
      → after_attempts definitions lifecycle attempts (log, o) ≡ (log, o)
  attempts-terminal [] log o s n e h = refl
  attempts-terminal (a ∷ rest) log o s n e h = elim (attempt-cases a log o n) [
    | inl p ↦
        ap (after_attempts definitions lifecycle rest) p ∙ attempts-terminal rest log o s n e h
    | inr (row, f, m, t, p) ↦
        let refused = no_target s row.to_state h in
        let taken : allows d (some s) row.to_state ≡ true =
          subst (λ x. allows d x row.to_state ≡ true) e m in
        cc
  ]
