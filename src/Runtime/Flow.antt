-- ===== src/Runtime/Flow.antt =====
-- Every operation moves a run along the edges of RUN_STATUS_TRANSITIONS.
use xyn.Base.{◌≢◌, ℕ, String, ◌≡◌, true, Option, arith, inl, inr, ◌⊎◌}
use xyn.Base.Exec.{Result, ok}
use xyn.Base.Exec.Ensures.{IsPreorder}
use xyn.Runtime.Models.{RunStatus, running, completed, Run, RuntimeWorker}
use xyn.Runtime.Session.{Fault}
use xyn.Runtime.Evolution.{Evolves, IsRowOrder, IsStep, Evolves-preorder}
use xyn.Runtime.Transitions.{run_transition_allowed, transition_run_status, moved}
use xyn.Runtime.Runs.{
  failure_status, paused, release_controls, continued, record_beat, ask_pause, set_runtime_controls,
  requeued,
}
use xyn.Runtime.Queue.{assigned}
use xyn.Runtime.Rows.{IsSound}

-- A way through the table of transitions.
pub data Leads : RunStatus → RunStatus → Type 0 where
  stay : {s : RunStatus} → Leads s s
  move : {s t u : RunStatus} → run_transition_allowed s t ≡ true → Leads t u → Leads s u

pub Leads-trans : {s t u : RunStatus} → Leads s t → Leads t u → Leads s u
Leads-trans stay q = q
Leads-trans (move e p) q = move e (Leads-trans p q)

abbrev pub Moves : Run → Run → Type 0
Moves r r' = Leads r.status r'.status

abbrev pub moves_order : IsRowOrder Moves
moves_order = record { same = λ r. stay; trans = λ r s t p q. Leads-trans p q }

instance abbrev pub moves_preorder : IsPreorder (Evolves Moves)
moves_preorder = Evolves-preorder moves_order

-- A row keeps its status, or takes one edge, and stays sound.
pub record StepsOn (r r' : Run) : Type 0 where
  pub same_id : r'.id ≡ r.id
  pub edge : (r'.status ≡ r.status) ⊎ (run_transition_allowed r.status r'.status ≡ true)
  pub sound : IsSound r → IsSound r'

pub Leads-of : {s t : RunStatus} → (t ≡ s) ⊎ (run_transition_allowed s t ≡ true) → Leads s t
Leads-of {s} (inl e) = rw e stay
Leads-of (inr a) = move a stay

pub IsStep-of :
    (k : ℕ) (f : Run → Result Fault Run)
    → ((r r' : Run) → f r ≡ ok r' → StepsOn r r')
    → IsStep Moves k f
IsStep-of k f h = record {
  at = λ r r' _ e. let s = h r r' e in (s.same_id, Leads-of s.edge, s.sound);
}

-- A transition to `running` is not covered: there the caller assigns the owner and the lease.
pub transition-StepsOn :
    (next : RunStatus) (now : ℕ) (s f e : Option String)
    → next ≢ running
    → (r r' : Run) → transition_run_status next now s f e r ≡ ok r'
    → StepsOn r r'
unfolding transition_run_status moved
transition-StepsOn next now s f e n r r' h = record {
  same_id = ground arith;
  edge = ground arith;
  sound = λ w. ground arith;
}

pub paused-StepsOn :
    (actor : String) (asked_at now : ℕ) (r r' : Run)
    → paused actor asked_at now r ≡ ok r'
    → StepsOn r r'
unfolding paused transition_run_status moved ask_pause set_runtime_controls run_transition_allowed
paused-StepsOn actor asked_at now r r' h = record {
  same_id = ground arith;
  edge = ground arith;
  sound = λ w. ground arith;
}

pub release_controls-StepsOn :
    (actor : String) (r r' : Run) → release_controls actor r ≡ ok r' → StepsOn r r'
unfolding release_controls set_runtime_controls
release_controls-StepsOn actor r r' h = record {
  same_id = ground arith;
  edge = ground arith;
  sound = λ w. ground arith;
}

pub continued-StepsOn :
    (moved_at now : ℕ) (r r' : Run) → continued moved_at now r ≡ ok r' → StepsOn r r'
unfolding continued transition_run_status moved requeued
continued-StepsOn moved_at now r r' h = record {
  same_id = ground arith;
  edge = ground arith;
  sound = λ w. ground arith;
}

pub record_beat-StepsOn : (now : ℕ) (r r' : Run) → record_beat now r ≡ ok r' → StepsOn r r'
unfolding record_beat
record_beat-StepsOn now r r' h = record {
  same_id = ground arith;
  edge = ground arith;
  sound = λ w. ground arith;
}

pub assigned-StepsOn :
    (current now timeout : ℕ) (w : RuntimeWorker) (r r' : Run)
    → assigned current now timeout w r ≡ ok r'
    → StepsOn r r'
unfolding assigned transition_run_status moved
assigned-StepsOn current now timeout w r r' h = record {
  same_id = ground arith;
  edge = ground arith;
  sound = λ w. ground arith;
}

-- What the operations move to besides `running`.
pub completed-ne-running : ◌≢◌ {A = RunStatus} completed running
completed-ne-running h = cc

pub failure_status-ne-running : (e : Option String) → failure_status e ≢ running
failure_status-ne-running e h = ground arith

pub ruleset steps_on = (
  IsStep-of, transition-StepsOn, paused-StepsOn, release_controls-StepsOn, continued-StepsOn,
  record_beat-StepsOn, assigned-StepsOn, completed-ne-running, failure_status-ne-running,
)
