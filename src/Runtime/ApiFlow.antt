-- ===== src/Runtime/ApiFlow.antt =====
-- The routes that change a run and the reports of steps move runs along the table of transitions.
use mathlib.Core.Path.{subst}
use mathlib.Core.Option.{some-injective}
use xyn.Base.{sym, ◌∙◌, Bool-cases, Option-cases, inl, inr, if◌then◌else◌}
use xyn.Base.{ℕ, String, ◌≡◌, refl, true, Option, none, some, arith}
use xyn.Base.Exec.{Result, ok, err, ◌>>=◌}
use xyn.Runtime.Contract.{RunPayloadV1}
use xyn.Runtime.Models.{StepStatus, Run, Step}
use xyn.Runtime.Session.{Host, Db, Fault, find_run, update_run, http_exception}
use xyn.Runtime.Rows.{IsSound}
use xyn.Runtime.Transitions.{run_transition_allowed}
use xyn.Runtime.Evolution.{Evolves-update_run_at, Evolves_of_same, find_run-id}
use xyn.Runtime.Neutral.{publish-Ensures}
use xyn.Runtime.Flow.{Leads-of, Moves, moves_order, moves_preorder, StepsOn}
use xyn.Runtime.Operations.{
  IsMoving, session_rules, submit_runtime_run-IsMoving, retry_runtime_run-IsMoving,
  request_pause_run-IsMoving, continue_blocked_run-IsMoving,
}
use xyn.Runtime.Steps.{
  one_step, assign_step, update_step, parse_step_status, new_step, step_to_report, report_run_step,
}
use xyn.Runtime.Api.{
  or_not_found, requested_run, is_cancellable, set_cancelled, cancel_run,
  submit_runtime_execution_run, pause_runtime_run, continue_runtime_run, retry_run,
}

one_step-IsMoving : (k : ℕ) → IsMoving (one_step k)
unfolding one_step
one_step-IsMoving k = record { at = λ db. Evolves_of_same moves_order db _ (ground arith) }

assign_step-IsMoving : (k : ℕ) (r : Result Fault Step) → IsMoving (assign_step k r)
unfolding assign_step
assign_step-IsMoving k (ok s) = record { at = λ db. Evolves_of_same moves_order db _ refl }
assign_step-IsMoving k (err e) = record { at = λ db. Evolves_of_same moves_order db _ refl }

update_step-IsMoving : (k : ℕ) (f : Step → Result Fault Step) → IsMoving (update_step k f)
unfolding update_step
update_step-IsMoving k f = search (session_rules, one_step-IsMoving, assign_step-IsMoving)

parse-IsMoving : (s : String) → IsMoving (λ db. (parse_step_status s, db))
parse-IsMoving s = record { at = λ db. moves_preorder.here db }

or_not_found-IsMoving : (o : Option Run) → IsMoving (or_not_found o)
unfolding or_not_found
or_not_found-IsMoving none = search session_rules
or_not_found-IsMoving (some r) = search session_rules

requested_run-IsMoving : (k : ℕ) → IsMoving (requested_run k)
unfolding requested_run
requested_run-IsMoving k = search (session_rules, or_not_found-IsMoving)

module _ (host : Host) where
  new_step-IsMoving : (k : ℕ) (key label : String) (n : ℕ) → IsMoving (new_step host k key label n)
  unfolding new_step
  new_step-IsMoving k key label n = search session_rules depth 8

  step_to_report-IsMoving :
      (k : ℕ) (key label : String) (d : StepStatus) (n : ℕ) (o : Option Step)
      → IsMoving (step_to_report host k key label d n o)
  unfolding step_to_report
  step_to_report-IsMoving k key label d n none = new_step-IsMoving k key label n
  step_to_report-IsMoving k key label d n (some s) = search (session_rules, new_step-IsMoving)

  pub report_run_step-IsMoving :
      (k : ℕ) (key label status : String) (n : ℕ) (summary : Option String)
      → IsMoving (report_run_step host k key label status n summary)
  unfolding report_run_step
  report_run_step-IsMoving k key label status n summary =
      search
        (
          session_rules, parse-IsMoving, step_to_report-IsMoving, update_step-IsMoving,
          publish-Ensures,
        )
        depth 10

  pub pause_runtime_run-IsMoving : (k : ℕ) → IsMoving (pause_runtime_run host k)
  unfolding pause_runtime_run
  pause_runtime_run-IsMoving k =
      search (session_rules, requested_run-IsMoving, request_pause_run-IsMoving)

  pub continue_runtime_run-IsMoving : (k : ℕ) → IsMoving (continue_runtime_run host k)
  unfolding continue_runtime_run
  continue_runtime_run-IsMoving k =
      search (session_rules, requested_run-IsMoving, continue_blocked_run-IsMoving)

  pub retry_run-IsMoving : (k : ℕ) → IsMoving (retry_run host k)
  unfolding retry_run
  retry_run-IsMoving k = search (session_rules, requested_run-IsMoving, retry_runtime_run-IsMoving)

  pub submit_runtime_execution_run-IsMoving :
      (p : RunPayloadV1) → IsMoving (submit_runtime_execution_run host p)
  unfolding submit_runtime_execution_run
  submit_runtime_execution_run-IsMoving p = submit_runtime_run-IsMoving host p "runtime_submission"

-- The guard of the route admits two statuses, and the table leads from both to `cancelled`.
set_cancelled-StepsOn : (r : Run) → is_cancellable r.status ≡ true → StepsOn r (set_cancelled r)
unfolding set_cancelled run_transition_allowed
set_cancelled-StepsOn r h = record {
  same_id = refl;
  edge = ground arith;
  sound = λ w. ground arith;
}

-- A route that finds no run has done nothing.
cancel_none : (k : ℕ) (db : Db) → find_run k db ≡ none → (cancel_run k db).1 ≡ db
unfolding cancel_run requested_run or_not_found ◌>>=◌
cancel_none k db e = rw e refl

cancel_some :
    (k : ℕ) (db : Db) (r : Run)
    → find_run k db ≡ some r
    → cancel_run k db ≡ (
        if is_cancellable r.status
        then update_run k (λ x. ok (set_cancelled x)) db
        else (err (http_exception 400), db))
unfolding cancel_run requested_run or_not_found ◌>>=◌
cancel_some k db r e =
    rw e (elim (Bool-cases (is_cancellable r.status)) [ inl h ↦ rw h refl | inr h ↦ rw h refl ])

ok-eq : (r r' : Run) → ◌≡◌ {A = Result Fault Run} (ok r') (ok r) → r' ≡ r
ok-eq r r' h = ground arith

pub cancel_run-IsMoving : (k : ℕ) → IsMoving (cancel_run k)
cancel_run-IsMoving k = record {
  at = λ db. elim (Option-cases (find_run k db)) [
    | inl e ↦ rw (cancel_none k db e) (moves_preorder.here db)
    | inr (r, e) ↦ rw (cancel_some k db r e) (elim (Bool-cases (is_cancellable r.status)) [
      | inr h ↦ rw h (moves_preorder.here db)
      | inl h ↦ rw h (
          Evolves-update_run_at moves_order k (λ x. ok (set_cancelled x)) db
            (λ x x' ex hx.
              let same = some-injective r x (sym e ∙ ex) in
              let steps =
                set_cancelled-StepsOn x
                  (subst (λ (y : Run). is_cancellable y.status ≡ true) same h) in
              subst (λ y. (y.id ≡ k) × Moves x y × (IsSound x → IsSound y))
                (ok-eq x' (set_cancelled x) hx)
                (steps.same_id ∙ find_run-id k db x ex, Leads-of steps.edge, steps.sound)))
    ])
  ];
}
