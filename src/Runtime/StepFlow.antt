-- ===== src/Runtime/StepFlow.antt =====
-- Reports of steps never change the status of a step that has finished.
use mathlib.Core.Path.{subst}
use mathlib.Core.Option.{some-injective}
use native.Mathlib.Decide.{ℕ_discrete}
use xyn.Base.{
  ℕ, String, ◌≡◌, refl, sym, ap, ◌∙◌, ◌≢◌, true, Option, none, some, List, [], ◌∷◌, arith,
  Option-cases, inl, inr,
}
use xyn.Base.Exec.{Result, ok, err, ◌>>=◌}
use xyn.Base.Exec.Ensures.{IsPreorder, Ensures, ensures_rules}
use xyn.Base.Table.{first, update, first-update_self, first-update_ne, first-append}
use xyn.Runtime.Models.{StepStatus, Step, Event, Datum}
use xyn.Runtime.Session.{Host, Db, Fault, read_host, add_step, add_event}
use xyn.Runtime.Events.{publish_runtime_event}
use xyn.Runtime.Transitions.{
  is_terminal_step, step_transition_allowed, transition_step_status, moved_step,
}
use xyn.Runtime.Steps.{
  has_step_id, find_step, assign_step, one_step, update_step, set_summary, reported, new_step,
  step_to_report, parse_step_status, report_run_step,
}

-- Each finished step of `db` is in `db'` with the status that it had.
pub record FinishedKept (db db' : Db) : Type 0 where
  pub kept :
      (j : ℕ) (s : Step)
      → find_step j db ≡ some s
      → is_terminal_step s.status ≡ true
      → (s' : Step) × (find_step j db' ≡ some s') × (s'.status ≡ s.status)

instance abbrev finished_preorder : IsPreorder FinishedKept
finished_preorder = record {
  here = λ db. record { kept = λ j s h f. (s, h, refl) };
  next = λ a b c p q. record {
    kept = λ j s h f.
        let (s', h', e') = p.kept j s h f in
        let (s'', h'', e'') = q.kept j s' h' (subst (λ x. is_terminal_step x ≡ true) (sym e') f) in
        (s'', h'', e'' ∙ e');
  };
}

same_steps : (db db' : Db) → db'.steps ≡ db.steps → FinishedKept db db'
unfolding find_step
same_steps db db' e = record { kept = λ j s h f. (s, ap (first (has_step_id j)) e ∙ h, refl) }

read_host-Kept : {A : Type 0} (f : ℕ → A) → Ensures FinishedKept (read_host f)
unfolding read_host
read_host-Kept f = record { at = λ db. same_steps db _ refl }

add_event-Kept : (e : Event) → Ensures FinishedKept (add_event e)
unfolding add_event
add_event-Kept e = record { at = λ db. same_steps db _ refl }

add_step-Kept : (s : Step) → Ensures FinishedKept (add_step s)
unfolding add_step find_step
add_step-Kept x = record {
  at = λ db. record { kept = λ j s h f. (s, first-append (has_step_id j) db.steps _ s h, refl) };
}

step-id : (k : ℕ) (rows : List Step) (s : Step) → first (has_step_id k) rows ≡ some s → s.id ≡ k
unfolding first
step-id k [] s h = ground arith
step-id k (x ∷ xs) s h = ground (arith, step-id k xs s)

reported-id :
    (d : StepStatus) (now : ℕ) (summary : Option String) (s s' : Step)
    → reported d now summary s ≡ ok s'
    → s'.id ≡ s.id
unfolding reported set_summary transition_step_status moved_step
reported-id d now summary s s' h = ground arith

reported-status :
    (d : StepStatus) (now : ℕ) (summary : Option String) (s s' : Step)
    → reported d now summary s ≡ ok s'
    → is_terminal_step s.status ≡ true
    → s'.status ≡ s.status
unfolding reported set_summary transition_step_status moved_step step_transition_allowed
reported-status d now summary s s' h f = ground arith

assigned_row :
    (k : ℕ) (s s' : Step) (rows : List Step)
    → s'.id ≡ k
    → first (has_step_id k) rows ≡ some s
    → first (has_step_id k) (update (has_step_id k) (λ _. s') rows) ≡ some s'
assigned_row k s s' rows e h =
    rw (first-update_self (has_step_id k) (λ _. s') rows (λ _ _. ground arith), h) refl

other_row :
    (k j : ℕ) (s' : Step) (rows : List Step)
    → s'.id ≡ k
    → k ≢ j
    → first (has_step_id j) (update (has_step_id k) (λ _. s') rows) ≡ first (has_step_id j) rows
other_row k j s' rows e n =
    first-update_ne (has_step_id k) (has_step_id j) (λ _. s') rows (λ _ _. ground arith)
      (λ x h. ground arith)

module _ (d : StepStatus) (now : ℕ) (summary : Option String) (k : ℕ) where
  update_none :
      (db : Db) → find_step k db ≡ none → (update_step k (reported d now summary) db).1 ≡ db
  unfolding update_step one_step ◌>>=◌
  update_none db e = rw (e, one_step) refl

  update_some :
      (db : Db) (s : Step)
      → find_step k db ≡ some s
      → update_step k (reported d now summary) db ≡ assign_step k (reported d now summary s) db
  unfolding update_step one_step ◌>>=◌
  update_some db s e = rw (e, one_step) refl

  assign-Kept :
      (db : Db) (s : Step) (r : Result Fault Step)
      → find_step k db ≡ some s
      → reported d now summary s ≡ r
      → FinishedKept db (assign_step k r db).1
  unfolding assign_step find_step
  assign-Kept db s (err e) h p = finished_preorder.here db
  assign-Kept db s (ok s') h p =
      let i = reported-id d now summary s s' p ∙ step-id k db.steps s h in
      record {
        kept = λ j x hx f. elim (ℕ_discrete k j) [
          | no n ↦ (x, other_row k j s' db.steps i n ∙ hx, refl)
          | yes q ↦
              let same =
                some-injective s x (sym h ∙ ap (λ m. first (has_step_id m) db.steps) q ∙ hx) in
              let done =
                reported-status d now summary s s' p
                  (subst (λ (y : Step). is_terminal_step y.status ≡ true) (sym same) f) in
              (
                s',
                subst
                    (λ m.
                      first (has_step_id m) (update (has_step_id k) (λ _. s') db.steps) ≡ some s')
                    q (assigned_row k s s' db.steps i h),
                done ∙ ap (λ (y : Step). y.status) same,
              )
        ];
      }

  update_step-Kept : Ensures FinishedKept (update_step k (reported d now summary))
  update_step-Kept = record {
    at = λ db. elim (Option-cases (find_step k db)) [
      | inl e ↦ rw (update_none db e) (finished_preorder.here db)
      | inr (s, e) ↦ rw (update_some db s e) (assign-Kept db s (reported d now summary s) e refl)
    ];
  }

parse-Kept : (s : String) → Ensures FinishedKept (λ (db : Db). (parse_step_status s, db))
parse-Kept s = record { at = λ db. finished_preorder.here db }

module _ (host : Host) where
  publish-Kept :
      (name : String) (run_id : ℕ) (step_id : Option ℕ) (actor : String) (c : Option String)
      (given : List (String × Datum))
      → Ensures FinishedKept (publish_runtime_event host name run_id step_id actor c given)
  unfolding publish_runtime_event
  publish-Kept name run_id step_id actor c given =
      search (ensures_rules, read_host-Kept, add_event-Kept)

  new_step-Kept :
      (k : ℕ) (key label : String) (n : ℕ) → Ensures FinishedKept (new_step host k key label n)
  unfolding new_step
  new_step-Kept k key label n = search (ensures_rules, read_host-Kept, add_step-Kept) depth 8

  step_to_report-Kept :
      (k : ℕ) (key label : String) (d : StepStatus) (n : ℕ) (o : Option Step)
      → Ensures FinishedKept (step_to_report host k key label d n o)
  unfolding step_to_report
  step_to_report-Kept k key label d n none = new_step-Kept k key label n
  step_to_report-Kept k key label d n (some s) = search (ensures_rules, new_step-Kept)

  report-Kept :
      (k : ℕ) (key label status : String) (n : ℕ) (summary : Option String)
      → Ensures FinishedKept (report_run_step host k key label status n summary)
  unfolding report_run_step
  report-Kept k key label status n summary =
      search
        (
          ensures_rules, read_host-Kept, parse-Kept, step_to_report-Kept, update_step-Kept,
          publish-Kept,
        )
        depth 10

  -- Whatever a report of a step says, whether it returns or raises, every step that had been
  -- completed or had failed is still in the table with that status.
  pub report_run_step_final :
      (k : ℕ) (key label status : String) (n : ℕ) (summary : Option String) (db : Db) (j : ℕ)
      (s : Step)
      → find_step j db ≡ some s
      → is_terminal_step s.status ≡ true
      → (s' : Step) × (find_step j (report_run_step host k key label status n summary db).1
          ≡ some s')
        × (s'.status ≡ s.status)
  report_run_step_final k key label status n summary db j s h f =
      ((report-Kept k key label status n summary).at db).kept j s h f
