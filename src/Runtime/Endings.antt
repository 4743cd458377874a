-- ===== src/Runtime/Endings.antt =====
-- The rows that `complete_run` and `fail_run` leave, column by column, and when they refuse.
use mathlib.Core.Path.{subst}
use xyn.Base.{
  ℕ, String, ◌≡◌, refl, ◌∙◌, Bool, true, false, not, inl, inr, Option, none, some, ◌=?◌,
  if◌then◌else◌, Bool-cases, arith,
}
use xyn.Base.Exec.{ok, err}
use xyn.Runtime.Models.{
  RunStatus, queued, created, running, completed, failed, blocked, cancelled, Run,
}
use xyn.Runtime.Session.{Host, Db, M, find_run, invalid_run_status_transition}
use xyn.Runtime.Transitions.{or_keep, run_transition_allowed, moved}
use xyn.Runtime.Runs.{complete_run, fail_run, failure_status}
use xyn.Runtime.Outcomes.{EndsIn, complete_run-EndsIn, fail_run-EndsIn}

-- A text that is given replaces the one in the column.
abbrev pub given : Option String → Option String → Option String
given none old = old
given (some text) old = some text

-- The row of a run that ended: its status, its end, and the texts that were given. All other columns
-- are kept.
abbrev pub ended_row : RunStatus → ℕ → Option String → Option String → Option String → Run → Run
ended_row status now summary failure_reason escalation_reason run = record run {
  status = status;
  completed_at = some now;
  summary = given summary run.summary;
  failure_reason = given failure_reason run.failure_reason;
  escalation_reason = given escalation_reason run.escalation_reason;
}

-- Only a running run can be completed.
unfoldable pub may_complete : RunStatus → Bool
may_complete running = true
may_complete _ = false

-- A running run can be failed; with a reason to escalate, a queued one too.
unfoldable pub may_fail : Bool → RunStatus → Bool
may_fail _ running = true
may_fail true queued = true
may_fail _ _ = false

-- A reason to escalate is given, and not empty.
abbrev pub escalates : Option String → Bool
escalates none = false
escalates (some reason) = not (reason =? "")

-- The call ends the row and returns it if it may, and raises, the row kept, if not.
pub record Ends (may : Bool) (status : RunStatus) (m : M Run) (s f e : Option String) (now k : ℕ)
    (r : Run) (db : Db) : Type 0 where
  pub result : (m db).0 ≡ (
      if may
      then ok (ended_row status now s f e r)
      else err (invalid_run_status_transition r.status status))
  pub row : find_run k (m db).1 ≡ some (if may then ended_row status now s f e r else r)

unfoldable is_ending : RunStatus → Bool
is_ending completed = true
is_ending failed = true
is_ending blocked = true
is_ending _ = false

or_keep-given : (o old : Option String) → or_keep o old ≡ given o old
or_keep-given none old = refl
or_keep-given (some t) old = refl

moved-ended :
    (status : RunStatus) (now : ℕ) (s f e : Option String) (r : Run)
    → is_ending status ≡ true
    → moved status now s f e r ≡ ended_row status now s f e r
unfolding moved is_ending
moved-ended completed now s f e r h =
    rw
      (
        or_keep-given s r.summary,
        or_keep-given f r.failure_reason,
        or_keep-given e r.escalation_reason,
      )
      refl
moved-ended failed now s f e r h =
    rw
      (
        or_keep-given s r.summary,
        or_keep-given f r.failure_reason,
        or_keep-given e r.escalation_reason,
      )
      refl
moved-ended blocked now s f e r h =
    rw
      (
        or_keep-given s r.summary,
        or_keep-given f r.failure_reason,
        or_keep-given e r.escalation_reason,
      )
      refl
moved-ended queued now s f e r h = cc
moved-ended created now s f e r h = cc
moved-ended running now s f e r h = cc
moved-ended cancelled now s f e r h = cc

Ends-of :
    (may : Bool) (status : RunStatus) (m : M Run) (s f e : Option String) (now k : ℕ) (r : Run)
    (db : Db)
    → is_ending status ≡ true
    → run_transition_allowed r.status status ≡ may
    → EndsIn status m s f e now k r db
    → Ends may status m s f e now k r db
Ends-of may status m s f e now k r db ending table ends = record {
  result = ends.result ∙ rw (table, moved-ended status now s f e r ending) refl;
  row = ends.row ∙ rw (table, moved-ended status now s f e r ending) refl;
}

may_complete-table : (x : RunStatus) → run_transition_allowed x completed ≡ may_complete x
unfolding run_transition_allowed may_complete
may_complete-table x = ground arith

may_fail-table :
    (b : Bool) (x : RunStatus)
    → run_transition_allowed x (if b then blocked else failed) ≡ may_fail b x
unfolding run_transition_allowed may_fail
may_fail-table true x = ground arith
may_fail-table false x = ground arith

failure-is_ending : (b : Bool) → is_ending (if b then blocked else failed) ≡ true
unfolding is_ending
failure-is_ending true = refl
failure-is_ending false = refl

failure_status-escalates :
    (e : Option String) → failure_status e ≡ (if escalates e then blocked else failed)
failure_status-escalates none = refl
failure_status-escalates (some reason) = elim (Bool-cases (reason =? "")) [
  | inl h ↦ rw h refl
  | inr h ↦ rw h refl
]

module _ (host : Host) where
  -- `complete_run` of a run that is there and running makes it completed, with its end and the summary
  -- that is given, keeps the other columns, stores the row and returns it. For a run in any other
  -- status it raises and leaves the row as it was.
  pub complete_run-Ends :
      (k : ℕ) (s : Option String) (db : Db) (r : Run)
      → find_run k db ≡ some r
      → Ends
          (may_complete r.status)
          completed
          (complete_run host k s)
          s
          none
          none
          (host.utcnow db.reads)
          k
          r
          db
  unfolding is_ending
  complete_run-Ends k s db r h =
      Ends-of (may_complete r.status) completed (complete_run host k s) s none none
        (host.utcnow db.reads) k r db refl (may_complete-table r.status)
        (complete_run-EndsIn host k s db r h)

  -- `fail_run` of a run that is there and running makes it blocked if a non-empty reason to escalate
  -- is given and failed if not, with its end and the texts that are given, keeps the other columns,
  -- stores the row and returns it. A queued run is blocked likewise where such a reason is given. In
  -- all other cases it raises and leaves the row as it was.
  pub fail_run-Ends :
      (k : ℕ) (s f e : Option String) (db : Db) (r : Run)
      → find_run k db ≡ some r
      → Ends
          (may_fail (escalates e) r.status)
          (if escalates e then blocked else failed)
          (fail_run host k s f e)
          s
          f
          e
          (host.utcnow db.reads)
          k
          r
          db
  fail_run-Ends k s f e db r h =
      let status = if escalates e then blocked else failed in
      Ends-of (may_fail (escalates e) r.status) status (fail_run host k s f e) s f e
        (host.utcnow db.reads) k r db (failure-is_ending (escalates e))
        (may_fail-table (escalates e) r.status)
        (subst (λ x. EndsIn x (fail_run host k s f e) s f e (host.utcnow db.reads) k r db)
          (failure_status-escalates e) (fail_run-EndsIn host k s f e db r h))
