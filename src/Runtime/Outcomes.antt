-- ===== src/Runtime/Outcomes.antt =====
-- How a run ends and starts again: `complete_run`, `fail_run`, `submit_runtime_run` and
-- `retry_runtime_run`, on each branch.
use xyn.Base.Table.{first}
use xyn.Runtime.Session.{has_id}
use xyn.Base.{
  Bool-cases, Option, String, ap, false, if◌then◌else◌, inl, inr, none, refl, some, suc, sym, true,
  ℕ, ◌∙◌, ◌≡◌,
}
use xyn.Base.Exec.{Result, ok, err, ◌>>=◌}
use xyn.Runtime.Models.{RunStatus, completed, Run}
use xyn.Runtime.Session.{
  Host, Db, M, find_run, update_run, assign, read_host, invalid_run_status_transition,
}
use xyn.Runtime.Evolution.{update_run-some, find_run-id}
use mathlib.Core.Path.{subst}
use xyn.Runtime.Session.{Fault}
use xyn.Runtime.Runs.{release_worker}
use xyn.Runtime.Rows.{find_run-update_self}
use xyn.Runtime.Transitions.{run_transition_allowed, transition_run_status, moved}
use xyn.Runtime.Runs.{complete_run, fail_run, failure_status}
use xyn.Runtime.Leaves.{Leaves, then-Leaves, publish-Leaves, release-Leaves}

module _ (next : RunStatus) (now : ℕ) (s f e : Option String) where
  transition-allowed :
      (r : Run)
      → run_transition_allowed r.status next ≡ true
      → transition_run_status next now s f e r ≡ ok (moved next now s f e r)
  unfolding transition_run_status
  transition-allowed r a = rw a refl

  transition-refused :
      (r : Run)
      → run_transition_allowed r.status next ≡ false
      → transition_run_status next now s f e r ≡ err (invalid_run_status_transition r.status next)
  unfolding transition_run_status
  transition-refused r a = rw a refl

  moved-id : (r : Run) → (moved next now s f e r).id ≡ r.id
  unfolding moved
  moved-id r = refl

  update-allowed :
      (k : ℕ) (db : Db) (r : Run)
      → find_run k db ≡ some r
      → run_transition_allowed r.status next ≡ true
      → Leaves db
          (update_run k (transition_run_status next now s f e))
          (moved next now s f e r)
          k
          (moved next now s f e r)
  unfolding assign find_run
  update-allowed k db r h a =
      rw (update_run-some k (transition_run_status next now s f e) db r h, transition-allowed r a)
        (
          refl,
          find_run-update_self k r (moved next now s f e r) db.runs
              (moved-id r ∙ find_run-id k db r h) h,
        )

  update-refused :
      (k : ℕ) (db : Db) (r : Run)
      → find_run k db ≡ some r
      → run_transition_allowed r.status next ≡ false
      → update_run k (transition_run_status next now s f e) db
        ≡ (err (invalid_run_status_transition r.status next), db)
  unfolding assign
  update-refused k db r h a =
      rw (update_run-some k (transition_run_status next now s f e) db r h, transition-refused r a)
        refl

bind-err :
    {A B : Type 0} (m : M A) (f : A → M B) (db db' : Db) (e : Fault)
    → m db ≡ (err e, db')
    → (m >>= f) db ≡ (err e, db')
unfolding ◌>>=◌
bind-err m f db db' e h = rw h refl

-- The two branches of `complete_run` and `fail_run`: the row is moved to `next` if the table allows
-- it, and the call raises, the rows unchanged, if not.
record HasBranches (next : RunStatus) (m : M Run) (s f e : Option String) (now k : ℕ) (r : Run)
    (db : Db) : Type 0 where
  pub allowed :
      run_transition_allowed r.status next ≡ true
      → Leaves db m (moved next now s f e r) k (moved next now s f e r)
  pub refused :
      run_transition_allowed r.status next ≡ false
      → ((m db).0 ≡ err (invalid_run_status_transition r.status next)) × ((m db).1.runs ≡ db.runs)

module _ (host : Host) where
  -- Move the row, and go on with what leaves it as it is.
  end_of :
      (next : RunStatus) (s f e : Option String) (rest : Run → M Run) (k : ℕ) (db : Db) (r : Run)
      → find_run k db ≡ some r
      → ((db' : Db) (x : Run) → find_run k db' ≡ some x → Leaves db' (rest x) x k x)
      → HasBranches next
          (read_host host.utcnow >>= λ now.
            update_run k (transition_run_status next now s f e) >>= rest)
          s
          f
          e
          (host.utcnow db.reads)
          k
          r
          db
  unfolding ◌>>=◌ read_host find_run
  end_of next s f e rest k db r h keep =
      let now = host.utcnow db.reads in
      let later : Db = record db { reads = suc db.reads } in
      let done = moved next now s f e r in
      record {
        allowed = λ a.
            subst (λ (p : Result Fault Run × Db). (p.0 ≡ ok done) × (find_run k p.1 ≡ some done))
              (sym (from_read next s f e rest k db))
              (then-Leaves (update_run k (transition_run_status next now s f e)) rest later done
                done k done done (update-allowed next now s f e k later r (later_row k db r h) a)
                (λ h'. keep _ done h'));
        refused = λ a.
            let failed =
              bind-err (update_run k (transition_run_status next now s f e)) rest later later
                (invalid_run_status_transition r.status next)
                (update-refused next now s f e k later r (later_row k db r h) a) in
            rw (from_read next s f e rest k db ∙ failed) (refl, refl);
      }
    where
      later_row :
          (k : ℕ) (db : Db) (r : Run)
          → find_run k db ≡ some r
          → find_run k (record db { reads = suc db.reads }) ≡ some r
      later_row k db r h = h

      from_read :
          (next : RunStatus) (s f e : Option String) (rest : Run → M Run) (k : ℕ) (db : Db)
          → (read_host host.utcnow >>= λ now.
                update_run k (transition_run_status next now s f e) >>= rest)
              db
            ≡ (update_run k (transition_run_status next (host.utcnow db.reads) s f e) >>= rest)
                (record db { reads = suc db.reads })
      from_read next s f e rest k db = refl

  complete_run-HasBranches :
      (k : ℕ) (s : Option String) (db : Db) (r : Run)
      → find_run k db ≡ some r
      → HasBranches completed (complete_run host k s) s none none (host.utcnow db.reads) k r db
  unfolding complete_run
  complete_run-HasBranches k s db r h = end_of completed s none none _ k db r h (λ db' x h'.
      then-Leaves (release_worker host x.locked_by) _ db' tt x k x x
        (release-Leaves host x.locked_by db' k x h')
        (λ h''.
          then-Leaves _ _ _ tt x k x x (publish-Leaves host _ _ _ _ _ _ _ k x h'')
            (λ q. (refl, q))))

  fail_run-HasBranches :
      (k : ℕ) (s f e : Option String) (db : Db) (r : Run)
      → find_run k db ≡ some r
      → HasBranches (failure_status e) (fail_run host k s f e) s f e (host.utcnow db.reads) k r db
  unfolding fail_run
  fail_run-HasBranches k s f e db r h = end_of (failure_status e) s f e _ k db r h (λ db' x h'.
      then-Leaves (release_worker host x.locked_by) _ db' tt x k x x
        (release-Leaves host x.locked_by db' k x h')
        (λ h''.
          then-Leaves _ _ _ tt x k x x (publish-Leaves host _ _ _ _ _ _ _ k x h'')
            (λ q. (refl, q))))

-- The call moves the row to `next` and returns it if the table allows that, and raises, the row kept,
-- if not.
pub record EndsIn (next : RunStatus) (m : M Run) (s f e : Option String) (now k : ℕ) (r : Run)
    (db : Db) : Type 0 where
  pub result : (m db).0 ≡ (
      if run_transition_allowed r.status next
      then ok (moved next now s f e r)
      else err (invalid_run_status_transition r.status next))
  pub row :
      find_run k (m db).1
      ≡ some (if run_transition_allowed r.status next then moved next now s f e r else r)

EndsIn-HasBranches :
    (next : RunStatus) (m : M Run) (s f e : Option String) (now k : ℕ) (r : Run) (db : Db)
    → find_run k db ≡ some r
    → HasBranches next m s f e now k r db
    → EndsIn next m s f e now k r db
unfolding find_run
EndsIn-HasBranches next m s f e now k r db h b =
    elim (Bool-cases (run_transition_allowed r.status next)) [
      | inl a ↦ record { result = (b.allowed a).0 ∙ rw a refl; row = (b.allowed a).1 ∙ rw a refl }
      | inr a ↦ record {
        result = (b.refused a).0 ∙ rw a refl;
        row = ap (first (has_id k)) (b.refused a).1 ∙ h ∙ rw a refl;
      }
    ]

module _ (host : Host) where
  -- `complete_run` moves a run that is there to `completed`, records its end and its summary,
  -- stores the row and returns it, if the table of transitions allows that from its status; if
  -- not, it raises and leaves the row as it was.
  pub complete_run-EndsIn :
      (k : ℕ) (s : Option String) (db : Db) (r : Run)
      → find_run k db ≡ some r
      → EndsIn completed (complete_run host k s) s none none (host.utcnow db.reads) k r db
  complete_run-EndsIn k s db r h =
      EndsIn-HasBranches completed (complete_run host k s) s none none (host.utcnow db.reads) k r db
        h (complete_run-HasBranches host k s db r h)

  -- `fail_run` moves a run that is there to `blocked` if a non-empty reason to escalate is given,
  -- and to `failed` if not, with its end and the reasons given, stores the row and returns it, if
  -- the table of transitions allows that from its status; if not, it raises and leaves the table
  -- of runs as it was.
  pub fail_run-EndsIn :
      (k : ℕ) (s f e : Option String) (db : Db) (r : Run)
      → find_run k db ≡ some r
      → EndsIn (failure_status e) (fail_run host k s f e) s f e (host.utcnow db.reads) k r db
  fail_run-EndsIn k s f e db r h =
      EndsIn-HasBranches (failure_status e) (fail_run host k s f e) s f e (host.utcnow db.reads) k r
        db h (fail_run-HasBranches host k s f e db r h)
