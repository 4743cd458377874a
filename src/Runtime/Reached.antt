-- ===== src/Runtime/Reached.antt =====
-- What holds after every history of calls.
use xyn.Base.{Bool, arith, false, refl, some, true, ℕ, ◌≡◌}
use xyn.Runtime.Models.{RunStatus, completed, cancelled, Run}
use xyn.Runtime.Session.{Host, Db, find_run}
use xyn.Runtime.Transitions.{run_transition_allowed}
use xyn.Runtime.Rows.{IsWellFormed}
use xyn.Runtime.Evolution.{Evolves}
use xyn.Runtime.Neutral.{publish-Ensures, register_worker-Ensures}
use xyn.Runtime.CodexWorker.{mark_blocked}
use xyn.Runtime.CodexOutcome.{settle_failure}
use xyn.Runtime.EndFlow.{mark_blocked-Moves, settle_failure-Moves}
use xyn.Runtime.Flow.{Leads, stay, move, Moves, moves_order, moves_preorder}
use xyn.Runtime.Operations.{
  record_run_heartbeat-IsMoving, complete_run-IsMoving, fail_run-IsMoving,
  dispatch_queued_run-IsMoving,
}
use xyn.Runtime.ApiFlow.{
  submit_runtime_execution_run-IsMoving, pause_runtime_run-IsMoving, continue_runtime_run-IsMoving,
  retry_run-IsMoving, cancel_run-IsMoving, report_run_step-IsMoving,
}
use xyn.Runtime.StaleLoop.{handle_stale_heartbeats-Moves}
use xyn.Runtime.LeaseFlow.{claim_run-Moves, renew_lease-Moves}
use xyn.Runtime.History.{Call, perform, Reaches, empty_db}

module _ (host : Host) where
  perform-Moves : (c : Call) (db : Db) → IsWellFormed db.runs → Evolves Moves db (perform host c db)
  perform-Moves (Call.submits p) db w = (submit_runtime_execution_run-IsMoving host p).at db
  perform-Moves (Call.pauses k) db w = (pause_runtime_run-IsMoving host k).at db
  perform-Moves (Call.continues k) db w = (continue_runtime_run-IsMoving host k).at db
  perform-Moves (Call.retries k) db w = (retry_run-IsMoving host k).at db
  perform-Moves (Call.cancels k) db w = (cancel_run-IsMoving k).at db
  perform-Moves (Call.registers i) db w = (register_worker-Ensures moves_order host i).at db
  perform-Moves (Call.beats v k) db w = (record_run_heartbeat-IsMoving host v k).at db
  perform-Moves (Call.reports k key label status n s) db w =
      (report_run_step-IsMoving host k key label status n s).at db
  perform-Moves (Call.completes k s) db w = (complete_run-IsMoving host k s).at db
  perform-Moves (Call.fails k s f e) db w = (fail_run-IsMoving host k s f e).at db
  perform-Moves (Call.watches t n) db w = handle_stale_heartbeats-Moves host t n db w.distinct
  perform-Moves (Call.dispatches t n) db w = (dispatch_queued_run-IsMoving host t n).at db
  perform-Moves (Call.claims config now skipped) db w =
      claim_run-Moves config now skipped db w.distinct
  perform-Moves (Call.renews config now k) db w = renew_lease-Moves config now k db
  perform-Moves (Call.announces name k i actor c given) db w =
      (publish-Ensures moves_order host name k i actor c given).at db

  Reaches-Evolves :
      {db db' : Db} → Reaches host db db' → IsWellFormed db.runs → Evolves Moves db db'
  Reaches-Evolves {db} Reaches.here w = moves_preorder.here db
  Reaches-Evolves {db} {db'} (Reaches.after c rest) w =
      let one = perform-Moves c db w in
      moves_preorder.next db (perform host c db) db' one (Reaches-Evolves rest (one.formed w))
  Reaches-Evolves {db} {db'} (Reaches.blocks k v s e r f b rest) w =
      let one = mark_blocked-Moves host k v s e db r f b in
      moves_preorder.next db (mark_blocked host k v s e db).1 db' one
        (Reaches-Evolves rest (one.formed w))
  Reaches-Evolves {db} {db'} (Reaches.breaks k v s e r f b rest) w =
      let one = settle_failure-Moves host k v s e db r f b in
      moves_preorder.next db (settle_failure host k v s e db).1 db' one
        (Reaches-Evolves rest (one.formed w))

  -- In every history (calls of the runtime's routes on a run, of a worker for its run, of the watch,
  -- the dispatch and the lease queue, and `_mark_blocked` and `_handle_failure` of runs that are
  -- running), a run stays in the table and its status only moves along the edges of
  -- RUN_STATUS_TRANSITIONS, if the table was well-formed before.
  pub runs-Leads :
      {db db' : Db}
      → Reaches host db db'
      → IsWellFormed db.runs
      → (k : ℕ) (r : Run) → find_run k db ≡ some r
      → (r' : Run) × (find_run k db' ≡ some r') × Leads r.status r'.status
  runs-Leads h w = (Reaches-Evolves h w).row

  -- Every history of these calls keeps a well-formed table well-formed: identifiers are unique, a run
  -- that is completed, failed or blocked has its end recorded, and a run that is running has an
  -- owner, a lease and its start recorded. The runs of `create_run` and of the blueprint runner, which
  -- are started without owner and lease, are no part of a history.
  pub Reaches-IsWellFormed :
      {db db' : Db} → Reaches host db db' → IsWellFormed db.runs → IsWellFormed db'.runs
  Reaches-IsWellFormed h w = (Reaches-Evolves h w).formed w

  -- Whatever is reached from the empty database is well-formed.
  pub reached-IsWellFormed : {db : Db} → Reaches host empty_db db → IsWellFormed db.runs
  reached-IsWellFormed h = Reaches-IsWellFormed h (record { distinct = tt; sound = tt })

-- The statuses without an edge in RUN_STATUS_TRANSITIONS.
abbrev pub is_final : RunStatus → Bool
is_final completed = true
is_final cancelled = true
is_final _ = false

Leads-final : {s t : RunStatus} → Leads s t → is_final s ≡ true → t ≡ s
unfolding run_transition_allowed
Leads-final stay e = refl
Leads-final (move a p) e = ground arith

module _ (host : Host) where
  -- A run that is completed or cancelled keeps that status in every history of these calls on a
  -- well-formed table. A history has a worker's `_mark_blocked` and `_handle_failure` only of runs
  -- that are running when it is called: of a run that was cancelled meanwhile nothing is said.
  pub ended-is_final :
      {db db' : Db}
      → Reaches host db db'
      → IsWellFormed db.runs
      → (k : ℕ) (r : Run) → find_run k db ≡ some r
      → is_final r.status ≡ true
      → (r' : Run) × (find_run k db' ≡ some r') × (r'.status ≡ r.status)
  ended-is_final h w k r e f =
      let (r', e', p) = runs-Leads host h w k r e in (r', e', Leads-final p f)
