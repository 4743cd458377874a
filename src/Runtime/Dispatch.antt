-- ===== src/Runtime/Dispatch.antt =====
-- What `dispatch_queued_run` does: to an empty queue, to a first run that can be started, and to a
-- first run whose payload is not valid.
use mathlib.Core.Path.{subst}
use xyn.Base.Text.{strip, lstrip, rstrip, is_space}
use xyn.Base.{
  ℕ, suc, ◌+◌, String, ◌≡◌, refl, sym, ap, ◌∙◌, true, Option, none, some, List, [], ◌∷◌, ◌=?◌,
}
use xyn.Base.Exec.{ok, ◌>>=◌}
use xyn.Base.Table.{first, update}
use xyn.Runtime.Contract.{RunPayloadV1}
use xyn.Runtime.Models.{queued, running, Run, RuntimeWorker, RuntimeWorkerStatus}
use xyn.Runtime.Session.{
  add_event, Host, Db, M, seconds, read_host, find_run, update_worker, assign, has_id,
}
use xyn.Runtime.Rows.{find_run-update_self}
use xyn.Runtime.Evolution.{update_run-some}
use xyn.Runtime.Events.{publish_runtime_event}
use xyn.Runtime.Transitions.{or_set, run_transition_allowed, transition_run_status, moved}
use xyn.Runtime.Workers.{
  codex_local, get_worker_driver, can_accept, list_healthy_workers, mark_worker_busy, busy_with,
}
use xyn.Runtime.Queue.{
  or_empty, model_validate, queued_runs, assigned, start_on, idle_worker, try_worker, try_driver,
  dispatch_loop, dispatch_queued_run,
}

-- The row that dispatching leaves of a run: running since it first was, owned by the worker, with a
-- lease and one more attempt. All other columns are kept.
abbrev pub started_row : ℕ → ℕ → ℕ → RuntimeWorker → Run → Run
started_row current now timeout worker run = record run {
  status = running;
  started_at = some (elim run.started_at [ none ↦ now | some before ↦ before ]);
  locked_by = some worker.worker_id;
  heartbeat_at = some current;
  locked_at = some current;
  lease_expires_at = some (current + seconds timeout);
  attempt = run.attempt + 1;
}

-- The row of a worker that executes a run.
abbrev pub occupied_row : ℕ → ℕ → RuntimeWorker → RuntimeWorker
occupied_row run_id now row = record row {
  status = RuntimeWorkerStatus.busy;
  active_run_id = some run_id;
  last_heartbeat = now;
}

started_at-eq :
    (o : Option ℕ) (now : ℕ) → or_set o now ≡ some (elim o [ none ↦ now | some before ↦ before ])
started_at-eq none now = refl
started_at-eq (some before) now = refl

assigned-queued :
    (current now timeout : ℕ) (w : RuntimeWorker) (r : Run)
    → r.status ≡ queued
    → assigned current now timeout w r ≡ ok (started_row current now timeout w r)
unfolding assigned transition_run_status moved run_transition_allowed
assigned-queued current now timeout w r e = rw e (rw (started_at-eq r.started_at now) refl)

module _ (host : Host) (current timeout : ℕ) where
  dispatch-empty :
      (db : Db) → queued_runs db ≡ [] → dispatch_queued_run host current timeout db ≡ (ok none, db)
  unfolding dispatch_queued_run dispatch_loop ◌>>=◌
  dispatch-empty db q = rw q refl

  start_on-queued :
      (db : Db) (run : Run) (payload : RunPayloadV1) (w : RuntimeWorker)
      → find_run run.id db ≡ some run
      → run.status ≡ queued
      → let started = started_row current (host.utcnow db.reads) timeout w run in
        ((start_on host current timeout run payload w db).0 ≡ ok (some started))
        × ((start_on host current timeout run payload w db).1.runs
            ≡ update (has_id run.id) (λ _. started) db.runs)
        × ((start_on host current timeout run payload w db).1.workers
            ≡ update
                (λ row. row.worker_id =? w.worker_id)
                (occupied_row run.id (host.utcnow (suc db.reads)))
                db.workers)
  unfolding start_on ◌>>=◌ busy_with read_host mark_worker_busy update_worker publish_runtime_event
      assign find_run add_event
  start_on-queued db run payload w f e =
      rw
        (
          update_run-some run.id _ (record db { reads = suc db.reads }) run f,
          assigned-queued current (host.utcnow db.reads) timeout w run e,
        )
        (refl, refl, refl)

  start_on-started :
      (db : Db) (run : Run) (payload : RunPayloadV1) (w : RuntimeWorker)
      → find_run run.id db ≡ some run
      → run.status ≡ queued
      → let started = started_row current (host.utcnow (suc db.reads)) timeout w run in
        let after =
          start_on host current timeout run payload w (record db { reads = suc db.reads }) in
        (after.0 ≡ ok (some started))
        × (find_run run.id after.1 ≡ some started)
        × (after.1.workers
            ≡ update
                (λ row. row.worker_id =? w.worker_id)
                (occupied_row run.id (host.utcnow (suc (suc db.reads))))
                db.workers)
  unfolding find_run
  start_on-started db run payload w f e =
      let (a, b, d) = start_on-queued (record db { reads = suc db.reads }) run payload w f e in
      let started = started_row current (host.utcnow (suc db.reads)) timeout w run in
      (a, ap (first (has_id run.id)) b ∙ find_run-update_self run.id run started db.runs refl f, d)

  try_driver-accepts :
      (db : Db) (run : Run) (payload : RunPayloadV1) (w : RuntimeWorker) (rest : M (Option Run))
      → (payload.worker_type =? "codex_local") ≡ true
      → host.codex_available db.reads ≡ true
      → idle_worker (list_healthy_workers (or_empty run.worker_type) current timeout db) ≡ some w
      → try_driver host current timeout run payload (some codex_local) rest db
        ≡ start_on host current timeout run payload w (record db { reads = suc db.reads })
  unfolding try_driver try_worker can_accept read_host ◌>>=◌ list_healthy_workers
  try_driver-accepts db run payload w rest t c i = rw (t, c, i) refl

  known_driver : get_worker_driver "codex_local" ≡ some codex_local
  unfolding get_worker_driver strip lstrip rstrip is_space
  known_driver = refl

  codex_driver : (t : String) → t ≡ "codex_local" → get_worker_driver t ≡ some codex_local
  codex_driver t e = ap get_worker_driver e ∙ known_driver

  dispatch_first :
      (db : Db) (run : Run) (rest : List Run) (payload : RunPayloadV1)
      → queued_runs db ≡ run ∷ rest
      → model_validate run.prompt_payload ≡ ok payload
      → get_worker_driver (or_empty run.worker_type) ≡ some codex_local
      → dispatch_queued_run host current timeout db
        ≡ try_driver host current timeout run payload
            (some codex_local)
            (dispatch_loop host current timeout rest)
            db
  unfolding dispatch_queued_run dispatch_loop ◌>>=◌
  dispatch_first db run rest payload q v d = rw (q, v, d) refl

  -- If the first run of the queue is queued and is the row that its identifier finds, it and its
  -- valid payload name the worker type `codex_local`, Codex is available, and some healthy worker
  -- of that type is idle, dispatching starts the run: it returns it as running, owned by the
  -- first such worker by identifier, with a lease, one more attempt and its first start kept, stores
  -- it, and makes that worker busy with it, and changes no other worker.
  pub dispatch-starts_first :
      (db : Db) (run : Run) (rest : List Run) (payload : RunPayloadV1) (w : RuntimeWorker)
      → queued_runs db ≡ run ∷ rest
      → find_run run.id db ≡ some run
      → run.status ≡ queued
      → model_validate run.prompt_payload ≡ ok payload
      → run.worker_type ≡ some "codex_local"
      → payload.worker_type ≡ "codex_local"
      → host.codex_available db.reads ≡ true
      → idle_worker (list_healthy_workers "codex_local" current timeout db) ≡ some w
      → let started = started_row current (host.utcnow (suc db.reads)) timeout w run in
        let after = dispatch_queued_run host current timeout db in
        (after.0 ≡ ok (some started))
        × (find_run run.id after.1 ≡ some started)
        × (after.1.workers
            ≡ update
                (λ row. row.worker_id =? w.worker_id)
                (occupied_row run.id (host.utcnow (suc (suc db.reads))))
                db.workers)
  dispatch-starts_first db run rest payload w q f e v t pt c i =
      let type : or_empty run.worker_type ≡ "codex_local" = ap or_empty t in
      let first_taken =
        dispatch_first db run rest payload q v (codex_driver (or_empty run.worker_type) type) in
      let taken =
        try_driver-accepts db run payload w (dispatch_loop host current timeout rest)
          (ap (λ s. s =? "codex_local") pt) c
          (subst (λ s. idle_worker (list_healthy_workers s current timeout db) ≡ some w) (sym type)
            i) in
      rw (first_taken ∙ taken) (start_on-started db run payload w f e)
