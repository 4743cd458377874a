-- ===== src/Runtime/CodexSettles.antt =====
-- The rows that a failed or blocked execution leaves.
use xyn.Base.{
  ℕ, suc, String, ◌≡◌, refl, sym, ap, ◌∙◌, Bool, true, false, inl, inr, ◌⊎◌, Option-cases, Option,
  none, some, List, [], ◌∷◌, Bool-cases,
}
use xyn.Base.Exec.{Result, ok, err, pure, ◌>>=◌}
use xyn.Base.Exec.Ensures.{Ensures}
use xyn.Runtime.Models.{
  RunStatus, completed, failed, queued, blocked, Run, RuntimeWorker, Datum, text,
}
use xyn.Runtime.Session.{Host, Db, M, find_run, read_host, add_event, update_run, update_worker}
use xyn.Runtime.Evolution.{find_run-id}
use xyn.Runtime.Flow.{moves_preorder}
use xyn.Runtime.Neutral.{mark_worker_idle-Ensures}
use xyn.Runtime.Leaves.{Leaves, same_order, update_run-Leaves, then-Leaves, publish-Leaves}
use xyn.Runtime.Events.{publish_runtime_event}
use xyn.Runtime.Workers.{mark_worker_idle}
use xyn.Runtime.Stale.{may_retry}
use xyn.Runtime.CodexWorker.{set_blocked, mark_blocked}
use xyn.Runtime.Artifacts.{
  WorkerFault, unstored, Session, W, run_db, commit, add_artifact, is_artifact_type, captured,
  capture_run_artifact,
}
use xyn.Runtime.CodexHost.{CodexHost}
use xyn.Runtime.CodexOutcome.{requeue_after, fail_after, after_failure, settle_failure}
use xyn.Runtime.CodexKeeps.{HasRun, KeepsRun, capture-Keeps}

-- The statuses in which an execution leaves its run: completed, failed, blocked, or queued again.
unfoldable pub is_settled : RunStatus → Bool
is_settled completed = true
is_settled failed = true
is_settled queued = true
is_settled blocked = true
is_settled _ = false

-- The row that is returned stands under the identifier, in a settled status, and is committed.
abbrev pub Settled : ℕ → Result WorkerFault Run × Session → Type 0
Settled k x =
    (r : Run) × (x.0 ≡ ok r)
    × (find_run k x.1.db ≡ some r)
    × (x.1.committed_db ≡ x.1.db)
    × (is_settled r.status ≡ true)

-- An exception of the object store is raised, for an artifact that it did not store.
abbrev pub StoreFailed : {A : Type 0} → CodexHost → Result WorkerFault A → Type 0
StoreFailed ch x =
    (e : String) × (x ≡ err (unstored e))
    × ((n : ℕ) × (id : ℕ) × (content : String) × (ch.store_bytes n id content ≡ some e))

-- The call settles the run, unless the object store fails.
abbrev pub Settles : CodexHost → ℕ → W Run → Session → Type 0
Settles ch k m s = Settled k (m s) ⊎ StoreFailed ch (m s).0

abbrev pub Holds : ℕ → Session → Type 0
Holds k s = HasRun k s.db × HasRun k s.committed_db

pub bind_ok :
    {A : Type 0} (m : W A) (f : A → W Run) (s : Session) (a : A)
    → (m s).0 ≡ ok a
    → (m >>= f) s ≡ f a (m s).1
unfolding ◌>>=◌
bind_ok m f s a e = rw e refl

bind_err :
    {A : Type 0} (m : W A) (f : A → W Run) (s : Session) (e : WorkerFault)
    → (m s).0 ≡ err e
    → (m >>= f) s ≡ (err e, (m s).1)
unfolding ◌>>=◌
bind_err m f s e h = rw h refl

module _ (ch : CodexHost) (k : ℕ) where
  -- A call that returns and keeps the row, and then one that settles it.
  pub then-Settles :
      {A : Type 0} (m : W A) (f : A → W Run) (s : Session) (a : A)
      → Ensures (KeepsRun k) m
      → Holds k s
      → (m s).0 ≡ ok a
      → (Holds k (m s).1 → Settles ch k (f a) (m s).1)
      → Settles ch k (m >>= f) s
  then-Settles m f s a keeps h e rest = rw (bind_ok m f s a e) (rest ((keeps.at s).kept h.0 h.1))

  -- A change of the row in the database, and its commit.
  pub finish-Settles :
      (m : M Run) (s : Session) (r : Run)
      → Leaves s.db m r k r
      → is_settled r.status ≡ true
      → Settles ch k (run_db m >>= λ run. commit >>= λ _. pure run) s
  unfolding ◌>>=◌ run_db commit
  finish-Settles m s r (e, f) settled = rw e (inl (r, refl, f, refl, settled))

  -- The capture of an artifact of a known type is only refused by the object store.
  capture-stored :
      (kind label content : String) (s : Session)
      → is_artifact_type kind ≡ true
      → let captured = capture_run_artifact ch.host ch.store_bytes k kind label content in
        ((captured s).0 ≡ ok tt) ⊎ StoreFailed ch (captured s).0
  unfolding capture_run_artifact captured run_db add_artifact read_host publish_runtime_event
      add_event ◌>>=◌
  capture-stored kind label content s known =
      let id = ch.host.uuid4 s.db.reads in
      rw known (elim (Option-cases (ch.store_bytes (suc s.db.reads) id content)) [
        | inl e ↦ inl (rw e refl)
        | inr (cause, e) ↦ inr (cause, rw e refl, (suc s.db.reads, id, content, e))
      ])

  pub captured-Settles :
      (kind label content : String) (f : Unit {0} → W Run) (s : Session)
      → is_artifact_type kind ≡ true
      → Holds k s
      → let m = capture_run_artifact ch.host ch.store_bytes k kind label content in
        (Holds k (m s).1 → Settles ch k (f tt) (m s).1) → Settles ch k (m >>= f) s
  captured-Settles kind label content f s known h rest =
      let m = capture_run_artifact ch.host ch.store_bytes k kind label content in
      elim (capture-stored kind label content s known) [
        | inl e ↦
            then-Settles m f s tt (capture-Keeps ch.host ch.store_bytes k kind label content) h e
              rest
        | inr (cause, e, why) ↦ inr (
          cause,
          ap (λ (x : Result WorkerFault Run × Session). x.0) (bind_err m f s (unstored cause) e),
          why,
        )
      ]

module _ (k : ℕ) where
  after_failure-settled :
      (now : ℕ) (summary reason : String) (r : Run)
      → is_settled (after_failure now summary reason r).status ≡ true
  unfolding is_settled after_failure requeue_after fail_after
  after_failure-settled now summary reason r = elim (Bool-cases (may_retry r)) [
    | inl e ↦ rw e refl
    | inr e ↦ rw e refl
  ]

  after_failure-id :
      (now : ℕ) (summary reason : String) (r : Run) → (after_failure now summary reason r).id ≡ r.id
  unfolding after_failure requeue_after fail_after
  after_failure-id now summary reason r = elim (Bool-cases (may_retry r)) [
    | inl e ↦ rw e refl
    | inr e ↦ rw e refl
  ]

  idle-Leaves :
      (host : Host) (w : String) (db : Db) (r : Run)
      → find_run k db ≡ some r
      → (o : Option RuntimeWorker) × Leaves db (mark_worker_idle host w) o k r
  unfolding mark_worker_idle ◌>>=◌ read_host update_worker
  idle-Leaves host w db r f =
      let (r', f', e) = ((mark_worker_idle-Ensures same_order host w).at db).row k r f in
      (_, (refl, f' ∙ ap some (sym e)))

  module _ (ch : CodexHost) (w : String) where
    pub settle_failure-row :
        (summary reason : String) (db : Db) (r : Run)
        → find_run k db ≡ some r
        → let left = after_failure (ch.host.utcnow db.reads) summary reason r in
          Leaves db (settle_failure ch.host k w summary reason) left k left
    unfolding settle_failure find_run read_host ◌>>=◌
    settle_failure-row summary reason db r f =
        let now = ch.host.utcnow db.reads in
        let later : Db = record db { reads = suc db.reads } in
        let g : Run → Run = after_failure now summary reason in
        let updated =
          update_run-Leaves k g later r f
            (after_failure-id now summary reason r ∙ find_run-id k db r f) in
        then-Leaves (update_run k (λ x. ok (g x))) _ later (g r) (g r) k (g r) (g r) updated (λ h.
          let (o, idle) = idle-Leaves ch.host w (update_run k (λ x. ok (g x)) later).1 (g r) h in
          then-Leaves (mark_worker_idle ch.host w) _ _ o (g r) k (g r) (g r) idle (λ q. (refl, q)))

    pub settle_failure-Leaves :
        (summary reason : String) (db : Db) (r : Run)
        → find_run k db ≡ some r
        → (r' : Run) × Leaves db (settle_failure ch.host k w summary reason) r' k r'
          × (is_settled r'.status ≡ true)
    settle_failure-Leaves summary reason db r f = (
      after_failure (ch.host.utcnow db.reads) summary reason r,
      settle_failure-row summary reason db r f,
      after_failure-settled (ch.host.utcnow db.reads) summary reason r,
    )

    pub mark_blocked-Leaves :
        (summary reason : String) (db : Db) (r : Run)
        → find_run k db ≡ some r
        → (r' : Run) × Leaves db (mark_blocked ch.host k w summary reason) r' k r'
          × (is_settled r'.status ≡ true)
    unfolding mark_blocked find_run read_host ◌>>=◌ set_blocked is_settled
    mark_blocked-Leaves summary reason db r f =
        let now = ch.host.utcnow db.reads in
        let later : Db = record db { reads = suc db.reads } in
        let g : Run → Run = set_blocked now summary reason in
        let updated = update_run-Leaves k g later r f (find_run-id k db r f) in
        let moved_db : Db = (update_run k (λ x. ok (g x)) later).1 in
        let idle_db : Db = (mark_worker_idle ch.host w moved_db).1 in
        let given : List (String × Datum) =
          ("summary", text summary) ∷ ("escalation_reason", text reason) ∷ [] in
        let cause : Option String = some r.correlation_id in
        (
          g r,
          then-Leaves (update_run k (λ x. ok (g x))) _ later (g r) (g r) k (g r) (g r) updated (λ h.
              let (o, idle) = idle-Leaves ch.host w moved_db (g r) h in
              then-Leaves (mark_worker_idle ch.host w) _ moved_db o (g r) k (g r) (g r) idle (λ q.
                then-Leaves (publish_runtime_event ch.host "run.blocked" k none w cause given)
                  (λ _. pure (g r)) idle_db tt (g r) k (g r) (g r)
                  (publish-Leaves ch.host "run.blocked" k none w cause given idle_db k (g r) q)
                  (λ z. (refl, z)))),
          refl,
        )
