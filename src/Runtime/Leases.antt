-- ===== src/Runtime/Leases.antt =====
-- The lease queue of core/worker.py: `claim_run` and `renew_lease`. `now` is `NOW()`, which is one
-- reading for a whole transaction, and `skipped` says which rows another transaction holds locked.
use xyn.Base.{
  ℕ, zero, suc, ◌+◌, String, Bool, true, false, not, ◌&&◌, Option, none, some, List, [], ◌∷◌, ◌==◌,
  ◌=?◌, ltb, leb, if◌then◌else◌,
}
use xyn.Base.Exec.{pure, gets, modify, ◌>>=◌, ◌>>◌}
use xyn.Base.Sort.{sort_by}
use xyn.Base.Table.{first, select, update}
use xyn.Runtime.Models.{RunStatus, queued, running, Run}
use xyn.Runtime.Session.{M, seconds}
use xyn.Runtime.Queue.{then_by, then_by_nulls_last}

-- `WORKER_ID`, `LEASE_DURATION_SECONDS`, `WORKER_BATCH_SIZE`
pub record WorkerConfig : Type 0 where
  pub worker_id : String
  pub lease_duration_seconds : ℕ
  pub batch_size : ℕ

-- `COALESCE(run_at, queued_at, created_at, NOW())`
abbrev due_at : Run → ℕ
due_at run = elim run.run_at [
  | none ↦ elim run.queued_at [ none ↦ run.created_at | some t ↦ t ]
  | some t ↦ t
]

abbrev pub has_expired : Option ℕ → ℕ → Bool
has_expired none now = false
has_expired (some t) now = ltb t now

abbrev claimable_in : RunStatus → Run → ℕ → Bool
claimable_in queued run now = leb (due_at run) now
claimable_in running run now = has_expired run.lease_expires_at now
claimable_in _ run now = false

unfoldable pub claimable : ℕ → Run → Bool
claimable now run = claimable_in run.status run now

abbrev reclaim_rank : RunStatus → ℕ
reclaim_rank running = 0
reclaim_rank _ = 1

-- The `ORDER BY` of the claim: by priority, expired leases first, then by age.
unfoldable pub claim_order : Run → Run → Bool
claim_order a b = then_by a.priority b.priority (
    then_by (reclaim_rank a.status) (reclaim_rank b.status) (
      then_by_nulls_last a.run_at b.run_at
        (then_by_nulls_last a.queued_at b.queued_at (leb a.created_at b.created_at))))

-- `LIMIT n`
abbrev pub take {ℓ} : {A : Type ℓ} → ℕ → List A → List A
take zero xs = []
take (suc n) [] = []
take (suc n) (x ∷ xs) = x ∷ take n xs

unfoldable pub candidates : ℕ → (Run → Bool) → ℕ → List Run → List Run
candidates now skipped batch_size runs =
    take batch_size (sort_by claim_order (select (λ r. claimable now r && not (skipped r)) runs))

abbrev pub member : ℕ → List Run → Bool
member k [] = false
member k (r ∷ rs) = if r.id == k then true else member k rs

unfoldable pub claimed : WorkerConfig → ℕ → Run → Run
claimed config now run = record run {
  status = running;
  locked_at = some now;
  locked_by = some config.worker_id;
  lease_expires_at = some (now + seconds config.lease_duration_seconds);
  started_at = elim run.started_at [ none ↦ some now | some t ↦ some t ];
}

abbrev pub head_id : List Run → Option ℕ
head_id [] = none
head_id (r ∷ rs) = some r.id

unfoldable pub claim_rows : WorkerConfig → ℕ → (Run → Bool) → List Run → List Run
claim_rows config now skipped runs =
    update (λ r. member r.id (candidates now skipped config.batch_size runs)) (claimed config now)
      runs

-- The identifier of the run that is claimed, and loaded again, if there is one. Of a batch of more
-- than one row the database may return any row first; here it is the first candidate.
unfoldable pub claim_run : WorkerConfig → ℕ → (Run → Bool) → M (Option ℕ)
claim_run config now skipped = do
  found ← gets (λ db. head_id (candidates now skipped config.batch_size db.runs))
  modify (λ db. record db { runs = claim_rows config now skipped db.runs })
  pure found

abbrev held_by : String → Option String → Bool
held_by worker_id none = false
held_by worker_id (some holder) = holder =? worker_id

abbrev is_running : RunStatus → Bool
is_running running = true
is_running _ = false

unfoldable pub owns : String → ℕ → Run → Bool
owns worker_id run_id run =
    (run.id == run_id) && is_running run.status && held_by worker_id run.locked_by

unfoldable pub extended : WorkerConfig → ℕ → Run → Run
extended config now run = record run {
  lease_expires_at = some (now + seconds config.lease_duration_seconds);
}

abbrev is_some {ℓ} : {A : Type ℓ} → Option A → Bool
is_some none = false
is_some (some a) = true

unfoldable pub renew_lease : WorkerConfig → ℕ → ℕ → M Bool
renew_lease config now run_id = do
  found ← gets (λ db. first (owns config.worker_id run_id) db.runs)
  modify (λ db. record db {
    runs = update (owns config.worker_id run_id) (extended config now) db.runs;
  })
  pure (is_some found)
