-- ===== src/Runtime/Exclusive.antt =====
-- A lease is exclusive: until it expires, no call of `claim_run` or `renew_lease` by another worker
-- changes the run.
use xyn.Base.{
  sym, ◌=?◌, ℕ, String, ◌≡◌, refl, ◌∙◌, ◌≢◌, ◌≤◌, Bool, false, some, List, [], ◌∷◌, arith,
  Bool-cases, eq_iff, inl, inr,
}
use xyn.Base.Exec.{◌>>=◌}
use xyn.Base.Sort.{All}
use xyn.Runtime.Models.{running, Run}
use xyn.Runtime.Session.{Db, find_run}
use xyn.Runtime.Rows.{Distinct}
use xyn.Runtime.LeaseFlow.{
  first-update_each, Distinct-each, member-candidates, claimed-id, extended-id,
}
use xyn.Runtime.Leases.{
  WorkerConfig, claimable, candidates, member, claimed, claim_rows, claim_run, owns, extended,
  renew_lease,
}

-- A call of a worker, with the time of its transaction.
pub data LeaseCall : Type 0 where
  claims : WorkerConfig → ℕ → (Run → Bool) → LeaseCall
  renews : WorkerConfig → ℕ → ℕ → LeaseCall

abbrev pub after_call : LeaseCall → Db → Db
after_call (claims config now skipped) db = (claim_run config now skipped db).1
after_call (renews config now run_id) db = (renew_lease config now run_id db).1

abbrev pub after_calls : List LeaseCall → Db → Db
after_calls [] db = db
after_calls (c ∷ cs) db = after_calls cs (after_call c db)

-- The call is another worker's, and not after `t`.
abbrev pub IsRival : String → ℕ → LeaseCall → Type 0
IsRival worker_id t (claims config now skipped) = (config.worker_id ≢ worker_id) × (now ≤ t)
IsRival worker_id t (renews config now run_id) = (config.worker_id ≢ worker_id) × (now ≤ t)

-- The worker holds the run until `t`.
pub record IsHeld (worker_id : String) (t : ℕ) (r : Run) : Type 0 where
  pub is_run : r.status ≡ running
  pub holder : r.locked_by ≡ some worker_id
  pub until : r.lease_expires_at ≡ some t

held-claimable :
    (w : String) (t now : ℕ) (r : Run) → IsHeld w t r → now ≤ t → claimable now r ≡ false
unfolding claimable
held-claimable w t now r h le = rw (h.is_run, h.until) (ground arith)

held-owns : (w v : String) (t k : ℕ) (r : Run) → IsHeld w t r → v ≢ w → owns v k r ≡ false
unfolding owns
held-owns w v t k r h n =
    rw (h.is_run, h.holder)
      (elim (Bool-cases (w =? v)) [
        | inl e ↦ absurd (n (sym ((eq_iff w v).0 e)))
        | inr e ↦ rw e (ground arith)
      ])

Distinct-call : (c : LeaseCall) (db : Db) → Distinct db.runs → Distinct (after_call c db).runs
unfolding claim_run claim_rows renew_lease ◌>>=◌
Distinct-call (claims config now skipped) db d = Distinct-each _ _ db.runs (claimed-id config now) d
Distinct-call (renews config now k) db d = Distinct-each _ _ db.runs (extended-id config now) d

rival-call :
    (c : LeaseCall) (w : String) (t k : ℕ) (r : Run) (db : Db)
    → Distinct db.runs
    → find_run k db ≡ some r
    → IsHeld w t r
    → IsRival w t c
    → find_run k (after_call c db) ≡ some r
unfolding find_run claim_run claim_rows renew_lease ◌>>=◌
rival-call (claims config now skipped) w t k r db d h held (n, le) =
    first-update_each _ (claimed config now) k db.runs (claimed-id config now)
    ∙ elim (Bool-cases (member r.id (candidates now skipped config.batch_size db.runs))) [
      | inl e ↦
          let may = member-candidates now skipped config.batch_size k db r d h e in
          let no = held-claimable w t now r held le in cc (rw no at may)
      | inr e ↦ rw (h, e) refl
    ]
rival-call (renews config now j) w t k r db d h held (n, le) =
    first-update_each _ (extended config now) k db.runs (extended-id config now)
    ∙ rw (h, held-owns w config.worker_id t j r held n) refl

-- While a worker holds a run, no sequence of calls of other workers, none of them after the lease
-- expires, changes anything of the run: not its owner, its lease or its status, if the
-- identifiers of the runs are unique.
pub lease-exclusive :
    (cs : List LeaseCall) (w : String) (t k : ℕ) (r : Run) (db : Db)
    → Distinct db.runs
    → find_run k db ≡ some r
    → IsHeld w t r
    → All (IsRival w t) cs
    → find_run k (after_calls cs db) ≡ some r
lease-exclusive [] w t k r db d h held a = h
lease-exclusive (c ∷ cs) w t k r db d h held (x, xs) =
    lease-exclusive cs w t k r (after_call c db) (Distinct-call c db d)
      (rival-call c w t k r db d h held x) held xs
