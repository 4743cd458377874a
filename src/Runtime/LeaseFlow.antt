-- ===== src/Runtime/LeaseFlow.antt =====
-- Claims and renewals of leases move runs along the edges of the table of transitions, or leave a
-- running run running.
use mathlib.Core.Path.{subst}
use mathlib.Core.Option.{some-injective}
use xyn.Base.{
  ℕ, zero, suc, String, ◌≡◌, refl, sym, ap, ◌∙◌, Bool, true, not, ◌&&◌, none, some, List, [], ◌∷◌,
  arith, ◌==◌, Bool-cases, inl, inr, if◌then◌else◌,
}
use xyn.Base.Exec.{◌>>=◌}
use xyn.Base.Sort.{All, sort_by-All}
use xyn.Base.Table.{first, update}
use xyn.Runtime.Models.{running, Run}
use xyn.Runtime.Session.{Db, has_id, find_run}
use xyn.Runtime.Transitions.{run_transition_allowed}
use xyn.Runtime.Evolution.{Evolves, find_run-id}
use xyn.Runtime.Flow.{Leads, stay, Leads-of, Moves, moves_preorder}
use xyn.Runtime.Leases.{
  WorkerConfig, claimable, claim_order, take, candidates, member, claimed, claim_rows, claim_run,
  owns, extended, renew_lease,
}
use xyn.Runtime.Rows.{Distinct, IsSound, NotIn, find_run-Distinct, select-All}

take-All : (P : Run → Type 0) (n : ℕ) (xs : List Run) → All P xs → All P (take n xs)
take-All P zero xs h = tt
take-All P (suc n) [] h = tt
take-All P (suc n) (x ∷ xs) h = (h.0, take-All P n xs h.1)

module _ (now : ℕ) (skipped : Run → Bool) (batch_size : ℕ) (rows : List Run) where
  -- A candidate is a row of the table that may be claimed and that nobody holds locked.
  candidates_lem :
      Distinct rows
      → All
          (λ c. (first (has_id c.id) rows ≡ some c) × ((claimable now c && not (skipped c)) ≡ true))
          (candidates now skipped batch_size rows)
  unfolding candidates
  candidates_lem d = take-All _ batch_size _ (
      sort_by-All claim_order _ _
        (select-All _ (λ r. claimable now r && not (skipped r)) rows (find_run-Distinct rows d)))

-- A member of a list has what all its rows have.
member-All :
    (P : Run → Type 0) (k : ℕ) (xs : List Run)
    → All P xs
    → member k xs ≡ true
    → (c : Run) × (c.id ≡ k) × P c
member-All P k [] h m = cc
member-All P k (x ∷ xs) h m = elim (Bool-cases (x.id == k)) [
  | inl e ↦ (x, ground arith, h.0)
  | inr e ↦ member-All P k xs h.1 (rw e at m)
]

-- A row by row update that keeps identifiers.
pub first-update_each :
    (p : Run → Bool) (f : Run → Run) (k : ℕ) (rows : List Run)
    → ((r : Run) → (f r).id ≡ r.id)
    → first (has_id k) (update p f rows)
      ≡ (elim (first (has_id k) rows) [ none ↦ none | some r ↦ if p r then some (f r) else some r ])
unfolding first update
first-update_each p f k [] h = refl
first-update_each p f k (x ∷ xs) h = ground (arith, first-update_each p f k xs h, h x)

NotIn-each :
    (p : Run → Bool) (f : Run → Run) (k : ℕ) (rows : List Run)
    → ((r : Run) → (f r).id ≡ r.id)
    → NotIn k rows
    → NotIn k (update p f rows)
unfolding update
NotIn-each p f k [] h n = tt
NotIn-each p f k (x ∷ xs) h n = elim (Bool-cases (p x)) [
  | inl e ↦ rw e ((λ q. n.0 (sym (h x) ∙ q)), NotIn-each p f k xs h n.1)
  | inr e ↦ rw e (n.0, NotIn-each p f k xs h n.1)
]

pub Distinct-each :
    (p : Run → Bool) (f : Run → Run) (rows : List Run)
    → ((r : Run) → (f r).id ≡ r.id)
    → Distinct rows
    → Distinct (update p f rows)
unfolding update
Distinct-each p f [] h d = tt
Distinct-each p f (x ∷ xs) h d = elim (Bool-cases (p x)) [
  | inl e ↦ rw e (
    subst (λ n. NotIn n (update p f xs)) (sym (h x)) (NotIn-each p f x.id xs h d.0),
    Distinct-each p f xs h d.1,
  )
  | inr e ↦ rw e (NotIn-each p f x.id xs h d.0, Distinct-each p f xs h d.1)
]

IsSound-each :
    (p : Run → Bool) (f : Run → Run) (rows : List Run)
    → ((r : Run) → p r ≡ true → IsSound r → IsSound (f r))
    → All IsSound rows
    → All IsSound (update p f rows)
unfolding update
IsSound-each p f [] h a = tt
IsSound-each p f (x ∷ xs) h a = elim (Bool-cases (p x)) [
  | inl e ↦ rw e (h x e a.0, IsSound-each p f xs h a.1)
  | inr e ↦ rw e (a.0, IsSound-each p f xs h a.1)
]

claimed-IsSound : (config : WorkerConfig) (now : ℕ) (r : Run) → IsSound (claimed config now r)
unfolding claimed
claimed-IsSound config now r = record {
  ended = λ h. cc;
  owned = λ h. refl;
  leased = λ h. refl;
  started = λ h. ground arith;
}

claimable-Leads : (now : ℕ) (r : Run) → claimable now r ≡ true → Leads r.status running
unfolding claimable run_transition_allowed
claimable-Leads now r h = Leads-of (ground arith)

pub owns-running :
    (worker_id : String) (k : ℕ) (r : Run) → owns worker_id k r ≡ true → r.status ≡ running
unfolding owns
owns-running worker_id k r h = ground arith

extended-IsSound :
    (config : WorkerConfig) (now : ℕ) (r : Run) → IsSound r → IsSound (extended config now r)
unfolding extended
extended-IsSound config now r w = record {
  ended = w.ended;
  owned = w.owned;
  leased = λ h. refl;
  started = w.started;
}

-- A row that an update selects row by row evolves by what the update does to a selected row.
Evolves-each :
    (p : Run → Bool) (f : Run → Run) (db : Db)
    → ((r : Run) → (f r).id ≡ r.id)
    → ((r : Run) → IsSound r → IsSound (f r))
    → ((k : ℕ) (r : Run) → find_run k db ≡ some r → p r ≡ true → Moves r (f r))
    → Evolves Moves db (record db { runs = update p f db.runs })
unfolding find_run
Evolves-each p f db i s m = record {
  row = λ k r h. elim (Bool-cases (p r)) [
    | inl e ↦ (f r, first-update_each p f k db.runs i ∙ rw (h, e) refl, m k r h e)
    | inr e ↦ (r, first-update_each p f k db.runs i ∙ rw (h, e) refl, stay)
  ];
  formed = λ w. record {
    distinct = Distinct-each p f db.runs i w.distinct;
    sound = IsSound-each p f db.runs (λ r _. s r) w.sound;
  };
}

module _ (config : WorkerConfig) (now : ℕ) where
  pub claimed-id : (r : Run) → (claimed config now r).id ≡ r.id
  unfolding claimed
  claimed-id r = refl

  pub extended-id : (r : Run) → (extended config now r).id ≡ r.id
  unfolding extended
  extended-id r = refl

  claimed-Moves : (r : Run) → claimable now r ≡ true → Moves r (claimed config now r)
  unfolding claimed
  claimed-Moves r h = claimable-Leads now r h

  extended-Moves : (r : Run) → Moves r (extended config now r)
  unfolding extended
  extended-Moves r = stay

-- A row of the table that is a member of the candidates may be claimed.
pub member-candidates :
    (now : ℕ) (skipped : Run → Bool) (n k : ℕ) (db : Db) (r : Run)
    → Distinct db.runs
    → find_run k db ≡ some r
    → member r.id (candidates now skipped n db.runs) ≡ true
    → (claimable now r && not (skipped r)) ≡ true
unfolding find_run
member-candidates now skipped n k db r d h m =
    let P = λ (c : Run).
      (first (has_id c.id) db.runs ≡ some c) × ((claimable now c && not (skipped c)) ≡ true) in
    let (c, i, (found, may)) =
      member-All P r.id (candidates now skipped n db.runs) (candidates_lem now skipped n db.runs d)
        m in
    let j = find_run-id k db r h in
    let same = some-injective c r (sym found ∙ ap (λ n. first (has_id n) db.runs) (i ∙ j) ∙ h) in
    subst (λ x. (claimable now x && not (skipped x)) ≡ true) same may

module _ (config : WorkerConfig) (now : ℕ) where
  pub claim_run-Moves :
      (skipped : Run → Bool) (db : Db)
      → Distinct db.runs
      → Evolves Moves db (claim_run config now skipped db).1
  unfolding claim_run claim_rows ◌>>=◌
  claim_run-Moves skipped db d =
      Evolves-each _ (claimed config now) db (claimed-id config now)
        (λ r _. claimed-IsSound config now r)
        (λ k r h m.
          claimed-Moves config now r
            (let e = member-candidates now skipped config.batch_size k db r d h m in ground arith))

  pub renew_lease-Moves : (k : ℕ) (db : Db) → Evolves Moves db (renew_lease config now k db).1
  unfolding renew_lease ◌>>=◌
  renew_lease-Moves k db =
      Evolves-each _ (extended config now) db (extended-id config now) (extended-IsSound config now)
        (λ j r h m. extended-Moves config now r)
