-- ===== src/Runtime/Rows.antt =====
-- The rows of the table of runs: their soundness, unique identifiers, and what finds, changes,
-- adds or selects a row.
use mathlib.Core.Option.{some-injective}
use mathlib.Core.Path.{subst}
use native.Mathlib.Decide.{ℕ_discrete}
use xyn.Base.{
  Bool-cases, ◌++◌, Bool, true, false, ℕ, ◌≡◌, refl, ◌∙◌, ◌≢◌, inl, inr, none, some, List, [], ◌∷◌,
  arith, ◌==◌, if◌then◌else◌,
}
use xyn.Base.Sort.{All-mono, All}
use xyn.Base.Table.{select, first, update, first-update_self, first-update_ne}
use xyn.Runtime.Queue.{is_some}
use xyn.Runtime.Models.{RunStatus, queued, running, completed, failed, blocked, Run}
use xyn.Runtime.Session.{has_id}

-- The terminal statuses that the runtime assigns.
abbrev pub is_closed : RunStatus → Bool
is_closed completed = true
is_closed failed = true
is_closed blocked = true
is_closed _ = false

-- A run that is completed, failed or blocked has its end recorded; a run that is running has an
-- owner, a lease and its start recorded.
pub record IsSound (r : Run) : Type 0 where
  pub ended : is_closed r.status ≡ true → is_some r.completed_at ≡ true
  pub owned : r.status ≡ running → is_some r.locked_by ≡ true
  pub leased : r.status ≡ running → is_some r.lease_expires_at ≡ true
  pub started : r.status ≡ running → is_some r.started_at ≡ true

-- A queued run has no end and is not running.
pub queued_run-IsSound : (r : Run) → r.status ≡ queued → IsSound r
queued_run-IsSound r e = record {
  ended = λ h. ground arith;
  owned = λ h. ground arith;
  leased = λ h. ground arith;
  started = λ h. ground arith;
}

abbrev pub NotIn : ℕ → List Run → Type 0
NotIn k = All (λ run. run.id ≢ k)

-- Identifiers are unique, as the primary key of a table is.
abbrev pub Distinct : List Run → Type 0
Distinct [] = Unit
Distinct (r ∷ rs) = NotIn r.id rs × Distinct rs

-- The table has unique identifiers and sound rows.
pub record IsWellFormed (rows : List Run) : Type 0 where
  pub distinct : Distinct rows
  pub sound : All IsSound rows

pub first-id : (k : ℕ) (rows : List Run) (r : Run) → first (has_id k) rows ≡ some r → r.id ≡ k
unfolding first
first-id k [] r h = ground arith
first-id k (x ∷ xs) r h = ground (arith, first-id k xs r)

-- Assigning to the row `k` is seen at `k`, and nowhere else.
pub find_run-update_self :
    (k : ℕ) (r r' : Run) (rows : List Run)
    → r'.id ≡ k
    → first (has_id k) rows ≡ some r
    → first (has_id k) (update (has_id k) (λ _. r') rows) ≡ some r'
find_run-update_self k r r' rows e h =
    rw (first-update_self (has_id k) (λ _. r') rows (λ _ _. ground arith), h) refl

pub find_run-update_ne :
    (k j : ℕ) (r' : Run) (rows : List Run)
    → r'.id ≡ k
    → k ≢ j
    → first (has_id j) (update (has_id k) (λ _. r') rows) ≡ first (has_id j) rows
find_run-update_ne k j r' rows e n =
    first-update_ne (has_id k) (has_id j) (λ _. r') rows (λ _ _. ground arith) (λ x h. ground arith)

pub find_run-update :
    (k j : ℕ) (r r' : Run) (rows : List Run)
    → r'.id ≡ k
    → first (has_id k) rows ≡ some r
    → first (has_id j) (update (has_id k) (λ _. r') rows)
      ≡ (if k == j then some r' else first (has_id j) rows)
find_run-update k j r r' rows e h = elim (ℕ_discrete k j) [
  | yes p ↦
      subst
        (λ i.
          first (has_id i) (update (has_id k) (λ _. r') rows)
          ≡ (if k == i then some r' else first (has_id i) rows))
        p (find_run-update_self k r r' rows e h ∙ ground arith)
  | no n ↦ find_run-update_ne k j r' rows e n ∙ ground arith
]

NotIn-update :
    (k j : ℕ) (r' : Run) (rows : List Run)
    → r'.id ≡ k
    → NotIn j rows
    → NotIn j (update (has_id k) (λ _. r') rows)
unfolding update
NotIn-update k j r' [] e n = tt
NotIn-update k j r' (x ∷ xs) e n = (ground arith, NotIn-update k j r' xs e n.1)

pub Distinct-update :
    (k : ℕ) (r' : Run) (rows : List Run)
    → r'.id ≡ k
    → Distinct rows
    → Distinct (update (has_id k) (λ _. r') rows)
unfolding update
Distinct-update k r' [] e d = tt
Distinct-update k r' (x ∷ xs) e d = elim (Bool-cases (x.id == k)) [
  | inl h ↦ rw h (
    NotIn-update k r'.id r' xs e (subst (λ n. NotIn n xs) (ground arith) d.0),
    Distinct-update k r' xs e d.1,
  )
  | inr h ↦ rw h (NotIn-update k x.id r' xs e d.0, Distinct-update k r' xs e d.1)
]

pub IsSound-update :
    (k : ℕ) (r' : Run) (rows : List Run)
    → IsSound r'
    → All IsSound rows
    → All IsSound (update (has_id k) (λ _. r') rows)
unfolding update
IsSound-update k r' [] e d = tt
IsSound-update k r' (x ∷ xs) e d = elim (Bool-cases (x.id == k)) [
  | inl h ↦ rw h (e, IsSound-update k r' xs e d.1)
  | inr h ↦ rw h (d.0, IsSound-update k r' xs e d.1)
]

pub first-All :
    (P : Run → Type 0) (k : ℕ) (rows : List Run) (r : Run)
    → All P rows
    → first (has_id k) rows ≡ some r
    → P r
unfolding first
first-All P k [] r a h = cc
first-All P k (x ∷ xs) r a h = elim (Bool-cases (x.id == k)) [
  | inl e ↦ subst P (some-injective x r (rw e at h)) a.0
  | inr e ↦ first-All P k xs r a.1 (rw e at h)
]

pub All-append :
    (P : Run → Type 0) (r : Run) (rows : List Run) → P r → All P rows → All P (rows ++ r ∷ [])
All-append P r [] p a = (p, tt)
All-append P r (x ∷ xs) p a = (a.0, All-append P r xs p a.1)

pub Distinct-append :
    (r : Run) (rows : List Run)
    → first (has_id r.id) rows ≡ none
    → Distinct rows
    → Distinct (rows ++ r ∷ [])
unfolding first
Distinct-append r [] h d = (tt, tt)
Distinct-append r (x ∷ xs) h d = elim (Bool-cases (x.id == r.id)) [
  | inl e ↦ cc (rw e at h)
  | inr e ↦ (
    All-append (λ run. run.id ≢ x.id) r xs (ground arith) d.0,
    Distinct-append r xs (rw e at h) d.1,
  )
]

pub select-All {κ} :
    (P : Run → Type κ) (p : Run → Bool) (xs : List Run)
    → All P xs
    → All (λ x. P x × (p x ≡ true)) (select p xs)
unfolding select
select-All P p [] h = tt
select-All P p (x ∷ xs) h = elim (Bool-cases (p x)) [
  | inl e ↦ rw e ((h.0, e), select-All P p xs h.1)
  | inr e ↦ rw e (select-All P p xs h.1)
]

pub select-Distinct : (p : Run → Bool) (xs : List Run) → Distinct xs → Distinct (select p xs)
unfolding select
select-Distinct p [] d = tt
select-Distinct p (x ∷ xs) d = elim (Bool-cases (p x)) [
  | inl e ↦ rw e (
    All-mono _ _ (select p xs) (λ y h. h.0) (select-All (λ y. y.id ≢ x.id) p xs d.0),
    select-Distinct p xs d.1,
  )
  | inr e ↦ rw e (select-Distinct p xs d.1)
]

skip_head :
    (x : Run) (xs rest : List Run)
    → NotIn x.id rest
    → All (λ y. first (has_id y.id) xs ≡ some y) rest
    → All (λ y. first (has_id y.id) (x ∷ xs) ≡ some y) rest
unfolding first
skip_head x xs [] n h = tt
skip_head x xs (y ∷ ys) n h = (ground arith, skip_head x xs ys n.1 h.1)

-- With distinct identifiers each row is the one that its identifier finds.
pub find_run-Distinct :
    (xs : List Run) → Distinct xs → All (λ y. first (has_id y.id) xs ≡ some y) xs
find_run-Distinct [] d = tt
find_run-Distinct (x ∷ xs) d =
    (unfold first in ground arith, skip_head x xs xs d.0 (find_run-Distinct xs d.1))
