-- ===== src/Runtime/StaleFlow.antt =====
-- Handling one stale run moves it along an edge of the table of transitions, and no other run.
use mathlib.Core.Path.{subst}
use mathlib.Core.Option.{some-injective}
use xyn.Base.{ℕ, String, ◌≡◌, refl, sym, ap, ◌∙◌, ◌≢◌, true, some, arith, Bool-cases, inl, inr}
use xyn.Base.Exec.{Result, ok, err, Exec, continue, ◌>>=◌}
use xyn.Base.Exec.Ensures.{
  IsPreorder, Ensures, Ensures-bind, Ensures-if, Ensures-pure, ensures_rules,
}
use xyn.Runtime.Models.{running, Run}
use xyn.Runtime.Session.{Host, Db, Fault, find_run, update_run}
use xyn.Runtime.Evolution.{
  Evolves, IsRowOrder, IsStep, Evolves-preorder, Ensures-update_run, Evolves-update_run_at,
  find_run-id,
}
use xyn.Runtime.Transitions.{run_transition_allowed}
use xyn.Runtime.Neutral.{publish-Ensures, release_worker-Ensures}
use xyn.Runtime.Flow.{Leads, Leads-of, Moves, moves_order, moves_preorder}
use xyn.Runtime.Stale.{
  may_retry, requires_review, unresponsive, queued_again, held_for_review, given_up, settle,
  announce, handle_stale_run,
}
use xyn.Runtime.Rows.{IsSound}

-- The bind rule at one state, where the rest may use what the first part has left.
module _ {S E A B : Type 0} {G : S → S → Type 0} (p : IsPreorder G) where
  pub bind_at :
      (m : Exec E S A) (f : A → Exec E S B) (s : S)
      → G s (m s).1
      → ((a : A) → G (m s).1 (f a (m s).1).1)
      → G s ((m >>= f) s).1
  unfolding ◌>>=◌
  bind_at m f s h k = p.next s (m s).1 _ h (rest (m s).0 (m s).1 k)
    where
      rest : (r : Result E A) (t : S) → ((a : A) → G t (f a t).1) → G t (continue r f t).1
      rest (ok a) t k = k a
      rest (err e) t k = p.here t

-- Runs keep their status, and the others are not touched.
abbrev Kept : Run → Run → Type 0
Kept r r' = r'.status ≡ r.status

abbrev kept_order : IsRowOrder Kept
kept_order = record { same = λ r. refl; trans = λ r s t p q. q ∙ p }

instance abbrev kept_preorder : IsPreorder (Evolves Kept)
kept_preorder = Evolves-preorder kept_order

Moves_of_Kept : {db db' : Db} → Evolves Kept db db' → Evolves Moves db db'
Moves_of_Kept kept = record {
  row = λ k r h. let (r', h', e) = kept.row k r h in (r', h', Leads-of (inl e));
  formed = kept.formed;
}

-- Every run but `k` keeps its status.
abbrev pub OthersKept : ℕ → Run → Run → Type 0
OthersKept k r r' = (r'.id ≡ r.id) × (r.id ≢ k → r'.status ≡ r.status)

abbrev others_order : (k : ℕ) → IsRowOrder (OthersKept k)
others_order k = record {
  same = λ r. (refl, λ _. refl);
  trans = λ r s t p q. (q.0 ∙ p.0, λ n. q.1 (λ e. n (sym p.0 ∙ e)) ∙ p.1 n);
}

IsStep-unresponsive : (k : ℕ) → IsStep Kept k (λ r. ok (unresponsive r))
unfolding unresponsive
IsStep-unresponsive k = record { at = λ r r' _ h. (ground arith, ground arith, λ w. ground arith) }

ok-eq : (r r' : Run) → ◌≡◌ {A = Result Fault Run} (ok r') (ok r) → r ≡ r'
ok-eq r r' h = ground arith

-- A row function that keeps the identifier and the soundness of a row.
pub record IsTidy (f : Run → Run) : Type 0 where
  pub same_id : (r : Run) → (f r).id ≡ r.id
  pub sound : (r : Run) → IsSound r → IsSound (f r)

-- An update of the row `k` that leaves its identifier touches no other row.
IsStep-OthersKept : (k : ℕ) (f : Run → Run) → IsTidy f → IsStep (OthersKept k) k (λ r. ok (f r))
IsStep-OthersKept k f t = record {
  at = λ r r' i e.
      let p : r' ≡ f r = ok-eq r' (f r) e in
      let j : r'.id ≡ r.id = ap (λ (x : Run). x.id) p ∙ t.same_id r in
      (j, (j, λ n. absurd (n i)), λ w. subst IsSound (sym p) (t.sound r w));
}

unresponsive-IsTidy : IsTidy unresponsive
unfolding unresponsive
unresponsive-IsTidy = record { same_id = λ r. refl; sound = λ r w. ground arith }

module _ (current : ℕ) (summary : String) where
  queued_again-IsTidy : IsTidy (queued_again current summary)
  unfolding queued_again
  queued_again-IsTidy = record { same_id = λ r. refl; sound = λ r w. ground arith }

  held_for_review-IsTidy : IsTidy (held_for_review current summary)
  unfolding held_for_review
  held_for_review-IsTidy = record { same_id = λ r. refl; sound = λ r w. ground arith }

  given_up-IsTidy : IsTidy (given_up current summary)
  unfolding given_up
  given_up-IsTidy = record { same_id = λ r. refl; sound = λ r w. ground arith }

-- An update of a running row along edges of the table.
pub from_running :
    (k : ℕ) (f : Run → Run) (db : Db) (r : Run)
    → find_run k db ≡ some r
    → r.status ≡ running
    → IsTidy f
    → ((x : Run) → run_transition_allowed running (f x).status ≡ true)
    → Evolves Moves db (update_run k (λ x. ok (f x)) db).1
from_running k f db r e h t a = Evolves-update_run_at moves_order k _ db (λ x x' ex hx.
    let same : r ≡ x = some-injective r x (sym e ∙ ex) in
    let sx : x.status ≡ running = sym (ap (λ (y : Run). y.status) same) ∙ h in
    let p : x' ≡ f x = ok-eq x' (f x) hx in
    (
      ap (λ (y : Run). y.id) p ∙ t.same_id x ∙ find_run-id k db x ex,
      subst (λ y. Leads x.status y.status) (sym p)
          (subst (λ s. Leads s (f x).status) (sym sx) (Leads-of (inr (a x)))),
      λ w. subst IsSound (sym p) (t.sound x w),
    ))

targets_allowed :
    (current : ℕ) (summary : String) (r : Run)
    → (run_transition_allowed running (queued_again current summary r).status ≡ true)
      × (run_transition_allowed running (held_for_review current summary r).status ≡ true)
      × (run_transition_allowed running (given_up current summary r).status ≡ true)
unfolding run_transition_allowed queued_again held_for_review given_up
targets_allowed current summary r = (refl, refl, refl)

module _ (host : Host) (current : ℕ) where
  announce-Kept : (run : Run) → Ensures (Evolves Kept) (announce host current run)
  unfolding announce
  announce-Kept run = search (
    ensures_rules, kept_order, Ensures-update_run, IsStep-unresponsive, publish-Ensures,
    release_worker-Ensures,
  )

  module _ (run : Run) where
    instance others_preorder : IsPreorder (Evolves (OthersKept run.id))
    others_preorder = Evolves-preorder (others_order run.id)

    update_run-Others :
        (f : Run → Run)
        → IsTidy f
        → Ensures (Evolves (OthersKept run.id)) (update_run run.id (λ r. ok (f r)))
    update_run-Others f t =
        Ensures-update_run (others_order run.id) run.id _ (IsStep-OthersKept run.id f t)

    settle-Others : Ensures (Evolves (OthersKept run.id)) (settle host current run)
    unfolding settle
    settle-Others =
        Ensures-if (may_retry run) _ _ (update_run-Others _ (queued_again-IsTidy current _)) (
          Ensures-if (requires_review run) _ _
            (Ensures-bind _ _ (update_run-Others _ (held_for_review-IsTidy current _)) (λ held.
              Ensures-bind _ _ (publish-Ensures (others_order run.id) host _ _ _ _ _ _)
                (λ _. Ensures-pure held)))
            (update_run-Others _ (given_up-IsTidy current _)))

    announce-Others : Ensures (Evolves (OthersKept run.id)) (announce host current run)
    unfolding announce
    announce-Others = Ensures-bind _ _ (update_run-Others _ unresponsive-IsTidy) (λ _.
        Ensures-bind _ _ (publish-Ensures (others_order run.id) host _ _ _ _ _ _)
          (λ _. release_worker-Ensures (others_order run.id) host _))

    pub handle_stale_run-Others :
        Ensures (Evolves (OthersKept run.id)) (handle_stale_run host current run)
    unfolding handle_stale_run
    handle_stale_run-Others = Ensures-bind _ _ announce-Others (λ _. settle-Others)

    -- The branches of a stale run, all from `running`.
    settle-Moves :
        (db : Db) (r : Run)
        → find_run run.id db ≡ some r
        → r.status ≡ running
        → Evolves Moves db (settle host current run db).1
    unfolding settle
    settle-Moves db r e h = elim (Bool-cases (may_retry run)) [
      | inl b ↦ rw b (
          from_running run.id (queued_again current _) db r e h (queued_again-IsTidy current _)
            (λ x. (targets_allowed current _ x).0))
      | inr b ↦ rw b (elim (Bool-cases (requires_review run)) [
        | inl c ↦ rw c (
            bind_at moves_preorder _ _ db
              (from_running run.id (held_for_review current _) db r e h
                (held_for_review-IsTidy current _) (λ x. (targets_allowed current _ x).1))
              (λ held.
                bind_at moves_preorder _ _ _ ((publish-Ensures moves_order host _ _ _ _ _ _).at _)
                  (λ _. moves_preorder.here _)))
        | inr c ↦ rw c (
            from_running run.id (given_up current _) db r e h (given_up-IsTidy current _)
              (λ x. (targets_allowed current _ x).2))
      ])
    ]

    pub handle_stale_run-Moves :
        (db : Db) (r : Run)
        → find_run run.id db ≡ some r
        → r.status ≡ running
        → Evolves Moves db (handle_stale_run host current run db).1
    unfolding handle_stale_run
    handle_stale_run-Moves db r e h =
        let kept = (announce-Kept run).at db in
        let (r', e', s) = kept.row run.id r e in
        bind_at moves_preorder _ _ db (Moves_of_Kept kept) (λ _. settle-Moves _ r' e' (s ∙ h))
