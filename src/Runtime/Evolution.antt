-- ===== src/Runtime/Evolution.antt =====
-- What an operation does to the rows of runs, one row at a time: rules for the actions of a session.
use mathlib.Core.Option.{some-injective}
use mathlib.Core.Path.{subst}
use native.Mathlib.Decide.{ℕ_discrete}
use xyn.Base.{
  ◌++◌, ℕ, String, ◌≡◌, refl, sym, ap, ◌∙◌, inl, inr, none, some, [], ◌∷◌, arith, Option-cases,
}
use xyn.Base.Exec.{Result, ok, err, ◌>>=◌}
use xyn.Base.Exec.Ensures.{IsPreorder, Ensures}
use xyn.Base.Table.{first, update, first-append}
use xyn.Runtime.Models.{Run, Step, RuntimeWorker, Event}
use xyn.Runtime.Session.{
  Db, Fault, no_result_found, integrity_error, read_host, has_id, find_run, one_run, assign,
  update_run, add_run, add_step, add_worker, add_event, update_worker,
}
use xyn.Runtime.Rows.{
  IsSound, IsWellFormed, first-id, find_run-update_self, find_run-update_ne, Distinct-update,
  IsSound-update, first-All, All-append, Distinct-append,
}

-- `R` relates each row of `db` to the row of that identifier in `db'`, and a well-formed table stays
-- well-formed.
pub record Evolves (R : Run → Run → Type 0) (db db' : Db) : Type 0 where
  pub row :
      (k : ℕ) (r : Run) → find_run k db ≡ some r → (r' : Run) × (find_run k db' ≡ some r') × R r r'
  pub formed : IsWellFormed db.runs → IsWellFormed db'.runs

pub record IsRowOrder (R : Run → Run → Type 0) : Type 0 where
  pub same : (r : Run) → R r r
  pub trans : (r s t : Run) → R r s → R s t → R r t

-- What the row function of an update has to do, where it raises nothing.
pub record IsStep (R : Run → Run → Type 0) (k : ℕ) (f : Run → Result Fault Run) : Type 0 where
  pub at :
      (r r' : Run) → r.id ≡ k → f r ≡ ok r' → (r'.id ≡ r.id) × R r r' × (IsSound r → IsSound r')

pub add_run-none :
    (r : Run) (db : Db)
    → find_run r.id db ≡ none
    → add_run r db ≡ (ok tt, record db { runs = db.runs ++ r ∷ [] })
unfolding add_run
add_run-none r db e = rw (e, add_run) refl

pub add_run-some :
    (r : Run) (db : Db) (x : Run)
    → find_run r.id db ≡ some x
    → add_run r db ≡ (err integrity_error, db)
unfolding add_run
add_run-some r db x e = rw (e, add_run) refl

pub update_run-none :
    (k : ℕ) (f : Run → Result Fault Run) (db : Db)
    → find_run k db ≡ none
    → update_run k f db ≡ (err no_result_found, db)
unfolding update_run one_run ◌>>=◌
update_run-none k f db e = rw (e, one_run) refl

pub update_run-some :
    (k : ℕ) (f : Run → Result Fault Run) (db : Db) (r : Run)
    → find_run k db ≡ some r
    → update_run k f db ≡ assign k (f r) db
unfolding update_run one_run assign ◌>>=◌
update_run-some k f db r e = rw (e, one_run) refl

one_run-state : (k : ℕ) (db : Db) → (one_run k db).1 ≡ db
unfolding one_run
one_run-state k db = ground arith

pub find_run-id : (k : ℕ) (db : Db) (r : Run) → find_run k db ≡ some r → r.id ≡ k
unfolding find_run
find_run-id k db r h = first-id k db.runs r h

module _ {R : Run → Run → Type 0} (o : IsRowOrder R) where
  pub Evolves-preorder : IsPreorder (Evolves R)
  Evolves-preorder = record {
    here = λ s. record { row = λ k r h. (r, h, o.same r); formed = λ w. w };
    next = λ s t u a b. record {
      row = λ k r h.
          let (r', h', x) = a.row k r h in
          let (r'', h'', y) = b.row k r' h' in (r'', h'', o.trans r r' r'' x y);
      formed = λ w. b.formed (a.formed w);
    };
  }

  -- An action that leaves the table of runs as it is.
  pub Evolves_of_same : (db db' : Db) → db'.runs ≡ db.runs → Evolves R db db'
  unfolding find_run
  Evolves_of_same db db' e = record {
    row = λ k r h. (r, ap (first (has_id k)) e ∙ h, o.same r);
    formed = λ w. subst IsWellFormed (sym e) w;
  }

  Evolves-assign :
      (k : ℕ) (db : Db) (r : Run) (res : Result Fault Run)
      → find_run k db ≡ some r
      → ((r' : Run) → res ≡ ok r' → (r'.id ≡ k) × R r r' × (IsSound r → IsSound r'))
      → Evolves R db (assign k res db).1
  unfolding assign find_run
  Evolves-assign k db r (err e) h step = Evolves-preorder.here db
  Evolves-assign k db r (ok r') h step =
      let (i, x', s) = step r' refl in
      record {
        row = λ j x hx. elim (ℕ_discrete k j) [
          | yes p ↦
              subst
                (λ i.
                  (y : Run)
                  → first (has_id i) db.runs ≡ some y
                  → (y' : Run) × (first (has_id i) (update (has_id k) (λ _. r') db.runs) ≡ some y')
                    × R y y')
                p
                (λ y hy. (
                  r',
                  find_run-update_self k r r' db.runs i h,
                  subst (λ z. R z r') (some-injective r y (sym h ∙ hy)) x',
                ))
                x hx
          | no n ↦ (x, find_run-update_ne k j r' db.runs i n ∙ hx, o.same x)
        ];
        formed = λ w. record {
          distinct = Distinct-update k r' db.runs i w.distinct;
          sound = IsSound-update k r' db.runs (s (first-All IsSound k db.runs r w.sound h)) w.sound;
        };
      }

  -- An update from a row of which more is known than that it is there.
  pub Evolves-update_run_at :
      (k : ℕ) (f : Run → Result Fault Run) (db : Db)
      → ((r r' : Run)
          → find_run k db ≡ some r
          → f r ≡ ok r'
          → (r'.id ≡ k) × R r r' × (IsSound r → IsSound r'))
      → Evolves R db (update_run k f db).1
  Evolves-update_run_at k f db step = elim (Option-cases (find_run k db)) [
    | inl e ↦ rw (update_run-none k f db e) (Evolves-preorder.here db)
    | inr (r, e) ↦
        rw (update_run-some k f db r e) (Evolves-assign k db r (f r) e (λ r' h. step r r' e h))
  ]

  pub Ensures-update_run :
      (k : ℕ) (f : Run → Result Fault Run) → IsStep R k f → Ensures (Evolves R) (update_run k f)
  Ensures-update_run k f step = record {
    at = λ db. Evolves-update_run_at k f db (λ r r' e h.
        let j = find_run-id k db r e in let (i, x, s) = step.at r r' j h in (i ∙ j, x, s));
  }

  pub Ensures-add_run : (r : Run) → IsSound r → Ensures (Evolves R) (add_run r)
  unfolding find_run
  Ensures-add_run r sound = record {
    at = λ db. elim (Option-cases (find_run r.id db)) [
      | inl e ↦ rw (add_run-none r db e) (record {
        row = λ k x h. (x, first-append (has_id k) db.runs _ x h, o.same x);
        formed = λ w. record {
          distinct = Distinct-append r db.runs e w.distinct;
          sound = All-append IsSound r db.runs sound w.sound;
        };
      })
      | inr (x, e) ↦ rw (add_run-some r db x e) (Evolves-preorder.here db)
    ];
  }

  pub Ensures-one_run : (k : ℕ) → Ensures (Evolves R) (one_run k)
  Ensures-one_run k = record {
    at = λ db. Evolves_of_same db _ (ap (λ (s : Db). s.runs) (one_run-state k db));
  }

  pub Ensures-read_host : {A : Type 0} (f : ℕ → A) → Ensures (Evolves R) (read_host f)
  unfolding read_host
  Ensures-read_host f = record { at = λ db. Evolves_of_same db _ refl }

  pub Ensures-add_step : (s : Step) → Ensures (Evolves R) (add_step s)
  unfolding add_step
  Ensures-add_step s = record { at = λ db. Evolves_of_same db _ refl }

  pub Ensures-add_worker : (w : RuntimeWorker) → Ensures (Evolves R) (add_worker w)
  unfolding add_worker
  Ensures-add_worker w = record { at = λ db. Evolves_of_same db _ refl }

  pub Ensures-add_event : (e : Event) → Ensures (Evolves R) (add_event e)
  unfolding add_event
  Ensures-add_event e = record { at = λ db. Evolves_of_same db _ refl }

  pub Ensures-update_worker :
      (w : String) (f : RuntimeWorker → RuntimeWorker) → Ensures (Evolves R) (update_worker w f)
  unfolding update_worker
  Ensures-update_worker w f = record { at = λ db. Evolves_of_same db _ refl }
