-- ===== src/Runtime/Leaves.antt =====
-- Actions that return, and the row that they leave in the table.
use xyn.Base.{
  ℕ, String, ◌≡◌, refl, sym, ap, ◌∙◌, Option, none, some, List, ◌=?◌, Bool-cases, inl, inr,
}
use xyn.Base.Exec.{ok, ◌>>=◌}
use xyn.Runtime.Models.{Run, Datum}
use xyn.Runtime.Session.{Host, Db, M, find_run, update_run, assign, read_host, add_event}
use xyn.Runtime.Session.{update_worker}
use xyn.Runtime.Workers.{mark_worker_idle}
use xyn.Runtime.Rows.{find_run-update_self}
use xyn.Runtime.Evolution.{IsRowOrder, update_run-some}
use xyn.Runtime.Neutral.{publish-Ensures, release_worker-Ensures}
use xyn.Runtime.Events.{publish_runtime_event}
use xyn.Runtime.Runs.{release_worker}

abbrev pub same_order : IsRowOrder (λ r r'. r ≡ r')
same_order = record { same = λ r. refl; trans = λ r s t p q. p ∙ q }

-- An action that returns goes on with what it returned.
pub bind-ok :
    {A B : Type 0} (m : M A) (f : A → M B) (db : Db) (a : A)
    → (m db).0 ≡ ok a
    → (m >>= f) db ≡ f a (m db).1
unfolding ◌>>=◌
bind-ok m f db a e = rw e refl

-- The action returns `a`, and leaves `r` as the row `k`.
abbrev pub Leaves : {A : Type 0} → Db → M A → A → ℕ → Run → Type 0
Leaves db m a k r = ((m db).0 ≡ ok a) × (find_run k (m db).1 ≡ some r)

pub update_run-Leaves :
    (k : ℕ) (g : Run → Run) (db : Db) (r : Run)
    → find_run k db ≡ some r
    → (g r).id ≡ k
    → Leaves db (update_run k (λ x. ok (g x))) (g r) k (g r)
unfolding assign find_run
update_run-Leaves k g db r f i =
    rw (update_run-some k (λ x. ok (g x)) db r f) (refl, find_run-update_self k r (g r) db.runs i f)

pub then-Leaves :
    {A B : Type 0} (m : M A) (f : A → M B) (db : Db) (a : A) (b : B) (k : ℕ) (r s : Run)
    → Leaves db m a k r
    → (find_run k (m db).1 ≡ some r → Leaves (m db).1 (f a) b k s)
    → Leaves db (m >>= f) b k s
then-Leaves m f db a b k r s (e, h) rest = rw (bind-ok m f db a e) (rest h)

module _ (host : Host) where
  pub publish-Leaves :
      (name : String) (j : ℕ) (step_id : Option ℕ) (actor : String) (c : Option String)
      (given : List (String × Datum)) (db : Db) (k : ℕ) (r : Run)
      → find_run k db ≡ some r
      → Leaves db (publish_runtime_event host name j step_id actor c given) tt k r
  unfolding publish_runtime_event ◌>>=◌ read_host add_event
  publish-Leaves name j step_id actor c given db k r f =
      let (r', f', e) =
        ((publish-Ensures same_order host name j step_id actor c given).at db).row k r f in
      (published, f' ∙ ap some (sym e))
    where
      published : (publish_runtime_event host name j step_id actor c given db).0 ≡ ok tt
      published = refl

  release-ok : (w : Option String) (db : Db) → (release_worker host w db).0 ≡ ok tt
  unfolding release_worker ◌>>=◌ mark_worker_idle read_host update_worker
  release-ok none db = refl
  release-ok (some w) db = elim (Bool-cases (w =? "")) [ inl e ↦ rw e refl | inr e ↦ rw e refl ]

  pub release-Leaves :
      (w : Option String) (db : Db) (k : ℕ) (r : Run)
      → find_run k db ≡ some r
      → Leaves db (release_worker host w) tt k r
  release-Leaves w db k r f =
      let (r', f', e) = ((release_worker-Ensures same_order host w).at db).row k r f in
      (release-ok w db, f' ∙ ap some (sym e))
