-- ===== src/Runtime/StaleLoop.antt =====
-- `handle_stale_heartbeats` moves every run along the edges of the table of transitions.
use xyn.Base.{ℕ, ◌-◌, ◌≡◌, sym, ◌∙◌, true, some, List, [], ◌∷◌, arith}
use xyn.Base.Exec.{◌>>=◌}
use xyn.Base.Sort.{All, All-mono}
use xyn.Base.Table.{select}
use xyn.Runtime.Models.{running, Run}
use xyn.Runtime.Session.{Host, Db, seconds, find_run}
use xyn.Runtime.Evolution.{Evolves, find_run-id}
use xyn.Runtime.Flow.{Moves, moves_preorder}
use xyn.Runtime.Stale.{is_stale, stale_loop, handle_stale_heartbeats}
use xyn.Runtime.Rows.{Distinct, NotIn, find_run-Distinct, select-All, select-Distinct}
use xyn.Runtime.StaleFlow.{bind_at, OthersKept, handle_stale_run-Others, handle_stale_run-Moves}

-- The runs that are left in the loop are there, and still running.
abbrev Pending : Db → List Run → Type 0
Pending db = All (λ run. (r : Run) × (find_run run.id db ≡ some r) × (r.status ≡ running))

Pending-Evolves :
    {db db' : Db} (k : ℕ) (runs : List Run)
    → Evolves (OthersKept k) db db'
    → NotIn k runs
    → Pending db runs
    → Pending db' runs
Pending-Evolves k [] g n p = tt
Pending-Evolves {db} k (x ∷ xs) g n ((r, e, s), p) =
    let (r', e', o) = g.row x.id r e in
    ((r', e', o.1 (λ q. n.0 (sym (find_run-id x.id db r e) ∙ q)) ∙ s), Pending-Evolves k xs g n.1 p)

module _ (host : Host) (current : ℕ) where
  stale_loop-Moves :
      (runs : List Run) (db : Db)
      → Distinct runs
      → Pending db runs
      → Evolves Moves db (stale_loop host current runs db).1
  unfolding stale_loop
  stale_loop-Moves [] db d p = moves_preorder.here db
  stale_loop-Moves (x ∷ xs) db d ((r, e, s), p) =
      bind_at moves_preorder _ _ db (handle_stale_run-Moves host current x db r e s) (λ _.
        bind_at moves_preorder _ _ _
          (stale_loop-Moves xs _ d.1
            (Pending-Evolves x.id xs ((handle_stale_run-Others host current x).at db) d.0 p))
          (λ _. moves_preorder.here _))

stale_running : (t : ℕ) (run : Run) → is_stale t run ≡ true → run.status ≡ running
unfolding is_stale
stale_running t run h = ground arith

module _ (host : Host) (current : ℕ) where
  -- Handling the stale runs moves every run along the edges of the table, if identifiers are unique.
  pub handle_stale_heartbeats-Moves :
      (seconds_ : ℕ) (db : Db)
      → Distinct db.runs
      → Evolves Moves db (handle_stale_heartbeats host current seconds_ db).1
  unfolding handle_stale_heartbeats ◌>>=◌ find_run
  handle_stale_heartbeats-Moves seconds_ db d =
      let stale = is_stale (current - seconds seconds_) in
      stale_loop-Moves host current (select stale db.runs) db (select-Distinct stale db.runs d) (
        All-mono _ _ (select stale db.runs)
          (λ x h. (x, h.0, stale_running (current - seconds seconds_) x h.1))
          (select-All _ stale db.runs (find_run-Distinct db.runs d)))
