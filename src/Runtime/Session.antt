-- ===== src/Runtime/Session.antt =====
-- A database session of the runtime, what it reads of the host, and the errors that end a call.
use mathlib.Core.Option
use xyn.Base.{ℕ, suc, ◌*◌, String, ◌≡◌, Bool, Option, none, some, List, [], ◌∷◌, ◌++◌, ◌==◌, ◌=?◌}
use xyn.Base.Exec.{Result, ok, err, Exec, modify, ◌>>=◌}
use xyn.Base.Table.{first, update}
use xyn.Runtime.Models.{RunStatus, StepStatus, Run, Step, RuntimeWorker, Event}

-- What the operating system and the Python library supply. A reading is numbered, so that two
-- readings may differ. `parse_uuid` is `uuid.UUID`, and `uuid_text` is `str` of an identifier.
pub record Host : Type 0 where
  pub utcnow : ℕ → ℕ
  pub uuid4 : ℕ → ℕ
  pub codex_available : ℕ → Bool
  pub parse_uuid : String → Option ℕ
  pub uuid_text : ℕ → String
  pub parse_uuid-uuid_text : (u : ℕ) → parse_uuid (uuid_text u) ≡ some u

pub record Db : Type 0 where
  pub runs : List Run
  pub steps : List Step
  pub workers : List RuntimeWorker
  pub events : List Event
  pub reads : ℕ  -- readings of the host so far

pub data Fault : Type 0 where
  no_result_found : Fault
  invalid_run_status_transition : RunStatus → RunStatus → Fault
  invalid_step_status_transition : StepStatus → StepStatus → Fault
  invalid_step_status invalid_uuid : String → Fault
  validation_error integrity_error : Fault
  http_exception : ℕ → Fault
  not_assigned : Fault

abbrev pub M : Type 0 → Type 0
M A = Exec Fault Db A

-- `timedelta(seconds=n)`
abbrev pub seconds : ℕ → ℕ
seconds n = n * 1_000_000

module _ {A : Type 0} (reading : ℕ → A) where
  unfoldable pub read_host : M A
  read_host db = (ok (reading db.reads), record db { reads = suc db.reads })

abbrev pub has_id : ℕ → Run → Bool
has_id k r = r.id == k

unfoldable pub find_run : ℕ → Db → Option Run
find_run k db = first (has_id k) db.runs

-- `query(Run).filter(Run.id == k).one()`
unfoldable pub one_run : ℕ → M Run
one_run k db = elim (find_run k db) [ none ↦ (err no_result_found, db) | some r ↦ (ok r, db) ]

-- Assigns to the row that `one_run` finds, and returns it. An assignment that raises changes nothing.
unfoldable pub assign : ℕ → Result Fault Run → M Run
assign k (err e) db = (err e, db)
assign k (ok r) db = (ok r, record db { runs = update (has_id k) (λ _. r) db.runs })

unfoldable pub update_run : ℕ → (Run → Result Fault Run) → M Run
update_run k f = one_run k >>= λ r. assign k (f r)

-- An identifier that is taken violates the primary key.
unfoldable pub add_run : Run → M (Unit {0})
add_run r db = elim (find_run r.id db) [
  | some old ↦ (err integrity_error, db)
  | none ↦ (ok tt, record db { runs = db.runs ++ r ∷ [] })
]

unfoldable pub add_step : Step → M (Unit {0})
add_step s = modify (λ db. record db { steps = db.steps ++ s ∷ [] })

unfoldable pub add_worker : RuntimeWorker → M (Unit {0})
add_worker w = modify (λ db. record db { workers = db.workers ++ w ∷ [] })

unfoldable pub add_event : Event → M (Unit {0})
add_event e = modify (λ db. record db { events = db.events ++ e ∷ [] })

abbrev pub has_worker_id : String → RuntimeWorker → Bool
has_worker_id w row = row.worker_id =? w

unfoldable pub find_worker : String → Db → Option RuntimeWorker
find_worker w db = first (has_worker_id w) db.workers

-- Assigns to a worker's row if there is one, and returns it.
unfoldable pub update_worker : String → (RuntimeWorker → RuntimeWorker) → M (Option RuntimeWorker)
update_worker w f db = (
  ok (Option.map f (find_worker w db)),
  record db { workers = update (has_worker_id w) f db.workers },
)
