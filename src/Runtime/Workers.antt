-- ===== src/Runtime/Workers.antt =====
-- core/runtime_workers.py: registration, heartbeats and health of workers, and the one driver.
use Prim.Native.Nat.{Ordering}
use Prim.Native.String.{compare}
use xyn.Base.{
  ℕ, ◌-◌, String, Bool, true, false, not, ◌&&◌, Option, none, some, List, [], leb, ◌=?◌,
  if◌then◌else◌,
}
use xyn.Base.Exec.{pure, gets, ◌>>=◌, ◌>>◌}
use xyn.Base.Sort.{sort_by}
use xyn.Base.Table.{select}
use xyn.Base.Text.{strip}
use xyn.Runtime.Contract.{RunPayloadV1}
use xyn.Runtime.Models.{RuntimeWorkerStatus, idle, busy, offline, RuntimeWorker}
use xyn.Runtime.Session.{Host, Db, M, seconds, read_host, find_worker, add_worker, update_worker}

abbrev pub default_health_window_seconds : ℕ
default_health_window_seconds = 90

pub record WorkerInfoPayload : Type 0 where
  pub worker_id : String
  pub worker_type : String
  pub runtime_environment : String
  pub status : RuntimeWorkerStatus
  pub last_heartbeat : ℕ
  pub capabilities : List String

abbrev pub is_offline : RuntimeWorkerStatus → Bool
is_offline offline = true
is_offline _ = false

abbrev pub is_idle : RuntimeWorkerStatus → Bool
is_idle idle = true
is_idle _ = false

-- `_DRIVERS` holds `CodexLocalWorkerDriver` alone.
pub data Driver : Type 0 where
  codex_local : Driver

unfoldable pub get_worker_driver : String → Option Driver
get_worker_driver worker_type =
    if strip worker_type =? "codex_local" then some codex_local else none

unfoldable pub healthy : String → ℕ → RuntimeWorker → Bool
healthy worker_type threshold row =
    (row.worker_type =? worker_type)
    && not (is_offline row.status)
    && leb threshold row.last_heartbeat

-- `worker_id ASC`
unfoldable pub by_worker_id : RuntimeWorker → RuntimeWorker → Bool
by_worker_id a b = elim (compare a.worker_id b.worker_id) [ Ordering.gt ↦ false | _ ↦ true ]

unfoldable pub list_healthy_workers : String → ℕ → ℕ → Db → List RuntimeWorker
list_healthy_workers worker_type current heartbeat_timeout_seconds db =
    sort_by by_worker_id
      (select (healthy worker_type (current - seconds heartbeat_timeout_seconds)) db.workers)

-- The fields that a registration writes, on a new row and on an old one.
unfoldable pub registered : WorkerInfoPayload → RuntimeWorker → RuntimeWorker
registered info row = record row {
  worker_type = info.worker_type;
  runtime_environment = info.runtime_environment;
  status = info.status;
  last_heartbeat = info.last_heartbeat;
  capabilities_json = info.capabilities;
}

unfoldable pub beat : ℕ → RuntimeWorker → RuntimeWorker
beat now row = record row {
  last_heartbeat = now;
  status = if is_offline row.status then idle else row.status;
}

unfoldable pub busy_with : ℕ → ℕ → RuntimeWorker → RuntimeWorker
busy_with run_id now row = record row {
  status = busy;
  active_run_id = some run_id;
  last_heartbeat = now;
}

unfoldable pub released : Bool → ℕ → RuntimeWorker → RuntimeWorker
released available now row = record row {
  status = if (row.worker_type =? "codex_local") && not available then offline else idle;
  active_run_id = none;
  last_heartbeat = now;
}

module _ (host : Host) where
  unfoldable pub can_accept : Driver → RunPayloadV1 → M Bool
  can_accept codex_local payload = do
    available ← read_host host.codex_available
    pure ((payload.worker_type =? "codex_local") && available)

  unfoldable pub register_new : WorkerInfoPayload → Option RuntimeWorker → M (Unit {0})
  register_new info none = do
    id ← read_host host.uuid4
    add_worker (record {
      id = id;
      worker_id = info.worker_id;
      worker_type = info.worker_type;
      runtime_environment = info.runtime_environment;
      status = idle;
      last_heartbeat = info.last_heartbeat;
      capabilities_json = [];
      active_run_id = none;
    })
  register_new info (some row) = pure tt

  unfoldable pub register_worker : WorkerInfoPayload → M (Option RuntimeWorker)
  register_worker info = do
    row ← gets (find_worker info.worker_id)
    register_new info row
    update_worker info.worker_id (registered info)

  unfoldable pub heartbeat : String → M (Option RuntimeWorker)
  heartbeat worker_id = do now ← read_host host.utcnow; update_worker worker_id (beat now)

  unfoldable pub mark_worker_busy : String → ℕ → M (Option RuntimeWorker)
  mark_worker_busy worker_id run_id = do
    now ← read_host host.utcnow
    update_worker worker_id (busy_with run_id now)

  unfoldable pub mark_worker_idle : String → M (Option RuntimeWorker)
  mark_worker_idle worker_id = do
    available ← read_host host.codex_available
    now ← read_host host.utcnow
    update_worker worker_id (released available now)
