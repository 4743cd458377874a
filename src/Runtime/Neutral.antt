-- ===== src/Runtime/Neutral.antt =====
-- Actions on events and workers leave every run as it is.
use xyn.Base.{ℕ, String, Option, none, some, List}
use xyn.Base.Exec.Ensures.{IsPreorder, Ensures, ensures_rules}
use xyn.Runtime.Models.{Run, RuntimeWorker, Datum}
use xyn.Runtime.Session.{Host}
use xyn.Runtime.Evolution.{
  Evolves, IsRowOrder, Evolves-preorder, Ensures-read_host, Ensures-add_worker, Ensures-add_event,
  Ensures-update_worker,
}
use xyn.Runtime.Events.{publish_runtime_event}
use xyn.Runtime.Workers.{
  heartbeat, mark_worker_busy, mark_worker_idle, register_worker, register_new, Driver, codex_local,
  can_accept, WorkerInfoPayload,
}
use xyn.Runtime.Runs.{release_worker}
use xyn.Runtime.Contract.{RunPayloadV1}

module _ {R : Run → Run → Type 0} (o : IsRowOrder R) (host : Host) where
  instance evolves_preorder : IsPreorder (Evolves R)
  evolves_preorder = Evolves-preorder o

  ruleset neutral = (
    ensures_rules, Ensures-read_host, Ensures-add_worker, Ensures-add_event, Ensures-update_worker,
  )

  pub publish-Ensures :
      (name : String) (run_id : ℕ) (step_id : Option ℕ) (actor : String) (c : Option String)
      (given : List (String × Datum))
      → Ensures (Evolves R) (publish_runtime_event host name run_id step_id actor c given)
  unfolding publish_runtime_event
  publish-Ensures name run_id step_id actor c given = search neutral

  pub heartbeat-Ensures : (w : String) → Ensures (Evolves R) (heartbeat host w)
  unfolding heartbeat
  heartbeat-Ensures w = search neutral

  pub mark_worker_busy-Ensures :
      (w : String) (k : ℕ) → Ensures (Evolves R) (mark_worker_busy host w k)
  unfolding mark_worker_busy
  mark_worker_busy-Ensures w k = search neutral

  pub mark_worker_idle-Ensures : (w : String) → Ensures (Evolves R) (mark_worker_idle host w)
  unfolding mark_worker_idle
  mark_worker_idle-Ensures w = search neutral

  pub release_worker-Ensures : (w : Option String) → Ensures (Evolves R) (release_worker host w)
  unfolding release_worker
  release_worker-Ensures none = search neutral
  release_worker-Ensures (some w) = search (neutral, mark_worker_idle-Ensures)

  register_new-Ensures :
      (i : WorkerInfoPayload) (w : Option RuntimeWorker)
      → Ensures (Evolves R) (register_new host i w)
  unfolding register_new
  register_new-Ensures i none = search neutral
  register_new-Ensures i (some w) = search neutral

  pub register_worker-Ensures :
      (i : WorkerInfoPayload) → Ensures (Evolves R) (register_worker host i)
  unfolding register_worker
  register_worker-Ensures i = search (neutral, register_new-Ensures)

  pub can_accept-Ensures :
      (d : Driver) (p : RunPayloadV1) → Ensures (Evolves R) (can_accept host d p)
  unfolding can_accept
  can_accept-Ensures codex_local p = search neutral
