-- ===== src/Runtime/Operations.antt =====
-- Which runs an operation may touch, and how: each operation, whether it returns or raises, moves
-- every run along the edges of the table of transitions.
use xyn.Base.{refl, Option-cases, ℕ, String, Option, none, some, List, [], ◌∷◌, inl, inr}
use xyn.Base.Exec.Ensures.{Ensures, Ensures-bind, Ensures-lift, ensures_rules}
use xyn.Runtime.Contract.{RunPayloadV1}
use xyn.Runtime.Models.{Run, RuntimeWorker}
use xyn.Runtime.Session.{Host, M}
use xyn.Runtime.Evolution.{
  Evolves, Ensures-update_run, Ensures-add_run, Ensures-one_run, Ensures-read_host,
  Ensures-add_step, Ensures-add_worker, Ensures-add_event, Ensures-update_worker,
}
use xyn.Runtime.Neutral.{
  publish-Ensures, heartbeat-Ensures, mark_worker_busy-Ensures, release_worker-Ensures,
  can_accept-Ensures,
}
use xyn.Runtime.Flow.{Moves, moves_order, moves_preorder, steps_on}
use xyn.Runtime.Workers.{Driver}
use xyn.Runtime.Runs.{
  new_run, parse_run_id, create_runtime_run, submit_found, submit_runtime_run, retry_runtime_run,
  complete_run, fail_run, request_pause_run, continue_blocked_run, record_heartbeat_of,
  record_run_heartbeat,
}
use xyn.Runtime.Queue.{start_on, try_worker, try_driver, dispatch_loop, dispatch_queued_run}
use xyn.Runtime.Rows.{IsSound, queued_run-IsSound}

pub ruleset session_rules = (
  ensures_rules, moves_order, Ensures-update_run, Ensures-add_run, Ensures-one_run,
  Ensures-read_host, Ensures-add_step, Ensures-add_worker, Ensures-add_event, Ensures-update_worker,
  steps_on,
)

abbrev pub IsMoving : {A : Type 0} → M A → Type 0
IsMoving m = Ensures (Evolves Moves) m

new_run-IsSound :
    (p : RunPayloadV1) (actor : String) (id : ℕ) (c : String) (q r t : ℕ)
    → IsSound (new_run p actor id c q r t)
unfolding new_run
new_run-IsSound p actor id c q r t = queued_run-IsSound (new_run p actor id c q r t) refl

module _ (host : Host) where
  pub complete_run-IsMoving : (k : ℕ) (s : Option String) → IsMoving (complete_run host k s)
  unfolding complete_run
  complete_run-IsMoving k s =
      search (session_rules, release_worker-Ensures, publish-Ensures) depth 8

  pub fail_run-IsMoving : (k : ℕ) (s f e : Option String) → IsMoving (fail_run host k s f e)
  unfolding fail_run
  fail_run-IsMoving k s f e =
      search (session_rules, release_worker-Ensures, publish-Ensures) depth 8

  pub request_pause_run-IsMoving :
      (k : ℕ) (actor : String) → IsMoving (request_pause_run host k actor)
  unfolding request_pause_run
  request_pause_run-IsMoving k actor = search (session_rules, publish-Ensures) depth 8

  pub continue_blocked_run-IsMoving :
      (k : ℕ) (actor : String) → IsMoving (continue_blocked_run host k actor)
  unfolding continue_blocked_run
  continue_blocked_run-IsMoving k actor = search session_rules depth 8

  parse_run_id-IsMoving : (p : RunPayloadV1) → IsMoving (parse_run_id host p)
  unfolding parse_run_id
  parse_run_id-IsMoving p = elim (Option-cases (host.parse_uuid p.run_id)) [
    | inl e ↦ rw (e, parse_run_id) (search session_rules)
    | inr (k, e) ↦ rw (e, parse_run_id) (search session_rules)
  ]

  pub create_runtime_run-IsMoving :
      (p : RunPayloadV1) (actor : String) → IsMoving (create_runtime_run host p actor)
  unfolding create_runtime_run
  create_runtime_run-IsMoving p actor =
      search (session_rules, parse_run_id-IsMoving, new_run-IsSound) depth 10

  submit_found-IsMoving :
      (p : RunPayloadV1) (actor : String) (o : Option Run) → IsMoving (submit_found host p actor o)
  unfolding submit_found
  submit_found-IsMoving p actor none = create_runtime_run-IsMoving p actor
  submit_found-IsMoving p actor (some r) = search session_rules

  pub submit_runtime_run-IsMoving :
      (p : RunPayloadV1) (actor : String) → IsMoving (submit_runtime_run host p actor)
  unfolding submit_runtime_run
  submit_runtime_run-IsMoving p actor =
      search (session_rules, parse_run_id-IsMoving, submit_found-IsMoving)

  pub retry_runtime_run-IsMoving :
      (k : ℕ) (actor : String) → IsMoving (retry_runtime_run host k actor)
  unfolding retry_runtime_run
  retry_runtime_run-IsMoving k actor = search (session_rules, submit_runtime_run-IsMoving)

  record_heartbeat_of-IsMoving :
      (w : String) (k : ℕ) (o : Option RuntimeWorker) (r : Option Run)
      → IsMoving (record_heartbeat_of host w k o r)
  unfolding record_heartbeat_of
  record_heartbeat_of-IsMoving w k (some o) (some r) = search (session_rules, publish-Ensures)
  record_heartbeat_of-IsMoving w k _ _ = search session_rules

  pub record_run_heartbeat-IsMoving :
      (w : String) (k : ℕ) → IsMoving (record_run_heartbeat host w k)
  unfolding record_run_heartbeat
  record_run_heartbeat-IsMoving w k =
      search (session_rules, heartbeat-Ensures, record_heartbeat_of-IsMoving)

  module _ (current timeout : ℕ) where
    start_on-IsMoving :
        (r : Run) (p : RunPayloadV1) (w : RuntimeWorker)
        → IsMoving (start_on host current timeout r p w)
    unfolding start_on
    start_on-IsMoving r p w =
        search (session_rules, mark_worker_busy-Ensures, publish-Ensures) depth 8

    try_worker-IsMoving :
        (r : Run) (p : RunPayloadV1) (w : Option RuntimeWorker) (rest : M (Option Run))
        → IsMoving rest
        → IsMoving (try_worker host current timeout r p w rest)
    unfolding try_worker
    try_worker-IsMoving r p none rest h = h
    try_worker-IsMoving r p (some w) rest h = start_on-IsMoving r p w

    try_driver-IsMoving :
        (r : Run) (p : RunPayloadV1) (d : Option Driver) (rest : M (Option Run))
        → IsMoving rest
        → IsMoving (try_driver host current timeout r p d rest)
    unfolding try_driver
    try_driver-IsMoving r p none rest h = h
    try_driver-IsMoving r p (some d) rest h =
        search (session_rules, can_accept-Ensures, try_worker-IsMoving)

    dispatch_loop-IsMoving : (runs : List Run) → IsMoving (dispatch_loop host current timeout runs)
    unfolding dispatch_loop
    dispatch_loop-IsMoving [] = search session_rules
    dispatch_loop-IsMoving (r ∷ runs) =
        Ensures-bind _ _ (Ensures-lift _)
          (λ p. try_driver-IsMoving r p _ _ (dispatch_loop-IsMoving runs))

    pub dispatch_queued_run-IsMoving : IsMoving (dispatch_queued_run host current timeout)
    unfolding dispatch_queued_run
    dispatch_queued_run-IsMoving = search (session_rules, dispatch_loop-IsMoving)
