-- ===== src/Runtime/Events.antt =====
-- core/runtime_events.py: an event is recorded with what is known of its run.
use xyn.Base.{ℕ, String, Option, none, some, List, [], ◌∷◌}
use xyn.Base.Dict.{merge}
use xyn.Base.Exec.{gets, ◌>>=◌}
use xyn.Runtime.Contract.{RunPayloadV1}
use xyn.Runtime.Models.{
  RunStatus, queued, created, running, completed, failed, blocked, cancelled, Run, Datum, null,
  text, uuid,
}
use xyn.Runtime.Session.{Host, M, read_host, find_run, add_event}

-- `RunStatus.value`
unfoldable pub status_value : RunStatus → String
status_value queued = "queued"
status_value created = "created"
status_value running = "running"
status_value completed = "completed"
status_value failed = "failed"
status_value blocked = "blocked"
status_value cancelled = "cancelled"

unfoldable pub text_or_null : Option String → Datum
text_or_null none = null
text_or_null (some s) = text s

-- A `prompt_payload` that is no payload has no `target` and no `context`.
payload_text : (RunPayloadV1 → Option String) → Option RunPayloadV1 → Datum
payload_text f none = null
payload_text f (some p) = text_or_null (f p)

unfoldable pub run_context : Option Run → List (String × Datum)
unfolding payload_text text_or_null status_value
run_context none = []
run_context (some run) =
    let of_payload = λ (f : RunPayloadV1 → Option String). payload_text f run.prompt_payload in
    ("run_id", uuid run.id)
    ∷ ("work_item_id", text_or_null run.work_item_id)
    ∷ ("worker_type", text_or_null run.worker_type)
    ∷ ("status", text (status_value run.status))
    ∷ ("workspace_id", of_payload (λ p. p.target.workspace_id))
    ∷ ("thread_id", of_payload (λ p. p.context.thread_id))
    ∷ ("artifact_id", of_payload (λ p. p.target.artifact_id))
    ∷ ("repo", of_payload (λ p. some p.target.repo))
    ∷ ("branch", of_payload (λ p. p.target.branch))
    ∷ ("epic_id", of_payload (λ p. p.context.epic_id))
    ∷ []

module _ (host : Host) where
  unfoldable pub publish_runtime_event :
      String → ℕ → Option ℕ → String → Option String → List (String × Datum) → M (Unit {0})
  publish_runtime_event event_name run_id step_id actor correlation_id given = do
    run ← gets (find_run run_id)
    id ← read_host host.uuid4
    now ← read_host host.utcnow
    add_event (record {
      id = id;
      event_name = event_name;
      occurred_at = now;
      env_id = "local-dev";
      actor = actor;
      correlation_id = correlation_id;
      run_id = run_id;
      step_id = step_id;
      event_data = merge (run_context run) given;
    })
