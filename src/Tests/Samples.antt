-- ===== src/Tests/Samples.antt =====
-- A host that reads in order, and a small table of runs and workers.
use Prim.Native.String as Str
use xyn.Base.{ℕ, zero, suc, ◌+◌, String, ◌≡◌, refl, ap, true, Option, none, some, [], ◌∷◌}
use xyn.Runtime.Contract.{RunPayloadV1}
use xyn.Runtime.Models.{running, completed, Run, RuntimeWorker, idle}
use xyn.Runtime.Session.{Host, Db}
use xyn.Runtime.Runs.{new_run}

abbrev pub copies : ℕ → String
copies zero = ""
copies (suc n) = Str.◌∷◌ (Prim.Native.Char.char 117 tt) (copies n)

abbrev pub text_length : String → ℕ
text_length Str.[] = 0
text_length (Str.◌∷◌ c s) = suc (text_length s)

pub text_length-copies : (n : ℕ) → ◌≡◌ {A = Option ℕ} (some (text_length (copies n))) (some n)
text_length-copies zero = refl
text_length-copies (suc n) =
    ap (λ (o : Option ℕ). elim o [ none ↦ none | some k ↦ some (suc k) ]) (text_length-copies n)

abbrev pub host : Host
host = record {
  utcnow = λ n. 1000 + n;
  uuid4 = λ n. 50 + n;
  codex_available = λ n. true;
  parse_uuid = λ s. some (text_length s);
  uuid_text = copies;
  parse_uuid-uuid_text = text_length-copies;
}

abbrev pub payload : RunPayloadV1
payload = record {
  schema_version = "v1";
  run_id = "uuu";
  work_item_id = "wi-1";
  worker_type = "codex_local";
  target = record { repo = "xyn"; branch = none; workspace_id = none; artifact_id = none };
  prompt = record { title = "Fix"; body = "Fix it" };
  context = record { epic_id = none; attachments = []; thread_id = none };
  policy = record {
    auto_continue = true;
    max_retries = 1;
    require_human_review_on_failure = true;
    timeout_seconds = none;
  };
  requested_outputs = "patch" ∷ [];
}

abbrev pub queued_run : Run
queued_run = new_run payload "api" 3 "c" 10 10 10

abbrev pub running_run : Run
running_run = record queued_run {
  status = running;
  locked_by = some "w1";
  lease_expires_at = some 500;
  heartbeat_at = some 100;
  started_at = some 90;
  attempt = 1;
}

abbrev pub completed_run : Run
completed_run = record running_run { status = completed; completed_at = some 700 }

abbrev pub worker : RuntimeWorker
worker = record {
  id = 1;
  worker_id = "w1";
  worker_type = "codex_local";
  runtime_environment = "local";
  status = idle;
  last_heartbeat = 1000;
  capabilities_json = [];
  active_run_id = none;
}

abbrev pub db_with : Run → Db
db_with run = record { runs = run ∷ []; steps = []; workers = worker ∷ []; events = []; reads = 0 }

abbrev pub invalid_run : Run
invalid_run = record queued_run { prompt_payload = none }
