-- ===== src/Runtime/Artifacts.antt =====
-- The session of a worker that executes a run: the database with its artifacts, and both as they were
-- last committed. `capture_run_artifact` of core/runtime_execution.py.
use xyn.Base.{Option, none, some, ℕ, String, Bool, true, List, [], ◌∷◌, ◌++◌, ◌=?◌, if◌then◌else◌}
use xyn.Base.Exec.{Result, ok, err, Exec, pure, raise, ◌>>=◌, ◌>>◌}
use xyn.Base.Text.Format.{concat}
use xyn.Runtime.Models.{text, uuid}
use xyn.Runtime.Session.{Host, Db, Fault, M, read_host}
use xyn.Runtime.Events.{publish_runtime_event}

-- The columns of an artifact that the runtime sets from the call; the bytes stay in the object store.
pub record RunArtifact : Type 0 where
  pub id : ℕ
  pub run_id : ℕ
  pub kind : String
  pub label : String
  pub file_name : String
  pub content : String
  pub created_at : ℕ

pub record Session : Type 0 where
  pub db : Db
  pub artifacts : List RunArtifact
  pub committed_db : Db
  pub committed_artifacts : List RunArtifact

-- What the execution of a run may raise.
pub data WorkerFault : Type 0 where
  database : Fault → WorkerFault
  blocked_run failed_run : String → String → WorkerFault
  timed_out crashed : String → WorkerFault
  unknown_artifact_type : WorkerFault
  unstored : String → WorkerFault

abbrev pub W : Type 0 → Type 0
W A = Exec WorkerFault Session A

abbrev pub raised : {A : Type 0} → Result Fault A → Result WorkerFault A
raised (ok a) = ok a
raised (err e) = err (database e)

-- A call on the database within the session.
unfoldable pub run_db : {A : Type 0} → M A → W A
run_db m session = let (r, db') = m session.db in (raised r, record session { db = db' })

-- `db.commit()`
unfoldable pub commit : W (Unit {0})
commit session =
    (ok tt, record session { committed_db = session.db; committed_artifacts = session.artifacts })

-- `db.rollback()`; what the host was asked stays asked.
unfoldable pub rollback : W (Unit {0})
rollback session = (
  ok tt,
  record session {
    db = record session.committed_db { reads = session.db.reads };
    artifacts = session.committed_artifacts;
  },
)

unfoldable pub add_artifact : RunArtifact → W (Unit {0})
add_artifact artifact session =
    (ok tt, record session { artifacts = session.artifacts ++ artifact ∷ [] })

unfoldable pub is_artifact_type : String → Bool
is_artifact_type kind =
    if kind =? "patch"
    then true
    else (if kind =? "log"
        then true
        else (if kind =? "report"
            then true
            else (if kind =? "code" then true else kind =? "summary")))

-- `_artifact_uri` of a file with a name.
unfoldable pub artifact_uri : Host → ℕ → String → String
unfolding concat
artifact_uri host run_id file_name =
    concat ("artifact://runs/" ∷ host.uuid_text run_id ∷ "/" ∷ file_name ∷ [])

-- The answer of the object store: nothing, or the text of what it raises.
abbrev pub stored : Option String → W (Unit {0})
stored none = pure tt
stored (some failure) = raise (unstored failure)

-- The object store is a parameter: how it answers to the identifier and the content of an artifact.
module _ (host : Host) (store_bytes : ℕ → ℕ → String → Option String) where
  unfoldable pub captured : ℕ → String → String → String → W (Unit {0})
  unfolding run_db add_artifact publish_runtime_event read_host artifact_uri
  captured run_id kind label content = do
    id ← run_db (read_host host.uuid4)
    answer ← run_db (read_host (λ n. store_bytes n id content))
    stored answer
    now ← run_db (read_host host.utcnow)
    add_artifact (record {
      id = id;
      run_id = run_id;
      kind = kind;
      label = label;
      file_name = label;
      content = content;
      created_at = now;
    })
    run_db (
        publish_runtime_event host "run.artifact.created" run_id none "runtime" none (
          ("artifact_id", uuid id)
          ∷ ("artifact_type", text kind)
          ∷ ("uri", text (artifact_uri host run_id label))
          ∷ ("label", text label)
          ∷ []))

  -- `capture_run_artifact`, whose callers name the file as they label the artifact.
  unfoldable pub capture_run_artifact : ℕ → String → String → String → W (Unit {0})
  unfolding is_artifact_type captured
  capture_run_artifact run_id kind label content =
      if is_artifact_type kind
      then captured run_id kind label content
      else raise unknown_artifact_type
