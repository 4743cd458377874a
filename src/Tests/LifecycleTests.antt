-- ===== src/Tests/LifecycleTests.antt =====
-- Attempts at transitions of a job at concrete inputs.
use xyn.Base.{String, ◌≡◌, refl, true, Option, none, some, List, [], ◌∷◌, ◌++◌}
use xyn.Base.Exec.{ok}
use xyn.Base.Dict.{lookup}
use xyn.Base.Text.{strip, lstrip, rstrip, lower, is_space}
use xyn.Lifecycle.Definitions.{job_lifecycle, compat_fallback_definitions, member, targets, allows}
use xyn.Lifecycle.Service.{
  LifecycleTransition, ModelObject, Particulars, get_lifecycle_definition, normalize_state,
}
use xyn.Lifecycle.Chain.{
  Attempt, IsNormal, IsChain, after_attempt, after_attempts, attempts-IsChain, attempts-terminal,
}
use xyn.Lifecycle.Recorded.{attempt-records}

abbrev nothing_given : Particulars
nothing_given = record {
  workspace_id = none;
  actor = none;
  reason = none;
  metadata = [];
  correlation_id = none;
  run_id = none;
}

abbrev to_running : Attempt
to_running = record {
  object_type = "job";
  next_state = some " Running ";
  given = nothing_given;
  now = 5;
}

abbrev job : Option String → ModelObject
job status = record { id = "j1"; workspace_id = none; status = status }

job_known :
    get_lifecycle_definition compat_fallback_definitions (lower (strip "job")) ≡ ok job_lifecycle
unfolding get_lifecycle_definition lookup lower strip lstrip rstrip is_space
job_known = refl

normal : IsNormal (some "queued") × IsNormal (some "succeeded")
unfolding normalize_state lower strip lstrip rstrip is_space
normal = (refl, refl)

asked : normalize_state to_running.next_state ≡ some "running"
unfolding normalize_state lower strip lstrip rstrip is_space
asked = refl

may_run : allows job_lifecycle (some "queued") "running" ≡ true
unfolding allows targets member lookup
may_run = refl

no_more : targets job_lifecycle "succeeded" ≡ []
unfolding targets lookup
no_more = refl

attempts-IsChain_example :
    (rows : List LifecycleTransition) × ((after_attempts compat_fallback_definitions "job"
        (to_running ∷ [])
        ([], job (some "queued"))).0
      ≡ [] ++ rows)
    × IsChain job_lifecycle
        (some "queued")
        rows
        (after_attempts compat_fallback_definitions "job"
          (to_running ∷ [])
          ([], job (some "queued"))).1.status
attempts-IsChain_example =
    attempts-IsChain compat_fallback_definitions "job" job_lifecycle job_known (to_running ∷ []) []
      (job (some "queued")) normal.0

attempts-terminal_example :
    after_attempts compat_fallback_definitions "job" (to_running ∷ []) ([], job (some "succeeded"))
    ≡ ([], job (some "succeeded"))
attempts-terminal_example =
    attempts-terminal compat_fallback_definitions "job" job_lifecycle job_known (to_running ∷ []) []
      (job (some "succeeded")) "succeeded" normal.1 refl no_more

named : (((lower (strip "job")) ≡ "job") × (strip "j1" ≡ "j1"))
unfolding lower strip lstrip rstrip is_space
named = (refl, refl)

attempt-records_example :
    (row : LifecycleTransition) × (row.from_state ≡ some "queued")
    × (row.to_state ≡ "running")
    × (after_attempt compat_fallback_definitions "job" to_running ([], job (some "queued"))
        ≡ ([] ++ row ∷ [], job (some "running")))
unfolding lower strip lstrip rstrip is_space
attempt-records_example =
    attempt-records compat_fallback_definitions "job" job_lifecycle job_known to_running
      (job (some "queued")) "running" [] normal.0 refl refl asked may_run
