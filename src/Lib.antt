-- ===== src/Lib.antt =====
-- A model of the core of xyn: the runs of the runtime, their queue, their workers and their leases, the
-- lifecycle primitive, the check of capabilities, the planning and application of releases, the execution
-- of a run by the local Codex worker, and the repositories it works on.
--
-- Base holds what the components share: Text (strip and lower of Python), Exec (actions on a database
-- session that may raise, and rules for what an action ensures), Table (the queries that find, select
-- and update rows), Json (values of json.loads), Dict (dictionaries with text keys), Sort (ORDER BY and
-- sorted), and tests on numbers and texts.
--
-- Runtime models core/runtime_execution.py and what it calls.
--   Models, Contract: the rows of core/models.py and the payload of core/runtime_contract.py.
--   Session: the state `Db` of a database session (the tables runs, steps, runtime_workers and events,
--     and a count of the readings of clock, uuid4 and Codex availability), the exceptions `Fault`, and
--     the queries for one row. What the host supplies is the record `Host`, a parameter: its readings
--     are functions of the count, and its one law is that uuid.UUID reads back what str has written.
--   Transitions: RUN_STATUS_TRANSITIONS, STEP_STATUS_TRANSITIONS and the functions that check them.
--   Workers, Events: core/runtime_workers.py and core/runtime_events.py.
--   Queue: dispatch_queued_run. Runs: create, submit, retry, complete, fail, pause, continue and
--     heartbeat. Stale: handle_stale_heartbeats. Steps: report_run_step.
--   Leases: claim_run and renew_lease of core/worker.py. The SQL statement is one update of the rows
--     that the inner query selects; SKIP LOCKED is the parameter `skipped`.
--   CodexWorker: what core/codex_local_worker.py does to the database, and snapshot_run.
--   Api: the routes of core/api/runs.py that change a run.
--   Artifacts: the session of a worker, with the artifacts of runs and what is committed. CodexHost:
--     what is asked of Codex, git and the validation, a parameter. CodexRun: the five steps of
--     execute_codex_local_run. CodexOutcome: its except clauses, _handle_failure,
--     execute_assigned_run and process_runtime_cycle. CodexKeeps, CodexSettles, CodexVerdict and
--     CodexEnds are about them. The object store is a parameter that may refuse an artifact.
--   History: sequences of the calls of the routes on a run, of a worker for its run, of the watch, the
--     dispatch and the lease queue, and of _mark_blocked and _handle_failure for a run that is running,
--     as a relation on databases. Not in it are the ends of a run that is no longer running, the route
--     create_run, which runs the demo executor, and the blueprint runner.
--   Rows, Evolution, Neutral, Flow, Operations, StaleFlow, StaleLoop, LeaseFlow, EndFlow, ApiFlow carry
--     the proof that each call moves runs along the table; Reached draws the conclusions for histories.
--     Exclusive, Dispatch, QueueOrder, StepFlow, Leaves, Verdict, Outcomes, Endings and Retry are about
--     single calls.
--
-- Lifecycle models core/lifecycle: Definitions, Service, and in Chain and Recorded the history that a
-- sequence of attempts leaves. The registered definitions are a parameter, since an installed platform
-- package may replace the ones of core.
--
-- Access models core/access_control.py: Roles and Control, with Grants and Refusal about them.
--
-- Releases models core/releases and the planning and applying routes of core/api/releases.py.
--   Spec: the release spec and the runtime spec, as records. Compiler, Renderer, K8s: compiler.py,
--     compose_renderer.py and k8s_backend.py. Plan: _diff_actions, with the equality of Equality.
--   Store: store.py, a directory being the list of what it holds. Api, Apply: the routes. Reconciler:
--     a round of reconciler.py. docker compose, the validation against the contract schemas, uuid4 and
--     the clocks are the records `ReleaseHost` and `LoopHost`, parameters.
--   Compiled, Rendered, PlanDiff, Changes, Saved, Published, Applied, Reconciled are about these.
--
-- Repos models core/repo_resolver.py (Resolver, and Targets for the inspection of the map), with
-- `Workspace` for the environment and the file system, a parameter, and in Bounds
-- core/source_tree_bounds.py. Resolved and Warned are about the resolver. Jobs models
-- core/job_pipeline/stage_contracts.py.
--
-- Config models the providers of models in core/env_config.py, the environment being a dictionary of its
-- variables: Ai, with Consistent and Aliases about it.
--
-- Tests holds sample data and the theorems at concrete inputs.
--
-- Identifiers, and points in time in microseconds, are natural numbers; a time before the start of the
-- count is the start. Every loop is structural recursion, so no definition needs fuel. Case mappings
-- outside ASCII are not modelled. A session is one sequence of calls: concurrent transactions are seen
-- as some order of them. Numbers in JSON are natural. Not modelled are the bytes of artifacts in the
-- object store, the resolution of artifact references in a release spec before it is planned, Codex
-- itself, the polling loops, routes that only read, and the texts of error messages.
pub mod Base
pub mod Runtime
pub mod Lifecycle
pub mod Access
pub mod Releases
pub mod Repos
pub mod Jobs
pub mod Config
pub mod Tests
