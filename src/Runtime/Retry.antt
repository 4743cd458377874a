-- ===== src/Runtime/Retry.antt =====
-- What `submit_runtime_run` and `retry_runtime_run` leave: a run is submitted once, and a retry is a
-- new run with the payload of the old one.
use xyn.Base.{
  arith, List, Option-cases, inl, inr, ℕ, suc, String, ◌≡◌, refl, ap, ◌∙◌, none, some, [], ◌∷◌,
  ◌++◌,
}
use xyn.Base.Exec.{Result, ok, Result-cases, ◌>>=◌}
use xyn.Base.Table.{first}
use xyn.Runtime.Contract.{RunPayloadV1}
use xyn.Runtime.Models.{queued, Run}
use xyn.Runtime.Session.{has_id, Fault, Host, Db, find_run, one_run, read_host}
use xyn.Runtime.Evolution.{add_run-none}
use xyn.Runtime.Queue.{model_validate}
use xyn.Runtime.Runs.{
  new_run, create_runtime_run, submit_found, submit_runtime_run, retry_runtime_run, parse_run_id,
}

-- A new run as it is created from a payload.
pub record IsFresh (id : ℕ) (payload : RunPayloadV1) (actor : String) (run : Run) : Type 0 where
  pub has_id : run.id ≡ id
  pub is_queued : run.status ≡ queued
  pub unowned : run.locked_by ≡ none
  pub no_attempt : run.attempt ≡ 0
  pub by_actor : run.actor ≡ actor
  pub carries : run.prompt_payload ≡ some payload

new_run-IsFresh :
    (payload : RunPayloadV1) (actor : String) (id : ℕ) (c : String) (q r t : ℕ)
    → IsFresh id payload actor (new_run payload actor id c q r t)
unfolding new_run
new_run-IsFresh payload actor id c q r t = record {
  has_id = refl;
  is_queued = refl;
  unowned = refl;
  no_attempt = refl;
  by_actor = refl;
  carries = refl;
}

first_appended :
    (id : ℕ) (r : Run) (rows : List Run)
    → r.id ≡ id
    → first (has_id id) rows ≡ none
    → first (has_id id) (rows ++ r ∷ []) ≡ some r
unfolding first
first_appended id r [] i n = ground arith
first_appended id r (x ∷ xs) i n = ground (arith, first_appended id r xs i)

module _ (host : Host) where
  parse-ok :
      (payload : RunPayloadV1) (id : ℕ) (db : Db)
      → host.parse_uuid payload.run_id ≡ some id
      → parse_run_id host payload db ≡ (ok id, db)
  unfolding parse_run_id
  parse-ok payload id db p = rw (p, parse_run_id) refl

  -- The row that is created when the table has read the host `n` times.
  abbrev created_at : RunPayloadV1 → String → ℕ → ℕ → Run
  created_at payload actor id n =
      new_run payload actor id (host.uuid_text (host.uuid4 n)) (host.utcnow (suc n))
        (host.utcnow (suc (suc n))) (host.utcnow (suc (suc (suc n))))

  create-fresh :
      (payload : RunPayloadV1) (actor : String) (id : ℕ) (db : Db)
      → host.parse_uuid payload.run_id ≡ some id
      → find_run id db ≡ none
      → create_runtime_run host payload actor db ≡ (
        ok (created_at payload actor id db.reads),
        record db {
          runs = db.runs ++ created_at payload actor id db.reads ∷ [];
          reads = suc (suc (suc (suc db.reads)));
        },
      )
  unfolding create_runtime_run ◌>>=◌ read_host find_run new_run
  create-fresh payload actor id db p n =
      rw
        (
          parse-ok payload id db p,
          add_run-none (created_at payload actor id db.reads)
              (record db { reads = suc (suc (suc (suc db.reads))) }) n,
        )
        refl

  submit-fresh :
      (payload : RunPayloadV1) (actor : String) (id : ℕ) (db : Db)
      → host.parse_uuid payload.run_id ≡ some id
      → find_run id db ≡ none
      → submit_runtime_run host payload actor db ≡ create_runtime_run host payload actor db
  unfolding submit_runtime_run submit_found ◌>>=◌
  submit-fresh payload actor id db p n = rw (parse-ok payload id db p, n) refl

  -- Submitting a payload whose identifier is not in the table appends one queued run that carries
  -- it, and returns that run.
  pub submit-IsFresh :
      (payload : RunPayloadV1) (actor : String) (id : ℕ) (db : Db)
      → host.parse_uuid payload.run_id ≡ some id
      → find_run id db ≡ none
      → (run : Run) × IsFresh id payload actor run
        × ((submit_runtime_run host payload actor db).0 ≡ ok run)
        × ((submit_runtime_run host payload actor db).1.runs ≡ db.runs ++ run ∷ [])
  submit-IsFresh payload actor id db p n =
      let e = submit-fresh payload actor id db p n ∙ create-fresh payload actor id db p n in
      (
        created_at payload actor id db.reads,
        new_run-IsFresh payload actor id _ _ _ _,
        ap (λ (x : Result Fault Run × Db). x.0) e,
        ap (λ (x : Result Fault Run × Db). x.1.runs) e,
      )

  submit-found :
      (payload : RunPayloadV1) (actor : String) (id : ℕ) (old : Run) (db : Db)
      → host.parse_uuid payload.run_id ≡ some id
      → find_run id db ≡ some old
      → submit_runtime_run host payload actor db ≡ submit_found host payload actor (some old) db
  unfolding submit_runtime_run ◌>>=◌
  submit-found payload actor id old db h f = rw (parse-ok payload id db h, f) refl

  -- What is found is returned or refused, and not changed, whoever submits it.
  submit_found-again :
      (payload : RunPayloadV1) (actor again : String) (id : ℕ) (old : Run) (db : Db)
      → host.parse_uuid payload.run_id ≡ some id
      → find_run id db ≡ some old
      → submit_runtime_run host payload again (submit_runtime_run host payload actor db).1
        ≡ submit_runtime_run host payload actor db
  unfolding submit_found ◌>>=◌
  submit_found-again payload actor again id old db h f =
      rw (submit-found payload actor id old db h f)
        (elim (Result-cases (model_validate old.prompt_payload)) [
          | inl (p, e) ↦ rw e (submit-found payload again id old db h f ∙ rw e refl)
          | inr (x, e) ↦ rw e (submit-found payload again id old db h f ∙ rw e refl)
        ])

  submit_fresh-again :
      (payload : RunPayloadV1) (actor again : String) (id : ℕ) (db : Db)
      → model_validate (some payload) ≡ ok payload
      → host.parse_uuid payload.run_id ≡ some id
      → find_run id db ≡ none
      → submit_runtime_run host payload again (submit_runtime_run host payload actor db).1
        ≡ submit_runtime_run host payload actor db
  unfolding submit_found ◌>>=◌ new_run find_run
  submit_fresh-again payload actor again id db v h n =
      let e = submit-fresh payload actor id db h n ∙ create-fresh payload actor id db h n in
      let made : Run = created_at payload actor id db.reads in
      let after : Db = record db {
        runs = db.runs ++ made ∷ [];
        reads = suc (suc (suc (suc db.reads)));
      } in
      let there : find_run id after ≡ some made = first_appended id made db.runs refl n in
      rw e (submit-found payload again id made after h there ∙ rw v refl)

  -- Submitting a valid payload whose identifier is a UUID twice is submitting it once, whether its
  -- identifier was in the table or not and whoever submits it: the second call returns the run that
  -- the first one returned, or raises as it did, and changes nothing.
  pub submit_twice :
      (payload : RunPayloadV1) (actor again : String) (id : ℕ) (db : Db)
      → model_validate (some payload) ≡ ok payload
      → host.parse_uuid payload.run_id ≡ some id
      → submit_runtime_run host payload again (submit_runtime_run host payload actor db).1
        ≡ submit_runtime_run host payload actor db
  submit_twice payload actor again id db v h = elim (Option-cases (find_run id db)) [
    | inl n ↦ submit_fresh-again payload actor again id db v h n
    | inr (old, f) ↦ submit_found-again payload actor again id old db h f
  ]

  retry-submit :
      (k : ℕ) (actor : String) (r : Run) (payload : RunPayloadV1) (db : Db)
      → find_run k db ≡ some r
      → model_validate r.prompt_payload ≡ ok payload
      → retry_runtime_run host k actor db
        ≡ submit_runtime_run host
            (record payload { run_id = host.uuid_text (host.uuid4 db.reads) })
            actor
            (record db { reads = suc db.reads })
  unfolding retry_runtime_run one_run ◌>>=◌ read_host
  retry-submit k actor r payload db f v = rw (f, one_run, v) refl

  -- Retrying a run with a valid payload appends one queued run with no attempt, under the new
  -- identifier and with the payload of the old run but for that identifier, and leaves the rows that
  -- are there as they are, if the new identifier is not taken.
  pub retry-IsFresh :
      (k : ℕ) (actor : String) (r : Run) (payload : RunPayloadV1) (db : Db)
      → find_run k db ≡ some r
      → model_validate r.prompt_payload ≡ ok payload
      → find_run (host.uuid4 db.reads) db ≡ none
      → (run : Run) × IsFresh
          (host.uuid4 db.reads)
          (record payload { run_id = host.uuid_text (host.uuid4 db.reads) })
          actor
          run
        × ((retry_runtime_run host k actor db).0 ≡ ok run)
        × ((retry_runtime_run host k actor db).1.runs ≡ db.runs ++ run ∷ [])
  unfolding find_run
  retry-IsFresh k actor r payload db f v n =
      let next = record payload { run_id = host.uuid_text (host.uuid4 db.reads) } in
      rw (retry-submit k actor r payload db f v) (
        submit-IsFresh next actor (host.uuid4 db.reads) (record db { reads = suc db.reads })
          (host.parse_uuid-uuid_text (host.uuid4 db.reads)) n)
