-- ===== src/Releases/Published.antt =====
-- Planning a release publishes its next revision.
use mathlib.Core.Option
use xyn.Base.{
  ℕ, ◌<◌, String, ◌≡◌, refl, ap, ◌∙◌, true, false, ◌&&◌, inl, inr, Option, none, some, ◌==◌, ◌=?◌,
  Bool-cases, arith, eq_iff,
}
use xyn.Base.Exec.{ok, ◌>>=◌}
use xyn.Base.Table.{first-put_self}
use xyn.Releases.Spec.{ReleaseSpec, RuntimeSpec}
use xyn.Releases.Compiler.{compile_release_to_runtime}
use xyn.Releases.Compiled.{validate-compile}
use xyn.Releases.Rendered.{compose_lines-compile}
use xyn.Releases.Renderer.{file_text, render_compose}
use xyn.Releases.Store.{
  Plan, Store, larger, latest_revision, find_revision, save_plan, at_latest, runtime_in, release_in,
  load_runtime_revision, load_release_spec_revision, load_latest_runtime, load_plan,
}
use xyn.Releases.Saved.{find_revision-save, latest_revision-save, find_revision-save_other}
use xyn.Releases.Api.{
  ReleaseHost, require_auth, rendered, backend_yaml, next_revision, release_id_of, save_planned,
  plan_valid, plan_release,
}

-- The backend accepts whatever the compiler makes.
pub backend_yaml-compile :
    (spec : ReleaseSpec) (revision : ℕ) (release_id : Option String)
    → (yaml : Option String) × (backend_yaml (compile_release_to_runtime spec revision release_id)
        ≡ ok yaml)
unfolding backend_yaml render_compose rendered
backend_yaml-compile spec revision release_id =
    let runtime : RuntimeSpec = compile_release_to_runtime spec revision release_id in
    elim (Bool-cases (runtime.backend.type =? "compose")) [
      | inl e ↦ rw e (
        _,
        ap (λ lines. rendered (Option.map file_text lines))
            (compose_lines-compile spec revision release_id),
      )
      | inr e ↦ elim (Bool-cases (runtime.backend.type =? "k8s")) [
        | inl k ↦ rw (e, k) (none, rw (validate-compile spec revision release_id) refl)
        | inr k ↦ rw (e, k) (none, refl)
      ]
    ]

larger-next : (o : Option ℕ) → larger (next_revision o) o ≡ next_revision o
larger-next none = refl
larger-next (some n) = ground arith

below-next : (o : Option ℕ) (m : ℕ) → o ≡ some m → m < next_revision o
below-next none m h = ground arith
below-next (some n) m h = ground arith

-- What planning a release leaves behind, from the store before it: the plan that it returns, the
-- revision after the latest one with the spec and what it compiles to, and all others as they were.
abbrev pub Publishes : ReleaseHost → ReleaseSpec → Store → Plan → Store → Type 0
Publishes host spec store plan after =
    let release_id = release_id_of spec in
    let number = next_revision (latest_revision release_id store) in
    let runtime = compile_release_to_runtime spec number (some release_id) in
    (plan.revision_to ≡ number)
    × (plan.release_id ≡ release_id)
    × (load_plan release_id plan.plan_id after ≡ some plan)
    × (latest_revision release_id after ≡ some number)
    × (load_latest_runtime release_id after ≡ some runtime)
    × (load_release_spec_revision release_id number after ≡ some spec)
    × ((other : String) (m : ℕ)
        → ((other =? release_id) && (m == number)) ≡ false
        → find_revision other m after ≡ find_revision other m store)

save_planned-Publishes :
    (host : ReleaseHost) (spec : ReleaseSpec) (yaml : Option String) (store : Store)
    → let release_id = release_id_of spec in
      let from = latest_revision release_id store in
      let runtime = compile_release_to_runtime spec (next_revision from) (some release_id) in
      (plan : Plan) × (after : Store) × (save_planned host spec runtime release_id from yaml store
        ≡ (ok plan, after))
      × Publishes host spec store plan after
unfolding save_planned save_plan load_plan find_revision latest_revision load_latest_runtime
    load_runtime_revision load_release_spec_revision
save_planned-Publishes host spec yaml store =
    let release_id : String = release_id_of spec in
    let from : Option ℕ = latest_revision release_id store in
    let number : ℕ = next_revision from in
    let runtime : RuntimeSpec = compile_release_to_runtime spec number (some release_id) in
    let planned = save_planned host spec runtime release_id from yaml store in
    let after : Store = planned.1 in
    let latest : latest_revision release_id after ≡ some number =
      latest_revision-save release_id number spec runtime yaml store ∙ ap some (larger-next from) in
    let saved = find_revision-save release_id number spec runtime yaml store in
    (
      _,
      after,
      refl,
      (
        refl,
        refl,
        first-put_self _ _ store.plans (
            ground (
              arith,
              eq_iff release_id release_id,
              eq_iff (host.uuid4 store.reads) (host.uuid4 store.reads),
            )),
        latest,
        ap (λ o. at_latest o (λ n. load_runtime_revision release_id n after)) latest
            ∙ ap runtime_in saved,
        ap release_in saved,
        find_revision-save_other release_id number spec runtime yaml store,
      ),
    )

-- Planning the release returns and leaves what publishes it.
abbrev pub IsPublished : ReleaseHost → Option String → ReleaseSpec → Store → Type 0
IsPublished host authorization spec store =
    (plan : Plan) × (after : Store) × (plan_release host authorization spec store
      ≡ (ok plan, after))
    × Publishes host spec store plan after

-- Planning an admitted release with an accepted token, whose compiled spec is admitted too, returns a
-- plan and stores it, and makes the compiled spec the latest revision of the release, numbered one
-- above the latest before; the spec itself is stored beside it, and every other revision of any
-- release stays as it was.
pub plan_release-Publishes :
    (host : ReleaseHost) (authorization : Option String) (spec : ReleaseSpec) (store : Store)
    → require_auth host authorization store ≡ (ok tt, store)
    → host.is_release_spec spec ≡ true
    → host.is_runtime_spec (
        compile_release_to_runtime spec
          (next_revision (latest_revision (release_id_of spec) store))
          (some (release_id_of spec)))
      ≡ true
    → IsPublished host authorization spec store
unfolding plan_release plan_valid ◌>>=◌
plan_release-Publishes host authorization spec store auth admitted runtime_admitted =
    let from : Option ℕ = latest_revision (release_id_of spec) store in
    let (yaml, accepted) =
      backend_yaml-compile spec (next_revision from) (some (release_id_of spec)) in
    let (plan, after, saved, published) = save_planned-Publishes host spec yaml store in
    (plan, after, rw (auth, admitted) (rw (runtime_admitted, accepted) saved), published)
