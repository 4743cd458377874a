-- ===== src/Releases/Reconciled.antt =====
-- A round of the reconciler leaves alone the releases that it acted on within the interval.
use xyn.Base.{
  ℕ, suc, ◌+◌, ◌<◌, String, ◌≡◌, refl, ◌∙◌, Bool, true, false, inl, inr, Option, none, some, List,
  [], ◌∷◌, ◌==◌, ◌=?◌, if◌then◌else◌, Bool-cases, arith, eq_iff,
}
use xyn.Base.Dict.{lookup, lookup-insert}
use xyn.Base.Table.{first-put_ne}
use xyn.Releases.Spec.{RuntimeSpec}
use xyn.Releases.Store.{
  ArtifactPath, save_operation, load_operation, load_latest_runtime, latest_compose_path,
  is_operation,
}
use xyn.Releases.Reconciler.{
  LoopHost, LoopState, should_reconcile, drifted, compose_command, reconcile_operation, bring_up,
  on_listing, on_path, on_runtime, reconcile_release, reconcile_all, reconcile_once,
}

-- The revisions and the plans are the same, and so are the time of the last action on the release and
-- the operations that are found for it.
abbrev pub Spares : String → LoopState → LoopState → Type 0
Spares r s t =
    (t.store.revisions ≡ s.store.revisions)
    × (t.store.plans ≡ s.store.plans)
    × (lookup r t.last_action ≡ lookup r s.last_action)
    × ((k : String) → load_operation r k t.store ≡ load_operation r k s.store)

Spares-refl : (r : String) (s : LoopState) → Spares r s s
Spares-refl r s = (refl, refl, refl, λ k. refl)

Spares-trans : (r : String) (s t u : LoopState) → Spares r s t → Spares r t u → Spares r s u
Spares-trans r s t u h i = (i.0 ∙ h.0, i.1 ∙ h.1, i.2 ∙ h.2, λ k. i.3 k ∙ h.3 k)

Spares-if :
    (r : String) (s : LoopState) (b : Bool) (t u : LoopState)
    → Spares r s t
    → Spares r s u
    → Spares r s (if b then t else u)
Spares-if r s true t u h i = h
Spares-if r s false t u h i = i

module _ (host : LoopHost) (r other : String) (apart : (other =? r) ≡ false) where
  bring_up-Spares :
      (runtime : RuntimeSpec) (path : ArtifactPath) (s : LoopState)
      → Spares r s (bring_up host other runtime path s)
  unfolding bring_up save_operation load_operation reconcile_operation
  bring_up-Spares runtime path s = (
    refl,
    refl,
    lookup-insert other r _ s.last_action ∙ rw apart refl,
    λ k.
        first-put_ne _ (is_operation r k) _ s.store.operations
          (λ x p. ground (arith, eq_iff x.release_id other, eq_iff x.release_id r, eq_iff other r))
          (rw apart refl),
  )

  on_listing-Spares :
      (runtime : RuntimeSpec) (path : ArtifactPath) (o : Option (List (Option String)))
      (s : LoopState)
      → Spares r s (on_listing host other runtime path o s)
  unfolding on_listing
  on_listing-Spares runtime path none s = Spares-refl r s
  on_listing-Spares runtime path (some entries) s =
      Spares-if r s (drifted entries) _ s (bring_up-Spares runtime path s) (Spares-refl r s)

  on_path-Spares :
      (runtime : RuntimeSpec) (path : Option ArtifactPath) (s : LoopState)
      → Spares r s (on_path host other runtime path s)
  unfolding on_path load_operation
  on_path-Spares runtime none s = Spares-refl r s
  on_path-Spares runtime (some path) s =
      on_listing-Spares runtime path
        (host.ps s.store.reads
          (compose_command host runtime path ("ps" ∷ "--format" ∷ "json" ∷ [])))
        (record s { store = record s.store { reads = suc s.store.reads } })

  on_runtime-Spares :
      (runtime : Option RuntimeSpec) (s : LoopState) → Spares r s (on_runtime host other runtime s)
  unfolding on_runtime
  on_runtime-Spares none s = Spares-refl r s
  on_runtime-Spares (some runtime) s =
      Spares-if r s (runtime.backend.type =? "compose") _ s
        (on_path-Spares runtime (latest_compose_path other s.store) s) (Spares-refl r s)

  reconcile_other-Spares :
      (now : ℕ) (s : LoopState) → Spares r s (reconcile_release host now other s)
  unfolding reconcile_release
  reconcile_other-Spares now s =
      Spares-if r s (should_reconcile (lookup other s.last_action) now host.interval) _ s
        (on_runtime-Spares (load_latest_runtime other s.store) s) (Spares-refl r s)

module _ (host : LoopHost) (r : String) (now : ℕ) where
  -- A release that was acted on within the interval is not due.
  abbrev pub IsRecent : LoopState → Type 0
  IsRecent s = should_reconcile (lookup r s.last_action) now host.interval ≡ false

  reconcile_release-Spares :
      (k : String) (s : LoopState) → IsRecent s → Spares r s (reconcile_release host now k s)
  unfolding reconcile_release
  reconcile_release-Spares k s recent = elim (Bool-cases (k =? r)) [
    | inl e ↦ let same : k ≡ r = (eq_iff k r).0 e in rw same (rw recent (Spares-refl r s))
    | inr e ↦ reconcile_other-Spares host r k e now s
  ]

  reconcile_all-Spares :
      (ids : List String) (s : LoopState) → IsRecent s → Spares r s (reconcile_all host now ids s)
  unfolding reconcile_all
  reconcile_all-Spares [] s recent = Spares-refl r s
  reconcile_all-Spares (k ∷ ids) s recent =
      let first = reconcile_release-Spares k s recent in
      Spares-trans r s (reconcile_release host now k s) _ first
        (reconcile_all-Spares ids (reconcile_release host now k s) (rw first.2 recent))

recent_not_due :
    (now last interval : ℕ)
    → now < last + interval
    → should_reconcile (some last) now interval ≡ false
unfolding should_reconcile
recent_not_due now last interval h = ground arith

-- If the reconciler last acted on a release at a time, and the interval after that time is not over,
-- a round finds no new operation for it and does not act on it again, whichever releases are listed,
-- and keeps all revisions and plans.
pub reconcile_once-Spares :
    (host : LoopHost) (r : String) (ids : List String) (s : LoopState) (last : ℕ)
    → lookup r s.last_action ≡ some last
    → host.monotonic s.store.reads < last + host.interval
    → Spares r s (reconcile_once host ids s)
unfolding reconcile_once load_operation
reconcile_once-Spares host r ids s last acted early =
    let s' : LoopState = record s { store = record s.store { reads = suc s.store.reads } } in
    let now = host.monotonic s.store.reads in
    let recent : IsRecent host r now s' = rw acted (recent_not_due now last host.interval early) in
    Spares-if r s (host.interval == 0) s' _ (Spares-refl r s)
      (reconcile_all-Spares host r now ids s' recent)
