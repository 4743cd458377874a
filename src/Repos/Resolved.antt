-- ===== src/Repos/Resolved.antt =====
-- What a resolved repository is, and when the map is warned of.
use mathlib.Core.List.{Mem, mem-cons_self, mem-cons_of_mem}
use mathlib.Core.Path.{subst}
use xyn.Base.{
  String, ◌≡◌, refl, sym, ap, ◌∙◌, Bool, true, false, ◌&&◌, ◌⊎◌, inl, inr, Option, none, some, List,
  [], ◌∷◌, ◌++◌, ◌=?◌, if◌then◌else◌, Bool-cases, arith, eq_iff,
}
use xyn.Base.Text.{strip}
use xyn.Base.Exec.{Result, ok, err}
use xyn.Base.Dict.{lookup}
use xyn.Base.Sort.{All, All-mono}
use xyn.Repos.Resolver.{
  Workspace, ResolvedRuntimeRepo, RepoFault, failed, runtime_repo_map, validate_repo_path,
  existing_paths, seen, unique_from, resolve_unique, resolve_candidates, resolve_in,
  resolve_runtime_repo,
}

seen-append_left : (p : String) (xs ys : List String) → seen p xs ≡ true → seen p (xs ++ ys) ≡ true
unfolding seen
seen-append_left p [] ys h = ground arith
seen-append_left p (x ∷ xs) ys h = ground (arith, seen-append_left p xs ys)

seen-append_self : (p : String) (xs : List String) → seen p (xs ++ p ∷ []) ≡ true
unfolding seen
seen-append_self p [] = ground (arith, eq_iff p p)
seen-append_self p (x ∷ xs) = ground (arith, seen-append_self p xs)

seen_one : (o p : String) → seen o (p ∷ []) ≡ true → p ≡ o
unfolding seen
seen_one o p h = elim (Bool-cases (p =? o)) [ inl e ↦ (eq_iff p o).0 e | inr e ↦ ground arith ]

unique_from-keeps :
    (p : String) (kept paths : List String)
    → seen p kept ≡ true
    → seen p (unique_from kept paths) ≡ true
unfolding unique_from
unique_from-keeps p kept [] h = h
unique_from-keeps p kept (q ∷ qs) h = elim (Bool-cases (seen q kept)) [
  | inl e ↦ rw e (unique_from-keeps p kept qs h)
  | inr e ↦ rw e (unique_from-keeps p (kept ++ q ∷ []) qs (seen-append_left p kept (q ∷ []) h))
]

-- Every candidate is among those that are kept in the end.
unique_from-seen :
    (kept paths final : List String)
    → unique_from kept paths ≡ final
    → All (λ p. seen p final ≡ true) paths
unfolding unique_from
unique_from-seen kept [] final q = tt
unique_from-seen kept (p ∷ ps) final q = elim (Bool-cases (seen p kept)) [
  | inl e ↦
      let rest : unique_from kept ps ≡ final = rw e at q in
      (rw rest at (unique_from-keeps p kept ps e), unique_from-seen kept ps final rest)
  | inr e ↦
      let rest : unique_from (kept ++ p ∷ []) ps ≡ final = rw e at q in
      (
        rw rest at (unique_from-keeps p (kept ++ p ∷ []) ps (seen-append_self p kept)),
        unique_from-seen (kept ++ p ∷ []) ps final rest,
      )
]

All-append : (P : String → Type 0) (xs ys : List String) → All P xs → All P ys → All P (xs ++ ys)
All-append P [] ys h i = i
All-append P (x ∷ xs) ys h i = (h.0, All-append P xs ys h.1 i)

unique_from-All :
    (P : String → Type 0) (kept paths : List String)
    → All P kept
    → All P paths
    → All P (unique_from kept paths)
unfolding unique_from
unique_from-All P kept [] k h = k
unique_from-All P kept (p ∷ ps) k h = elim (Bool-cases (seen p kept)) [
  | inl e ↦ rw e (unique_from-All P kept ps k h.1)
  | inr e ↦
      rw e (unique_from-All P (kept ++ p ∷ []) ps (All-append P kept (p ∷ []) k (h.0, tt)) h.1)
]

existing_paths-All :
    (P : String → Type 0) (ws : Workspace) (paths : List String)
    → All P paths
    → All P (existing_paths ws paths)
unfolding existing_paths
existing_paths-All P ws [] h = tt
existing_paths-All P ws (p ∷ ps) h = elim (Bool-cases (ws.exists p)) [
  | inl e ↦ rw e (h.0, existing_paths-All P ws ps h.1)
  | inr e ↦ rw e (existing_paths-All P ws ps h.1)
]

All-existing_paths :
    (P : String → Type 0) (ws : Workspace) (paths : List String)
    → All P (existing_paths ws paths)
    → All (λ p. ws.exists p ≡ true → P p) paths
unfolding existing_paths
All-existing_paths P ws [] h = tt
All-existing_paths P ws (p ∷ ps) h = elim (Bool-cases (ws.exists p)) [
  | inl e ↦
      let found : P p × All P (existing_paths ws ps) = rw e at h in
      (λ _. found.0, All-existing_paths P ws ps found.1)
  | inr e ↦ (λ f. ground arith, All-existing_paths P ws ps (rw e at h))
]

All-mem : (xs : List String) → All (λ x. Mem x xs) xs
All-mem [] = tt
All-mem (x ∷ xs) =
    (mem-cons_self, All-mono (λ y. Mem y xs) _ xs (λ y m. mem-cons_of_mem x m) (All-mem xs))

abbrev pub IsGitRepo : Workspace → String → Type 0
IsGitRepo ws path =
    (ws.exists path ≡ true)
    × (ws.is_dir path ≡ true)
    × (ws.has_git path ≡ true)
    × (ws.readable path ≡ true)

-- The only candidate of the map for a token that exists.
abbrev pub IsOnlyCandidate : Workspace → String → String → Type 0
IsOnlyCandidate ws token path =
    (repo_map : List (String × List String)) × (paths : List String) × (runtime_repo_map ws
      ≡ ok repo_map)
    × (lookup token repo_map ≡ some paths)
    × Mem path paths
    × All (λ other. ws.exists other ≡ true → other ≡ path) paths

-- What a repository that was resolved for a token is.
abbrev pub IsResolved : Workspace → String → ResolvedRuntimeRepo → Type 0
IsResolved ws token repo =
    IsGitRepo ws repo.path
    × (((ws.is_absolute token ≡ true) × (repo.path ≡ ws.resolved token))
        ⊎ ((repo.repo_key ≡ token) × IsOnlyCandidate ws token repo.path))

if-ok :
    {A : Type 0} (b : Bool) (x y : A) (e : RepoFault)
    → (if b then ok x else err e) ≡ ok y
    → (b ≡ true) × (x ≡ y)
if-ok true x y e h = (refl, cc h)
if-ok false x y e h = absurd (cc h)

validate_repo_path-ok :
    (ws : Workspace) (key path : String) (repo : ResolvedRuntimeRepo)
    → validate_repo_path ws key path ≡ ok repo
    → IsGitRepo ws path × (record { repo_key = key; path = path } ≡ repo)
unfolding validate_repo_path
validate_repo_path-ok ws key path repo h =
    let (valid, same) =
      if-ok (ws.exists path && ws.is_dir path && ws.has_git path && ws.readable path)
        (record { repo_key = key; path = path }) repo (failed "repo_unreachable") h in
    ((ground arith, ground arith, ground arith, ground arith), same)

resolve_unique-ok :
    (ws : Workspace) (token : String) (paths final : List String) (repo : ResolvedRuntimeRepo)
    → unique_from [] (existing_paths ws paths) ≡ final
    → resolve_unique ws token final ≡ ok repo
    → IsGitRepo ws repo.path
      × (repo.repo_key ≡ token)
      × Mem repo.path paths
      × All (λ other. ws.exists other ≡ true → other ≡ repo.path) paths
unfolding resolve_unique
resolve_unique-ok ws token paths [] repo u h = ground arith
resolve_unique-ok ws token paths (p ∷ q ∷ ps) repo u h = ground arith
resolve_unique-ok ws token paths (p ∷ []) repo u h =
    let (valid, same) = validate_repo_path-ok ws token p repo h in
    let path : p ≡ repo.path = ap (λ r. r.path) same in
    let one : All (λ o. Mem o paths) (p ∷ []) = rw u at (
      unique_from-All (λ o. Mem o paths) [] (existing_paths ws paths) tt
        (existing_paths-All (λ o. Mem o paths) ws paths (All-mem paths))) in
    let all_seen =
      All-existing_paths (λ o. seen o (p ∷ []) ≡ true) ws paths
        (unique_from-seen [] (existing_paths ws paths) (p ∷ []) u) in
    (
      subst (IsGitRepo ws) path valid,
      ap (λ r. r.repo_key) (sym same),
      subst (λ o. Mem o paths) path one.0,
      All-mono (λ o. ws.exists o ≡ true → seen o (p ∷ []) ≡ true)
          (λ o. ws.exists o ≡ true → o ≡ repo.path) paths (λ o f e. sym (seen_one o p (f e)) ∙ path)
          all_seen,
    )

resolve_in-ok :
    (ws : Workspace) (token : String) (m : Result RepoFault (List (String × List String)))
    (repo : ResolvedRuntimeRepo)
    → runtime_repo_map ws ≡ m
    → resolve_in ws token m ≡ ok repo
    → IsGitRepo ws repo.path × (repo.repo_key ≡ token) × IsOnlyCandidate ws token repo.path
resolve_in-ok ws token (err e) repo q h = absurd (cc h)
resolve_in-ok ws token (ok repo_map) repo q h = of_found (lookup token repo_map) refl h
  where
    of_found :
        (o : Option (List String))
        → lookup token repo_map ≡ o
        → resolve_candidates ws token o ≡ ok repo
        → IsGitRepo ws repo.path × (repo.repo_key ≡ token) × IsOnlyCandidate ws token repo.path
    of_found none f g = absurd (cc g)
    of_found (some paths) f g =
        let (valid, key, member, only) = resolve_unique-ok ws token paths _ repo refl g in
        (valid, key, (repo_map, paths, q, f, member, only))

-- A repository that is resolved is a readable Git repository. For an absolute path it is that path;
-- for a key of the map it carries the key, is one of its candidates, and is the only one that exists.
pub resolve_runtime_repo-IsResolved :
    (ws : Workspace) (repo_ref : String) (repo : ResolvedRuntimeRepo)
    → resolve_runtime_repo ws repo_ref ≡ ok repo
    → IsResolved ws (strip repo_ref) repo
unfolding resolve_runtime_repo
resolve_runtime_repo-IsResolved ws repo_ref repo h = elim (Bool-cases (strip repo_ref =? "")) [
  | inl e ↦ absurd (cc (rw e at h))
  | inr e ↦ elim (Bool-cases (ws.is_absolute (strip repo_ref))) [
    | inl a ↦
        let (valid, same) =
          validate_repo_path-ok ws "absolute" (ws.resolved (strip repo_ref)) repo
            (rw a at (rw e at h)) in
        let path : ws.resolved (strip repo_ref) ≡ repo.path = ap (λ r. r.path) same in
        (subst (IsGitRepo ws) path valid, inl (a, sym path))
    | inr a ↦
        let (valid, key, only) =
          resolve_in-ok ws (strip repo_ref) (runtime_repo_map ws) repo refl (rw a at (rw e at h)) in
        (valid, inr (key, only))
  ]
]
