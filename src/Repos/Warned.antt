-- ===== src/Repos/Warned.antt =====
-- The warnings about the map agree with the inspection of its targets.
use xyn.Base.{
  String, ◌≡◌, refl, ap, ◌∙◌, Bool, true, false, not, inl, inr, List, [], ◌∷◌, map, if◌then◌else◌,
  Bool-cases, is_empty, ◌&&◌,
}
use xyn.Base.Table.{select}
use xyn.Repos.Targets.{TargetRow, target_row, rows_of, check_rows, warned}
use xyn.Repos.Resolver.{Workspace}

unfoldable pub any_valid : List TargetRow → Bool
any_valid [] = false
any_valid (row ∷ rows) = let rest = any_valid rows in if row.valid then true else rest

check_rows-rows_of :
    (ws : Workspace) (repo_key : String) (candidates : List String)
    → (check_rows (rows_of ws repo_key candidates)).0 ≡ any_valid (rows_of ws repo_key candidates)
unfolding check_rows rows_of target_row any_valid
check_rows-rows_of ws repo_key [] = refl
check_rows-rows_of ws repo_key (p ∷ ps) =
    let ih : (check_rows (rows_of ws repo_key ps)).0 ≡ any_valid (rows_of ws repo_key ps) =
      check_rows-rows_of ws repo_key ps in
    elim (Bool-cases (ws.exists p)) [
      | inl e ↦ elim (Bool-cases (ws.is_dir p)) [
        | inl d ↦ elim (Bool-cases (ws.has_git p)) [
          | inl g ↦ elim (Bool-cases (ws.readable p)) [
            | inl r ↦ rw (e, d, g, r) refl
            | inr r ↦ rw (e, d, g, r) ih
          ]
          | inr g ↦ rw (e, d, g) ih
        ]
        | inr d ↦ rw (e, d) ih
      ]
      | inr e ↦ rw e ih
    ]

-- The map is warned of exactly the repositories that have candidates, and for which the inspection of
-- the targets shows no row as valid, in the order of the map.
pub warned-any_valid :
    (ws : Workspace) (repo_map : List (String × List String))
    → warned ws repo_map
      ≡ map
          (λ e. e.0)
          (select (λ e. not (is_empty e.1) && not (any_valid (rows_of ws e.0 e.1))) repo_map)
unfolding warned select
warned-any_valid ws [] = refl
warned-any_valid ws ((key, []) ∷ rest) = warned-any_valid ws rest
warned-any_valid ws ((key, p ∷ ps) ∷ rest) =
    let ih = warned-any_valid ws rest in
    elim (Bool-cases (any_valid (rows_of ws key (p ∷ ps)))) [
      | inl v ↦ rw v (rw (check_rows-rows_of ws key (p ∷ ps) ∙ v) ih)
      | inr v ↦ rw v (rw (check_rows-rows_of ws key (p ∷ ps) ∙ v) (ap (λ ks. key ∷ ks) ih))
    ]
