-- ===== src/Repos/Targets.antt =====
-- core/repo_resolver.py: the inspection of the targets of the map, and the warnings about them.
use xyn.Base.{String, Bool, true, false, not, ◌&&◌, List, [], ◌∷◌, map, if◌then◌else◌}
use xyn.Repos.Resolver.{Workspace}

-- A row of `inspect_runtime_repo_map_targets`.
pub record TargetRow : Type 0 where
  pub repo_key : String
  pub path : String
  pub exists : Bool
  pub is_dir : Bool
  pub is_empty : Bool
  pub has_git : Bool
  pub readable : Bool
  pub valid : Bool

unfoldable pub target_row : Workspace → String → String → TargetRow
target_row ws repo_key candidate =
    let exists = ws.exists candidate in
    let is_dir = exists && ws.is_dir candidate in
    let has_git = is_dir && ws.has_git candidate in
    let readable = is_dir && ws.readable candidate in
    record {
      repo_key = repo_key;
      path = candidate;
      exists = exists;
      is_dir = is_dir;
      is_empty = is_dir && readable && ws.has_no_entries candidate;
      has_git = has_git;
      readable = readable;
      valid = exists && is_dir && has_git && readable;
    }

-- The rows of one entry of the map; `validate_runtime_repo_map_targets` groups the rows by key again.
unfoldable pub rows_of : Workspace → String → List String → List TargetRow
unfolding target_row
rows_of ws repo_key candidates = map (target_row ws repo_key) candidates

-- The loop of `validate_runtime_repo_map_targets` over the rows of one repository: whether a row ended
-- it, and the reasons that were collected until then.
unfoldable pub check_rows : List TargetRow → Bool × List String
check_rows [] = (false, [])
check_rows (row ∷ rows) =
    let (valid, reasons) = check_rows rows in
    if not row.exists
    then (valid, "missing" ∷ reasons)
    else (if not row.is_dir
        then (valid, "not_a_directory" ∷ reasons)
        else (let noted =
              λ (more : List String). if row.is_empty then "empty_directory" ∷ more else more in
            if not row.has_git
            then (valid, noted ("not_a_git_repo" ∷ reasons))
            else (if not row.readable
                then (valid, noted ("not_readable" ∷ reasons))
                else (true, noted []))))

-- The repositories that `validate_runtime_repo_map_targets` warns of. A key without candidates has no
-- row, and so no group of rows.
unfoldable pub warned : Workspace → List (String × List String) → List String
unfolding rows_of check_rows
warned ws [] = []
warned ws ((repo_key, []) ∷ rest) = warned ws rest
warned ws ((repo_key, candidate ∷ candidates) ∷ rest) =
    let others = warned ws rest in
    if (check_rows (rows_of ws repo_key (candidate ∷ candidates))).0
    then others
    else repo_key ∷ others
