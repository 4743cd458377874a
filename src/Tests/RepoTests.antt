-- ===== src/Tests/RepoTests.antt =====
-- Theorems about repositories at concrete inputs.
use xyn.Base.{is_empty, ◌&&◌, String, ◌≡◌, refl, true, false, not, none, List, [], ◌∷◌, map, ◌=?◌}
use xyn.Base.Text.{strip, is_space}
use xyn.Base.Text.Split.{replace, split_on, partition, starts_with_char}
use xyn.Base.Dict.{lookup, insert}
use xyn.Base.Table.{select}
use xyn.Base.Json.{of_elements, elements}
use xyn.Base.Json.Format.{str_of}
use xyn.Repos.Targets.{rows_of, warned}
use xyn.Repos.Resolver.{
  Workspace, parse_part, grouped, of_pairs, parse_parts, parse_runtime_repo_map, entry_texts,
  candidates_of, resolve_entries, runtime_repo_map, validate_repo_path, existing_paths, seen,
  unique_from, resolve_unique, resolve_runtime_repo,
}
use xyn.Repos.Resolved.{IsResolved, resolve_runtime_repo-IsResolved}
use xyn.Repos.Warned.{any_valid, warned-any_valid}

abbrev pub workspace : Workspace
workspace = record {
  repo_map_variable = "xyn:/a; xyn:/b";
  loads = λ s. none;
  is_absolute = λ s. false;
  resolved = λ s. s;
  exists = λ s. s =? "/b";
  is_dir = λ s. true;
  has_git = λ s. true;
  readable = λ s. true;
  has_no_entries = λ s. false;
}

resolve_runtime_repo-IsResolved_example :
    IsResolved workspace "xyn" (record { repo_key = "xyn"; path = "/b" })
unfolding strip is_space resolve_runtime_repo runtime_repo_map parse_runtime_repo_map
    starts_with_char replace split_on parse_parts parse_part partition of_pairs grouped lookup
    insert of_elements resolve_entries candidates_of entry_texts elements str_of existing_paths
    unique_from seen resolve_unique validate_repo_path
resolve_runtime_repo-IsResolved_example =
    resolve_runtime_repo-IsResolved workspace " xyn" (record { repo_key = "xyn"; path = "/b" }) refl

abbrev configured : List (String × List String)
configured = ("xyn", "/a" ∷ "/b" ∷ []) ∷ ("old", "/a" ∷ []) ∷ ("none", []) ∷ []

warned-any_valid_example :
    warned workspace configured
    ≡ map
        (λ e. e.0)
        (select (λ e. not (is_empty e.1) && not (any_valid (rows_of workspace e.0 e.1))) configured)
warned-any_valid_example = warned-any_valid workspace configured
