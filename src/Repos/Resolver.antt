-- ===== src/Repos/Resolver.antt =====
-- core/repo_resolver.py: the repository that a run works on, found through the configured map.
use Prim.Native.Char.{char}
use xyn.Base.{
  String, Bool, true, false, not, ◌&&◌, ◌||◌, Option, none, some, List, [], ◌∷◌, ◌++◌, map, ◌=?◌,
  if◌then◌else◌,
}
use xyn.Base.Text.{strip}
use xyn.Base.Text.Split.{replace, split_on, partition, starts_with_char}
use xyn.Base.Exec.{Result, ok, err}
use xyn.Base.Dict.{lookup, insert}
use xyn.Base.Json.{Json, text, array, object, elements, entries, of_elements}
use xyn.Base.Json.Format.{str_of}

-- What the process sees: XYN_RUNTIME_REPO_MAP, `json.loads`, `Path(s).expanduser()` where it is
-- absolute, `Path(s).expanduser().resolve()`, and the file system.
pub record Workspace : Type 0 where
  pub repo_map_variable : String
  pub loads : String → Option Json
  pub is_absolute : String → Bool
  pub resolved : String → String
  pub exists : String → Bool
  pub is_dir : String → Bool
  pub has_git : String → Bool
  pub readable : String → Bool
  pub has_no_entries : String → Bool

pub record ResolvedRuntimeRepo : Type 0 where
  pub repo_key : String
  pub path : String

-- `RepoResolutionBlocked` with its escalation reason, and `RepoResolutionFailed` with its reason.
pub data RepoFault : Type 0 where
  blocked failed : String → RepoFault

abbrev pub default_runtime_repo_map : List (String × Json)
default_runtime_repo_map =
    ("xyn", array (of_elements (text "/workspace/xyn" ∷ [])))
    ∷ ("xyn-platform", array (of_elements (text "/workspace/xyn-platform" ∷ [])))
    ∷ []

-- One part of the list of pairs: nothing for a blank part, and else a key and a path.
unfoldable pub parse_part : String → Result RepoFault (Option (String × String))
unfolding strip partition
parse_part part =
    let entry = strip part in
    let (repo_key, found, repo_path) = partition (char 58 tt) entry in
    let key = strip repo_key in
    let value = strip repo_path in
    if entry =? ""
    then ok none
    else (if not found || (key =? "") || (value =? "")
        then err (blocked "repo_map_invalid")
        else ok (some (key, value)))

abbrev pub with_pair :
    Result RepoFault (Option (String × String))
    → Result RepoFault (List (String × String))
    → Result RepoFault (List (String × String))
with_pair (err e) pairs = err e
with_pair (ok none) pairs = pairs
with_pair (ok (some pair)) (err e) = err e
with_pair (ok (some pair)) (ok pairs) = ok (pair ∷ pairs)

unfoldable pub parse_parts : List String → Result RepoFault (List (String × String))
unfolding parse_part
parse_parts [] = ok []
parse_parts (part ∷ parts) = with_pair (parse_part part) (parse_parts parts)

abbrev pub listed : Option (List Json) → List Json
listed none = []
listed (some values) = values

-- `result.setdefault(key, []).append(value)` for each pair.
unfoldable pub grouped :
    List (String × List Json) → List (String × String) → List (String × List Json)
unfolding lookup insert
grouped result [] = result
grouped result ((key, value) ∷ pairs) =
    grouped (insert key (listed (lookup key result) ++ text value ∷ []) result) pairs

abbrev pub as_arrays : List (String × List Json) → List (String × Json)
as_arrays result = map (λ e. (e.0, array (of_elements e.1))) result

unfoldable pub of_pairs :
    Result RepoFault (List (String × String)) → Result RepoFault (List (String × Json))
unfolding grouped of_elements
of_pairs (err e) = err e
of_pairs (ok []) = err (blocked "repo_map_invalid")
of_pairs (ok (pair ∷ pairs)) = ok (as_arrays (grouped [] (pair ∷ pairs)))

abbrev pub of_json : Option Json → Result RepoFault (List (String × Json))
of_json (some (object members)) = ok (entries members)
of_json _ = err (blocked "repo_map_invalid")

-- `_parse_runtime_repo_map`
unfoldable pub parse_runtime_repo_map :
    (String → Option Json) → String → Result RepoFault (List (String × Json))
unfolding strip starts_with_char replace split_on parse_parts of_pairs entries of_elements
parse_runtime_repo_map loads raw =
    let token = strip raw in
    if token =? ""
    then ok default_runtime_repo_map
    else (if starts_with_char (char 123 tt) token
        then of_json (loads token)
        else of_pairs
            (parse_parts (split_on (char 44 tt) (replace (char 59 tt) (char 44 tt) token))))

unfoldable pub entry_texts : List Json → List String
unfolding str_of strip
entry_texts [] = []
entry_texts (value ∷ values) =
    let rest = entry_texts values in
    if strip (str_of value) =? "" then rest else str_of value ∷ rest

unfoldable pub candidates_of : (String → String) → Json → Result RepoFault (List String)
unfolding entry_texts elements
candidates_of resolved (text s) = ok (resolved s ∷ [])
candidates_of resolved (array is) = ok (map resolved (entry_texts (elements is)))
candidates_of resolved _ = err (blocked "repo_map_invalid")

abbrev pub with_candidates :
    String
    → Result RepoFault (List String)
    → Result RepoFault (List (String × List String))
    → Result RepoFault (List (String × List String))
with_candidates key (err e) rest = err e
with_candidates key (ok paths) (err e) = err e
with_candidates key (ok paths) (ok rest) = ok ((key, paths) ∷ rest)

unfoldable pub resolve_entries :
    (String → String) → List (String × Json) → Result RepoFault (List (String × List String))
unfolding candidates_of
resolve_entries resolved [] = ok []
resolve_entries resolved ((key, value) ∷ rest) =
    with_candidates key (candidates_of resolved value) (resolve_entries resolved rest)

abbrev pub resolve_payload :
    (String → String)
    → Result RepoFault (List (String × Json))
    → Result RepoFault (List (String × List String))
resolve_payload resolved (err e) = err e
resolve_payload resolved (ok payload) = resolve_entries resolved payload

-- `runtime_repo_map`
unfoldable pub runtime_repo_map : Workspace → Result RepoFault (List (String × List String))
unfolding strip parse_runtime_repo_map resolve_entries
runtime_repo_map ws =
    resolve_payload ws.resolved (parse_runtime_repo_map ws.loads (strip ws.repo_map_variable))

-- `_validate_repo_path`
unfoldable pub validate_repo_path :
    Workspace → String → String → Result RepoFault ResolvedRuntimeRepo
validate_repo_path ws repo_key path =
    if ws.exists path && ws.is_dir path && ws.has_git path && ws.readable path
    then ok (record { repo_key = repo_key; path = path })
    else err (failed "repo_unreachable")

-- The candidates that exist.
unfoldable pub existing_paths : Workspace → List String → List String
existing_paths ws [] = []
existing_paths ws (path ∷ paths) =
    let rest = existing_paths ws paths in if ws.exists path then path ∷ rest else rest

unfoldable pub seen : String → List String → Bool
seen path [] = false
seen path (other ∷ others) = let rest = seen path others in if other =? path then true else rest

-- The loop that keeps the first of equal candidates, after those that are kept already.
unfoldable pub unique_from : List String → List String → List String
unfolding seen
unique_from kept [] = kept
unique_from kept (path ∷ paths) =
    let passed = unique_from kept paths in
    let added = unique_from (kept ++ path ∷ []) paths in if seen path kept then passed else added

unfoldable pub resolve_unique :
    Workspace → String → List String → Result RepoFault ResolvedRuntimeRepo
unfolding validate_repo_path
resolve_unique ws token [] = err (failed "repo_unreachable")
resolve_unique ws token (path ∷ []) = validate_repo_path ws token path
resolve_unique ws token (path ∷ other ∷ paths) = err (blocked "target_repo_ambiguous")

abbrev pub resolve_candidates :
    Workspace → String → Option (List String) → Result RepoFault ResolvedRuntimeRepo
resolve_candidates ws token none = err (failed "repo_unreachable")
resolve_candidates ws token (some paths) =
    resolve_unique ws token (unique_from [] (existing_paths ws paths))

abbrev pub resolve_in :
    Workspace
    → String
    → Result RepoFault (List (String × List String))
    → Result RepoFault ResolvedRuntimeRepo
resolve_in ws token (err e) = err e
resolve_in ws token (ok repo_map) = resolve_candidates ws token (lookup token repo_map)

-- `resolve_runtime_repo`
unfoldable pub resolve_runtime_repo : Workspace → String → Result RepoFault ResolvedRuntimeRepo
unfolding strip validate_repo_path runtime_repo_map lookup resolve_unique unique_from existing_paths
resolve_runtime_repo ws repo_ref =
    let token = strip repo_ref in
    if token =? ""
    then err (blocked "target_repo_missing")
    else (if ws.is_absolute token
        then validate_repo_path ws "absolute" (ws.resolved token)
        else resolve_in ws token (runtime_repo_map ws))
