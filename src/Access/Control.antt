-- ===== src/Access/Control.antt =====
-- core/access_control.py: the principal of a request, and the check of its capabilities and scopes.
-- A Python set that is only tested for members or sorted is the list of its members.
use Prim.Native.Char.{Char, char, code}
use Prim.Native.Nat.{Ordering}
use Prim.Native.String as Str
use xyn.Base.{
  ℕ, String, Bool, true, false, not, ◌&&◌, ◌||◌, Option, none, some, List, [], ◌∷◌, ◌++◌, map, ◌==◌,
  ◌=?◌, if◌then◌else◌,
}
use xyn.Base.Exec.{Result, ok, err}
use xyn.Base.Text.{strip, lower}
use xyn.Base.Dict.{lookup}
use xyn.Base.Sort.{sort_by}
use xyn.Base.Table.{select}
use xyn.Access.Roles.{role_capability_map}

pub record AccessPrincipal : Type 0 where
  pub subject_id : String
  pub roles : List String
  pub capabilities : List String
  pub workspace_scope_id : Option ℕ
  pub application_scope : Option String

pub data AccessFault : Type 0 where
  missing_capability : List String → AccessFault
  not_scoped_to_workspace not_scoped_to_application : AccessFault

abbrev or_empty : Option String → String
or_empty none = ""
or_empty (some s) = s

abbrev non_empty : String → Option String
non_empty s = if s =? "" then none else some s

-- `value.replace("-", "_")`
unfoldable pub underscored : String → String
underscored Str.[] = ""
underscored (Str.◌∷◌ c s) =
    if code c == 45 then Str.◌∷◌ (char 95 tt) (underscored s) else Str.◌∷◌ c (underscored s)

unfoldable pub normalize_role_slug : String → String
normalize_role_slug value = underscored (lower (strip value))

unfoldable pub normalize_capability_slug : String → String
normalize_capability_slug value = lower (strip value)

-- `value.split(",")`: `current` is the token that begins before the rest of the text.
abbrev push : Char → List String → List String
push c [] = Str.◌∷◌ c "" ∷ []
push c (token ∷ tokens) = Str.◌∷◌ c token ∷ tokens

unfoldable pub split_commas : String → List String
split_commas Str.[] = "" ∷ []
split_commas (Str.◌∷◌ c s) =
    let rest = split_commas s in if code c == 44 then "" ∷ rest else push c rest

abbrev is_filled : String → Bool
is_filled s = not (s =? "")

-- An empty header has one blank token, which is left out.
unfoldable pub parse_csv_header : Option String → List String
parse_csv_header none = []
parse_csv_header (some value) =
    map strip (select (λ token. is_filled (strip token)) (split_commas value))

-- `c in capabilities`
unfoldable pub member : String → List String → Bool
member c [] = false
member c (x ∷ xs) = if x =? c then true else member c xs

unfoldable pub distinct : List String → List String
distinct [] = []
distinct (x ∷ xs) = let rest = distinct xs in if member x rest then rest else x ∷ rest

abbrev text_order : String → String → Bool
text_order a b = elim (Str.compare a b) [ Ordering.gt ↦ false | _ ↦ true ]

-- `sorted(set(xs))`
unfoldable pub sorted_set : List String → List String
sorted_set xs = sort_by text_order (distinct xs)

-- `ROLE_CAPABILITY_MAP.get(role, set())`
unfoldable pub granted_by : String → List String
granted_by role = elim (lookup role role_capability_map) [ none ↦ [] | some caps ↦ caps ]

unfoldable pub granted_by_all : List String → List String
granted_by_all [] = []
granted_by_all (role ∷ roles) = granted_by (normalize_role_slug role) ++ granted_by_all roles

unfoldable pub filled_slugs : (String → String) → List String → List String
filled_slugs normalize values = select is_filled (map normalize values)

unfoldable pub resolve_effective_capabilities : List String → List String → List String
resolve_effective_capabilities roles direct_capabilities =
    sorted_set (granted_by_all roles ++ filled_slugs normalize_capability_slug direct_capabilities)

-- `_dev_default_roles`, from the environment variable XYN_AUTH_MODE.
unfoldable pub dev_default_roles : Option String → List String
dev_default_roles auth_mode =
    let given : String = elim auth_mode [ none ↦ "dev" | some m ↦ if m =? "" then "dev" else m ] in
    let mode = lower (strip given) in
    if (mode =? "dev") || (mode =? "simple") || (mode =? "local")
    then "application_admin" ∷ []
    else []

pub record Headers : Type 0 where
  pub user_id : Option String
  pub roles : Option String
  pub capabilities : Option String
  pub access_workspace_id : Option String
  pub application_slug : Option String

abbrev is_empty : List String → Bool
is_empty [] = true
is_empty (x ∷ xs) = false

-- `strip() or "anonymous"`, and `dev-user` for an anonymous request with default roles.
abbrev subject : String → List String → List String → String
subject stated roles defaults =
    if stated =? ""
    then (if is_empty roles && not (is_empty defaults) then "dev-user" else "anonymous")
    else if (stated =? "anonymous") && is_empty roles && not (is_empty defaults)
    then "dev-user"
    else stated

-- `parse_uuid` is `uuid.UUID`; a text that it rejects is the 400 answer, `none` here.
unfoldable pub principal_from_request :
    (String → Option ℕ) → Option String → Headers → Option AccessPrincipal
principal_from_request parse_uuid auth_mode headers =
    let stated_roles =
      sorted_set (filled_slugs normalize_role_slug (parse_csv_header headers.roles)) in
    let defaults = dev_default_roles auth_mode in
    let roles = if is_empty stated_roles then defaults else stated_roles in
    let direct =
      sorted_set (filled_slugs normalize_capability_slug (parse_csv_header headers.capabilities)) in
    let scope_header = strip (or_empty headers.access_workspace_id) in
    let principal : Option ℕ → AccessPrincipal = λ scope. record {
      subject_id = subject (strip (or_empty headers.user_id)) stated_roles defaults;
      roles = roles;
      capabilities = resolve_effective_capabilities roles direct;
      workspace_scope_id = scope;
      application_scope = non_empty (lower (strip (or_empty headers.application_slug)));
    } in
    if scope_header =? ""
    then some (principal none)
    else elim (parse_uuid scope_header) [ none ↦ none | some id ↦ some (principal (some id)) ]

unfoldable pub has_all : List String → List String → Bool
has_all [] held = true
has_all (c ∷ required) held = member c held && has_all required held

unfoldable pub has_any : List String → List String → Bool
has_any [] held = false
has_any (c ∷ required) held = member c held || has_any required held

unfoldable pub meets : Bool → List String → List String → Bool
meets require_all [] held = true
meets true required held = has_all required held
meets false required held = has_any required held

unfoldable pub workspace_fits : Option ℕ → Option ℕ → Bool
workspace_fits (some requested) (some scope) = scope == requested
workspace_fits requested scope = true

unfoldable pub application_fits : Option String → Option String → Bool
application_fits requested none = true
application_fits requested (some scope) =
    let app = lower (strip (or_empty requested)) in (app =? "") || (scope =? "") || (scope =? app)

unfoldable pub assert_access :
    AccessPrincipal → List String → Option ℕ → Option String → Bool → Result AccessFault (Unit {0})
assert_access principal required_capabilities workspace_id application_slug require_all =
    let required = filled_slugs normalize_capability_slug required_capabilities in
    if meets require_all required principal.capabilities
    then (if workspace_fits workspace_id principal.workspace_scope_id
        then (if application_fits application_slug principal.application_scope
            then ok tt
            else err not_scoped_to_application)
        else err not_scoped_to_workspace)
    else err (missing_capability required)

-- The answers that refuse a request: 400 for a workspace header that is no UUID, and 403.
pub data HttpRefusal : Type 0 where
  invalid_workspace_header : HttpRefusal
  forbidden : AccessFault → HttpRefusal

unfoldable pub enforce_access_or_403 :
    AccessPrincipal → List String → Option ℕ → Option String → Bool → Result HttpRefusal (Unit {0})
enforce_access_or_403 principal required_capabilities workspace_id application_slug require_all =
    elim (assert_access principal required_capabilities workspace_id application_slug require_all) [
      | ok done ↦ ok done
      | err e ↦ err (forbidden e)
    ]

-- The dependency that `require_capabilities` makes, on a request.
unfoldable pub require_capabilities :
    (String → Option ℕ)
    → Option String
    → List String
    → Bool
    → Option String
    → Headers
    → Result HttpRefusal AccessPrincipal
require_capabilities parse_uuid auth_mode required_capabilities require_all application_slug
      headers =
    elim (principal_from_request parse_uuid auth_mode headers) [
      | none ↦ err invalid_workspace_header
      | some principal ↦
          elim (assert_access principal required_capabilities none application_slug require_all) [
            | ok done ↦ ok principal
            | err e ↦ err (forbidden e)
          ]
    ]
