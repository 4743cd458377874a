-- ===== src/Access/Refusal.antt =====
-- A request that brings neither roles nor capabilities is refused outside the development modes.
use xyn.Base.{ℕ, String, ◌≡◌, refl, ap, ◌∙◌, Bool, true, false, Option, none, some, List, [], ◌∷◌}
use xyn.Base.Exec.{err}
use xyn.Base.Sort.{sort_by}
use xyn.Base.Table.{select}
use xyn.Base.Text.{strip, lstrip, rstrip}
use xyn.Access.Control.{
  AccessPrincipal, missing_capability, Headers, forbidden, member, distinct, sorted_set,
  granted_by_all, filled_slugs, parse_csv_header, normalize_capability_slug,
  resolve_effective_capabilities, dev_default_roles, principal_from_request, has_all, has_any,
  meets, assert_access, require_capabilities,
}

has_any-none : (required : List String) → has_any required [] ≡ false
unfolding has_any member
has_any-none [] = refl
has_any-none (c ∷ required) = has_any-none required

meets-none :
    (require_all : Bool) (c : String) (required : List String)
    → meets require_all (c ∷ required) [] ≡ false
unfolding meets has_all member
meets-none true c required = refl
meets-none false c required = has_any-none (c ∷ required)

-- The headers of a request that names no role, no capability and no workspace.
abbrev pub bare : Option String → Option String → Headers
bare user_id application_slug = record {
  user_id = user_id;
  roles = none;
  capabilities = none;
  access_workspace_id = none;
  application_slug = application_slug;
}

bare-principal :
    (parse_uuid : String → Option ℕ) (mode user application : Option String)
    → dev_default_roles mode ≡ []
    → (p : AccessPrincipal) × (principal_from_request parse_uuid mode (bare user application)
        ≡ some p)
      × (p.capabilities ≡ [])
unfolding principal_from_request parse_csv_header filled_slugs select sorted_set distinct sort_by
    resolve_effective_capabilities granted_by_all strip lstrip rstrip
bare-principal parse_uuid mode user application e = rw e (_, refl, refl)

assert-none :
    (p : AccessPrincipal) (required : List String) (application : Option String) (all : Bool)
    (c : String) (cs : List String)
    → p.capabilities ≡ []
    → filled_slugs normalize_capability_slug required ≡ c ∷ cs
    → assert_access p required none application all ≡ err (missing_capability (c ∷ cs))
unfolding assert_access
assert-none p required application all c cs e f =
    rw (f, ap (meets all (c ∷ cs)) e ∙ meets-none all c cs) refl

-- If the authentication mode grants no default role, a request that names no role, no capability and
-- no workspace is refused with 403 by every route that requires a capability that is not blank,
-- whether all or any of the capabilities are required.
pub require_capabilities-refuses :
    (parse_uuid : String → Option ℕ) (mode user application slug : Option String)
    (required : List String) (all : Bool) (c : String) (cs : List String)
    → dev_default_roles mode ≡ []
    → filled_slugs normalize_capability_slug required ≡ c ∷ cs
    → require_capabilities parse_uuid mode required all slug (bare user application)
      ≡ err (forbidden (missing_capability (c ∷ cs)))
unfolding require_capabilities
require_capabilities-refuses parse_uuid mode user application slug required all c cs e f =
    let (p, found, nothing) = bare-principal parse_uuid mode user application e in
    rw (found, require_capabilities) (rw (assert-none p required slug all c cs nothing f) refl)
