-- ===== src/Tests/AccessTests.antt =====
-- Capabilities and checks at concrete inputs.
use xyn.Base.{arith, String, ◌≡◌, refl, true, ◌||◌, none, some, [], ◌∷◌}
use xyn.Base.Exec.{err, ok}
use xyn.Base.Table.{select}
use xyn.Base.Text.{strip, lstrip, rstrip, lower, is_space}
use xyn.Access.Refusal.{bare, require_capabilities-refuses}
use xyn.Access.Control.{
  dev_default_roles, require_capabilities, forbidden, missing_capability, AccessPrincipal, member,
  filled_slugs, normalize_capability_slug, resolve_effective_capabilities, assert_access, meets,
  has_all, workspace_fits, application_fits,
}
use xyn.Access.Grants.{some_role_grants, member-resolve_effective_capabilities, assert_access_mono}

member-resolve_effective_capabilities_example :
    member "app.read"
      (resolve_effective_capabilities ("Read-Only-Analyst" ∷ []) (" App.Extra " ∷ []))
    ≡ (some_role_grants "app.read" ("Read-Only-Analyst" ∷ [])
        || member "app.read" (filled_slugs normalize_capability_slug (" App.Extra " ∷ [])))
member-resolve_effective_capabilities_example =
    member-resolve_effective_capabilities "app.read" ("Read-Only-Analyst" ∷ []) (" App.Extra " ∷ [])

abbrev reader : AccessPrincipal
reader = record {
  subject_id = "u1";
  roles = [];
  capabilities = "app.read" ∷ [];
  workspace_scope_id = some 7;
  application_scope = none;
}

reader_passes : assert_access reader ("App.Read" ∷ []) (some 7) none true ≡ ok tt
unfolding assert_access filled_slugs select normalize_capability_slug lower strip lstrip rstrip
    is_space meets has_all member workspace_fits application_fits
reader_passes = refl

reader_grows :
    (c : String)
    → member c ("app.read" ∷ []) ≡ true
    → member c ("app.jobs" ∷ "app.read" ∷ []) ≡ true
unfolding member
reader_grows c h = ground arith

assert_access_mono_example :
    assert_access
      (record reader { capabilities = "app.jobs" ∷ "app.read" ∷ [] })
      ("App.Read" ∷ [])
      (some 7)
      none
      true
    ≡ ok tt
assert_access_mono_example =
    assert_access_mono reader ("app.jobs" ∷ "app.read" ∷ []) ("App.Read" ∷ []) (some 7) none true
      reader_grows reader_passes

oidc_grants_nothing : dev_default_roles (some "oidc") ≡ []
unfolding dev_default_roles strip lstrip rstrip is_space lower
oidc_grants_nothing = refl

one_required : filled_slugs normalize_capability_slug ("App.Read" ∷ []) ≡ "app.read" ∷ []
unfolding filled_slugs select normalize_capability_slug lower strip lstrip rstrip is_space
one_required = refl

require_capabilities-refuses_example :
    require_capabilities
      (λ s. none)
      (some "oidc")
      ("App.Read" ∷ [])
      true
      none
      (bare (some "u1") none)
    ≡ err (forbidden (missing_capability ("app.read" ∷ [])))
require_capabilities-refuses_example =
    require_capabilities-refuses (λ s. none) (some "oidc") (some "u1") none none ("App.Read" ∷ [])
      true "app.read" [] oidc_grants_nothing one_required
