-- ===== src/Access/Grants.antt =====
-- Which capabilities a principal has, and what more capabilities change.
use xyn.Base.{
  ℕ, String, ◌≡◌, refl, sym, ap, ◌∙◌, Bool, true, false, ◌||◌, Option, List, [], ◌∷◌, ◌++◌, arith,
  eq_iff, ◌=?◌, if◌then◌else◌,
}
use xyn.Base.Exec.{ok}
use xyn.Base.Sort.{sort_by, insert_sorted}
use xyn.Access.Control.{
  AccessPrincipal, member, distinct, sorted_set, granted_by, granted_by_all, filled_slugs,
  normalize_role_slug, normalize_capability_slug, resolve_effective_capabilities, has_all, has_any,
  meets, assert_access,
}

member-append :
    (c : String) (xs ys : List String) → member c (xs ++ ys) ≡ (member c xs || member c ys)
unfolding member
member-append c [] ys = refl
member-append c (x ∷ xs) ys = ground (arith, member-append c xs ys)

member-same :
    (c x : String) (xs : List String) → member x xs ≡ true → (x =? c) ≡ true → member c xs ≡ true
member-same c x xs m e = rw (sym ((eq_iff x c).0 e)) m

member-distinct : (c : String) (xs : List String) → member c (distinct xs) ≡ member c xs
unfolding distinct member
member-distinct c [] = refl
member-distinct c (x ∷ xs) =
    ground (arith, member-distinct c xs, member-distinct x xs, member-same c x xs)

member-insert_sorted :
    (before : String → String → Bool) (c x : String) (xs : List String)
    → member c (insert_sorted before x xs) ≡ (if x =? c then true else member c xs)
unfolding insert_sorted member
member-insert_sorted before c x [] = refl
member-insert_sorted before c x (y ∷ ys) = ground (arith, member-insert_sorted before c x ys)

member-sort_by :
    (before : String → String → Bool) (c : String) (xs : List String)
    → member c (sort_by before xs) ≡ member c xs
unfolding sort_by member
member-sort_by before c [] = refl
member-sort_by before c (x ∷ xs) =
    member-insert_sorted before c x (sort_by before xs)
    ∙ ap (λ b. if x =? c then true else b) (member-sort_by before c xs)

-- Some role of the list grants the capability.
abbrev pub some_role_grants : String → List String → Bool
some_role_grants c [] = false
some_role_grants c (role ∷ roles) =
    member c (granted_by (normalize_role_slug role)) || some_role_grants c roles

member-granted_by_all :
    (c : String) (roles : List String) → member c (granted_by_all roles) ≡ some_role_grants c roles
unfolding granted_by_all member
member-granted_by_all c [] = refl
member-granted_by_all c (role ∷ roles) =
    member-append c (granted_by (normalize_role_slug role)) (granted_by_all roles)
    ∙ ap (λ b. member c (granted_by (normalize_role_slug role)) || b)
        (member-granted_by_all c roles)

-- The effective capabilities are exactly those that some role grants and those that are given
-- directly, normalized and not blank.
pub member-resolve_effective_capabilities :
    (c : String) (roles direct : List String)
    → member c (resolve_effective_capabilities roles direct)
      ≡ (some_role_grants c roles || member c (filled_slugs normalize_capability_slug direct))
unfolding resolve_effective_capabilities sorted_set
member-resolve_effective_capabilities c roles direct =
    let given = filled_slugs normalize_capability_slug direct in
    member-sort_by _ c (distinct (granted_by_all roles ++ given))
    ∙ member-distinct c (granted_by_all roles ++ given)
    ∙ member-append c (granted_by_all roles) given
    ∙ ap (λ b. b || member c given) (member-granted_by_all c roles)

module _ (held more : List String)
    (grows : (c : String) → member c held ≡ true → member c more ≡ true) where
  has_all_mono :
      (required : List String) → has_all required held ≡ true → has_all required more ≡ true
  unfolding has_all
  has_all_mono [] h = refl
  has_all_mono (c ∷ required) h = ground (arith, has_all_mono required, grows c)

  has_any_mono :
      (required : List String) → has_any required held ≡ true → has_any required more ≡ true
  unfolding has_any
  has_any_mono [] h = h
  has_any_mono (c ∷ required) h = ground (arith, has_any_mono required, grows c)

  meets_mono :
      (require_all : Bool) (required : List String)
      → meets require_all required held ≡ true
      → meets require_all required more ≡ true
  unfolding meets
  meets_mono require_all [] h = refl
  meets_mono true (c ∷ required) h = has_all_mono (c ∷ required) h
  meets_mono false (c ∷ required) h = has_any_mono (c ∷ required) h

-- A check that a principal passes is passed by every principal of the same scopes that has at least
-- its capabilities, whether all or any of the required capabilities are asked for.
pub assert_access_mono :
    (p : AccessPrincipal) (more : List String) (required : List String) (workspace_id : Option ℕ)
    (application_slug : Option String) (require_all : Bool)
    → ((c : String) → member c p.capabilities ≡ true → member c more ≡ true)
    → assert_access p required workspace_id application_slug require_all ≡ ok tt
    → assert_access
        (record p { capabilities = more })
        required
        workspace_id
        application_slug
        require_all
      ≡ ok tt
unfolding assert_access
assert_access_mono p more required w a all grows h = ground (
  arith,
  meets_mono p.capabilities more grows all (filled_slugs normalize_capability_slug required),
)
