-- ===== src/Authorization/Laws.antt =====
-- Which duties the tables of the roles keep apart.
use kommunsign.Prelude.{
  ◌≡◌, ◌≢◌, ◌↔◌, refl, sym, ◌∙◌, Bool, true, false, not, ◌||◌, List, [], ◌∷◌, arith, ok, throw_if,
  ◌==◌, any, any_found, includes, ap, subst,
}
use kommunsign.Authorization.{
  TenantRole, tenant_admin, tenant_archive_admin, tenant_role_eq, retention_execute, permissions,
  permission_eq, has_permission, require_permission, permission_denied, PlatformRole,
  platform_super_admin, platform_role_eq, PlatformPermission, tenant_activation_request,
  tenant_activation_approve, platform_permission_eq, platform_permissions, has_platform_permission,
  require_platform_permission,
}

destroyers :
    (role : TenantRole)
    → includes (permissions role) retention_execute
      ≡ (role == tenant_admin || role == tenant_archive_admin)
destroyers role = ground arith

any_destroyer :
    (roles : List TenantRole)
    → has_permission roles retention_execute
      ≡ (includes roles tenant_admin || includes roles tenant_archive_admin)
unfolding has_permission
any_destroyer [] = refl
any_destroyer (role ∷ roles) = ground (arith, destroyers role, any_destroyer roles)

-- Data may be destroyed exactly by those who hold the role of the tenant's or the archive's
-- administrator, whatever other roles they hold.
pub destruction_is_reserved :
    (roles : List TenantRole)
    → (require_permission roles retention_execute ≡ ok tt)
      ↔ ((includes roles tenant_admin || includes roles tenant_archive_admin) ≡ true)
unfolding require_permission
destruction_is_reserved roles =
    (λ h. ground (arith, h, any_destroyer roles), λ h. ground (arith, h, any_destroyer roles))

not_thrown : {E : Type 0} (b : Bool) (e : E) → throw_if (not b) e ≡ ok tt → b ≡ true
not_thrown true e h = refl
not_thrown false e h = cc

apart :
    (role : PlatformRole)
    → role ≢ platform_super_admin
    → includes (platform_permissions role) tenant_activation_request ≡ true
    → includes (platform_permissions role) tenant_activation_approve ≡ true
    → ⊥
apart role other asks approves = ground arith

granted :
    (roles : List PlatformRole) (permission : PlatformPermission)
    → require_platform_permission roles permission ≡ ok tt
    → any (λ role. includes (platform_permissions role) permission) roles ≡ true
unfolding require_platform_permission has_platform_permission
granted roles permission h = not_thrown _ (permission_denied permission) h

-- Asking for an activation and approving it are kept apart: whoever may do both without being a
-- super administrator holds two different roles for it.
pub activation_needs_two_roles :
    (roles : List PlatformRole)
    → includes roles platform_super_admin ≡ false
    → require_platform_permission roles tenant_activation_request ≡ ok tt
    → require_platform_permission roles tenant_activation_approve ≡ ok tt
    → (asking : PlatformRole) × ((approving : PlatformRole) × (includes roles asking ≡ true)
        × (includes roles approving ≡ true)
        × (asking ≢ approving))
activation_needs_two_roles roles ordinary h h' =
    let (asking, asks_here, asks) =
      any_found (λ role. includes (platform_permissions role) tenant_activation_request) roles
        (granted roles tenant_activation_request h) in
    let (approving, approves_here, approves) =
      any_found (λ role. includes (platform_permissions role) tenant_activation_approve) roles
        (granted roles tenant_activation_approve h') in
    (
      asking,
      (
        approving,
        asks_here,
        approves_here,
        λ same.
            apart approving
              (λ super. absent (sym ordinary ∙ ap (includes roles) (sym super) ∙ approves_here))
              (subst (λ role. includes (platform_permissions role) tenant_activation_request ≡ true)
                same asks)
              approves,
      ),
    )
  where
    absent : false ≡ true → ⊥
    absent e = cc
