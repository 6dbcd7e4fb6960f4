-- ===== src/Authorization.antt =====
-- packages/authorization/src/index.ts: what a role may do.
mod Roles
pub mod Laws
pub use Roles.*
use kommunsign.Prelude.{Bool, not, List, [], ◌∷◌, Result, throw_if, any, includes}

pub data Denied (P : Type 0) : Type 0 where
  permission_denied : P → Denied P

abbrev pub permissions : TenantRole → List Permission
permissions tenant_admin =
    case_create ∷ case_send ∷ case_cancel ∷ case_read ∷ case_remind ∷ document_add
    ∷ document_download ∷ signer_add ∷ signer_personnummer_binding_exempt ∷ upload_create
    ∷ validation_read ∷ evidence_download ∷ policy_manage ∷ integration_manage ∷ webhook_manage
    ∷ event_read ∷ template_read ∷ template_manage ∷ audit_read ∷ archive_manage ∷ tenant_manage
    ∷ retention_manage ∷ retention_execute ∷ privacy_manage ∷ privacy_execute
    ∷ protected_identity_assess ∷ []
permissions tenant_security_admin =
    case_read ∷ validation_read ∷ policy_manage ∷ audit_read ∷ event_read ∷ integration_manage
    ∷ retention_manage ∷ privacy_manage ∷ privacy_execute ∷ protected_identity_assess ∷ []
permissions tenant_integration_admin =
    case_create ∷ case_read ∷ document_add ∷ signer_add ∷ upload_create ∷ integration_manage
    ∷ webhook_manage ∷ event_read ∷ template_read ∷ []
permissions tenant_archive_admin =
    case_read ∷ document_download ∷ validation_read ∷ evidence_download ∷ archive_manage
    ∷ audit_read ∷ event_read ∷ retention_manage ∷ retention_execute ∷ []
permissions department_admin =
    case_create ∷ case_send ∷ case_cancel ∷ case_read ∷ case_remind ∷ document_add
    ∷ document_download ∷ signer_add ∷ upload_create ∷ validation_read ∷ evidence_download
    ∷ template_read ∷ []
permissions document_creator =
    case_create ∷ case_read ∷ document_add ∷ signer_add ∷ upload_create ∷ template_read ∷ []
permissions document_sender =
    case_create ∷ case_send ∷ case_cancel ∷ case_read ∷ case_remind ∷ document_add
    ∷ document_download ∷ signer_add ∷ upload_create ∷ validation_read ∷ evidence_download
    ∷ template_read ∷ []
permissions approver = case_read ∷ []
permissions auditor = case_read ∷ validation_read ∷ event_read ∷ audit_read ∷ []
permissions readonly = case_read ∷ template_read ∷ []

unfoldable pub has_permission : List TenantRole → Permission → Bool
has_permission roles permission = any (λ role. includes (permissions role) permission) roles

unfoldable pub require_permission :
    List TenantRole → Permission → Result (Denied Permission) (Unit {0})
unfolding has_permission
require_permission roles permission =
    throw_if (not (has_permission roles permission)) (permission_denied permission)

abbrev pub platform_permissions : PlatformRole → List PlatformPermission
platform_permissions platform_super_admin =
    onboarding_read ∷ onboarding_assign ∷ onboarding_review ∷ onboarding_request_information
    ∷ onboarding_decide ∷ onboarding_provision ∷ tenant_readiness ∷ tenant_activation_request
    ∷ tenant_activation_approve ∷ organization_read ∷ organization_create ∷ organization_user_manage
    ∷ platform_audit_read ∷ []
platform_permissions platform_security_admin =
    onboarding_read ∷ onboarding_review ∷ tenant_readiness ∷ tenant_activation_approve
    ∷ platform_audit_read ∷ []
platform_permissions platform_operations =
    onboarding_read ∷ onboarding_assign ∷ onboarding_provision ∷ tenant_readiness
    ∷ tenant_activation_request ∷ organization_read ∷ platform_audit_read ∷ []
platform_permissions platform_support = onboarding_read ∷ onboarding_request_information ∷ []
platform_permissions platform_auditor = onboarding_read ∷ platform_audit_read ∷ []
platform_permissions onboarding_manager =
    onboarding_read ∷ onboarding_assign ∷ onboarding_review ∷ onboarding_request_information
    ∷ onboarding_decide ∷ onboarding_provision ∷ tenant_readiness ∷ tenant_activation_request
    ∷ organization_read ∷ platform_audit_read ∷ []
platform_permissions onboarding_case_worker =
    onboarding_read ∷ onboarding_assign ∷ onboarding_review ∷ onboarding_request_information ∷ []
platform_permissions commercial_reviewer = onboarding_read ∷ onboarding_review ∷ []
platform_permissions legal_reviewer = onboarding_read ∷ onboarding_review ∷ []
platform_permissions security_reviewer = onboarding_read ∷ onboarding_review ∷ tenant_readiness ∷ []
platform_permissions technical_reviewer =
    onboarding_read ∷ onboarding_review ∷ tenant_readiness ∷ []
platform_permissions provisioning_operator =
    onboarding_read ∷ onboarding_provision ∷ tenant_readiness ∷ tenant_activation_request
    ∷ organization_read ∷ []
platform_permissions activation_approver =
    onboarding_read ∷ tenant_readiness ∷ tenant_activation_approve ∷ []

unfoldable pub has_platform_permission : List PlatformRole → PlatformPermission → Bool
has_platform_permission roles permission =
    any (λ role. includes (platform_permissions role) permission) roles

unfoldable pub require_platform_permission :
    List PlatformRole → PlatformPermission → Result (Denied PlatformPermission) (Unit {0})
unfolding has_platform_permission
require_platform_permission roles permission =
    throw_if (not (has_platform_permission roles permission)) (permission_denied permission)
