-- ===== src/Authorization/Roles.antt =====
-- The roles and the permissions of packages/authorization/src/index.ts.
use kommunsign.Prelude.{ℕ, ◌≡◌, arith, Eq, eq_by_index}

pub data PlatformRole : Type 0 where
  platform_super_admin platform_security_admin platform_operations platform_support platform_auditor
        onboarding_manager onboarding_case_worker commercial_reviewer legal_reviewer
        security_reviewer technical_reviewer provisioning_operator activation_approver :
      PlatformRole

abbrev pub platform_role_index : PlatformRole → ℕ
platform_role_index platform_super_admin = 0
platform_role_index platform_security_admin = 1
platform_role_index platform_operations = 2
platform_role_index platform_support = 3
platform_role_index platform_auditor = 4
platform_role_index onboarding_manager = 5
platform_role_index onboarding_case_worker = 6
platform_role_index commercial_reviewer = 7
platform_role_index legal_reviewer = 8
platform_role_index security_reviewer = 9
platform_role_index technical_reviewer = 10
platform_role_index provisioning_operator = 11
platform_role_index activation_approver = 12

pub platform_role_index-injective :
    (a b : PlatformRole) → platform_role_index a ≡ platform_role_index b → a ≡ b
platform_role_index-injective a b h = ground arith

instance abbrev pub platform_role_eq : Eq PlatformRole
platform_role_eq = eq_by_index platform_role_index platform_role_index-injective

pub data TenantRole : Type 0 where
  tenant_admin tenant_security_admin tenant_integration_admin tenant_archive_admin department_admin
        document_creator document_sender approver auditor readonly :
      TenantRole

abbrev pub tenant_role_index : TenantRole → ℕ
tenant_role_index tenant_admin = 0
tenant_role_index tenant_security_admin = 1
tenant_role_index tenant_integration_admin = 2
tenant_role_index tenant_archive_admin = 3
tenant_role_index department_admin = 4
tenant_role_index document_creator = 5
tenant_role_index document_sender = 6
tenant_role_index approver = 7
tenant_role_index auditor = 8
tenant_role_index readonly = 9

pub tenant_role_index-injective :
    (a b : TenantRole) → tenant_role_index a ≡ tenant_role_index b → a ≡ b
tenant_role_index-injective a b h = ground arith

instance abbrev pub tenant_role_eq : Eq TenantRole
tenant_role_eq = eq_by_index tenant_role_index tenant_role_index-injective

pub data PlatformPermission : Type 0 where
  onboarding_read onboarding_assign onboarding_review onboarding_request_information
        onboarding_decide onboarding_provision tenant_readiness tenant_activation_request
        tenant_activation_approve organization_read organization_create organization_user_manage
        platform_audit_read :
      PlatformPermission

abbrev pub platform_permission_index : PlatformPermission → ℕ
platform_permission_index onboarding_read = 0
platform_permission_index onboarding_assign = 1
platform_permission_index onboarding_review = 2
platform_permission_index onboarding_request_information = 3
platform_permission_index onboarding_decide = 4
platform_permission_index onboarding_provision = 5
platform_permission_index tenant_readiness = 6
platform_permission_index tenant_activation_request = 7
platform_permission_index tenant_activation_approve = 8
platform_permission_index organization_read = 9
platform_permission_index organization_create = 10
platform_permission_index organization_user_manage = 11
platform_permission_index platform_audit_read = 12

pub platform_permission_index-injective :
    (a b : PlatformPermission) → platform_permission_index a ≡ platform_permission_index b → a ≡ b
platform_permission_index-injective a b h = ground arith

instance abbrev pub platform_permission_eq : Eq PlatformPermission
platform_permission_eq = eq_by_index platform_permission_index platform_permission_index-injective

pub data Permission : Type 0 where
  case_create case_send case_cancel case_read case_remind document_add document_download signer_add
        signer_personnummer_binding_exempt upload_create validation_read evidence_download
        policy_manage integration_manage webhook_manage event_read template_read template_manage
        audit_read archive_manage tenant_manage retention_manage retention_execute privacy_manage
        privacy_execute protected_identity_assess :
      Permission

abbrev pub permission_index : Permission → ℕ
permission_index case_create = 0
permission_index case_send = 1
permission_index case_cancel = 2
permission_index case_read = 3
permission_index case_remind = 4
permission_index document_add = 5
permission_index document_download = 6
permission_index signer_add = 7
permission_index signer_personnummer_binding_exempt = 8
permission_index upload_create = 9
permission_index validation_read = 10
permission_index evidence_download = 11
permission_index policy_manage = 12
permission_index integration_manage = 13
permission_index webhook_manage = 14
permission_index event_read = 15
permission_index template_read = 16
permission_index template_manage = 17
permission_index audit_read = 18
permission_index archive_manage = 19
permission_index tenant_manage = 20
permission_index retention_manage = 21
permission_index retention_execute = 22
permission_index privacy_manage = 23
permission_index privacy_execute = 24
permission_index protected_identity_assess = 25

pub permission_index-injective :
    (a b : Permission) → permission_index a ≡ permission_index b → a ≡ b
permission_index-injective a b h = ground arith

instance abbrev pub permission_eq : Eq Permission
permission_eq = eq_by_index permission_index permission_index-injective
