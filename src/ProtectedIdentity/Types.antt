-- ===== src/ProtectedIdentity/Types.antt =====
-- The enumerations of packages/protected-identity/src/index.ts.
use kommunsign.Prelude.{ℕ, ◌≡◌, List, [], ◌∷◌, arith, Eq, eq_by_index}

-- The place of a level in PROTECTION_LEVELS is its index.
pub data ProtectionLevel : Type 0 where
  unprotected sekretessmarkering skyddad_folkbokforing fingerade_personuppgifter : ProtectionLevel

abbrev pub level_index : ProtectionLevel → ℕ
level_index unprotected = 0
level_index sekretessmarkering = 1
level_index skyddad_folkbokforing = 2
level_index fingerade_personuppgifter = 3

pub level_index-injective : (a b : ProtectionLevel) → level_index a ≡ level_index b → a ≡ b
level_index-injective a b h = ground arith

instance abbrev pub level_eq : Eq ProtectionLevel
level_eq = eq_by_index level_index level_index-injective

pub data OutputChannel : Type 0 where
  screen_authorised screen_colleague search_result notification_email_body
        notification_email_subject document_visible_text evidence_package archive_export
        application_log audit_log support_tooling analytics url :
      OutputChannel

abbrev pub channel_index : OutputChannel → ℕ
channel_index screen_authorised = 0
channel_index screen_colleague = 1
channel_index search_result = 2
channel_index notification_email_body = 3
channel_index notification_email_subject = 4
channel_index document_visible_text = 5
channel_index evidence_package = 6
channel_index archive_export = 7
channel_index application_log = 8
channel_index audit_log = 9
channel_index support_tooling = 10
channel_index analytics = 11
channel_index url = 12

pub channel_index-injective : (a b : OutputChannel) → channel_index a ≡ channel_index b → a ≡ b
channel_index-injective a b h = ground arith

instance abbrev pub channel_eq : Eq OutputChannel
channel_eq = eq_by_index channel_index channel_index-injective

abbrev pub output_channels : List OutputChannel
output_channels =
    screen_authorised ∷ screen_colleague ∷ search_result ∷ notification_email_body
    ∷ notification_email_subject ∷ document_visible_text ∷ evidence_package ∷ archive_export
    ∷ application_log ∷ audit_log ∷ support_tooling ∷ analytics ∷ url ∷ []

pub data ProtectedField : Type 0 where
  personal_number full_name address email_address phone_number organisational_unit : ProtectedField

abbrev pub field_index : ProtectedField → ℕ
field_index personal_number = 0
field_index full_name = 1
field_index address = 2
field_index email_address = 3
field_index phone_number = 4
field_index organisational_unit = 5

pub field_index-injective : (a b : ProtectedField) → field_index a ≡ field_index b → a ≡ b
field_index-injective a b h = ground arith

instance abbrev pub field_eq : Eq ProtectedField
field_eq = eq_by_index field_index field_index-injective

abbrev pub protected_fields : List ProtectedField
protected_fields =
    personal_number ∷ full_name ∷ address ∷ email_address ∷ phone_number ∷ organisational_unit ∷ []
