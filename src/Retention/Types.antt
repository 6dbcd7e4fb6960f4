-- ===== src/Retention/Types.antt =====
-- The data of packages/retention/src/index.ts and executor.ts.
use kommunsign.Prelude.{ℕ, String, ◌≡◌, Bool, Option, List, [], ◌∷◌, arith, Eq, eq_by_index}
use kommunsign.Prelude.Number.{Number, IsoDateTime}

pub data RetentionMode : Type 0 where
  retain_forever retain_for_period archive_then_delete delete_after_period legal_hold :
      RetentionMode

abbrev pub mode_index : RetentionMode → ℕ
mode_index retain_forever = 0
mode_index retain_for_period = 1
mode_index archive_then_delete = 2
mode_index delete_after_period = 3
mode_index legal_hold = 4

pub mode_index-injective : (a b : RetentionMode) → mode_index a ≡ mode_index b → a ≡ b
mode_index-injective a b h = ground arith

instance abbrev pub mode_eq : Eq RetentionMode
mode_eq = eq_by_index mode_index mode_index-injective

abbrev pub retention_modes : List RetentionMode
retention_modes =
    retain_forever ∷ retain_for_period ∷ archive_then_delete ∷ delete_after_period ∷ legal_hold ∷ []

pub data RetentionClass : Type 0 where
  business_data security_log access_log : RetentionClass

abbrev pub class_index : RetentionClass → ℕ
class_index business_data = 0
class_index security_log = 1
class_index access_log = 2

pub class_index-injective : (a b : RetentionClass) → class_index a ≡ class_index b → a ≡ b
class_index-injective a b h = ground arith

instance abbrev pub class_eq : Eq RetentionClass
class_eq = eq_by_index class_index class_index-injective

pub data RetentionAction : Type 0 where
  retain archive_then_delete_case delete : RetentionAction

abbrev pub action_index : RetentionAction → ℕ
action_index retain = 0
action_index archive_then_delete_case = 1
action_index delete = 2

pub action_index-injective : (a b : RetentionAction) → action_index a ≡ action_index b → a ≡ b
action_index-injective a b h = ground arith

instance abbrev pub action_eq : Eq RetentionAction
action_eq = eq_by_index action_index action_index-injective

pub data RetentionReason : Type 0 where
  under_legal_hold case_not_closed policy_inactive retained_forever : RetentionReason
  period_not_elapsed minimum_retention_not_elapsed : RetentionReason
  due_for_deletion due_for_archive_then_deletion : RetentionReason

-- The codes of RetentionPolicyError; `time_range` is the RangeError of `toISOString`.
pub data RetentionPolicyError : Type 0 where
  mode_invalid version_invalid period_required period_forbidden : RetentionPolicyError
  log_mode_invalid below_pub_floor anchor_invalid time_range : RetentionPolicyError
  report_empty target_unknown target_duplicate count_invalid : RetentionPolicyError

pub record RetentionPolicy : Type 0 where
  pub policy_key : String
  pub version : Number
  pub retention_class : RetentionClass
  pub mode : RetentionMode
  pub period_days : Option Number
  pub active : Bool
  pub instruction_reference : Option String

-- `closed_at` is `none` for null, and for the empty text, which the source treats alike.
pub record RetentionSubject : Type 0 where
  pub tenant_id : String
  pub case_id : String
  pub status : String
  pub closed_at : Option IsoDateTime
  pub legal_hold_active : Bool

pub record RetentionDecision : Type 0 where
  pub action : RetentionAction
  pub reason : RetentionReason
  pub eligible_at : Option IsoDateTime
