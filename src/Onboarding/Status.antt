-- ===== src/Onboarding/Status.antt =====
-- packages/onboarding/src/index.ts: the states of an application.
use kommunsign.Prelude.{
  ◌≡◌, Bool, not, List, [], ◌∷◌, arith, Result, throw_if, Eq, eq_by_index, includes, ℕ,
}

pub data ApplicationStatus : Type 0 where
  draft email_verification_pending email_verified submitted under_initial_review
        additional_information_requested resubmitted commercial_review legal_review security_review
        technical_review approved rejected withdrawn provisioning provisioning_failed onboarding
        ready_for_acceptance_test acceptance_test_failed ready_for_activation active archived :
      ApplicationStatus

abbrev pub status_index : ApplicationStatus → ℕ
status_index draft = 0
status_index email_verification_pending = 1
status_index email_verified = 2
status_index submitted = 3
status_index under_initial_review = 4
status_index additional_information_requested = 5
status_index resubmitted = 6
status_index commercial_review = 7
status_index legal_review = 8
status_index security_review = 9
status_index technical_review = 10
status_index approved = 11
status_index rejected = 12
status_index withdrawn = 13
status_index provisioning = 14
status_index provisioning_failed = 15
status_index onboarding = 16
status_index ready_for_acceptance_test = 17
status_index acceptance_test_failed = 18
status_index ready_for_activation = 19
status_index active = 20
status_index archived = 21

pub status_index-injective : (a b : ApplicationStatus) → status_index a ≡ status_index b → a ≡ b
status_index-injective a b h = ground arith

instance abbrev pub status_eq : Eq ApplicationStatus
status_eq = eq_by_index status_index status_index-injective

-- APPLICATION_DECISION_PENDING_STATUSES
abbrev pub decision_pending_statuses : List ApplicationStatus
decision_pending_statuses =
    submitted ∷ under_initial_review ∷ additional_information_requested ∷ resubmitted
    ∷ commercial_review ∷ legal_review ∷ security_review ∷ technical_review ∷ []

-- APPLICATION_APPROVED_OR_LATER_STATUSES
abbrev pub approved_or_later_statuses : List ApplicationStatus
approved_or_later_statuses =
    approved ∷ provisioning ∷ provisioning_failed ∷ onboarding ∷ ready_for_acceptance_test
    ∷ acceptance_test_failed ∷ ready_for_activation ∷ active ∷ []

abbrev pub application_transitions : ApplicationStatus → List ApplicationStatus
application_transitions draft = email_verification_pending ∷ withdrawn ∷ []
application_transitions email_verification_pending = email_verified ∷ withdrawn ∷ []
application_transitions email_verified = submitted ∷ withdrawn ∷ []
application_transitions submitted = under_initial_review ∷ approved ∷ rejected ∷ withdrawn ∷ []
application_transitions under_initial_review =
    additional_information_requested ∷ commercial_review ∷ legal_review ∷ security_review
    ∷ technical_review ∷ approved ∷ rejected ∷ withdrawn ∷ []
application_transitions additional_information_requested =
    resubmitted ∷ approved ∷ rejected ∷ withdrawn ∷ []
application_transitions resubmitted =
    under_initial_review ∷ commercial_review ∷ legal_review ∷ security_review ∷ technical_review
    ∷ approved ∷ rejected ∷ withdrawn ∷ []
application_transitions commercial_review =
    legal_review ∷ security_review ∷ technical_review ∷ additional_information_requested ∷ approved
    ∷ rejected ∷ []
application_transitions legal_review =
    commercial_review ∷ security_review ∷ technical_review ∷ additional_information_requested
    ∷ approved ∷ rejected ∷ []
application_transitions security_review =
    commercial_review ∷ legal_review ∷ technical_review ∷ additional_information_requested
    ∷ approved ∷ rejected ∷ []
application_transitions technical_review =
    commercial_review ∷ legal_review ∷ security_review ∷ additional_information_requested ∷ approved
    ∷ rejected ∷ []
application_transitions approved = provisioning ∷ archived ∷ []
application_transitions rejected = archived ∷ []
application_transitions withdrawn = archived ∷ []
application_transitions provisioning = provisioning_failed ∷ onboarding ∷ []
application_transitions provisioning_failed = provisioning ∷ rejected ∷ archived ∷ []
application_transitions onboarding = ready_for_acceptance_test ∷ archived ∷ []
application_transitions ready_for_acceptance_test =
    acceptance_test_failed ∷ ready_for_activation ∷ []
application_transitions acceptance_test_failed =
    onboarding ∷ ready_for_acceptance_test ∷ archived ∷ []
application_transitions ready_for_activation = active ∷ onboarding ∷ archived ∷ []
application_transitions active = archived ∷ []
application_transitions archived = []

unfoldable pub is_application_decision_pending : ApplicationStatus → Bool
is_application_decision_pending status = includes decision_pending_statuses status

unfoldable pub is_application_approved_or_later : ApplicationStatus → Bool
is_application_approved_or_later status = includes approved_or_later_statuses status

unfoldable pub can_transition_application : ApplicationStatus → ApplicationStatus → Bool
can_transition_application from to = includes (application_transitions from) to

pub data TransitionError : Type 0 where
  invalid_application_state_transition : TransitionError

unfoldable pub assert_application_transition :
    ApplicationStatus → ApplicationStatus → Result TransitionError (Unit {0})
assert_application_transition from to =
    throw_if (not (can_transition_application from to)) invalid_application_state_transition
