-- ===== src/Tests/Applications.antt =====
-- An application that is approved at once.
use kommunsign.Prelude.{◌≡◌, refl, true, List, [], ◌∷◌, includes}
use kommunsign.Prelude.Journeys.{Journey, here, next}
use kommunsign.Onboarding.Status.{
  ApplicationStatus, draft, email_verification_pending, email_verified, submitted, approved,
  rejected, archived, provisioning, onboarding, ready_for_acceptance_test, ready_for_activation,
  active, status_eq, assert_application_transition, can_transition_application,
  is_application_approved_or_later,
}
use kommunsign.Onboarding.Journey.{Step, moves, later_needs_approval, archive_is_reachable}

steps : Unit {0}
unfolding assert_application_transition can_transition_application
steps = tt

accepted :
    Journey Step draft approved
      (approved ∷ submitted ∷ email_verified ∷ email_verification_pending ∷ [])
unfolding steps
accepted = next (next (next (next here (moves refl)) (moves refl)) (moves refl)) (moves refl)

activated : Journey Step draft active (
    active ∷ ready_for_activation ∷ ready_for_acceptance_test ∷ onboarding ∷ provisioning ∷ approved
    ∷ submitted ∷ email_verified ∷ email_verification_pending ∷ [])
unfolding steps
activated =
    next (next (next (next (next accepted (moves refl)) (moves refl)) (moves refl)) (moves refl))
      (moves refl)

later_needs_approval_example :
    includes (approved ∷ submitted ∷ email_verified ∷ email_verification_pending ∷ []) approved
    ≡ true
unfolding is_application_approved_or_later
later_needs_approval_example = later_needs_approval accepted refl refl

closed : Journey Step rejected archived (archived ∷ [])
unfolding steps
closed = next here (moves refl)

archive_is_reachable_example :
    (visited : List ApplicationStatus) × Journey Step submitted archived visited
archive_is_reachable_example = archive_is_reachable submitted
