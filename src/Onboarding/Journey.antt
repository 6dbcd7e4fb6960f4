-- ===== src/Onboarding/Journey.antt =====
-- The ways that an application can go.
use kommunsign.Prelude.{
  ℕ, zero, suc, ◌≡◌, refl, ◌⊎◌, Bool, true, false, ◌&&◌, ◌||◌, List, [], arith, ok, includes, ◌==◌,
}
use kommunsign.Prelude.Journeys.{Journey, here, prepend, journey_keeps, gate}
use kommunsign.Onboarding.Status.{
  ApplicationStatus, status_eq, approved_or_later_statuses, can_transition_application,
  assert_application_transition, is_application_decision_pending, is_application_approved_or_later,
  draft, email_verification_pending, email_verified, submitted, under_initial_review,
  additional_information_requested, resubmitted, commercial_review, legal_review, security_review,
  technical_review, approved, rejected, withdrawn, provisioning, provisioning_failed, onboarding,
  ready_for_acceptance_test, acceptance_test_failed, ready_for_activation, active, archived,
}

-- One transition that the code lets pass.
pub data Step (s t : ApplicationStatus) : Type 0 where
  moves : assert_application_transition s t ≡ ok tt → Step s t

enters_by_approval :
    (s t : ApplicationStatus)
    → Step s t
    → is_application_approved_or_later t ≡ true
    → (t ≡ approved) ⊎ (is_application_approved_or_later s ≡ true)
unfolding assert_application_transition can_transition_application is_application_approved_or_later
enters_by_approval s t (moves h) p = ground arith

-- Decided one way or the other: approved or later, rejected, withdrawn or archived.
abbrev pub is_past_decision : ApplicationStatus → Bool
is_past_decision s =
    includes approved_or_later_statuses s || s == rejected || s == withdrawn || s == archived

past_not_pending :
    (s : ApplicationStatus) → is_past_decision s ≡ true → is_application_decision_pending s ≡ false
unfolding is_application_decision_pending
past_not_pending s h = ground arith

later_stays :
    (s t : ApplicationStatus) → Step s t → is_past_decision s ≡ true → is_past_decision t ≡ true
unfolding assert_application_transition can_transition_application
later_stays s t (moves h) p = ground arith

-- An application that is approved or later has been approved: however it came from a state before,
-- `approved` is among the states that it entered.
pub later_needs_approval :
    {s t : ApplicationStatus} {visited : List ApplicationStatus}
    → Journey Step s t visited
    → is_application_approved_or_later s ≡ false
    → is_application_approved_or_later t ≡ true
    → includes visited approved ≡ true
later_needs_approval j p q = gate is_application_approved_or_later approved enters_by_approval j p q

-- Once a decision is taken, the application never waits for one again.
pub decision_is_final :
    {s t : ApplicationStatus} {visited : List ApplicationStatus}
    → Journey Step s t visited
    → is_past_decision s ≡ true
    → is_application_decision_pending t ≡ false
decision_is_final j p = past_not_pending _ (journey_keeps is_past_decision later_stays j p)

-- A decision is pending exactly where the application can be approved as well as rejected.
pub pending_iff_decidable :
    (s : ApplicationStatus)
    → is_application_decision_pending s
      ≡ (can_transition_application s approved && can_transition_application s rejected)
unfolding can_transition_application is_application_decision_pending
pending_iff_decidable s = ground arith

abbrev is_near_active : ApplicationStatus → Bool
is_near_active s = s == ready_for_activation || s == active

abbrev is_tested : ApplicationStatus → Bool
is_tested s =
    s == ready_for_acceptance_test
    || s == acceptance_test_failed
    || s == ready_for_activation
    || s == active

enters_near_active :
    (s t : ApplicationStatus)
    → Step s t
    → is_near_active t ≡ true
    → (t ≡ ready_for_activation) ⊎ (is_near_active s ≡ true)
unfolding assert_application_transition can_transition_application
enters_near_active s t (moves h) p = ground arith

enters_tested :
    (s t : ApplicationStatus)
    → Step s t
    → is_tested t ≡ true
    → (t ≡ ready_for_acceptance_test) ⊎ (is_tested s ≡ true)
unfolding assert_application_transition can_transition_application
enters_tested s t (moves h) p = ground arith

-- From a draft, an application becomes active only by way of an approval, an acceptance test and
-- the readiness for activation.
pub activation_needs_all :
    {visited : List ApplicationStatus}
    → Journey Step draft active visited
    → (includes visited approved ≡ true)
      × (includes visited ready_for_acceptance_test ≡ true)
      × (includes visited ready_for_activation ≡ true)
unfolding is_application_approved_or_later
activation_needs_all j = (
  later_needs_approval j refl refl,
  gate is_tested ready_for_acceptance_test enters_tested j refl refl,
  gate is_near_active ready_for_activation enters_near_active j refl refl,
)

-- Nothing leaves the archive.
pub archive_is_final : {t : ApplicationStatus} → Step archived t → ⊥
unfolding assert_application_transition can_transition_application
archive_is_final (moves h) = ground arith

-- The next state on a way to the archive, and how many are left.
abbrev toward : ApplicationStatus → ApplicationStatus
toward draft = withdrawn
toward email_verification_pending = withdrawn
toward email_verified = withdrawn
toward submitted = rejected
toward under_initial_review = rejected
toward additional_information_requested = rejected
toward resubmitted = rejected
toward commercial_review = rejected
toward legal_review = rejected
toward security_review = rejected
toward technical_review = rejected
toward provisioning = onboarding
toward ready_for_acceptance_test = acceptance_test_failed
toward _ = archived

abbrev left : ApplicationStatus → ℕ
left archived = 0
left approved = 1
left rejected = 1
left withdrawn = 1
left provisioning_failed = 1
left onboarding = 1
left acceptance_test_failed = 1
left ready_for_activation = 1
left active = 1
left _ = 2

toward_moves :
    (s : ApplicationStatus) (n : ℕ)
    → left s ≡ suc n
    → (assert_application_transition s (toward s) ≡ ok tt) × (left (toward s) ≡ n)
unfolding assert_application_transition can_transition_application
toward_moves s n h = ground arith

left_none : (s : ApplicationStatus) → left s ≡ 0 → s ≡ archived
left_none s h = ground arith

to_archive :
    (n : ℕ) (s : ApplicationStatus)
    → left s ≡ n
    → (visited : List ApplicationStatus) × Journey Step s archived visited
to_archive zero s h = rw (left_none s h) ([], here)
to_archive (suc n) s h =
    let (move, less) = toward_moves s n h in
    let (visited, j) = to_archive n (toward s) less in prepend (moves move) j

-- From every state the application can still be brought to the archive.
pub archive_is_reachable :
    (s : ApplicationStatus) → (visited : List ApplicationStatus) × Journey Step s archived visited
archive_is_reachable s = to_archive (left s) s refl
