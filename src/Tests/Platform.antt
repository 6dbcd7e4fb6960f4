-- ===== src/Tests/Platform.antt =====
-- Runs of packages/custom-domains, packages/readiness and packages/authorization, and their theorems
-- applied.
use kommunsign.Prelude.{◌≡◌, refl, true, false, none, some, List, [], ◌∷◌, ok, err}
use kommunsign.Prelude.Number.{instant}
use kommunsign.Prelude.Journeys.{Journey, here, next}
use kommunsign.Domains.{
  requested, dns_challenge_created, dns_verified, certificate_pending, active, failed,
  domain_state_eq, assert_domain_transition, PrimaryCandidate, assert_domain_may_become_primary,
  primary_domain_health_not_green,
}
use kommunsign.Domains.Laws.{Step, moves}
use kommunsign.Readiness.{
  production, blocking, warning, ReadinessCheck, evaluate_readiness, assert_ready_for_activation,
  tenant_not_ready_for_activation,
}
use kommunsign.Authorization.{
  tenant_role_eq, PlatformRole, onboarding_manager, activation_approver, platform_role_eq,
  tenant_activation_request, tenant_activation_approve, has_platform_permission,
  require_platform_permission,
}

served :
    Journey Step requested active
      (active ∷ certificate_pending ∷ dns_verified ∷ dns_challenge_created ∷ [])
unfolding assert_domain_transition
served = next (next (next (next here (moves refl)) (moves refl)) (moves refl)) (moves refl)

-- By way of a failure, a domain becomes active without the state `dns_verified`.
unverified : Journey Step requested active (active ∷ certificate_pending ∷ failed ∷ [])
unfolding assert_domain_transition
unverified = next (next (next here (moves refl)) (moves refl)) (moves refl)

abbrev candidate : PrimaryCandidate
candidate = record {
  status = active;
  dns_verified_at = some "2026-01-01";
  certificate_issued_at = some "2026-01-02";
  last_health_status = some "healthy";
  activated_at = some "2026-01-03";
}

primary_run : assert_domain_may_become_primary candidate ≡ ok tt
unfolding assert_domain_may_become_primary
primary_run = refl

unhealthy_run :
    assert_domain_may_become_primary (record candidate { last_health_status = none })
    ≡ err primary_domain_health_not_green
unfolding assert_domain_may_become_primary
unhealthy_run = refl

abbrev check : ReadinessCheck
check = record {
  code = "DPA_NOT_ACCEPTED";
  passed = false;
  severity = blocking;
  checked_at = instant 0;
}

abbrev checks : List ReadinessCheck
checks = check ∷ record check { passed = true } ∷ record check { severity = warning } ∷ []

blocked_run :
    assert_ready_for_activation (evaluate_readiness production checks)
    ≡ err tenant_not_ready_for_activation
unfolding evaluate_readiness assert_ready_for_activation
blocked_run = refl

abbrev both_roles : List PlatformRole
both_roles = onboarding_manager ∷ activation_approver ∷ []

asking_run : require_platform_permission both_roles tenant_activation_request ≡ ok tt
unfolding require_platform_permission has_platform_permission
asking_run = refl

approving_run : require_platform_permission both_roles tenant_activation_approve ≡ ok tt
unfolding require_platform_permission has_platform_permission
approving_run = refl
