-- ===== src/Domains/Laws.antt =====
-- What the states of a domain promise.
use kommunsign.Prelude.{
  String, ◌≡◌, ◌≢◌, ap, none, ◌↔◌, refl, ◌⊎◌, Bool, true, false, ◌||◌, Option, some, List, arith,
  ok, ◌==◌, eq_iff, includes,
}
use kommunsign.Prelude.Text.{is_missing}
use kommunsign.Prelude.Journeys.{Journey, gate}
use kommunsign.Domains.{
  DomainState, requested, certificate_pending, active, renewal_required, removed, domain_state_eq,
  assert_domain_transition, PrimaryCandidate, is_healthy, assert_domain_may_become_primary,
}

-- One transition that the code lets pass.
pub data Step (s t : DomainState) : Type 0 where
  moves : assert_domain_transition s t ≡ ok tt → Step s t

abbrev is_served : DomainState → Bool
is_served s = s == active || s == renewal_required

enters_by_certificate :
    (s t : DomainState) → Step s t → is_served t ≡ true → (t ≡ active) ⊎ (is_served s ≡ true)
unfolding assert_domain_transition
enters_by_certificate s t (moves h) p = ground arith

abbrev has_certificate : DomainState → Bool
has_certificate s = s == certificate_pending || s == active || s == renewal_required

enters_by_pending :
    (s t : DomainState)
    → Step s t
    → has_certificate t ≡ true
    → (t ≡ certificate_pending) ⊎ (has_certificate s ≡ true)
unfolding assert_domain_transition
enters_by_pending s t (moves h) p = ground arith

-- A domain that was requested is served, or due for renewal, only after it has waited for its
-- certificate and been active, whatever else happened to it.
pub serving_needs_certificate :
    {t : DomainState} {visited : List DomainState}
    → Journey Step requested t visited
    → is_served t ≡ true
    → (includes visited certificate_pending ≡ true) × (includes visited active ≡ true)
serving_needs_certificate {t} j p = (
  gate has_certificate certificate_pending enters_by_pending j refl (ground arith),
  gate is_served active enters_by_certificate j refl p,
)

-- A domain can be removed from every state but the removed one, and then nothing follows.
pub removal_is_final :
    (s : DomainState)
    → (s ≢ removed → assert_domain_transition s removed ≡ ok tt)
      × ((t : DomainState) → assert_domain_transition removed t ≢ ok tt)
unfolding assert_domain_transition
removal_is_final s = (λ other. ground arith, λ t h. ground arith)

-- What the code asks of a primary domain.
pub record MayBePrimary (input : PrimaryCandidate) : Type 0 where
  pub is_on : input.status ≡ active
  pub dns : is_missing input.dns_verified_at ≡ false
  pub certificate : is_missing input.certificate_issued_at ≡ false
  pub healthy : input.last_health_status ≡ some "healthy"
  pub activated : is_missing input.activated_at ≡ false

healthy_iff : (status : Option String) → (is_healthy status ≡ true) ↔ (status ≡ some "healthy")
healthy_iff none = (λ h. cc, λ h. cc)
healthy_iff (some status) = (
  λ h. ap some ((eq_iff status "healthy").0 h),
  λ h. (eq_iff status "healthy").1 (some_injective h),
)
  where
    some_injective : {a b : String} → ◌≡◌ {A = Option String} (some a) (some b) → a ≡ b
    some_injective h = cc

-- A domain becomes the primary one exactly when it is active, verified, certified, activated and was
-- healthy when it was last looked at.
pub primary_iff :
    (input : PrimaryCandidate)
    → (assert_domain_may_become_primary input ≡ ok tt) ↔ MayBePrimary input
unfolding assert_domain_may_become_primary
primary_iff input = (
  λ h. record {
    is_on = ground arith;
    dns = ground arith;
    certificate = ground arith;
    healthy = (healthy_iff input.last_health_status).0 (ground arith);
    activated = ground arith;
  },
  λ m. ground (
    arith,
    m.is_on,
    m.dns,
    m.certificate,
    m.activated,
    (healthy_iff input.last_health_status).1 m.healthy,
  ),
)
