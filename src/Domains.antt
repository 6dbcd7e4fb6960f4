-- ===== src/Domains.antt =====
-- packages/custom-domains/src/index.ts: the states of a customer's domain, and which domain may
-- become the primary one.
pub mod Laws
use kommunsign.Prelude.{
  ℕ, String, ◌≡◌, Bool, false, not, ◌||◌, Option, none, some, List, [], ◌∷◌, arith, Result, ok, err,
  ◌>>=◌, ◌>>◌, throw_if, ◌==◌, ◌!=◌, Eq, eq_by_index, string_eq, includes,
}
use kommunsign.Prelude.Text.{is_missing}

pub data DomainState : Type 0 where
  requested dns_challenge_created dns_verification_pending dns_verified routing_pending
        certificate_pending active renewal_required suspended removed failed :
      DomainState

abbrev pub domain_state_index : DomainState → ℕ
domain_state_index requested = 0
domain_state_index dns_challenge_created = 1
domain_state_index dns_verification_pending = 2
domain_state_index dns_verified = 3
domain_state_index routing_pending = 4
domain_state_index certificate_pending = 5
domain_state_index active = 6
domain_state_index renewal_required = 7
domain_state_index suspended = 8
domain_state_index removed = 9
domain_state_index failed = 10

pub domain_state_index-injective :
    (a b : DomainState) → domain_state_index a ≡ domain_state_index b → a ≡ b
domain_state_index-injective a b h = ground arith

instance abbrev pub domain_state_eq : Eq DomainState
domain_state_eq = eq_by_index domain_state_index domain_state_index-injective

abbrev pub domain_transitions : DomainState → List DomainState
domain_transitions requested = dns_challenge_created ∷ removed ∷ failed ∷ []
domain_transitions dns_challenge_created =
    dns_verification_pending ∷ dns_verified ∷ suspended ∷ removed ∷ failed ∷ []
domain_transitions dns_verification_pending =
    dns_verified ∷ dns_challenge_created ∷ suspended ∷ removed ∷ failed ∷ []
domain_transitions dns_verified =
    routing_pending ∷ certificate_pending ∷ suspended ∷ removed ∷ failed ∷ []
domain_transitions routing_pending = certificate_pending ∷ suspended ∷ removed ∷ failed ∷ []
domain_transitions certificate_pending = active ∷ suspended ∷ removed ∷ failed ∷ []
domain_transitions active = renewal_required ∷ suspended ∷ removed ∷ failed ∷ []
domain_transitions renewal_required = certificate_pending ∷ suspended ∷ removed ∷ failed ∷ []
domain_transitions suspended =
    dns_challenge_created ∷ dns_verification_pending ∷ routing_pending ∷ certificate_pending
    ∷ removed ∷ failed ∷ []
domain_transitions failed =
    dns_challenge_created ∷ dns_verification_pending ∷ routing_pending ∷ certificate_pending
    ∷ suspended ∷ removed ∷ []
domain_transitions removed = []

pub data DomainError : Type 0 where
  domain_transition_invalid : DomainState → DomainState → DomainError
  primary_domain_not_active primary_domain_dns_not_verified : DomainError
  primary_domain_certificate_not_ready primary_domain_health_not_green : DomainError
  primary_domain_not_activated : DomainError

unfoldable pub assert_domain_transition : DomainState → DomainState → Result DomainError (Unit {0})
assert_domain_transition from to =
    throw_if (not (includes (domain_transitions from) to)) (domain_transition_invalid from to)

pub record PrimaryCandidate : Type 0 where
  pub status : DomainState
  pub dns_verified_at : Option String
  pub certificate_issued_at : Option String
  pub last_health_status : Option String
  pub activated_at : Option String

abbrev pub is_healthy : Option String → Bool
is_healthy none = false
is_healthy (some status) = status == "healthy"

unfoldable pub assert_domain_may_become_primary : PrimaryCandidate → Result DomainError (Unit {0})
assert_domain_may_become_primary input = do
  throw_if (input.status != active) primary_domain_not_active
  throw_if (is_missing input.dns_verified_at) primary_domain_dns_not_verified
  throw_if (is_missing input.certificate_issued_at) primary_domain_certificate_not_ready
  throw_if (not (is_healthy input.last_health_status)) primary_domain_health_not_green
  throw_if (is_missing input.activated_at) primary_domain_not_activated
