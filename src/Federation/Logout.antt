-- ===== src/Federation/Logout.antt =====
-- packages/federation/src/index.ts: `resolveLogoutTargets`.
pub mod Laws
use kommunsign.Prelude.{
  String, Bool, true, false, not, ◌&&◌, Option, none, some, List, map, filter, ◌==◌, ◌!=◌,
  string_eq, Result, ok, ◌>>=◌, ◌>>◌, throw_if,
}
use kommunsign.Prelude.Sort.{sort}
use kommunsign.Prelude.TextOrder.{text_le}
use kommunsign.Federation.Types.{
  FederationConfig, FederationError, rejected, signature_not_verified, issuer_mismatch,
}

pub record LogoutRequest : Type 0 where
  pub issuer : String
  pub subject : String
  pub session_index : Option String
  pub signature_verified : Bool

pub record Session : Type 0 where
  pub session_id : String
  pub tenant_id : String
  pub subject : String
  pub session_index : Option String

abbrev pub same_optional : Option String → Option String → Bool
same_optional none none = true
same_optional none (some b) = false
same_optional (some a) none = false
same_optional (some a) (some b) = a == b

-- The two filters of the source, one behind the other.
abbrev pub is_subjects : LogoutRequest → FederationConfig → Session → Bool
is_subjects request config session =
    session.tenant_id == config.tenant_id && session.subject == request.subject

abbrev pub is_indexed : Option String → Option String → Bool
is_indexed none index = true
is_indexed (some wanted) index = same_optional index (some wanted)

unfoldable pub resolve_logout_targets :
    LogoutRequest → FederationConfig → List Session → Result FederationError (List String)
resolve_logout_targets request config sessions = do
  throw_if (not request.signature_verified) (rejected signature_not_verified)
  throw_if (request.issuer != config.issuer) (rejected issuer_mismatch)
  ok (
      sort text_le (
        map (λ (session : Session). session.session_id)
          (filter (λ (session : Session). is_indexed request.session_index session.session_index)
            (filter (is_subjects request config) sessions))))
