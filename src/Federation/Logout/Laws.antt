-- ===== src/Federation/Logout/Laws.antt =====
-- Whom a logout ends.
use kommunsign.Prelude.{
  String, ◌≡◌, refl, sym, ◌∙◌, Bool, true, not, ◌&&◌, List, [], ◌∷◌, map, arith, inl, inr,
  Bool-cases, filter, any, includes, ◌==◌, ==_iff, ◌!=◌, string_eq, ok, throw_if, >>-eq-ok,
  throw_if-eq-ok, ok_injective,
}
use kommunsign.Prelude.Sort.{includes-sort}
use kommunsign.Prelude.TextOrder.{text_le}
use kommunsign.Federation.Types.{
  FederationConfig, rejected, signature_not_verified, issuer_mismatch,
}
use kommunsign.Federation.Logout.{
  LogoutRequest, Session, is_subjects, is_indexed, resolve_logout_targets,
}

-- The session has the identifier, the tenant, the subject and, where one is named, the index.
abbrev pub is_named : LogoutRequest → FederationConfig → String → Session → Bool
is_named request config id session =
    is_subjects request config session
    && is_indexed request.session_index session.session_index
    && session.session_id == id

twice_filtered :
    (request : LogoutRequest) (config : FederationConfig) (sessions : List Session) (id : String)
    → includes
        (map
          (λ (session : Session). session.session_id)
          (filter
            (λ (session : Session). is_indexed request.session_index session.session_index)
            (filter (is_subjects request config) sessions)))
        id
      ≡ any (is_named request config id) sessions
twice_filtered request config [] id = refl
twice_filtered request config (s ∷ ss) id =
    let ih = twice_filtered request config ss id in
    elim (Bool-cases (is_subjects request config s)) [
      | inl own ↦ elim (Bool-cases (is_indexed request.session_index s.session_index)) [
        | inl indexed ↦ rw (own, indexed, ih) refl
        | inr other ↦ rw (own, other, ih) refl
      ]
      | inr other ↦ rw (other, ih) refl
    ]

-- A logout is honoured only if it is signed and comes from the configured provider, and then it
-- ends exactly the sessions of the subject in the tenant, with the index where it names one.
pub logout_sound :
    (request : LogoutRequest) (config : FederationConfig) (sessions : List Session)
    (targets : List String)
    → resolve_logout_targets request config sessions ≡ ok targets
    → (request.signature_verified ≡ true)
      × (request.issuer ≡ config.issuer)
      × ((id : String) → includes targets id ≡ any (is_named request config id) sessions)
unfolding resolve_logout_targets
logout_sound request config sessions targets h =
    let (signed, rest) =
      >>-eq-ok (throw_if (not request.signature_verified) (rejected signature_not_verified)) _ h in
    let (issuer, built) =
      >>-eq-ok (throw_if (request.issuer != config.issuer) (rejected issuer_mismatch)) _ rest in
    let same = ok_injective built in
    (
      ground (arith, throw_if-eq-ok (not request.signature_verified) _ signed),
      (==_iff request.issuer config.issuer).0
          (ground (arith, throw_if-eq-ok (request.issuer != config.issuer) _ issuer)),
      λ id. rw (sym same) (includes-sort text_le _ id ∙ twice_filtered request config sessions id),
    )
