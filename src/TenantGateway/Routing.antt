-- ===== src/TenantGateway/Routing.antt =====
-- Which domain a request is routed to.
use kommunsign.Prelude.{
  ℕ, ◌<◌, String, ◌≡◌, refl, false, ◌||◌, Option, none, some, List, [], ◌∷◌, arith, ltb, ◌==◌, ◌!=◌,
  ==_iff, string_eq, Result, ok, err, All, subst, Bool-cases, inl, inr,
}
use kommunsign.TenantGateway.{
  ResolvedTenantDomain, CacheEntry, CacheLine, Resolver, new_resolver, lookup, delete,
  consult_entry, consult, admit, invalidate, clear, ResolutionError,
}

-- An active domain under its own hostname.
pub record IsOwn (hostname : String) (domain : ResolvedTenantDomain) : Type 0 where
  pub own : domain.hostname ≡ hostname
  pub status : domain.status ≡ "active"

pub IsConsistent : Resolver → Type 0
IsConsistent resolver = All (λ line. IsOwn line.key line.entry.value) resolver.cache

-- What runs on a resolver, in any order: other requests may stand between the two parts of one.
pub data Step : Resolver → Resolver → Type 0 where
  consults :
      {resolver : Resolver} (hostname : String) (now : ℕ)
      → Step resolver (consult resolver hostname now).resolver
  admits :
      {resolver : Resolver} (hostname : String) (request_id : Option String)
      (answer : Option ResolvedTenantDomain) (now : ℕ)
      → Step resolver (admit resolver hostname request_id answer now).resolver
  invalidates :
      {resolver : Resolver} (hostname : String) → Step resolver (invalidate resolver hostname)
  clears : {resolver : Resolver} → Step resolver (clear resolver)

pub data Reach (start : Resolver) : Resolver → Type 0 where
  here : Reach start start
  next : {r s : Resolver} → Reach start r → Step r s → Reach start s

delete_keeps :
    (hostname : String) (cache : List CacheLine)
    → All (λ line. IsOwn line.key line.entry.value) cache
    → All (λ line. IsOwn line.key line.entry.value) (delete hostname cache)
delete_keeps hostname [] h = tt
delete_keeps hostname (line ∷ cache) h = elim (Bool-cases (line.key == hostname)) [
  | inl same ↦ rw same (delete_keeps hostname cache h.1)
  | inr other ↦ rw other (h.0, delete_keeps hostname cache h.1)
]

some_injective : {A : Type 0} {a b : A} → ◌≡◌ {A = Option A} (some a) (some b) → a ≡ b
some_injective h = cc

looked_up :
    (hostname : String) (cache : List CacheLine) {entry : CacheEntry}
    → All (λ line. IsOwn line.key line.entry.value) cache
    → lookup hostname cache ≡ some entry
    → IsOwn hostname entry.value
unfolding lookup
looked_up hostname [] h e = absurd (ground (arith, e))
looked_up hostname (line ∷ cache) {entry} h e = elim (Bool-cases (line.key == hostname)) [
  | inl same ↦
      subst (λ k. IsOwn k entry.value) ((==_iff line.key hostname).0 same)
        (subst (λ (x : CacheEntry). IsOwn line.key x.value) (some_injective (rw same at e)) h.0)
  | inr other ↦ looked_up hostname cache h.1 (rw other at e)
]

entry_keeps :
    (resolver : Resolver) (hostname : String) (now : ℕ) (found : Option CacheEntry)
    → IsConsistent resolver
    → IsConsistent (consult_entry resolver hostname now found).resolver
unfolding IsConsistent
entry_keeps resolver hostname now none h = h
entry_keeps resolver hostname now (some entry) h = elim (Bool-cases (ltb now entry.expires_at)) [
  | inl fresh ↦ rw fresh h
  | inr stale ↦ rw stale (delete_keeps hostname resolver.cache h)
]

consult_keeps :
    (resolver : Resolver) (hostname : String) (now : ℕ)
    → IsConsistent resolver
    → IsConsistent (consult resolver hostname now).resolver
unfolding consult
consult_keeps resolver hostname now h =
    entry_keeps resolver hostname now (lookup hostname resolver.cache) h

IsOwn-domain :
    (hostname : String) (domain : ResolvedTenantDomain)
    → (domain.hostname != hostname || domain.status != "active") ≡ false
    → IsOwn hostname domain
IsOwn-domain hostname domain good = record {
  own = (==_iff domain.hostname hostname).0 (ground (arith, good));
  status = (==_iff domain.status "active").0 (ground (arith, good));
}

admit_keeps :
    (resolver : Resolver) (hostname : String) (request_id : Option String)
    (answer : Option ResolvedTenantDomain) (now : ℕ)
    → IsConsistent resolver
    → IsConsistent (admit resolver hostname request_id answer now).resolver
unfolding admit IsConsistent
admit_keeps resolver hostname request_id none now h = h
admit_keeps resolver hostname request_id (some domain) now h =
    elim (Bool-cases (domain.hostname != hostname || domain.status != "active")) [
      | inl bad ↦ rw bad h
      | inr good ↦
          rw good (IsOwn-domain hostname domain good, delete_keeps hostname resolver.cache h)
    ]

Step-IsConsistent : {r s : Resolver} → Step r s → IsConsistent r → IsConsistent s
unfolding IsConsistent invalidate clear
Step-IsConsistent {r} (consults hostname now) h = consult_keeps r hostname now h
Step-IsConsistent {r} (admits hostname request_id answer now) h =
    admit_keeps r hostname request_id answer now h
Step-IsConsistent {r} (invalidates hostname) h = delete_keeps hostname r.cache h
Step-IsConsistent clears h = tt

Reach-IsConsistent : {r s : Resolver} → IsConsistent r → Reach r s → IsConsistent s
Reach-IsConsistent h here = h
Reach-IsConsistent h (next reached step) = Step-IsConsistent step (Reach-IsConsistent h reached)

empty-IsConsistent : (cache_ttl_ms : Option ℕ) → IsConsistent (new_resolver cache_ttl_ms)
unfolding IsConsistent new_resolver
empty-IsConsistent cache_ttl_ms = tt

entry_hit :
    (resolver : Resolver) (hostname : String) (now : ℕ) (found : Option CacheEntry)
    {domain : ResolvedTenantDomain}
    → (consult_entry resolver hostname now found).hit ≡ some domain
    → (entry : CacheEntry) × (found ≡ some entry)
      × (entry.value ≡ domain)
      × (now < entry.expires_at)
entry_hit resolver hostname now none h = absurd (cc)
entry_hit resolver hostname now (some entry) h = elim (Bool-cases (ltb now entry.expires_at)) [
  | inl fresh ↦ (entry, refl, some_injective (rw fresh at h), ground (arith, fresh))
  | inr stale ↦ absurd (ground (arith, stale, h))
]

admitted :
    (resolver : Resolver) (hostname : String) (request_id : Option String)
    (answer : Option ResolvedTenantDomain) (now : ℕ) {domain : ResolvedTenantDomain}
    → (admit resolver hostname request_id answer now).result ≡ ok domain
    → IsOwn hostname domain
unfolding admit
admitted resolver hostname request_id none now h = absurd (cc)
admitted resolver hostname request_id (some found) now h =
    elim (Bool-cases (found.hostname != hostname || found.status != "active")) [
      | inl bad ↦ absurd (refused (rw bad at h))
      | inr good ↦ subst (IsOwn hostname) (same (rw good at h)) (IsOwn-domain hostname found good)
    ]
  where
    refused :
        {e : ResolutionError} {d : ResolvedTenantDomain}
        → ◌≡◌ {A = Result ResolutionError ResolvedTenantDomain} (err e) (ok d)
        → ⊥
    refused q = cc

    same :
        {c d : ResolvedTenantDomain}
        → ◌≡◌ {A = Result ResolutionError ResolvedTenantDomain} (ok c) (ok d)
        → c ≡ d
    same q = cc

forgotten :
    (hostname : String) (cache : List CacheLine) → lookup hostname (delete hostname cache) ≡ none
unfolding lookup
forgotten hostname [] = refl
forgotten hostname (line ∷ cache) = elim (Bool-cases (line.key == hostname)) [
  | inl same ↦ rw same (forgotten hostname cache)
  | inr other ↦ rw (other, other) (forgotten hostname cache)
]

-- A request for a hostname that a resolver routes to a domain, from its cache or by the repository's
-- answer.
pub data Routed (resolver : Resolver) (hostname : String) (domain : ResolvedTenantDomain)
    : Type 0 where
  by_cache :
      (now : ℕ)
      → (consult resolver hostname now).hit ≡ some domain
      → Routed resolver hostname domain
  by_answer :
      (request_id : Option String) (answer : Option ResolvedTenantDomain) (now : ℕ)
      → (admit resolver hostname request_id answer now).result ≡ ok domain
      → Routed resolver hostname domain

-- Whatever ran on the resolver since it was made, and between the two parts of a request: the
-- request is only ever routed to an active domain of its own hostname, be it from the cache or by
-- the repository's answer.
pub routing_sound :
    {resolver : Resolver} (cache_ttl_ms : Option ℕ) (hostname : String)
    {domain : ResolvedTenantDomain}
    → Reach (new_resolver cache_ttl_ms) resolver
    → Routed resolver hostname domain
    → IsOwn hostname domain
unfolding consult IsConsistent
routing_sound {resolver} cache_ttl_ms hostname reached (by_cache now h) =
    let consistent = Reach-IsConsistent (empty-IsConsistent cache_ttl_ms) reached in
    let (entry, found, same, fresh) =
      entry_hit resolver hostname now (lookup hostname resolver.cache) h in
    subst (IsOwn hostname) same (looked_up hostname resolver.cache consistent found)
routing_sound {resolver} cache_ttl_ms hostname reached (by_answer request_id answer now h) =
    admitted resolver hostname request_id answer now h

-- After an invalidation, whatever came before it, the cache has nothing for the hostname, and the
-- repository is asked.
pub invalidation_forgets :
    (resolver : Resolver) (hostname : String) (now : ℕ)
    → (consult (invalidate resolver hostname) hostname now).hit ≡ none
unfolding consult invalidate
invalidation_forgets resolver hostname now = rw (forgotten hostname resolver.cache) refl
