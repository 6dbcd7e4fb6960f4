-- ===== src/TenantGateway.antt =====
-- packages/tenant-gateway/src/index.ts: the resolver of a request's hostname, with its cache. The
-- hostname is the one that `resolveRequestHostname` or `canonicalHostname` gives. The await of the
-- repository divides `resolve` in two, between which other calls may run.
pub mod Routing
use kommunsign.Prelude.{
  ℕ, ◌+◌, String, Bool, not, ◌||◌, Option, none, some, List, [], ◌∷◌, ◌++◌, filter, if◌then◌else◌,
  ltb, min, max, ◌==◌, ◌!=◌, string_eq, Result, ok, err,
}

pub data TenantEnvironment : Type 0 where
  test production : TenantEnvironment

pub record ResolvedTenantDomain : Type 0 where
  pub domain_id : String
  pub tenant_id : String
  pub environment_id : String
  pub environment : TenantEnvironment
  pub data_plane_id : String
  pub hostname : String
  pub primary_hostname : String
  pub default_hostname : String
  pub branding_version : Option ℕ
  pub status : String

pub data EventType : Type 0 where
  resolution_succeeded unknown_host_rejected inactive_host_rejected : EventType
  misdirected_request cache_invalidated : EventType

-- `domain` gives the tenant, the environment and the domain of an event, where it has them.
pub record RoutingEvent : Type 0 where
  pub normalized_hostname : String
  pub event_type : EventType
  pub request_id : Option String
  pub domain : Option ResolvedTenantDomain

pub record CacheEntry : Type 0 where
  pub expires_at : ℕ
  pub value : ResolvedTenantDomain

-- One key of the map and its value.
pub record CacheLine : Type 0 where
  pub key : String
  pub entry : CacheEntry

-- The events are those that were handed to the repository, the last first.
pub record Resolver : Type 0 where
  pub cache_ttl_ms : ℕ
  pub cache : List CacheLine
  pub events : List RoutingEvent

pub data ResolutionError : Type 0 where
  tenant_domain_not_found misdirected : ResolutionError
  unverified_forwarded_host host_header_invalid : ResolutionError

abbrev pub default_ttl : Option ℕ → ℕ
default_ttl none = 30000
default_ttl (some ms) = ms

unfoldable pub new_resolver : Option ℕ → Resolver
new_resolver cache_ttl_ms = record {
  cache_ttl_ms = min (max (default_ttl cache_ttl_ms) 1000) 300000;
  cache = [];
  events = [];
}

-- `this.cache.get(hostname)`
unfoldable pub lookup : String → List CacheLine → Option CacheEntry
lookup hostname [] = none
lookup hostname (line ∷ cache) =
    let rest = lookup hostname cache in if line.key == hostname then some line.entry else rest

-- `this.cache.delete(hostname)`
abbrev pub delete : String → List CacheLine → List CacheLine
delete hostname cache = filter (λ (line : CacheLine). line.key != hostname) cache

abbrev pub record_event :
    EventType → String → Option String → Option ResolvedTenantDomain → Resolver → Resolver
record_event event_type hostname request_id domain resolver = record resolver {
  events =
      record {
        normalized_hostname = hostname;
        event_type = event_type;
        request_id = request_id;
        domain = domain;
      }
      ∷ resolver.events;
}

pub record Consulted : Type 0 where
  pub resolver : Resolver
  pub hit : Option ResolvedTenantDomain

abbrev pub consult_entry : Resolver → String → ℕ → Option CacheEntry → Consulted
consult_entry resolver hostname now none = record { resolver = resolver; hit = none }
consult_entry resolver hostname now (some entry) =
    if ltb now entry.expires_at
    then record { resolver = resolver; hit = some entry.value }
    else record {
      resolver = record resolver { cache = delete hostname resolver.cache };
      hit = none;
    }

-- `resolve` up to the call of the repository: a hit ends it.
unfoldable pub consult : Resolver → String → ℕ → Consulted
consult resolver hostname now = consult_entry resolver hostname now (lookup hostname resolver.cache)

pub record Answered : Type 0 where
  pub resolver : Resolver
  pub result : Result ResolutionError ResolvedTenantDomain

-- The rest of `resolve`, with the repository's answer and the time behind it.
unfoldable pub admit :
    Resolver → String → Option String → Option ResolvedTenantDomain → ℕ → Answered
admit resolver hostname request_id none now = record {
  resolver = record_event unknown_host_rejected hostname request_id none resolver;
  result = err tenant_domain_not_found;
}
admit resolver hostname request_id (some domain) now =
    if domain.hostname != hostname || domain.status != "active"
    then record {
      resolver = record_event misdirected_request hostname request_id (some domain) resolver;
      result = err misdirected;
    }
    else record {
      resolver =
          record_event resolution_succeeded hostname request_id (some domain) (record resolver {
            cache =
                record {
                  key = hostname;
                  entry = record { expires_at = now + resolver.cache_ttl_ms; value = domain };
                }
                ∷ delete hostname resolver.cache;
          });
      result = ok domain;
    }

unfoldable pub invalidate : Resolver → String → Resolver
invalidate resolver hostname =
    record_event cache_invalidated hostname none none
      (record resolver { cache = delete hostname resolver.cache })

unfoldable pub clear : Resolver → Resolver
clear resolver = record resolver { cache = [] }
