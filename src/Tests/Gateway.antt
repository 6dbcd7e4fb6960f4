-- ===== src/Tests/Gateway.antt =====
-- Runs of packages/tenant-gateway, and its theorems applied.
use kommunsign.Prelude.{◌≡◌, refl, none, some, err}
use kommunsign.TenantGateway.{
  ResolvedTenantDomain, production, Resolver, new_resolver, lookup, consult, admit, misdirected,
}
use kommunsign.TenantGateway.Routing.{IsOwn, Reach, here, next, admits, by_cache, routing_sound}

abbrev domain : ResolvedTenantDomain
domain = record {
  domain_id = "d";
  tenant_id = "t";
  environment_id = "e";
  environment = production;
  data_plane_id = "p";
  hostname = "sign.example.se";
  primary_hostname = "sign.example.se";
  default_hostname = "example.kommunsign.se";
  branding_version = none;
  status = "active";
}

abbrev fresh : Resolver
fresh = new_resolver none

abbrev warm : Resolver
warm = (admit fresh "sign.example.se" none (some domain) 1000).resolver

cached_run : (consult warm "sign.example.se" 30999).hit ≡ some domain
unfolding new_resolver admit consult lookup
cached_run = refl

expired_run : (consult warm "sign.example.se" 31000).hit ≡ none
unfolding new_resolver admit consult lookup
expired_run = refl

misdirected_run : (admit fresh "other.example.se" none (some domain) 1000).result ≡ err misdirected
unfolding admit
misdirected_run = refl

reached : Reach fresh warm
reached = next here (admits "sign.example.se" none (some domain) 1000)

routing_sound_example : IsOwn "sign.example.se" domain
routing_sound_example = routing_sound none "sign.example.se" reached (by_cache 30999 cached_run)
