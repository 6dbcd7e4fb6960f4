-- ===== src/Tests/Hooks.antt =====
-- Runs of packages/webhooks, and its theorem applied.
use kommunsign.Prelude.{◌≡◌, ◌≢◌, refl, [], ◌∷◌, arith, ok, err}
use kommunsign.Prelude.Text.{codes}
use kommunsign.Webhooks.{
  parse_ipv4, is_forbidden_ip_literal, assert_resolved_webhook_addresses, dns_resolution_empty,
  dns_resolved_private_ip,
}
use kommunsign.Webhooks.Addresses.{dotted, private_172, private_address_refused}
use kommunsign.Webhooks.Signing.{SignedWebhook, sign_webhook, verify_webhook}
use kommunsign.Webhooks.Delivery.{signed_webhook_passes}
use kommunsign.Crypto.Hex.{to_hex, from_hex, parse_pairs}
use kommunsign.Crypto.Hex.Laws.{AreBytes}
use kommunsign.Crypto.Hmac.{
  normalize_signature, collect_diff, constant_time_equal, hmac_sha256_hex, verify_hmac_sha256_hex,
}
use kommunsign.Crypto.CanonicalJson.{null, encode, canonical_json}
use kommunsign.Prelude.Number.{Number, whole}
use kommunsign.Prelude.Text.{trim_codes}
use kommunsign.Prelude.{ℕ, true, false, List, length}
use kommunsign.Tests.Sealing.{fill, fill-AreBytes}

steps : Unit {0}
unfolding parse_ipv4 is_forbidden_ip_literal assert_resolved_webhook_addresses
steps = tt

public_run : assert_resolved_webhook_addresses (codes "93.184.216.34" ∷ []) ≡ ok tt
unfolding steps
public_run = refl

empty_run : assert_resolved_webhook_addresses [] ≡ err dns_resolution_empty
unfolding steps
empty_run = refl

unique_local_run :
    assert_resolved_webhook_addresses (codes "FD00::1" ∷ []) ≡ err dns_resolved_private_ip
unfolding steps
unique_local_run = refl

-- An IPv4 address that is mapped into IPv6 is not recognised as private.
mapped_run : assert_resolved_webhook_addresses (codes "::ffff:127.0.0.1" ∷ []) ≡ ok tt
unfolding steps
mapped_run = refl

private_address_refused_example :
    assert_resolved_webhook_addresses (codes "93.184.216.34" ∷ dotted 172 20 0 1 ∷ []) ≢ ok tt
private_address_refused_example =
    private_address_refused (codes "93.184.216.34" ∷ []) [] 172 20 0 1 (omega arith) (omega arith)
      (omega arith) (omega arith) (private_172 20 (omega arith) (omega arith))

abbrev toy_mac : List ℕ → List ℕ → List ℕ
toy_mac secret text = 7 ∷ fill 1 (length text)

toy_mac_shaped :
    (secret text : List ℕ) → AreBytes (toy_mac secret text) × (toy_mac secret text ≢ [])
toy_mac_shaped secret text = ((omega arith, fill-AreBytes 1 (length text)), λ e. absurd (cc))

abbrev at_1000 : List ℕ → Number
at_1000 text = whole 1000

abbrev delivery : SignedWebhook
delivery = record { body = codes "null"; timestamp = codes "1000"; signature = codes "sha256=0709" }

crypto : Unit {0}
unfolding fill to_hex from_hex parse_pairs normalize_signature trim_codes collect_diff
    constant_time_equal hmac_sha256_hex verify_hmac_sha256_hex canonical_json sign_webhook
    verify_webhook encode
crypto = tt

sign_run : sign_webhook toy_mac at_1000 null [] (codes "1000") ≡ ok delivery
unfolding crypto
sign_run = refl

passes_run : verify_webhook toy_mac at_1000 delivery [] 1300 300 ≡ true
unfolding crypto
passes_run = refl

too_late_run : verify_webhook toy_mac at_1000 delivery [] 1301 300 ≡ false
unfolding crypto
too_late_run = refl

signed_webhook_passes_example : verify_webhook toy_mac at_1000 delivery [] 1200 300 ≡ true
signed_webhook_passes_example =
    signed_webhook_passes toy_mac at_1000 null [] (codes "1000") delivery 1000 1200 300
      (toy_mac_shaped []) sign_run refl refl (omega arith) (omega arith)
