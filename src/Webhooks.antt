-- ===== src/Webhooks.antt =====
-- packages/webhooks/src/index.ts: the addresses to which no webhook is sent. Texts are given by their
-- code points.
pub mod Addresses
pub mod Signing
pub mod Delivery
use kommunsign.Prelude.{
  ℕ, ◌+◌, ◌-◌, ◌*◌, Bool, true, false, ◌&&◌, ◌||◌, Option, none, some, List, [], ◌∷◌, map, Result,
  ok, err, ◌>>=◌, ◌>>◌, throw_if, for_each, if◌then◌else◌, leb, ◌==◌, nat_eq, includes, is_empty,
}
use kommunsign.Prelude.Text.{codes, starts_with}

pub data WebhookError : Type 0 where
  dns_resolution_empty dns_resolved_private_ip : WebhookError

pub record Ipv4 : Type 0 where
  pub a : ℕ
  pub b : ℕ
  pub c : ℕ
  pub d : ℕ

abbrev pub push_code : ℕ → List (List ℕ) → List (List ℕ)
push_code code [] = (code ∷ []) ∷ []
push_code code (part ∷ parts) = (code ∷ part) ∷ parts

-- `value.split('.')`
abbrev pub split_dots : List ℕ → List (List ℕ)
split_dots [] = [] ∷ []
split_dots (code ∷ value) =
    let rest = split_dots value in if code == 46 then [] ∷ rest else push_code code rest

abbrev pub is_digit : ℕ → Bool
is_digit code = leb 48 code && leb code 57

abbrev pub up_to_255 : Bool → ℕ → Option ℕ
up_to_255 digits n = if digits && leb n 255 then some n else none

-- A part of one to three digits, as a number up to 255.
abbrev pub octet : List ℕ → Option ℕ
octet (x ∷ []) = up_to_255 (is_digit x) (x - 48)
octet (x ∷ y ∷ []) = up_to_255 (is_digit x && is_digit y) (10 * (x - 48) + (y - 48))
octet (x ∷ y ∷ z ∷ []) =
    up_to_255 (is_digit x && is_digit y && is_digit z) (100 * (x - 48) + 10 * (y - 48) + (z - 48))
octet _ = none

abbrev pub four_octets : Option ℕ → Option ℕ → Option ℕ → Option ℕ → Option Ipv4
four_octets (some a) (some b) (some c) (some d) = some (record { a = a; b = b; c = c; d = d })
four_octets _ _ _ _ = none

abbrev pub from_parts : List (List ℕ) → Option Ipv4
from_parts (a ∷ b ∷ c ∷ d ∷ []) = four_octets (octet a) (octet b) (octet c) (octet d)
from_parts _ = none

unfoldable pub parse_ipv4 : List ℕ → Option Ipv4
parse_ipv4 value = from_parts (split_dots value)

abbrev pub is_forbidden_ipv4 : ℕ → ℕ → Bool
is_forbidden_ipv4 a b =
    a == 0
    || a == 10
    || a == 127
    || leb 224 a
    || (a == 100 && leb 64 b && leb b 127)
    || (a == 169 && b == 254)
    || (a == 172 && leb 16 b && leb b 31)
    || (a == 192 && b == 168)
    || (a == 198 && (b == 18 || b == 19))

-- `value.replace(/^\[|\]$/g, '')`
abbrev pub drop_last_bracket : List ℕ → List ℕ
drop_last_bracket [] = []
drop_last_bracket (code ∷ []) = if code == 93 then [] else code ∷ []
drop_last_bracket (code ∷ next ∷ value) = code ∷ drop_last_bracket (next ∷ value)

abbrev pub drop_brackets : List ℕ → List ℕ
drop_brackets [] = []
drop_brackets (code ∷ value) = drop_last_bracket (if code == 91 then value else code ∷ value)

abbrev pub same_text : List ℕ → List ℕ → Bool
same_text [] [] = true
same_text [] (y ∷ ys) = false
same_text (x ∷ xs) [] = false
same_text (x ∷ xs) (y ∷ ys) = x == y && same_text xs ys

abbrev pub is_forbidden_ipv6 : List ℕ → Bool
is_forbidden_ipv6 value =
    same_text value (codes "::")
    || same_text value (codes "::1")
    || starts_with (codes "fc") value
    || starts_with (codes "fd") value
    || starts_with (codes "fe8") value
    || starts_with (codes "fe9") value
    || starts_with (codes "fea") value
    || starts_with (codes "feb") value
    || starts_with (codes "ff") value

unfoldable pub is_forbidden_ip_literal : List ℕ → Bool
unfolding parse_ipv4
is_forbidden_ip_literal value = elim (parse_ipv4 value) [
  | some address ↦ is_forbidden_ipv4 address.a address.b
  | none ↦ includes value 58 && is_forbidden_ipv6 (drop_brackets value)
]

-- `toLowerCase` on ASCII. No other letter has one of those that are looked for as its lower case.
abbrev pub lower : ℕ → ℕ
lower code = if leb 65 code && leb code 90 then code + 32 else code

abbrev pub check_address : List ℕ → Result WebhookError (Unit {0})
check_address address =
    throw_if (is_forbidden_ip_literal (map lower address)) dns_resolved_private_ip

unfoldable pub assert_resolved_webhook_addresses : List (List ℕ) → Result WebhookError (Unit {0})
assert_resolved_webhook_addresses addresses = do
  throw_if (is_empty addresses) dns_resolution_empty
  for_each addresses check_address
