-- ===== src/Webhooks/Addresses.antt =====
-- Which IPv4 addresses a webhook never reaches.
use kommunsign.Prelude.{
  ℕ, ◌+◌, ◌/◌, ◌%◌, ◌≤◌, ◌≡◌, ◌≢◌, refl, sym, ap, ◌∙◌, true, false, some, List, [], ◌∷◌, ◌++◌, map,
  arith, ok, throw_if, for_each, for_each-All, >>-eq-ok, throw_if-eq-ok, if◌then◌else◌, ltb, nat_eq,
  All, is_empty, Bool-cases, inl, inr,
}
use kommunsign.Webhooks.{
  Ipv4, split_dots, octet, from_parts, parse_ipv4, is_forbidden_ipv4, is_forbidden_ip_literal,
  lower, check_address, dns_resolution_empty, dns_resolved_private_ip,
  assert_resolved_webhook_addresses,
}

-- A number of at most three digits, in decimal.
abbrev pub decimal : ℕ → List ℕ
decimal n =
    if ltb n 10
    then (48 + n) ∷ []
    else if ltb n 100
    then (48 + n / 10) ∷ (48 + n % 10) ∷ []
    else (48 + n / 100) ∷ (48 + n / 10 % 10) ∷ (48 + n % 10) ∷ []

-- The address `a.b.c.d`.
abbrev pub dotted : ℕ → ℕ → ℕ → ℕ → List ℕ
dotted a b c d = decimal a ++ (46 ∷ (decimal b ++ (46 ∷ (decimal c ++ (46 ∷ decimal d)))))

octet-decimal : (n : ℕ) → n ≤ 255 → octet (decimal n) ≡ some n
octet-decimal n le = elim (Bool-cases (ltb n 10)) [
  | inl small ↦ rw small (ground (arith, small))
  | inr large ↦ rw large (elim (Bool-cases (ltb n 100)) [
    | inl two ↦ rw two (ground (arith, two))
    | inr three ↦ rw three (ground (arith, three, le))
  ])
]

abbrev IsDigits : List ℕ → Type 0
IsDigits = All (λ code. (48 ≤ code) × (code ≤ 57))

decimal-IsDigits : (n : ℕ) → n ≤ 255 → IsDigits (decimal n)
decimal-IsDigits n le = elim (Bool-cases (ltb n 10)) [
  | inl small ↦ rw small ((omega arith, ground (arith, small)), tt)
  | inr large ↦ rw large (elim (Bool-cases (ltb n 100)) [
    | inl two ↦ rw two ((omega arith, ground (arith, two)), ((omega arith, omega arith), tt))
    | inr three ↦ rw three (
      (omega arith, omega (arith, le)),
      ((omega arith, omega arith), ((omega arith, omega arith), tt)),
    )
  ])
]

split_last : (part : List ℕ) → IsDigits part → split_dots part ≡ part ∷ []
split_last [] h = refl
split_last (code ∷ part) h = ground (arith, h.0.0, split_last part h.1)

split_part :
    (part rest : List ℕ) → IsDigits part → split_dots (part ++ (46 ∷ rest)) ≡ part ∷ split_dots rest
split_part [] rest h = refl
split_part (code ∷ part) rest h = ground (arith, h.0.0, split_part part rest h.1)

map-lower : (part : List ℕ) → IsDigits part → map lower part ≡ part
map-lower [] h = refl
map-lower (code ∷ part) h = ground (arith, h.0.1, map-lower part h.1)

lower_part :
    (part rest : List ℕ)
    → IsDigits part
    → map lower rest ≡ rest
    → map lower (part ++ (46 ∷ rest)) ≡ part ++ (46 ∷ rest)
lower_part [] rest h same = ap (λ r. 46 ∷ r) same
lower_part (code ∷ part) rest h same = ground (arith, h.0.1, lower_part part rest h.1 same)

module _ (a b c d : ℕ) (la : a ≤ 255) (lb : b ≤ 255) (lc : c ≤ 255) (ld : d ≤ 255) where
  split_dotted : split_dots (dotted a b c d) ≡ decimal a ∷ decimal b ∷ decimal c ∷ decimal d ∷ []
  split_dotted =
      rw
        (
          split_part (decimal a) _ (decimal-IsDigits a la),
          split_part (decimal b) _ (decimal-IsDigits b lb),
          split_part (decimal c) _ (decimal-IsDigits c lc),
          split_last (decimal d) (decimal-IsDigits d ld),
        )
        refl

  -- An address that is written out is read back.
  pub parse-dotted : parse_ipv4 (dotted a b c d) ≡ some (record { a = a; b = b; c = c; d = d })
  unfolding parse_ipv4
  parse-dotted =
      ap from_parts split_dotted
      ∙ rw (octet-decimal a la, octet-decimal b lb, octet-decimal c lc, octet-decimal d ld) refl

  lower-dotted : map lower (dotted a b c d) ≡ dotted a b c d
  lower-dotted = lower_part (decimal a) _ (decimal-IsDigits a la) (
      lower_part (decimal b) _ (decimal-IsDigits b lb) (
        lower_part (decimal c) _ (decimal-IsDigits c lc)
          (map-lower (decimal d) (decimal-IsDigits d ld))))

  is_refused : is_forbidden_ipv4 a b ≡ true → check_address (dotted a b c d) ≡ ok tt → ⊥
  unfolding is_forbidden_ip_literal
  is_refused private h =
      let forbidden : is_forbidden_ip_literal (dotted a b c d) ≡ true =
        read_as (dotted a b c d) parse-dotted private in
      let again : is_forbidden_ip_literal (map lower (dotted a b c d)) ≡ true =
        ap is_forbidden_ip_literal lower-dotted ∙ forbidden in
      clash (
        sym again
        ∙ throw_if-eq-ok (is_forbidden_ip_literal (map lower (dotted a b c d)))
            dns_resolved_private_ip h)
    where
      clash : true ≡ false → ⊥
      clash e = cc

      read_as :
          (value : List ℕ) {address : Ipv4}
          → parse_ipv4 value ≡ some address
          → is_forbidden_ipv4 address.a address.b ≡ true
          → is_forbidden_ip_literal value ≡ true
      read_as value h p = rw (h, is_forbidden_ip_literal) p

element :
    (P : List ℕ → Type 0) (front : List (List ℕ)) (x : List ℕ) (back : List (List ℕ))
    → All P (front ++ (x ∷ back))
    → P x
element P [] x back h = h.0
element P (y ∷ front) x back h = element P front x back h.1

-- The ranges of IPv4 that the source closes, by the first two numbers of an address.
pub data IsClosed : ℕ → ℕ → Type 0 where
  this_network : (b : ℕ) → IsClosed 0 b
  private_10 : (b : ℕ) → IsClosed 10 b
  loopback : (b : ℕ) → IsClosed 127 b
  shared_100 : (b : ℕ) → 64 ≤ b → b ≤ 127 → IsClosed 100 b
  link_local : IsClosed 169 254
  private_172 : (b : ℕ) → 16 ≤ b → b ≤ 31 → IsClosed 172 b
  private_192 : IsClosed 192 168
  benchmark : (b : ℕ) → 18 ≤ b → b ≤ 19 → IsClosed 198 b
  multicast_or_reserved : (a b : ℕ) → 224 ≤ a → IsClosed a b

is_forbidden_ipv4-IsClosed : (a b : ℕ) → IsClosed a b → is_forbidden_ipv4 a b ≡ true
is_forbidden_ipv4-IsClosed a b (this_network c) = refl
is_forbidden_ipv4-IsClosed a b (private_10 c) = refl
is_forbidden_ipv4-IsClosed a b (loopback c) = refl
is_forbidden_ipv4-IsClosed a b (shared_100 c low high) = ground (arith, low, high)
is_forbidden_ipv4-IsClosed a b link_local = refl
is_forbidden_ipv4-IsClosed a b (private_172 c low high) = ground (arith, low, high)
is_forbidden_ipv4-IsClosed a b private_192 = refl
is_forbidden_ipv4-IsClosed a b (benchmark c low high) = ground (arith, low, high)
is_forbidden_ipv4-IsClosed a b (multicast_or_reserved c d high) = ground (arith, high)

-- The resolution of a webhook's host is refused, whatever the other addresses are, where one of the
-- addresses, written with dots, begins with 0, 10, 127 or a number from 224 on, or with 100.64 to
-- 100.127, 169.254, 172.16 to 172.31, 192.168, 198.18 or 198.19.
pub private_address_refused :
    (front back : List (List ℕ)) (a b c d : ℕ)
    → a ≤ 255
    → b ≤ 255
    → c ≤ 255
    → d ≤ 255
    → IsClosed a b
    → assert_resolved_webhook_addresses (front ++ (dotted a b c d ∷ back)) ≢ ok tt
unfolding assert_resolved_webhook_addresses
private_address_refused front back a b c d la lb lc ld closed h =
    let addresses = front ++ (dotted a b c d ∷ back) in
    let (some_address, checked) =
      >>-eq-ok (throw_if (is_empty addresses) dns_resolution_empty)
        (for_each addresses check_address) h in
    is_refused a b c d la lb lc ld (is_forbidden_ipv4-IsClosed a b closed) (
      element (λ address. check_address address ≡ ok tt) front (dotted a b c d) back
        (for_each-All addresses check_address checked))
