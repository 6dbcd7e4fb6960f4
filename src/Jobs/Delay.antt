-- ===== src/Jobs/Delay.antt =====
-- How long a failed job waits.
use Prim.Native.Nat.pow
use native.Mathlib.Nat.{mul-le-mul_left}
use kommunsign.Prelude.{
  ℕ, zero, suc, ◌+◌, ◌-◌, ◌*◌, ◌/◌, ◌%◌, ◌^◌, min, max, ◌≤◌, ◌<◌, ◌≡◌, refl, ap, List, [], ◌∷◌,
  arith, inl, inr, Bool-cases, ltb,
}
use kommunsign.Jobs.{
  retry_delay_seconds, push_decimal, decimal, mix, hash_units, max_uint32, seed_of,
  jittered_retry_delay, delay_milliseconds,
}

-- The number that digits spell, behind one that is read.
value : List ℕ → ℕ → ℕ
value [] n = n
value (c ∷ s) n = value s (n * 10 + (c - 48))

digits_value :
    (fuel n : ℕ) (digits : List ℕ)
    → n < fuel
    → value (push_decimal fuel n digits) 0 ≡ value digits n
unfolding push_decimal value
digits_value zero n digits h = absurd (omega (arith, h))
digits_value (suc fuel) n digits h = elim (Bool-cases (ltb n 10)) [
  | inl short ↦ let e : 0 + (48 + n - 48) ≡ n = omega arith in rw short (ap (value digits) e)
  | inr long ↦
      let rest = digits_value fuel (n / 10) ((48 + n % 10) ∷ digits) (ground (arith, h, long)) in
      let whole : n / 10 * 10 + (48 + n % 10 - 48) ≡ n = omega arith in rw (long, rest, whole) refl
]

-- The rounds that a number is given are enough to write it.
decimal_value : (n : ℕ) → value (decimal n) 0 ≡ n
unfolding decimal value
decimal_value n = digits_value (suc n) n [] (omega arith)

two-pow-positive : (k : ℕ) → 1 ≤ 2 ^ k
two-pow-positive zero = rw (pow.zero 2) (omega arith)
two-pow-positive (suc k) = omega (arith, pow.suc 2 k, two-pow-positive k)

two-pow_mono : (j k : ℕ) → j ≤ k → 2 ^ j ≤ 2 ^ k
two-pow_mono zero k h = omega (arith, pow.zero 2, two-pow-positive k)
two-pow_mono (suc j) zero h = absurd (omega (arith, h))
two-pow_mono (suc j) (suc k) h =
    omega (arith, pow.suc 2 j, pow.suc 2 k, two-pow_mono j k (omega (arith, h)))

hash_units-small :
    (hash : ℕ) (seed : List ℕ) → hash ≤ max_uint32 → hash_units hash seed ≤ max_uint32
unfolding hash_units
hash_units-small hash [] h = h
hash_units-small hash (unit ∷ seed) h = hash_units-small (mix hash unit) seed (omega arith)

-- The least and the greatest delay before the jitter.
retry_delay_seconds-bounds :
    (attempts : ℕ) → (1 ≤ retry_delay_seconds attempts) × (retry_delay_seconds attempts ≤ 1024)
retry_delay_seconds-bounds attempts =
    let k = min (max 1 attempts - 1) 10 in
    let top : 2 ^ k ≤ 1024 = two-pow_mono k 10 (omega arith) in
    (omega (arith, two-pow-positive k), omega (arith, top))

-- The parts of a delay lie between half the base and the base.
parts_bounds :
    (base hash : ℕ)
    → base ≤ 1024
    → hash ≤ max_uint32
    → let parts = min (3600 * (2 * max_uint32)) (base * max_uint32 + base * hash) in
      (base * max_uint32 ≤ parts) × (parts ≤ base * (2 * max_uint32))
parts_bounds base hash low small =
    let product : base * hash ≤ base * max_uint32 = mul-le-mul_left base small in
    (omega arith, omega arith)

hash_small : (id : List ℕ) (attempts : ℕ) → hash_units 2166136261 (seed_of id attempts) ≤ max_uint32
hash_small id attempts = hash_units-small 2166136261 (seed_of id attempts) (omega arith)

-- A failed job waits between half its base delay and its base delay, and that lies between a second
-- and 1024 seconds and does not fall from one attempt to the next.
pub delay_bounds :
    (id : List ℕ) (attempts : ℕ)
    → (retry_delay_seconds attempts * 500 ≤ delay_milliseconds id attempts)
      × (delay_milliseconds id attempts ≤ retry_delay_seconds attempts * 1000)
      × (1 ≤ retry_delay_seconds attempts)
      × (retry_delay_seconds attempts ≤ 1024)
      × (retry_delay_seconds attempts ≤ retry_delay_seconds (suc attempts))
unfolding delay_milliseconds jittered_retry_delay
delay_bounds id attempts =
    let (low, high) = retry_delay_seconds-bounds attempts in
    let hash = hash_units 2166136261 (seed_of id attempts) in
    let base = retry_delay_seconds attempts in
    let parts = min (3600 * (2 * max_uint32)) (base * max_uint32 + base * hash) in
    let (least, most) = parts_bounds base hash high (hash_small id attempts) in
    let grows =
      two-pow_mono (min (max 1 attempts - 1) 10) (min (max 1 (suc attempts) - 1) 10)
        (omega arith) in
    (omega (arith, least), omega (arith, most), low, high, omega (arith, grows))
