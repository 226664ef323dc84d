-- ===== src/Bpf/Divide.antt =====
-- jordyOS/net/bpf_vm.c: `divide`, long division over the 64 bits, equals the native division.
use native.Mathlib.Nat.{
  pow-suc, two-pow-succ, one-le-pow, div-div-eq-div-mul, div-eq_of_lt-le, div-eq_of_lt,
  mod-eq-sub-div-mul,
}
use native.Mathlib.Decide.{dec_lt}
use os_research_lab.Base.{
  ℕ, zero, suc, ◌+◌, ◌-◌, ◌*◌, ◌/◌, ◌%◌, ◌^◌, ◌≤◌, ◌<◌, bit_and, bit_or, Bool, true, false, ◌||◌,
  leb, ◌==◌, ◌!=◌, u64, ◌<<<◌, ◌>>>◌, if◌then◌else◌, ◌≡◌, ap, sym, ◌∙◌, Bool-cases, inl, inr, arith,
}
use os_research_lab.Base.Bits.{bit_or_fields, bit_and_mask}

-- `i` rounds of the loop are left, and bit `i - 1` is next. Gives the quotient and the remainder.
unfoldable pub divide_loop : ℕ → ℕ → ℕ → ℕ → ℕ → ℕ × ℕ
divide_loop zero n d q r = (q, r)
divide_loop (suc i) n d q r =
    let high = (r >>> 63) != 0 in
    let r' = bit_or (u64 (r <<< 1)) (bit_and (n >>> i) 1) in
    let subtracts = high || leb d r' in
    divide_loop i n d (if subtracts then bit_or q (1 <<< i) else q)
      (if subtracts then u64 (r' + 2 ^ 64 - d) else r')

unfoldable pub divide : ℕ → ℕ → Bool → ℕ
divide n d remainder =
    if d == 0
    then (if remainder then n else 0)
    else (let (q, r) = divide_loop 64 n d 0 0 in if remainder then r else q)

-- Shifting in the next bit: `(r << 1) | ((n >> i) & 1)`.
shift_in :
    (r n i : ℕ) → bit_or (u64 (r <<< 1)) (bit_and (n >>> i) 1) ≡ u64 (r <<< 1) + (n >>> i) % 2
shift_in r n i =
    rw (bit_and_mask 1 (n >>> i)) (even (u64 (r <<< 1)) ((n >>> i) % 2) (omega arith) (omega arith))
  where
    even : (e b : ℕ) → e % 2 ≡ 0 → b < 2 → bit_or e b ≡ e + b
    even e b h lt =
        let half : e / 2 * 2 ^ 1 ≡ e = omega arith in rw half at (bit_or_fields 1 (e / 2) b lt)

halve : (n i : ℕ) → n / 2 ^ suc i ≡ n / 2 ^ i / 2
halve n i = rw (pow-suc 2 i) (sym (div-div-eq-div-mul n (2 ^ i) 2))

-- Setting a bit below the quotient's.
set_bit : (q i : ℕ) → bit_or (q * 2 ^ suc i) (1 <<< i) ≡ (2 * q + 1) * 2 ^ i
set_bit q i =
    let p = two-pow-succ i in
    let pos = one-le-pow i 2 (omega arith) in
    let fits : 1 * 2 ^ i < 2 ^ suc i = omega arith in
    bit_or_fields (suc i) q (1 * 2 ^ i) fits ∙ omega (arith, ap (λ (t : ℕ). q * t) p)

module _ (n d : ℕ) (small : n < 2 ^ 64) (dpos : 0 < d) (dsmall : d < 2 ^ 64) where
  -- With the quotient's high bits found and the remainder of the high part of `n`, the rest of the
  -- loop finds the quotient and the remainder.
  divide_loop_lem :
      (i q r : ℕ) → r < d → n / 2 ^ i ≡ q * d + r → divide_loop i n d (q * 2 ^ i) r ≡ (n / d, n % d)
  unfolding divide_loop
  divide_loop_lem zero q r lt e = λ j. (quotient j, remainder j)
    where
      quotient : q * 1 ≡ n / d
      quotient = omega (arith, div-eq_of_lt-le {k = q} d {m = n} (omega arith) (omega arith))

      remainder : r ≡ n % d
      remainder = omega (arith, mod-eq-sub-div-mul n d, ap (λ (t : ℕ). t * d) quotient)
  divide_loop_lem (suc i) q r lt e =
      rw (shift_in r n i, set_bit q i)
        (elim (Bool-cases (((r >>> 63) != 0) || leb d (u64 (r <<< 1) + (n >>> i) % 2))) [
          | inl subtracts ↦ rw subtracts (
              let fits : d ≤ 2 * r + n / 2 ^ i % 2 = ground arith in
              let left : (u64 (r <<< 1) + n / 2 ^ i % 2 + 2 ^ 64 - d) % 2 ^ 64
                  ≡ 2 * r + n / 2 ^ i % 2 - d =
                omega arith in
              rw left (
                divide_loop_lem i (2 * q + 1) (2 * r + n / 2 ^ i % 2 - d) (omega arith)
                  (omega (arith, halve n i))))
          | inr keeps ↦ rw keeps (
              let below : (r < 2 ^ 63) × (2 * r + n / 2 ^ i % 2 < d) = ground arith in
              let left : u64 (r <<< 1) + n / 2 ^ i % 2 ≡ 2 * r + n / 2 ^ i % 2 = omega arith in
              let scaled : q * 2 ^ suc i ≡ 2 * q * 2 ^ i =
                omega (arith, ap (λ (t : ℕ). q * t) (two-pow-succ i)) in
              rw (left, scaled)
                (divide_loop_lem i (2 * q) (2 * r + n / 2 ^ i % 2) below.1
                  (omega (arith, halve n i))))
        ])

-- For all 64-bit operands the shift-and-subtract loop computes the quotient and the remainder;
-- dividing by zero gives 0, and its remainder is the dividend.
pub divide_lem :
    (n d : ℕ)
    → n < 2 ^ 64
    → d < 2 ^ 64
    → (divide n d false ≡ (if d == 0 then 0 else n / d))
      × (divide n d true ≡ (if d == 0 then n else n % d))
unfolding divide
divide_lem n d small dsmall = elim (dec_lt 0 d) [
  | no p ↦ ground arith
  | yes p ↦
      rw (divide_loop_lem n d small p dsmall 64 0 0 p (omega (arith, div-eq_of_lt small)))
        (ground arith)
]
