-- ===== src/Base/Bits.antt =====
-- The bit operations on native numbers, as arithmetic: a low mask is a remainder, and the `|` of
-- disjoint fields is a sum.
use Prim.Native.Nat.{ℕ, zero, suc, ◌+◌, ◌-◌, ◌*◌, ◌/◌, ◌%◌, ◌^◌, ◌≤◌, ◌<◌, min, max}
use Prim.Native.Nat.{bit_and, bit_or, digits, bitwise, bit_and-bitwise, bit_or-bitwise}
use mathlib.Core.Path.{◌≡◌, refl, ap, ◌∙◌}
use native.Mathlib.Nat.{
  two-pow-succ, one-le-pow, div-add-mod, mul-add-mod_self_left, mod-lt, mod-eq_of_lt,
}
use native.Mathlib.Omega.{arith}

-- A digit-wise operation with more fuel than the left operand.
surplus :
    (z : ℕ → ℕ) (f : ℕ → ℕ → ℕ) (fuel left right : ℕ)
    → left ≤ fuel
    → digits z f (suc fuel) left right ≡ digits z f fuel left right
surplus z f zero zero right h = refl
surplus z f zero (suc left) right h = absurd (omega arith)
surplus z f (suc fuel) zero right h = refl
surplus z f (suc fuel) (suc left) right h =
    ap (λ (high : ℕ). high * 2 + f (suc left % 2) (right % 2))
      (surplus z f fuel (suc left / 2) (right / 2) (omega arith))

exact_fuel :
    (z : ℕ → ℕ) (f : ℕ → ℕ → ℕ) (extra left right : ℕ)
    → digits z f (extra + left) left right ≡ bitwise z f left right
exact_fuel z f zero left right = ap (λ (n : ℕ). digits z f n left right) (omega arith)
exact_fuel z f (suc extra) left right =
    let e : suc extra + left ≡ suc (extra + left) = omega arith in
    rw e (surplus z f (extra + left) left right (omega arith) ∙ exact_fuel z f extra left right)

lowest_digit :
    (z : ℕ → ℕ) (f : ℕ → ℕ → ℕ) (n right : ℕ)
    → bitwise z f (suc n) right
      ≡ bitwise z f (suc n / 2) (right / 2) * 2 + f (suc n % 2) (right % 2)
lowest_digit z f n right =
    let e : n ≡ n - suc n / 2 + suc n / 2 = omega arith in
    ap (λ (high : ℕ). high * 2 + f (suc n % 2) (right % 2))
      (ap (λ (fuel : ℕ). digits z f fuel (suc n / 2) (right / 2)) e
        ∙ exact_fuel z f (n - suc n / 2) (suc n / 2) (right / 2))

pub bit_or_step : (x y : ℕ) → bit_or x y ≡ bit_or (x / 2) (y / 2) * 2 + max (x % 2) (y % 2)
bit_or_step zero y = rw (bit_or-bitwise 0 y, bit_or-bitwise 0 (y / 2)) (omega arith)
bit_or_step (suc n) y =
    rw (bit_or-bitwise (suc n) y, bit_or-bitwise (suc n / 2) (y / 2)) (lowest_digit _ max n y)

pub bit_and_step : (x y : ℕ) → bit_and x y ≡ bit_and (x / 2) (y / 2) * 2 + min (x % 2) (y % 2)
bit_and_step zero y = rw (bit_and-bitwise 0 y, bit_and-bitwise 0 (y / 2)) (omega arith)
bit_and_step (suc n) y =
    rw (bit_and-bitwise (suc n) y, bit_and-bitwise (suc n / 2) (y / 2)) (lowest_digit _ min n y)

-- Up to a bound on the left operand, by induction on the bound.
or_nothing : (bound x : ℕ) → x ≤ bound → bit_or x 0 ≡ x
or_nothing bound zero h = refl
or_nothing zero (suc n) h = absurd (omega arith)
or_nothing (suc bound) (suc n) h =
    omega (arith, bit_or_step (suc n) 0, or_nothing bound (suc n / 2) (omega arith))

and_below : (bound x y : ℕ) → x ≤ bound → bit_and x y ≤ x
and_below bound zero y h = omega (arith, bit_and-bitwise 0 y)
and_below zero (suc n) y h = absurd (omega arith)
and_below (suc bound) (suc n) y h =
    omega (arith, bit_and_step (suc n) y, and_below bound (suc n / 2) (y / 2) (omega arith))

and_nothing : (bound x : ℕ) → x ≤ bound → bit_and x 0 ≡ 0
and_nothing bound zero h = refl
and_nothing zero (suc n) h = absurd (omega arith)
and_nothing (suc bound) (suc n) h =
    omega (arith, bit_and_step (suc n) 0, and_nothing bound (suc n / 2) (omega arith))

-- `&` never exceeds its left operand.
pub bit_and-le_left : (x y : ℕ) → bit_and x y ≤ x
bit_and-le_left x y = and_below x x y (omega arith)

-- The `|` of a field and of a number that fits below it is their sum.
pub bit_or_fields : (k high low : ℕ) → low < 2 ^ k → bit_or (high * 2 ^ k) low ≡ high * 2 ^ k + low
bit_or_fields zero high low h =
    let none_low : low ≡ 0 = omega arith in
    let same : high * 2 ^ 0 ≡ high = omega arith in
    rw (none_low, same) (or_nothing high high (omega arith) ∙ omega arith)
bit_or_fields (suc k) high low h =
    let doubled : high * 2 ^ suc k ≡ 2 * (high * 2 ^ k) =
      omega (arith, ap (λ (t : ℕ). high * t) (two-pow-succ k)) in
    let below = bit_or_fields k high (low / 2) (omega (arith, two-pow-succ k)) in
    let half : high * 2 ^ suc k / 2 ≡ high * 2 ^ k = omega arith in
    bit_or_step (high * 2 ^ suc k) low ∙ rw half (omega arith)

-- A mask of `k` low bits is the remainder by `2 ^ k`.
pub bit_and_mask : (k x : ℕ) → bit_and x (2 ^ k - 1) ≡ x % 2 ^ k
bit_and_mask zero x = and_nothing x x (omega arith) ∙ omega arith
bit_and_mask (suc k) x =
    let p = 2 ^ k in
    let positive : 1 ≤ p = one-le-pow k 2 (omega arith) in
    let twice : 2 ^ suc k ≡ 2 * p = omega (arith, two-pow-succ k) in
    let low = 2 * (x / 2 % p) + x % 2 in
    let small : low < 2 * p = omega (arith, mod-lt (x / 2) {m = p} positive) in
    let whole : x ≡ 2 * p * (x / 2 / p) + low = omega (arith, div-add-mod (x / 2) p) in
    let rest : x % (2 * p) ≡ low =
      ap (λ (n : ℕ). n % (2 * p)) whole
      ∙ mul-add-mod_self_left (2 * p) (x / 2 / p) low
      ∙ mod-eq_of_lt small in
    let half : (2 * p - 1) / 2 ≡ p - 1 = omega arith in
    rw twice (bit_and_step x (2 * p - 1) ∙ rw (half, bit_and_mask k (x / 2), rest) (omega arith))
