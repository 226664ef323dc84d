-- ===== src/Base/Words.antt =====
-- Fixed-width words as native numbers: a word is its bit pattern, and a cast is a remainder.
use Prim.Native.Nat.{ℕ, ◌+◌, ◌-◌, ◌*◌, ◌/◌, ◌%◌, ◌^◌}
use mathlib.Core.Bool.{Bool}
use os_research_lab.Base.Tests.{ltb, leb, if◌then◌else◌}

abbrev pub u8 : ℕ → ℕ
u8 n = n % 2 ^ 8

abbrev pub u16 : ℕ → ℕ
u16 n = n % 2 ^ 16

abbrev pub u32 : ℕ → ℕ
u32 n = n % 2 ^ 32

abbrev pub u64 : ℕ → ℕ
u64 n = n % 2 ^ 64

-- `x << k` before the cast that cuts it off, and `x >> k` of an unsigned word.
infixl 68 ◌<<<◌ ◌>>>◌
abbrev pub ◌<<<◌ : ℕ → ℕ → ℕ
x <<< k = x * 2 ^ k

abbrev pub ◌>>>◌ : ℕ → ℕ → ℕ
x >>> k = x / 2 ^ k

-- The 64-bit pattern of an int16_t and of an int32_t.
abbrev pub extend16 : ℕ → ℕ
extend16 n = if ltb n (2 ^ 15) then n else n + (2 ^ 64 - 2 ^ 16)

abbrev pub extend32 : ℕ → ℕ
extend32 n = if ltb n (2 ^ 31) then n else n + (2 ^ 64 - 2 ^ 32)

-- `a < b` and `a <= b` of int64_t and int32_t patterns: flip the sign bit and compare.
abbrev pub lts64 : ℕ → ℕ → Bool
lts64 a b = ltb ((a + 2 ^ 63) % 2 ^ 64) ((b + 2 ^ 63) % 2 ^ 64)

abbrev pub les64 : ℕ → ℕ → Bool
les64 a b = leb ((a + 2 ^ 63) % 2 ^ 64) ((b + 2 ^ 63) % 2 ^ 64)
