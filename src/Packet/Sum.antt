-- ===== src/Packet/Sum.antt =====
-- jordyOS/net/packet.c: the laws of the Internet checksum.
use os_research_lab.Base.{
  Bool, not, ◌&&◌, ℕ, zero, suc, ◌+◌, ◌-◌, ◌*◌, ◌/◌, ◌%◌, ◌^◌, ◌≤◌, ◌<◌, bit_and, List, [], ◌∷◌,
  set, length, u32, ◌==◌, ◌≡◌, refl, ap, sym, ◌∙◌, arith, length-set,
}
use native.Mathlib.Decide.{dec_lt}
use os_research_lab.Base.Bits.{bit_or_fields, bit_and_mask}
use os_research_lab.Base.Fault.{done}
use os_research_lab.Packet.{
  net_read16, net_write16, sum_words, fold_carries, fold_rounds, net_checksum,
}

-- Every element is a byte.
abbrev pub IsBytes : List ℕ → Type 0
IsBytes [] = Unit {0}
IsBytes (b ∷ p) = (b < 256) × IsBytes p

-- The sum of the first `n` bytes as big-endian words, an odd last byte standing high, unbounded.
abbrev pub word_sum : List ℕ → ℕ → ℕ
word_sum p zero = 0
word_sum [] (suc n) = 0
word_sum (a ∷ p) (suc zero) = a * 256
word_sum (a ∷ []) (suc (suc n)) = a * 256
word_sum (a ∷ b ∷ p) (suc (suc n)) = a * 256 + b + word_sum p n

-- One's complement addition: the representative in 1 to 65535, and 0 for 0 only.
abbrev pub ones_sum : ℕ → ℕ
ones_sum zero = 0
ones_sum (suc n) = n % 65535 + 1

fold_once : (s : ℕ) → bit_and s 65535 ≡ s % 65536
fold_once s = bit_and_mask 16 s

ones_sum-mod : (s : ℕ) → 0 < s → ones_sum s ≡ (s - 1) % 65535 + 1
ones_sum-mod zero h = absurd (omega arith)
ones_sum-mod (suc s) h = omega arith

ones_sum-fold : (s : ℕ) → ones_sum (s % 65536 + s / 65536) ≡ ones_sum s
ones_sum-fold zero = refl
ones_sum-fold (suc s) = omega (
  arith,
  ones_sum-mod (suc s) (omega arith),
  ones_sum-mod (suc s % 65536 + suc s / 65536) (omega arith),
)

ones_sum-small : (s : ℕ) → s < 65536 → ones_sum s ≡ s
ones_sum-small zero h = refl
ones_sum-small (suc s) h = omega (arith, ones_sum-mod (suc s) (omega arith))

-- Once below 2^16 a sum is left alone.
fold_carries-small : (fuel s : ℕ) → s < 65536 → fold_carries fuel s ≡ s
unfolding fold_carries
fold_carries-small zero s h = refl
fold_carries-small (suc fuel) s h = ground arith

fold_carries-suc :
    (fuel s : ℕ)
    → 65536 ≤ s
    → s < 2 ^ 32
    → fold_carries (suc fuel) s ≡ fold_carries fuel (s % 65536 + s / 65536)
unfolding fold_carries
fold_carries-suc fuel s l h = ground (arith, bit_and_mask 16 s)

fold_carries_lem : (s : ℕ) → s < 2 ^ 32 → fold_carries fold_rounds s ≡ ones_sum s
fold_carries_lem s h = elim (dec_lt s 65536) [
  | yes p ↦ fold_carries-small 3 s p ∙ sym (ones_sum-small s p)
  | no p ↦
      fold_carries-suc 2 s (omega arith) h
      ∙ twice (dec_lt (s % 65536 + s / 65536) 65536)
      ∙ ones_sum-fold s
]
  where
    twice :
        Dec (s % 65536 + s / 65536 < 65536)
        → fold_carries 2 (s % 65536 + s / 65536) ≡ ones_sum (s % 65536 + s / 65536)
    twice (yes q) = fold_carries-small 2 _ q ∙ sym (ones_sum-small _ q)
    twice (no q) =
        let t = s % 65536 + s / 65536 in
        fold_carries-suc 1 t (omega arith) (omega arith)
        ∙ fold_carries-small 1 (t % 65536 + t / 65536) (omega arith)
        ∙ sym (ones_sum-small (t % 65536 + t / 65536) (omega arith))
        ∙ ones_sum-fold t

sum_words_lem :
    (p : List ℕ) (n sum : ℕ)
    → IsBytes p
    → n ≤ length p
    → sum + word_sum p n < 2 ^ 32
    → sum_words p n sum ≡ done (sum + word_sum p n)
unfolding sum_words net_read16
sum_words_lem p zero sum b l h = ap done (omega arith)
sum_words_lem [] (suc n) sum b l h = absurd (omega arith)
sum_words_lem (a ∷ p) (suc zero) sum b l h = ap done (omega arith)
sum_words_lem (a ∷ []) (suc (suc n)) sum b l h = absurd (omega arith)
sum_words_lem (a ∷ c ∷ p) (suc (suc n)) sum b l h =
    let e : u32 (sum + (a * 256 + c)) ≡ sum + (a * 256 + c) = omega arith in
    rw
      (
        bit_or_fields 8 a c (omega arith),
        e,
        sum_words_lem p n (sum + (a * 256 + c)) b.1.1 (omega arith) (omega arith),
      )
      (ap done (omega arith))

ones_sum-le : (s : ℕ) → ones_sum s ≤ 65535
ones_sum-le zero = omega arith
ones_sum-le (suc s) = omega arith

-- On bytes inside the array, and as long as the unbounded sum fits 32 bits, the two loops read
-- nothing out of bounds and give the complement of the one's complement sum of the words.
pub net_checksum_lem :
    (p : List ℕ) (n sum : ℕ)
    → IsBytes p
    → n ≤ length p
    → sum + word_sum p n < 2 ^ 32
    → net_checksum p n sum ≡ done (65535 - ones_sum (sum + word_sum p n))
unfolding net_checksum
net_checksum_lem p n sum b l h =
    rw (sum_words_lem p n sum b l h, fold_carries_lem (sum + word_sum p n) h)
      (ap done (omega (arith, ones_sum-le (sum + word_sum p n))))

-- A field of two bytes at an even offset is one word of the sum.
word_sum-write :
    (p : List ℕ) (i n v : ℕ)
    → i % 2 ≡ 0
    → i + 2 ≤ n
    → n ≤ length p
    → v < 65536
    → word_sum (net_write16 p i v) n ≡ word_sum (net_write16 p i 0) n + v
unfolding net_write16
word_sum-write [] i n v e l k h = absurd (omega arith)
word_sum-write (a ∷ []) i n v e l k h = absurd (omega arith)
word_sum-write (a ∷ c ∷ p) i zero v e l k h = absurd (omega arith)
word_sum-write (a ∷ c ∷ p) i (suc zero) v e l k h = absurd (omega arith)
word_sum-write (a ∷ c ∷ p) zero (suc (suc n)) v e l k h = omega arith
word_sum-write (a ∷ c ∷ p) (suc zero) (suc (suc n)) v e l k h = absurd (omega arith)
word_sum-write (a ∷ c ∷ p) (suc (suc i)) (suc (suc n)) v even l k h =
    let e : suc (suc i) + 1 ≡ suc (suc (i + 1)) = omega arith in
    rw e (omega (arith, word_sum-write p i n v (omega arith) (omega arith) (omega arith) h))

pub IsBytes-set : (p : List ℕ) (i v : ℕ) → IsBytes p → v < 256 → IsBytes (set p i v)
IsBytes-set [] i v b h = b
IsBytes-set (a ∷ p) zero v b h = (h, b.1)
IsBytes-set (a ∷ p) (suc i) v b h = (b.0, IsBytes-set p i v b.1 h)

pub IsBytes-write : (p : List ℕ) (i v : ℕ) → IsBytes p → IsBytes (net_write16 p i v)
unfolding net_write16
IsBytes-write p i v b = IsBytes-set _ (i + 1) _ (IsBytes-set p i _ b (omega arith)) (omega arith)

pub length-write : (p : List ℕ) (i v : ℕ) → length (net_write16 p i v) ≡ length p
unfolding net_write16
length-write p i v = simp length-set

ones_sum-complement : (t : ℕ) → ones_sum (t + (65535 - ones_sum t)) ≡ 65535
ones_sum-complement zero = refl
ones_sum-complement (suc t) =
    omega (arith, ones_sum-mod (suc t + (65535 - ones_sum (suc t))) (omega arith))

done-injective : (a b : ℕ) → done a ≡ done b → a ≡ b
done-injective a b h = ground arith

-- Storing the checksum of a range into a zeroed field of it, at an even offset, makes the range
-- verify: its checksum is then 0.
pub net_checksum-write :
    (p : List ℕ) (i n sum c : ℕ)
    → IsBytes p
    → i % 2 ≡ 0
    → i + 2 ≤ n
    → n ≤ length p
    → sum + word_sum (net_write16 p i 0) n + 65535 < 2 ^ 32
    → net_checksum (net_write16 p i 0) n sum ≡ done c
    → net_checksum (net_write16 p i c) n sum ≡ done 0
net_checksum-write p i n sum c b e l k h given =
    let t = sum + word_sum (net_write16 p i 0) n in
    let fits : n ≤ length (net_write16 p i 0) = rw (length-write p i 0) k in
    let fits' : n ≤ length (net_write16 p i c) = rw (length-write p i c) k in
    let first =
      net_checksum_lem (net_write16 p i 0) n sum (IsBytes-write p i 0 b) fits (omega arith) in
    let c_is : c ≡ 65535 - ones_sum t = done-injective _ _ (sym given ∙ first) in
    let total = word_sum-write p i n c e l k (omega arith) in
    let second =
      net_checksum_lem (net_write16 p i c) n sum (IsBytes-write p i c b) fits' (omega arith) in
    let t_is : sum + word_sum (net_write16 p i c) n ≡ t + (65535 - ones_sum t) = omega arith in
    second ∙ rw (t_is, ones_sum-complement t)

pub word_sum-le : (p : List ℕ) (n : ℕ) → IsBytes p → word_sum p n ≤ n * 65280
word_sum-le p zero b = omega arith
word_sum-le [] (suc n) b = omega arith
word_sum-le (a ∷ p) (suc zero) b = omega arith
word_sum-le (a ∷ []) (suc (suc n)) b = omega arith
word_sum-le (a ∷ c ∷ p) (suc (suc n)) b = omega (arith, word_sum-le p n b.1.1)

-- The words and the carried-in sum add up to a positive multiple of 65535.
abbrev pub verifies : List ℕ → ℕ → ℕ → Bool
verifies p n sum = not (sum + word_sum p n == 0) && ((sum + word_sum p n) % 65535 == 0)

verifies-ones_sum : (t : ℕ) → ((65535 - ones_sum t) == 0) ≡ (not (t == 0) && (t % 65535 == 0))
verifies-ones_sum zero = refl
verifies-ones_sum (suc t) = ground (arith, ones_sum-mod (suc t))

-- What a caller tests: of a datagram's bytes, and a carried-in sum of a pseudo header, the
-- checksum is defined, and it is zero exactly when the range verifies.
pub net_checksum-verifies :
    (p : List ℕ) (n sum : ℕ)
    → IsBytes p
    → n ≤ length p
    → n ≤ 1500
    → sum ≤ 2 ^ 20
    → (c : ℕ) × (net_checksum p n sum ≡ done c) × ((c == 0) ≡ verifies p n sum)
net_checksum-verifies p n sum b l k h =
    let t = sum + word_sum p n in
    (
      65535 - ones_sum t,
      net_checksum_lem p n sum b l (omega (arith, word_sum-le p n b)),
      verifies-ones_sum t,
    )
