-- ===== src/Packet/Text/Laws.antt =====
-- jordyOS/net/packet.c: the laws of `net_number`.
use os_research_lab.Base.{
  ℕ, ◌+◌, ◌-◌, ◌*◌, ◌^◌, ◌≤◌, ◌<◌, List, [], ◌∷◌, Option, some, none, Bool, true, leb, ◌&&◌,
  if◌then◌else◌, ◌≡◌, refl, arith,
}
use os_research_lab.Packet.Text.{is_digit, number_from, net_number}

abbrev pub all_digits : List ℕ → Bool
all_digits [] = true
all_digits (c ∷ text) = is_digit c && all_digits text

-- The number that decimal digits continue, with no bound.
abbrev pub decimal_from : ℕ → List ℕ → ℕ
decimal_from n [] = n
decimal_from n (c ∷ text) = decimal_from (n * 10 + (c - b'0')) text

abbrev pub decimal : List ℕ → Option ℕ
decimal [] = none
decimal (c ∷ text) = if all_digits (c ∷ text) then some (decimal_from 0 (c ∷ text)) else none

abbrev pub at_most : ℕ → Option ℕ → Option ℕ
at_most maximum none = none
at_most maximum (some n) = if leb n maximum then some n else none

pub le-decimal_from : (text : List ℕ) (n : ℕ) → n ≤ decimal_from n text
le-decimal_from [] n = omega arith
le-decimal_from (c ∷ text) n = omega (arith, le-decimal_from text (n * 10 + (c - b'0')))

number_from_lem :
    (text : List ℕ) (maximum n : ℕ)
    → maximum < 2 ^ 32
    → n ≤ maximum
    → number_from text maximum n
      ≡ (if all_digits text then at_most maximum (some (decimal_from n text)) else none)
unfolding number_from
number_from_lem [] maximum n m h = ground arith
number_from_lem (c ∷ text) maximum n m h = ground (
  arith,
  number_from_lem text maximum (n * 10 + (c - b'0')) m,
  le-decimal_from text (n * 10 + (c - b'0')),
)

-- For every text and every 32-bit maximum, the loop with its overflow guard gives the text's
-- decimal value when the text is a nonempty run of digits whose value is at most the maximum, and
-- refuses it otherwise.
pub net_number_lem :
    (text : List ℕ) (maximum : ℕ)
    → maximum < 2 ^ 32
    → net_number text maximum ≡ at_most maximum (decimal text)
unfolding net_number
net_number_lem [] maximum m = refl
net_number_lem (c ∷ text) maximum m = ground (arith, number_from_lem (c ∷ text) maximum 0 m)
