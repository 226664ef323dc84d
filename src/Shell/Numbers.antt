-- ===== src/Shell/Numbers.antt =====
-- jordyOS/net/command.c and packet.c: numbers and addresses, printed and read.
use os_research_lab.Base.{
  ℕ, zero, suc, ◌+◌, ◌*◌, ◌/◌, ◌%◌, ◌^◌, ◌≤◌, ◌<◌, List, [], ◌∷◌, some, true, leb, ◌==◌, length,
  Bool-cases, ◌≡◌, inl, inr, refl, ap, ◌∙◌, arith,
}
use os_research_lab.Packet.Text.{net_number}
use os_research_lab.Packet.Text.Laws.{all_digits, decimal_from, decimal, at_most, net_number_lem}
use os_research_lab.Shell.{number_loop, number_rounds, net_print_number}

pub number_loop-all_digits :
    (rounds n : ℕ) (t : List ℕ) → all_digits t ≡ true → all_digits (number_loop rounds n t) ≡ true
unfolding number_loop
number_loop-all_digits zero n t h = h
number_loop-all_digits (suc rounds) n t h =
    let h' : all_digits ((b'0' + n % 10) ∷ t) ≡ true = ground arith in
    elim (Bool-cases (n / 10 == 0)) [
      | inl last ↦ rw last h'
      | inr more ↦ rw more (number_loop-all_digits rounds (n / 10) ((b'0' + n % 10) ∷ t) h')
    ]

-- The numbers of as many digits.
abbrev tens : ℕ → ℕ
tens zero = 1
tens (suc n) = tens n * 10

decimal_from-number_loop :
    (rounds n : ℕ) (t : List ℕ)
    → n < tens (suc rounds)
    → decimal_from 0 (number_loop (suc rounds) n t) ≡ decimal_from n t
unfolding number_loop
decimal_from-number_loop zero n t small =
    let last : n / 10 == 0 ≡ true = ground arith in
    rw last (ap (λ v. decimal_from v t) (omega arith))
decimal_from-number_loop (suc rounds) n t small = elim (Bool-cases (n / 10 == 0)) [
  | inl last ↦ rw last (ap (λ v. decimal_from v t) (ground arith))
  | inr more ↦ rw more (
      decimal_from-number_loop rounds (n / 10) ((b'0' + n % 10) ∷ t) (omega arith)
      ∙ ap (λ v. decimal_from v t) (omega arith))
]

length-number_loop :
    (k rounds n : ℕ) (t : List ℕ)
    → n < tens (suc k)
    → length (number_loop rounds n t) ≤ suc k + length t
unfolding number_loop
length-number_loop k zero n t small = omega arith
length-number_loop zero (suc rounds) n t small =
    let last : n / 10 == 0 ≡ true = ground arith in rw last (omega arith)
length-number_loop (suc k) (suc rounds) n t small = elim (Bool-cases (n / 10 == 0)) [
  | inl last ↦ rw last (omega arith)
  | inr more ↦
      rw more
        (omega (arith, length-number_loop k rounds (n / 10) ((b'0' + n % 10) ∷ t) (omega arith)))
]

some_digit : (rounds n : ℕ) (t : List ℕ) → length t < length (number_loop (suc rounds) n t)
unfolding number_loop
some_digit zero n t = elim (Bool-cases (n / 10 == 0)) [
  | inl last ↦ rw last (omega arith)
  | inr more ↦ rw more (omega arith)
]
some_digit (suc rounds) n t = elim (Bool-cases (n / 10 == 0)) [
  | inl last ↦ rw last (omega arith)
  | inr more ↦ rw more (omega (arith, some_digit rounds (n / 10) ((b'0' + n % 10) ∷ t)))
]

decimal-digits :
    (text : List ℕ)
    → all_digits text ≡ true
    → 0 < length text
    → decimal text ≡ some (decimal_from 0 text)
decimal-digits [] h more = absurd (omega arith)
decimal-digits (c ∷ text) h more = rw h refl

-- A printed number.
pub net_print_number-all_digits : (n : ℕ) → all_digits (net_print_number n) ≡ true
unfolding net_print_number
net_print_number-all_digits n = number_loop-all_digits number_rounds n [] refl

pub net_print_number-ne-nil : (n : ℕ) → 0 < length (net_print_number n)
unfolding net_print_number
net_print_number-ne-nil n = some_digit 9 n []

pub length-net_print_number : (n : ℕ) → n < 256 → length (net_print_number n) ≤ 3
unfolding net_print_number
length-net_print_number n h = length-number_loop 2 number_rounds n [] (omega arith)

decimal-net_print_number : (n : ℕ) → n < 2 ^ 32 → decimal (net_print_number n) ≡ some n
unfolding net_print_number
decimal-net_print_number n h =
    decimal-digits (number_loop number_rounds n []) (number_loop-all_digits number_rounds n [] refl)
      (some_digit 9 n [])
    ∙ ap some (decimal_from-number_loop 9 n [] (omega arith))

-- `net_number` reads every number that `net_print_number` prints, up to its maximum.
pub net_number-net_print_number :
    (n maximum : ℕ)
    → n ≤ maximum
    → maximum < 2 ^ 32
    → net_number (net_print_number n) maximum ≡ some n
net_number-net_print_number n maximum h m =
    let within : leb n maximum ≡ true = ground arith in
    net_number_lem (net_print_number n) maximum m
    ∙ ap (at_most maximum) (decimal-net_print_number n (omega arith))
    ∙ rw within refl
