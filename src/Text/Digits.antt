-- ===== src/Text/Digits.antt =====
-- jordyOS/kernel.c: the laws of `atoi` and `itoa`.
use os_research_lab.Base.{
  ℕ, zero, suc, ◌+◌, ◌-◌, ◌*◌, ◌/◌, ◌^◌, ◌%◌, ◌≤◌, ◌<◌, List, [], ◌∷◌, ◌++◌, true, false, ltb, ◌==◌,
  length, Bool-cases, ◌≡◌, ◌≢◌, inl, inr, refl, ap, ◌∙◌, arith, u32,
}
use os_research_lab.Base.Fault.{done, ◌>>=◌}
use os_research_lab.Text.{
  is_digit, atoi_loop, negated, atoi, itoa_loop, itoa_rounds, itoa_digits, is_negative, itoa,
}

abbrev pub EachDigit : List ℕ → Type 0
EachDigit [] = Unit {0}
EachDigit (c ∷ s) = (is_digit c ≡ true) × EachDigit s

-- The number that digits make behind one that was read.
abbrev pub value : ℕ → List ℕ → ℕ
value v [] = v
value v (c ∷ s) = value (v * 10 + (c - 48)) s

le-value : (v : ℕ) (s : List ℕ) → v ≤ value v s
le-value v [] = omega arith
le-value v (c ∷ s) = omega (arith, le-value (v * 10 + (c - 48)) s)

atoi_loop_lem :
    (v : ℕ) (s : List ℕ) (end : ℕ) (rest : List ℕ)
    → EachDigit s
    → is_digit end ≡ false
    → value v s < 2 ^ 31
    → atoi_loop v (s ++ end ∷ rest) ≡ done (value v s)
unfolding atoi_loop
atoi_loop_lem v [] end rest d e small = rw e refl
atoi_loop_lem v (c ∷ s) end rest d e small =
    let next = v * 10 + (c - 48) in
    let fits : ltb next (2 ^ 31) ≡ true = ground (arith, le-value next s) in
    rw (d.0, fits) (atoi_loop_lem next s end rest d.1 e small)

itoa_loop-EachDigit : (fuel m : ℕ) (t : List ℕ) → EachDigit t → EachDigit (itoa_loop fuel m t)
unfolding itoa_loop
itoa_loop-EachDigit zero m t d = d
itoa_loop-EachDigit (suc fuel) m t d =
    let d' : EachDigit ((48 + m % 10) ∷ t) = (ground arith, d) in
    elim (Bool-cases (ltb 0 (m / 10))) [
      | inl more ↦ rw more (itoa_loop-EachDigit fuel (m / 10) ((48 + m % 10) ∷ t) d')
      | inr last ↦ rw last d'
    ]

-- The numbers of as many digits.
abbrev tens : ℕ → ℕ
tens zero = 1
tens (suc n) = tens n * 10

value-itoa_loop :
    (fuel m : ℕ) (t : List ℕ) → m < tens (suc fuel) → value 0 (itoa_loop (suc fuel) m t) ≡ value m t
unfolding itoa_loop
value-itoa_loop zero m t small =
    let last : ltb 0 (m / 10) ≡ false = ground arith in rw last (ap (λ v. value v t) (omega arith))
value-itoa_loop (suc fuel) m t small = elim (Bool-cases (ltb 0 (m / 10))) [
  | inl more ↦ rw more (
      value-itoa_loop fuel (m / 10) ((48 + m % 10) ∷ t) (omega arith)
      ∙ ap (λ v. value v t) (omega arith))
  | inr last ↦ rw last (ap (λ v. value v t) (ground arith))
]

length-itoa_loop : (fuel m : ℕ) (t : List ℕ) → length (itoa_loop fuel m t) ≤ fuel + length t
unfolding itoa_loop
length-itoa_loop zero m t = omega arith
length-itoa_loop (suc fuel) m t = elim (Bool-cases (ltb 0 (m / 10))) [
  | inl more ↦ rw more (omega (arith, length-itoa_loop fuel (m / 10) ((48 + m % 10) ∷ t)))
  | inr last ↦ rw last (omega arith)
]

pub itoa_digits-EachDigit : (m : ℕ) → EachDigit (itoa_digits m)
unfolding itoa_digits
itoa_digits-EachDigit m = itoa_loop-EachDigit itoa_rounds m [] tt

value-itoa_digits : (m : ℕ) → m < 2 ^ 32 → value 0 (itoa_digits m) ≡ m
unfolding itoa_digits
value-itoa_digits m h = value-itoa_loop 9 m [] (omega arith)

-- There is a digit at least.
some_digit : (fuel m : ℕ) (t : List ℕ) → length t < length (itoa_loop (suc fuel) m t)
unfolding itoa_loop
some_digit zero m t = elim (Bool-cases (ltb 0 (m / 10))) [
  | inl more ↦ rw more (omega arith)
  | inr last ↦ rw last (omega arith)
]
some_digit (suc fuel) m t = elim (Bool-cases (ltb 0 (m / 10))) [
  | inl more ↦ rw more (omega (arith, some_digit fuel (m / 10) ((48 + m % 10) ∷ t)))
  | inr last ↦ rw last (omega arith)
]

pub itoa_digits-ne-nil : (m : ℕ) → 0 < length (itoa_digits m)
unfolding itoa_digits
itoa_digits-ne-nil m = some_digit 9 m []

length-itoa_digits : (m : ℕ) → length (itoa_digits m) ≤ 10
unfolding itoa_digits
length-itoa_digits m = length-itoa_loop itoa_rounds m []

-- `itoa` writes a sign and at most ten digits, so it fits twelve bytes with its zero byte.
pub length-itoa : (n : ℕ) → length (itoa n) + 1 ≤ 12
unfolding itoa
length-itoa n = elim (Bool-cases (is_negative n)) [
  | inl neg ↦ rw neg (omega (arith, length-itoa_digits (u32 (2 ^ 32 - n))))
  | inr pos ↦ rw pos (omega (arith, length-itoa_digits n))
]

digits_read :
    (m end : ℕ) (rest : List ℕ)
    → m < 2 ^ 31
    → is_digit end ≡ false
    → atoi_loop 0 (itoa_digits m ++ end ∷ rest) ≡ done m
digits_read m end rest h e =
    let v = value-itoa_digits m (omega arith) in
    atoi_loop_lem 0 (itoa_digits m) end rest (itoa_digits-EachDigit m) e (rw v h) ∙ ap done v

-- Text that starts with digits has no sign.
atoi-digits :
    (s : List ℕ) (end : ℕ) (rest : List ℕ)
    → EachDigit s
    → is_digit end ≡ false
    → end ≢ 45
    → atoi (s ++ end ∷ rest) ≡ atoi_loop 0 (s ++ end ∷ rest)
unfolding atoi
atoi-digits [] end rest d e sign = let f : end == 45 ≡ false = ground arith in rw f refl
atoi-digits (c ∷ s) end rest d e sign = let f : c == 45 ≡ false = ground (arith, d.0) in rw f refl

atoi-minus : (s : List ℕ) → atoi (45 ∷ s) ≡ (atoi_loop 0 s >>= λ v. done (negated v))
unfolding atoi
atoi-minus s = refl

-- Of every 32-bit number but the least one, `atoi` reads back what `itoa` wrote, when a byte that is
-- neither a digit nor a sign comes behind it.
pub atoi-itoa :
    (n end : ℕ) (rest : List ℕ)
    → n < 2 ^ 32
    → n ≢ 2 ^ 31
    → is_digit end ≡ false
    → end ≢ 45
    → atoi (itoa n ++ end ∷ rest) ≡ done n
unfolding itoa
atoi-itoa n end rest h least e sign = elim (Bool-cases (is_negative n)) [
  | inl neg ↦ rw neg (
      atoi-minus (itoa_digits (u32 (2 ^ 32 - n)) ++ end ∷ rest)
      ∙ ap (λ o. o >>= λ v. done (negated v))
          (digits_read (u32 (2 ^ 32 - n)) end rest (ground arith) e)
      ∙ ap done (ground arith))
  | inr pos ↦ rw pos (
      atoi-digits (itoa_digits n) end rest (itoa_digits-EachDigit n) e sign
      ∙ digits_read n end rest (ground arith) e)
]
