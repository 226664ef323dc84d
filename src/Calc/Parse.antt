-- ===== src/Calc/Parse.antt =====
-- jordyOS/app_calc.c: `parse` reads the operation and the numbers of a line that is written out.
use os_research_lab.Base.{
  ℕ, zero, suc, ◌-◌, ◌^◌, ◌≤◌, ◌<◌, List, [], ◌∷◌, ◌++◌, true, false, ◌&&◌, ◌==◌, ◌!=◌, length,
  Bool-cases, ◌≡◌, ◌≢◌, inl, inr, refl, ◌∙◌, arith, u32,
}
use os_research_lab.Base.Fault.{done}
use os_research_lab.Text.{is_digit, itoa, itoa_digits, is_negative}
use os_research_lab.Text.Digits.{EachDigit, itoa_digits-EachDigit, itoa_digits-ne-nil, atoi-itoa}
use os_research_lab.Calc.{
  skip_spaces, take_op, skip_digits, skip_number, at_end, parsed, parse_last, parse_numbers, parse,
}

-- A word: no space and no zero byte.
abbrev pub IsWord : List ℕ → Type 0
IsWord [] = Unit {0}
IsWord (c ∷ s) = (c ≢ 32) × (c ≢ 0) × IsWord s

skip_spaces_lem : (c : ℕ) (ln : List ℕ) → c ≢ 32 → skip_spaces (c ∷ ln) ≡ done (c ∷ ln)
unfolding skip_spaces
skip_spaces_lem c ln h = let e : c == 32 ≡ false = ground arith in rw e refl

skip_spaces_one : (c : ℕ) (ln : List ℕ) → c ≢ 32 → skip_spaces (32 ∷ c ∷ ln) ≡ done (c ∷ ln)
unfolding skip_spaces
skip_spaces_one c ln h = let e : c == 32 ≡ false = ground arith in rw e refl

take_op_lem :
    (left : ℕ) (op ln : List ℕ)
    → IsWord op
    → length op ≤ left
    → take_op left (op ++ 32 ∷ ln) ≡ done (op, 32 ∷ ln)
unfolding take_op
take_op_lem zero [] ln w h = refl
take_op_lem (suc left) [] ln w h = refl
take_op_lem zero (c ∷ op) ln w h = absurd (omega arith)
take_op_lem (suc left) (c ∷ op) ln w h =
    let e : ((c != 32) && (c != 0)) ≡ true = ground (arith, w.0, w.1) in
    rw (e, take_op_lem left op ln w.2 (omega arith)) refl

skip_digits_lem :
    (s : List ℕ) (end : ℕ) (rest : List ℕ)
    → EachDigit s
    → is_digit end ≡ false
    → skip_digits (s ++ end ∷ rest) ≡ done (end ∷ rest)
unfolding skip_digits
skip_digits_lem [] end rest d e = rw e refl
skip_digits_lem (c ∷ s) end rest d e = rw d.0 (skip_digits_lem s end rest d.1 e)

-- A text of digits with more behind it starts with a digit.
unfoldable Starts : List ℕ → List ℕ → Type 0
Starts s rest = (c : ℕ) × (t : List ℕ) × (s ++ rest ≡ c ∷ t) × (c ≢ 32) × (c ≢ 0)

digits-Starts : (s rest : List ℕ) → 0 < length s → EachDigit s → Starts s rest
unfolding Starts
digits-Starts [] rest h d = absurd (omega arith)
digits-Starts (c ∷ s) rest h d = (c, s ++ rest, refl, ground (arith, d.0), ground (arith, d.0))

itoa-Starts : (n : ℕ) (rest : List ℕ) → Starts (itoa n) rest
unfolding itoa Starts
itoa-Starts n rest = elim (Bool-cases (is_negative n)) [
  | inl neg ↦ rw neg (45, itoa_digits (u32 (2 ^ 32 - n)) ++ rest, refl, omega arith, omega arith)
  | inr pos ↦
      rw pos (digits-Starts (itoa_digits n) rest (itoa_digits-ne-nil n) (itoa_digits-EachDigit n))
]

skip_spaces-Starts :
    (s rest : List ℕ) → Starts s rest → skip_spaces (32 ∷ (s ++ rest)) ≡ done (s ++ rest)
unfolding Starts
skip_spaces-Starts s rest (c, t, e, space, end) = rw e (skip_spaces_one c t space)

at_end-Starts : (s rest : List ℕ) → Starts s rest → at_end (s ++ rest) ≡ done false
unfolding Starts
at_end-Starts s rest (c, t, e, space, end) = let f : c == 0 ≡ false = ground arith in rw (e, f) refl

skip_number-digits :
    (s : List ℕ) (end : ℕ) (rest : List ℕ)
    → EachDigit s
    → 0 < length s
    → is_digit end ≡ false
    → skip_number (s ++ end ∷ rest) ≡ done (end ∷ rest)
unfolding skip_number
skip_number-digits [] end rest d h e = absurd (omega arith)
skip_number-digits (c ∷ s) end rest d h e =
    let f : c == 45 ≡ false = ground (arith, d.0) in rw f (skip_digits_lem (c ∷ s) end rest d e)

skip_number-minus : (s : List ℕ) → skip_number (45 ∷ s) ≡ skip_digits s
unfolding skip_number
skip_number-minus s = refl

skip_number-itoa :
    (n end : ℕ) (rest : List ℕ)
    → is_digit end ≡ false
    → skip_number (itoa n ++ end ∷ rest) ≡ done (end ∷ rest)
unfolding itoa
skip_number-itoa n end rest e = elim (Bool-cases (is_negative n)) [
  | inl neg ↦ rw neg (
      skip_number-minus (itoa_digits (u32 (2 ^ 32 - n)) ++ end ∷ rest)
      ∙ skip_digits_lem (itoa_digits (u32 (2 ^ 32 - n))) end rest (itoa_digits-EachDigit _) e)
  | inr pos ↦ rw pos (
      skip_number-digits (itoa_digits n) end rest (itoa_digits-EachDigit n) (itoa_digits-ne-nil n)
        e)
]

-- An int32_t whose text `atoi` can read: any but the least one.
abbrev pub IsReadable : ℕ → Type 0
IsReadable n = (n < 2 ^ 32) × (n ≢ 2 ^ 31)

parse_last_lem :
    (op : List ℕ) (a b : ℕ) (rest : List ℕ)
    → IsReadable b
    → parse_last op a (32 ∷ (itoa b ++ 0 ∷ rest)) ≡ parsed 3 op a b
unfolding parse_last
parse_last_lem op a b rest h =
    rw
      (
        skip_spaces-Starts (itoa b) (0 ∷ rest) (itoa-Starts b (0 ∷ rest)),
        at_end-Starts (itoa b) (0 ∷ rest) (itoa-Starts b (0 ∷ rest)),
        atoi-itoa b 0 rest h.0 h.1 refl (omega arith),
      )
      refl

-- A line: an operation, a space, a number, a space, a number, and the zero byte.
abbrev pub line : List ℕ → ℕ → ℕ → List ℕ → List ℕ
line op a b rest = op ++ 32 ∷ (itoa a ++ 32 ∷ (itoa b ++ 0 ∷ rest))

parse_numbers_lem :
    (op : List ℕ) (a b : ℕ) (rest : List ℕ)
    → IsReadable a
    → IsReadable b
    → parse_numbers op (32 ∷ (itoa a ++ 32 ∷ (itoa b ++ 0 ∷ rest))) ≡ parsed 3 op a b
unfolding parse_numbers
parse_numbers_lem op a b rest h k =
    let tail = 32 ∷ (itoa b ++ 0 ∷ rest) in
    rw
      (
        skip_spaces-Starts (itoa a) tail (itoa-Starts a tail),
        at_end-Starts (itoa a) tail (itoa-Starts a tail),
        atoi-itoa a 32 (itoa b ++ 0 ∷ rest) h.0 h.1 refl (omega arith),
        skip_number-itoa a 32 (itoa b ++ 0 ∷ rest) refl,
        parse_last_lem op a b rest k,
      )
      refl

pub parse_lem :
    (c : ℕ) (op : List ℕ) (a b : ℕ) (rest : List ℕ)
    → IsWord (c ∷ op)
    → length op ≤ 6
    → IsReadable a
    → IsReadable b
    → parse (line (c ∷ op) a b rest) ≡ parsed 3 (c ∷ op) a b
unfolding parse
parse_lem c op a b rest w fits h k =
    let numbers = itoa a ++ 32 ∷ (itoa b ++ 0 ∷ rest) in
    rw
      (
        skip_spaces_lem c (op ++ 32 ∷ numbers) w.0,
        take_op_lem 7 (c ∷ op) numbers w (omega arith),
        parse_numbers_lem (c ∷ op) a b rest h k,
      )
      refl
