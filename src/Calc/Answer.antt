-- ===== src/Calc/Answer.antt =====
-- jordyOS/app_calc.c: the answer of the calculator to a line that is written out.
use os_research_lab.Base.{
  ℕ, ◌+◌, ◌-◌, ◌^◌, ◌%◌, ◌≤◌, ◌<◌, List, [], ◌∷◌, Bool, true, false, ◌&&◌, leb, ltb, length, ◌≡◌,
  refl, ap, ◌∙◌, arith, u32, if◌then◌else◌,
}
use os_research_lab.Base.Fault.{fault, done}
use os_research_lab.Text.{itoa}
use os_research_lab.Calc.{
  int_add, int_sub, division_by_zero, answer, op_add, op_sub, op_div, answered, operate, reply_to,
  app_calc,
}
use os_research_lab.Calc.Parse.{IsWord, IsReadable, line, parse_lem}

-- The value of an int32_t, with 2^31 added.
abbrev pub raised : ℕ → ℕ
raised n = (n + 2 ^ 31) % 2 ^ 32

-- The sum and the difference are an int32_t.
abbrev pub sum_fits : ℕ → ℕ → Bool
sum_fits a b = leb (2 ^ 31) (raised a + raised b) && ltb (raised a + raised b) (2 ^ 31 + 2 ^ 32)

abbrev pub difference_fits : ℕ → ℕ → Bool
difference_fits a b = leb (raised b) (raised a + 2 ^ 31) && ltb (raised a) (raised b + 2 ^ 31)

pub int_add_lem :
    (a b : ℕ)
    → a < 2 ^ 32
    → b < 2 ^ 32
    → int_add a b ≡ (if sum_fits a b then done (u32 (a + b)) else fault)
unfolding int_add
int_add_lem a b h k = ground arith

pub int_sub_lem :
    (a b : ℕ)
    → a < 2 ^ 32
    → b < 2 ^ 32
    → int_sub a b ≡ (if difference_fits a b then done (u32 (a + 2 ^ 32 - b)) else fault)
unfolding int_sub
int_sub_lem a b h k = ground arith

-- A line with an operation of at most seven bytes and two numbers that `itoa` wrote is answered by that
-- operation on those numbers.
pub app_calc-line :
    (c : ℕ) (op : List ℕ) (a b : ℕ) (rest : List ℕ)
    → IsWord (c ∷ op)
    → length op ≤ 6
    → IsReadable a
    → IsReadable b
    → app_calc (line (c ∷ op) a b rest) ≡ operate (c ∷ op) a b
unfolding app_calc reply_to
app_calc-line c op a b rest w fits h k = rw (parse_lem c op a b rest w fits h k) refl

operate-add : (a b : ℕ) → operate op_add a b ≡ answered (int_add a b)
unfolding operate
operate-add a b = refl

operate-sub : (a b : ℕ) → operate op_sub a b ≡ answered (int_sub a b)
unfolding operate
operate-sub a b = refl

operate-div : (a : ℕ) → operate op_div a 0 ≡ done division_by_zero
unfolding operate
operate-div a = refl

answered-if :
    (fits : Bool) (n : ℕ)
    → answered (if fits then done n else fault) ≡ (if fits then done (answer (itoa n)) else fault)
answered-if true n = refl
answered-if false n = refl

-- A written-out addition or subtraction of two numbers, neither the least int32_t, whose result is an
-- int32_t is answered by that result modulo 2^32, printed; one whose result is not overflows; and a
-- division of such a number by 0 is refused.
pub app_calc-sum :
    (a b : ℕ) (rest : List ℕ)
    → IsReadable a
    → IsReadable b
    → (app_calc (line op_add a b rest)
        ≡ (if sum_fits a b then done (answer (itoa (u32 (a + b)))) else fault))
      × (app_calc (line op_sub a b rest)
          ≡ (if difference_fits a b then done (answer (itoa (u32 (a + 2 ^ 32 - b)))) else fault))
      × (app_calc (line op_div a 0 rest) ≡ done division_by_zero)
app_calc-sum a b rest h k = (
  app_calc-line 97 (100 ∷ 100 ∷ []) a b rest (ground arith) (omega arith) h k
      ∙ (operate-add a b
          ∙ ap answered (int_add_lem a b h.0 k.0)
          ∙ answered-if (sum_fits a b) (u32 (a + b))),
  app_calc-line 115 (117 ∷ 98 ∷ []) a b rest (ground arith) (omega arith) h k
      ∙ (operate-sub a b
          ∙ ap answered (int_sub_lem a b h.0 k.0)
          ∙ answered-if (difference_fits a b) (u32 (a + 2 ^ 32 - b))),
  app_calc-line 100 (105 ∷ 118 ∷ []) a 0 rest (ground arith) (omega arith) h
        (omega arith, omega arith)
      ∙ operate-div a,
)
