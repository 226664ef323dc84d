-- ===== src/Calc/Tests.antt =====
-- jordyOS/app_calc.c at a concrete line.
use os_research_lab.Base.{◌+◌, ◌-◌, ◌^◌, [], ◌∷◌, false, u32, ◌≡◌, refl, arith, if◌then◌else◌}
use os_research_lab.Base.Fault.{fault, done}
use os_research_lab.Text.{itoa}
use os_research_lab.Calc.{app_calc, answer, division_by_zero, op_add, op_sub, op_div, operate}
use os_research_lab.Calc.Parse.{line}
use os_research_lab.Calc.Answer.{app_calc-line, app_calc-sum, sum_fits, difference_fits}

-- 2000000000 and -5.
app_calc-sum_example :
    (app_calc (line op_add 2000000000 4294967291 []) ≡ (
      if sum_fits 2000000000 4294967291
      then done (answer (itoa (u32 (2000000000 + 4294967291))))
      else fault))
    × (app_calc (line op_sub 2000000000 4294967291 []) ≡ (
        if difference_fits 2000000000 4294967291
        then done (answer (itoa (u32 (2000000000 + 2 ^ 32 - 4294967291))))
        else fault))
    × (app_calc (line op_div 2000000000 0 []) ≡ done division_by_zero)
app_calc-sum_example =
    app_calc-sum 2000000000 4294967291 [] (omega arith, omega arith) (omega arith, omega arith)

add_2_3_line : app_calc (line (109 ∷ 117 ∷ 108 ∷ []) 6 7 []) ≡ operate (109 ∷ 117 ∷ 108 ∷ []) 6 7
add_2_3_line =
    app_calc-line 109 (117 ∷ 108 ∷ []) 6 7 []
      (omega arith, omega arith, (omega arith, omega arith, (omega arith, omega arith, tt)))
      (omega arith) (omega arith, omega arith) (omega arith, omega arith)

-- Twice 2000000000 is no int32_t.
overflows : sum_fits 2000000000 2000000000 ≡ false
overflows = refl
