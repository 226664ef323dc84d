-- ===== src/Text/Tests.antt =====
-- jordyOS/kernel.c: the strings and the line editor at concrete inputs.
use os_research_lab.Base.{[], ◌∷◌, ◌++◌, some, none, drop, true, false, ◌≡◌, refl, arith}
use os_research_lab.Base.Fault.{fault, done}
use os_research_lab.Text.{poll_ch, itoa, itoa_digits, atoi, strncpy, read_line}
use os_research_lab.Text.Digits.{atoi-itoa}
use os_research_lab.Text.Line.{ReadsAs, line_of, read_line_lem}
use os_research_lab.Text.Copy.{padded, strncpy_lem}

atoi-itoa_example : atoi (itoa 4294967254 ++ 0 ∷ []) ≡ done 4294967254
atoi-itoa_example = atoi-itoa 4294967254 0 [] (omega arith) (omega arith) refl (omega arith)

-- `itoa` of -42.
minus : itoa 4294967254 ≡ 45 ∷ 52 ∷ 50 ∷ []
unfolding itoa itoa_digits
minus = refl

-- The text of the least int32_t overflows in `atoi`.
least : atoi (itoa 2147483648 ++ 0 ∷ []) ≡ fault
unfolding atoi itoa itoa_digits
least = refl

-- "ab", an erasing key, "c", and a new line, into a buffer of four bytes.
read_line_lem_example :
    ReadsAs 4 4
      (line_of 4 [] (97 ∷ 98 ∷ 8 ∷ 99 ∷ 10 ∷ []))
      (read_line (97 ∷ 98 ∷ 8 ∷ 99 ∷ 10 ∷ []) (some (7 ∷ 7 ∷ 7 ∷ 7 ∷ [])) 4)
read_line_lem_example =
    read_line_lem (97 ∷ 98 ∷ 8 ∷ 99 ∷ 10 ∷ []) (7 ∷ 7 ∷ 7 ∷ 7 ∷ []) 4 (omega arith) (omega arith)

strncpy_ab :
    strncpy (7 ∷ 7 ∷ 7 ∷ 7 ∷ []) ((97 ∷ 98 ∷ []) ++ 0 ∷ []) 3
    ≡ done (padded 3 (97 ∷ 98 ∷ []) ++ drop 3 (7 ∷ 7 ∷ 7 ∷ 7 ∷ []))
strncpy_ab =
    strncpy_lem (7 ∷ 7 ∷ 7 ∷ 7 ∷ []) (97 ∷ 98 ∷ []) [] 3 (omega arith, (omega arith, tt))
      (omega arith)

-- The key A with the left shift key held.
shifted_a :
    poll_ch none (some 30) (poll_ch none (some 42) (record { left = false; right = false })).1
    ≡ (65, record { left = true; right = false })
unfolding poll_ch
shifted_a = refl
