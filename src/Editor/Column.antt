-- ===== src/Editor/Column.antt =====
-- jordyOS/app_edit.c: the column of the text mode.
use os_research_lab.Base.{
  ℕ, zero, suc, ◌+◌, ◌-◌, ◌≤◌, ◌<◌, List, [], ◌∷◌, ◌++◌, Bool-cases, ◌==◌, length, take, get_or,
  get_elem?-of_lt, ◌≡◌, inl, inr, refl, ap, ◌∙◌, arith, if◌then◌else◌,
}
use os_research_lab.Base.Fault.{done}
use os_research_lab.Editor.{last_newline, line_start_col, erased_col}

-- The number of bytes behind the last new line, `col` standing before the text.
abbrev pub column_from : ℕ → List ℕ → ℕ
column_from col [] = col
column_from col (c ∷ s) = column_from (if c == 10 then 0 else col + 1) s

abbrev pub column : List ℕ → ℕ
column = column_from 0

column_from-snoc :
    (col : ℕ) (s : List ℕ) (c : ℕ)
    → column_from col (s ++ c ∷ []) ≡ (if c == 10 then 0 else column_from col s + 1)
column_from-snoc col [] c = refl
column_from-snoc col (d ∷ s) c = column_from-snoc (if d == 10 then 0 else col + 1) s c

pub column-snoc :
    (s : List ℕ) (c : ℕ) → column (s ++ c ∷ []) ≡ (if c == 10 then 0 else column s + 1)
column-snoc = column_from-snoc 0

pub take-suc :
    (xs : List ℕ) (n : ℕ) → n < length xs → take (suc n) xs ≡ take n xs ++ get_or xs n 0 ∷ []
take-suc [] n h = absurd (omega arith)
take-suc (x ∷ xs) zero h = refl
take-suc (x ∷ xs) (suc n) h = ap (λ l. x ∷ l) (take-suc xs n (omega arith))

-- The column of a longer prefix.
pub column-take :
    (xs : List ℕ) (n : ℕ)
    → n < length xs
    → column (take (suc n) xs) ≡ (if get_or xs n 0 == 10 then 0 else column (take n xs) + 1)
column-take xs n h = ap column (take-suc xs n h) ∙ column-snoc (take n xs) (get_or xs n 0)

column-le : (xs : List ℕ) (n : ℕ) → n ≤ length xs → column (take n xs) ≤ n
column-le xs zero h = omega arith
column-le xs (suc n) h =
    ground (arith, column-take xs n (omega arith), column-le xs n (omega arith))

last_newline_lem :
    (xs : List ℕ) (n : ℕ) → n ≤ length xs → last_newline xs n ≡ done (n - column (take n xs))
unfolding last_newline
last_newline_lem xs zero h = refl
last_newline_lem xs (suc n) h =
    let here = get_elem?-of_lt xs n 0 (omega arith) in
    let longer = column-take xs n (omega arith) in
    rw (here, longer)
      (elim (Bool-cases (get_or xs n 0 == 10)) [
        | inl newline ↦ rw newline (ap done (omega arith))
        | inr other ↦ rw (other, last_newline_lem xs n (omega arith)) (ap done (omega arith))
      ])

pub line_start_col_lem :
    (xs : List ℕ) (n : ℕ) → n ≤ length xs → line_start_col xs n ≡ done (column (take n xs))
unfolding line_start_col
line_start_col_lem xs zero h = refl
line_start_col_lem xs (suc n) h =
    let here = get_elem?-of_lt xs n 0 (omega arith) in
    let bound = column-le xs (suc n) h in
    rw here (elim (Bool-cases (get_or xs n 0 == 10)) [
      | inl newline ↦ rw (newline, column-take xs n (omega arith), newline) refl
      | inr other ↦ rw (other, last_newline_lem xs (suc n) h) (ap done (omega arith))
    ])

-- Erasing the last byte leaves the column of the bytes before it.
pub erased_col_lem :
    (xs : List ℕ) (n : ℕ)
    → n < length xs
    → erased_col xs n (column (take (suc n) xs)) ≡ done (column (take n xs))
unfolding erased_col
erased_col_lem xs n h = ground (arith, column-take xs n h, line_start_col_lem xs n (omega arith))
