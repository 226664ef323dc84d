-- ===== src/Graphics/Picture.antt =====
-- jordyOS/gui.c: what a rectangle, a character and a scroll leave on the screen, pixel by pixel.
use os_research_lab.Base.{
  ℕ, zero, suc, ◌+◌, ◌-◌, ◌*◌, ◌≤◌, ◌<◌, List, true, ◌&&◌, leb, ltb, ◌==◌, ◌!=◌, length, set,
  get_or, length-set, get_or-set, get_elem?-of_lt, Bool-cases, bit_and, ◌>>>◌, ◌≡◌, inl, inr, refl,
  ◌∙◌, arith, if◌then◌else◌,
}
use os_research_lab.Base.Fault.{Returns, Returns-map}
use os_research_lab.Graphics.{glyph_row}
use os_research_lab.Graphics.Console.{scroll_row}
use os_research_lab.Graphics.Painted.{screen_size, pixel, inside}

-- The colors by column and row.
abbrev pub Picture : Type 0
Picture = ℕ → ℕ → ℕ

-- The color of a pixel of a character, by the bits of its row from the left.
unfoldable pub bit_color : ℕ → ℕ → ℕ → ℕ → ℕ
bit_color bits n fg bg = if bit_and bits (0x80 >>> n) != 0 then fg else bg

-- A rectangle on a picture.
abbrev pub filled_in : Picture → ℕ → ℕ → ℕ → ℕ → ℕ → Picture
filled_in p x y w h color a b = if inside x y w h a b then color else p a b

-- A character on a picture.
abbrev pub lettered : List ℕ → Picture → ℕ → ℕ → ℕ → ℕ → ℕ → Picture
lettered font p x y c fg bg a b =
    if inside x y 8 8 a b then bit_color (get_or font (c * 8 + (b - y)) 0) (a - x) fg bg else p a b

-- `left` rows of the terminal from `y` on take the colors eight rows below.
abbrev pub moved_up : Picture → ℕ → ℕ → Picture
moved_up p y left a b = if inside 8 y 304 left a b then p a (b + 8) else p a b

-- The screen is whole and shows the picture.
abbrev pub Shows : Picture → List ℕ → Type 0
Shows p pixels =
    (length pixels ≡ screen_size) × ((a b : ℕ) → a < 320 → b < 200 → pixel pixels a b ≡ p a b)

-- The screen keeps its size and has that color at one place.
abbrev pub Has : List ℕ → ℕ → ℕ → List ℕ → Type 0
Has pixels j v after = (length after ≡ length pixels) × (get_or after j 0 ≡ v)

pub glyph_row_lem :
    (pixels : List ℕ) (bits i fg bg left j : ℕ)
    → left ≤ 8
    → i + left ≤ length pixels
    → Returns
        (Has pixels j (
          if leb i j && ltb j (i + left)
          then bit_color bits (8 - left + (j - i)) fg bg
          else get_or pixels j 0))
        (glyph_row pixels bits i fg bg left)
unfolding glyph_row bit_color
glyph_row_lem pixels bits i fg bg zero j few h = (refl, ground arith)
glyph_row_lem pixels bits i fg bg (suc left) j few h =
    let within : ltb i (length pixels) ≡ true = ground arith in
    let v = bit_color bits (7 - left) fg bg in
    let next = set pixels i v in
    let size = length-set pixels i v in
    rw within (
      Returns-map
        (Has next j (
          if leb (i + 1) j && ltb j (i + 1 + left)
          then bit_color bits (8 - left + (j - (i + 1))) fg bg
          else get_or next j 0))
        (Has pixels j (
          if leb i j && ltb j (i + suc left)
          then bit_color bits (8 - suc left + (j - i)) fg bg
          else get_or pixels j 0))
        (glyph_row next bits (i + 1) fg bg left)
        (glyph_row_lem next bits (i + 1) fg bg left j (omega arith) (omega (arith, size)))
        λ after has. (
          has.0 ∙ size,
          has.1
              ∙ row_step i j left (length pixels) (λ n. bit_color bits n fg bg) (get_or next j 0)
                  (get_or pixels j 0) few h (get_or-set pixels i j v 0),
        ))
  where
    row_step :
        (i j left size : ℕ) (color : ℕ → ℕ) (now before : ℕ)
        → suc left ≤ 8
        → i + suc left ≤ size
        → now ≡ (if (i == j) && ltb i size then color (7 - left) else before)
        → (if leb (i + 1) j && ltb j (i + 1 + left) then color (8 - left + (j - (i + 1))) else now)
          ≡ (if leb i j && ltb j (i + suc left) then color (8 - suc left + (j - i)) else before)
    row_step i j left size color now before few h e = elim (Bool-cases (i == j)) [
      | inl same ↦ let n : 8 - suc left + (j - i) ≡ 7 - left = ground arith in rw n (ground arith)
      | inr other ↦ elim (Bool-cases (ltb i j)) [
        | inl later ↦
            let n : 8 - suc left + (j - i) ≡ 8 - left + (j - (i + 1)) = ground arith in
            rw n (ground arith)
        | inr earlier ↦ ground arith
      ]
    ]

pub scroll_row_lem :
    (pixels : List ℕ) (i left j : ℕ)
    → left ≤ 304
    → i + left + 8 * 320 ≤ length pixels
    → Returns
        (Has pixels j (
          if leb i j && ltb j (i + left) then get_or pixels (j + 8 * 320) 0 else get_or pixels j 0))
        (scroll_row pixels i left)
unfolding scroll_row
scroll_row_lem pixels i zero j few h = (refl, ground arith)
scroll_row_lem pixels i (suc left) j few h =
    let below = get_or pixels (i + 8 * 320) 0 in
    let there = get_elem?-of_lt pixels (i + 8 * 320) 0 (omega arith) in
    let within : ltb i (length pixels) ≡ true = ground arith in
    let next = set pixels i below in
    let size = length-set pixels i below in
    rw (there, within)
      (Returns-map
        (Has next j (
          if leb (i + 1) j && ltb j (i + 1 + left)
          then get_or next (j + 8 * 320) 0
          else get_or next j 0))
        (Has pixels j (
          if leb i j && ltb j (i + suc left)
          then get_or pixels (j + 8 * 320) 0
          else get_or pixels j 0))
        (scroll_row next (i + 1) left)
        (scroll_row_lem next (i + 1) left j (omega arith) (omega (arith, size)))
        λ after has. (
          has.0 ∙ size,
          has.1
              ∙ row_step i j left (λ n. get_or pixels n 0) (λ n. get_or next n 0)
                  (λ n. get_or-set pixels i n below 0) h,
        ))
  where
    row_step :
        (i j left : ℕ) (before now : ℕ → ℕ) {size : ℕ}
        → ((n : ℕ) → now n ≡ (if (i == n) && ltb i size then before (i + 8 * 320) else before n))
        → i + suc left + 8 * 320 ≤ size
        → (if leb (i + 1) j && ltb j (i + 1 + left) then now (j + 8 * 320) else now j)
          ≡ (if leb i j && ltb j (i + suc left) then before (j + 8 * 320) else before j)
    row_step i j left before now e h = elim (Bool-cases (i == j)) [
      | inl same ↦ let n : j + 8 * 320 ≡ i + 8 * 320 = ground arith in rw n (ground (arith, e j))
      | inr other ↦ ground (arith, e j, e (j + 8 * 320))
    ]
