-- ===== src/Graphics/Rows.antt =====
-- jordyOS/gui.c: the rows of a character and of a scroll, and the pictures that they leave.
use os_research_lab.Base.{
  ℕ, zero, suc, ◌+◌, ◌-◌, ◌*◌, ◌≤◌, ◌<◌, List, ◌&&◌, leb, ltb, ◌==◌, length, get_or,
  get_elem?-of_lt, Bool-cases, ◌≡◌, inl, inr, refl, sym, ap, ◌∙◌, arith, if◌then◌else◌,
}
use os_research_lab.Base.Fault.{Outcome, fault, reject, done, Returns, >>=-Returns, Returns-map}
use os_research_lab.Graphics.{rect, glyph_row, glyph_rows, known, glyph}
use os_research_lab.Graphics.Console.{scroll_row, scroll_rows}
use os_research_lab.Graphics.Painted.{screen_size, pixel, inside, rect_lem}
use os_research_lab.Graphics.Picture.{
  Picture, bit_color, filled_in, lettered, moved_up, Shows, Has, glyph_row_lem, scroll_row_lem,
}

-- Where the bytes of a row from column `x` on lie.
row_place :
    (x y w a b : ℕ)
    → a < 320
    → x + w ≤ 320
    → (leb (y * 320 + x) (b * 320 + a) && ltb (b * 320 + a) (y * 320 + x + w))
      ≡ ((b == y) && leb x a && ltb a (x + w))
row_place x y w a b h k = ground arith

glyph_rows_lem :
    (font pixels : List ℕ) (x y c fg bg left a b : ℕ)
    → length font ≡ 1024
    → length pixels ≡ screen_size
    → c < 128
    → left ≤ 8
    → x + 8 ≤ 320
    → y + 8 ≤ 200
    → a < 320
    → Returns
        (Has pixels (b * 320 + a) (
          if inside x (y + (8 - left)) 8 left a b
          then bit_color (get_or font (c * 8 + (b - y)) 0) (a - x) fg bg
          else pixel pixels a b))
        (glyph_rows font pixels x y c fg bg left)
unfolding glyph_rows
glyph_rows_lem font pixels x y c fg bg zero a b full size low few k l m = (refl, ground arith)
glyph_rows_lem font pixels x y c fg bg (suc left) a b full size low few k l m =
    let row = y + (7 - left) in
    let bits = get_or font (c * 8 + (7 - left)) 0 in
    let there = get_elem?-of_lt font (c * 8 + (7 - left)) 0 (omega (arith, full)) in
    let i = row * 320 + x in
    let j = b * 320 + a in
    let value = λ (b' : ℕ). bit_color (get_or font (c * 8 + (b' - y)) 0) (a - x) fg bg in
    rw there (
      >>=-Returns
        (Has pixels j (
          if leb i j && ltb j (i + 8)
          then bit_color bits (8 - 8 + (j - i)) fg bg
          else get_or pixels j 0))
        (Has pixels j
          (if inside x (y + (8 - suc left)) 8 (suc left) a b then value b else pixel pixels a b))
        (glyph_row pixels bits i fg bg 8) _
        (glyph_row_lem pixels bits i fg bg 8 j (omega arith) (omega (arith, size)))
        λ next has.
          Returns-map
            (Has next j (if inside x (y + (8 - left)) 8 left a b then value b else pixel next a b))
            (Has pixels j (
              if inside x (y + (8 - suc left)) 8 (suc left) a b then value b else pixel pixels a b))
            (glyph_rows font next x y c fg bg left)
            (glyph_rows_lem font next x y c fg bg left a b full (has.0 ∙ size) low (omega arith) k l
              m)
            λ after drawn. (
              drawn.0 ∙ has.0,
              elim (Bool-cases ((b == row) && leb x a && ltb a (x + 8))) [
                | inl here ↦
                    let n : 8 - 8 + (j - i) ≡ a - x = ground arith in
                    let r : b - y ≡ 7 - left = ground arith in
                    let now = rw n at has.1 in
                    rw r (ground (arith, rw r at drawn.1, now, row_place x row 8 a b m k))
                | inr there ↦ ground (arith, drawn.1, has.1, row_place x row 8 a b m k)
              ],
            ))

-- What holds of every index.
Returns-each :
    {I A : Type 0} (P : I → A → Type 0) (o : Outcome A) (i : I)
    → ((j : I) → Returns (P j) o)
    → Returns (λ a. (j : I) → P j a) o
Returns-each P fault i h = h i
Returns-each P reject i h = h i
Returns-each P (done a) i h = h

-- A row was moved, at one of its bytes.
abbrev MovedAt : List ℕ → ℕ → ℕ → List ℕ → Type 0
MovedAt pixels i j =
    Has pixels j
      (if leb i j && ltb j (i + 304) then get_or pixels (j + 8 * 320) 0 else get_or pixels j 0)

abbrev RowMoved : List ℕ → ℕ → List ℕ → Type 0
RowMoved pixels i after = (j : ℕ) → MovedAt pixels i j after

scroll_rows_lem :
    (pixels : List ℕ) (y left a b : ℕ)
    → length pixels ≡ screen_size
    → y + left ≤ 176
    → a < 320
    → Returns
        (Has pixels
          (b * 320 + a)
          (if inside 8 y 304 left a b then pixel pixels a (b + 8) else pixel pixels a b))
        (scroll_rows pixels y left)
unfolding scroll_rows
scroll_rows_lem pixels y zero a b size k m = (refl, ground arith)
scroll_rows_lem pixels y (suc left) a b size k m =
    let i = y * 320 + 8 in
    >>=-Returns (RowMoved pixels i)
      (Has pixels (b * 320 + a)
        (if inside 8 y 304 (suc left) a b then pixel pixels a (b + 8) else pixel pixels a b))
      (scroll_row pixels i 304) _
      (Returns-each (MovedAt pixels i) (scroll_row pixels i 304) 0
        (λ j. scroll_row_lem pixels i 304 j (omega arith) (omega (arith, size))))
      λ next moved.
        Returns-map
          (Has next (b * 320 + a)
            (if inside 8 (y + 1) 304 left a b then pixel next a (b + 8) else pixel next a b))
          (Has pixels (b * 320 + a)
            (if inside 8 y 304 (suc left) a b then pixel pixels a (b + 8) else pixel pixels a b))
          (scroll_rows next (y + 1) left)
          (scroll_rows_lem next (y + 1) left a b ((moved 0).0 ∙ size) (omega arith) m)
          λ after drawn.
            let down : (b + 8) * 320 + a ≡ b * 320 + a + 8 * 320 = omega arith in
            (
              drawn.0 ∙ (moved 0).0,
              ground (
                arith,
                drawn.1,
                (moved (b * 320 + a)).1,
                (moved ((b + 8) * 320 + a)).1,
                row_place 8 y 304 a b m (omega arith),
                row_place 8 y 304 a (b + 8) m (omega arith),
                ap (λ (j : ℕ). get_or pixels j 0) down,
              ),
            )

-- From one pixel to the picture.
shown :
    (p q : Picture) (pixels : List ℕ) (o : Outcome (List ℕ))
    → Shows p pixels
    → ((a b : ℕ) → a < 320 → b < 200 → Returns (Has pixels (b * 320 + a) (q a b)) o)
    → Returns (Shows q) o
shown p q pixels fault s h = h 0 0 (omega arith) (omega arith)
shown p q pixels reject s h = h 0 0 (omega arith) (omega arith)
shown p q pixels (done after) s h =
    ((h 0 0 (omega arith) (omega arith)).0 ∙ s.0, λ a b k l. (h a b k l).1)

pub rect-Shows :
    (p : Picture) (pixels : List ℕ) (x y w h color : ℕ)
    → Shows p pixels
    → x + w ≤ 320
    → y + h ≤ 200
    → Returns (Shows (filled_in p x y w h color)) (rect pixels x y w h color)
rect-Shows p pixels x y w h color s k l =
    shown p (filled_in p x y w h color) pixels (rect pixels x y w h color) s
      λ a b m n. rw (sym (s.1 a b m n)) (rect_lem pixels x y w h color a b s.0 m k l)

pub glyph-Shows :
    (font : List ℕ) (p : Picture) (pixels : List ℕ) (x y c fg bg : ℕ)
    → length font ≡ 1024
    → Shows p pixels
    → x + 8 ≤ 320
    → y + 8 ≤ 200
    → Returns (Shows (lettered font p x y (known c) fg bg)) (glyph font pixels x y c fg bg)
unfolding glyph
glyph-Shows font p pixels x y c fg bg full s k l =
    shown p (lettered font p x y (known c) fg bg) pixels
      (glyph_rows font pixels x y (known c) fg bg 8) s
      λ a b m n.
        let top : y + (8 - 8) ≡ y = omega arith in
        rw (sym (s.1 a b m n)) (
          rw top at (
            glyph_rows_lem font pixels x y (known c) fg bg 8 a b full s.0 (ground arith)
              (omega arith) k l m))

pub scroll-Shows :
    (p : Picture) (pixels : List ℕ) (y left : ℕ)
    → Shows p pixels
    → y + left ≤ 176
    → Returns (Shows (moved_up p y left)) (scroll_rows pixels y left)
scroll-Shows p pixels y left s k =
    shown p (moved_up p y left) pixels (scroll_rows pixels y left) s λ a b m n.
      Returns-map
        (Has pixels (b * 320 + a)
          (if inside 8 y 304 left a b then pixel pixels a (b + 8) else pixel pixels a b))
        (Has pixels (b * 320 + a) (moved_up p y left a b)) (scroll_rows pixels y left)
        (scroll_rows_lem pixels y left a b s.0 k m)
        λ after has. (
          has.0,
          elim (Bool-cases (inside 8 y 304 left a b)) [
            | inl within ↦ rw within (rw within at has.1 ∙ s.1 a (b + 8) m (ground arith))
            | inr out ↦ rw out (rw out at has.1 ∙ s.1 a b m n)
          ],
        )
