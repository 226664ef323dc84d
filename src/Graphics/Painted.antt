-- ===== src/Graphics/Painted.antt =====
-- jordyOS/gui.c: the pixels that `rect` and `gui_paint` set.
use os_research_lab.Base.{
  ℕ, zero, suc, ◌+◌, ◌*◌, ◌≤◌, ◌<◌, List, Bool, true, false, not, ◌&&◌, ◌||◌, leb, ltb, ◌==◌,
  length, set, get_or, length-set, get_or-set, Bool-cases, u8, ◌≡◌, ◌⊎◌, inl, inr, refl, ◌∙◌, arith,
  if◌then◌else◌,
}
use os_research_lab.Base.Fault.{Returns, >>=-Returns, Returns-map}
use os_research_lab.Graphics.Clipped.{
  IsSmall, shows, low_start, low_size, high_size, clip_lem, clip_shows,
}
use os_research_lab.Graphics.{fill_row, rect, int_lt, paint_rect, gui_paint}

abbrev pub screen_size : ℕ
screen_size = 64000

-- The byte of pixel `a` in row `b`.
abbrev pub pixel : List ℕ → ℕ → ℕ → ℕ
pixel pixels a b = get_or pixels (b * 320 + a) 0

-- The screen after bytes `i` to `i + w - 1` were filled.
abbrev Filled : List ℕ → ℕ → ℕ → ℕ → ℕ → List ℕ → Type 0
Filled pixels i w color j after =
    (length after ≡ length pixels)
    × (get_or after j 0 ≡ (if leb i j && ltb j (i + w) then color else get_or pixels j 0))

fill_row_lem :
    (pixels : List ℕ) (i w color j : ℕ)
    → i + w ≤ length pixels
    → Returns (Filled pixels i w color j) (fill_row pixels i w color)
unfolding fill_row
fill_row_lem pixels i zero color j h = (refl, ground arith)
fill_row_lem pixels i (suc w) color j h =
    let inside : ltb i (length pixels) ≡ true = ground arith in
    let next = set pixels i color in
    let size = length-set pixels i color in
    rw inside (
      Returns-map (Filled next (i + 1) w color j) (Filled pixels i (suc w) color j)
        (fill_row next (i + 1) w color) (fill_row_lem next (i + 1) w color j (omega (arith, size)))
        λ after filled. (filled.0 ∙ size, ground (arith, filled.1, get_or-set pixels i j color 0)))

-- A pixel of a rectangle.
abbrev pub inside : ℕ → ℕ → ℕ → ℕ → ℕ → ℕ → Bool
inside x y w h a b = leb x a && ltb a (x + w) && leb y b && ltb b (y + h)

-- The screen after that rectangle was drawn, at one of its pixels.
abbrev pub Drawn : List ℕ → ℕ → ℕ → ℕ → ℕ → ℕ → ℕ → ℕ → List ℕ → Type 0
Drawn pixels x y w h color a b after =
    (length after ≡ length pixels)
    × (pixel after a b ≡ (if inside x y w h a b then color else pixel pixels a b))

row_index :
    (x y w a b : ℕ)
    → a < 320
    → x + w ≤ 320
    → (leb (y * 320 + x) (b * 320 + a) && ltb (b * 320 + a) (y * 320 + x + w))
      ≡ ((b == y) && leb x a && ltb a (x + w))
row_index x y w a b h k = ground arith

pub rect_lem :
    (pixels : List ℕ) (x y w h color a b : ℕ)
    → length pixels ≡ screen_size
    → a < 320
    → x + w ≤ 320
    → y + h ≤ 200
    → Returns (Drawn pixels x y w h color a b) (rect pixels x y w h color)
unfolding rect
rect_lem pixels x y w zero color a b size k l m = (refl, ground arith)
rect_lem pixels x y w (suc h) color a b size k l m =
    >>=-Returns (Filled pixels (y * 320 + x) w color (b * 320 + a))
      (Drawn pixels x y w (suc h) color a b) (fill_row pixels (y * 320 + x) w color) _
      (fill_row_lem pixels (y * 320 + x) w color (b * 320 + a) (omega (arith, size)))
      λ next filled.
        Returns-map (Drawn next x (y + 1) w h color a b) (Drawn pixels x y w (suc h) color a b)
          (rect next x (y + 1) w h color)
          (rect_lem next x (y + 1) w h color a b (filled.0 ∙ size) k l (omega arith))
          λ after drawn.
            (drawn.0 ∙ filled.0, ground (arith, drawn.1, filled.1, row_index x y w a b k l))

-- The screen after that rectangle was painted, at one of its pixels: only what lies on the screen shows.
abbrev pub Painted : List ℕ → ℕ → ℕ → ℕ → ℕ → ℕ → ℕ → ℕ → List ℕ → Type 0
Painted pixels x y w h color a b after =
    (length after ≡ length pixels)
    × (pixel after a b ≡ (if shows x w a && shows y h b then u8 color else pixel pixels a b))

-- The same for a rectangle that was clipped.
abbrev Clipped : List ℕ → ℕ → ℕ → ℕ → ℕ → ℕ → ℕ → ℕ → List ℕ → Type 0
Clipped pixels x y w h color a b after =
    (length after ≡ length pixels)
    × (pixel after a b ≡ (
        if (int_lt 0 w && leb x a && ltb a (x + w)) && (int_lt 0 h && leb y b && ltb b (y + h))
        then color
        else pixel pixels a b))

paint_rect_lem :
    (pixels : List ℕ) (x y w h color a b : ℕ)
    → length pixels ≡ screen_size
    → a < 320
    → (int_lt 0 w ≡ false) ⊎ (x + w ≤ 320)
    → (int_lt 0 h ≡ false) ⊎ (y + h ≤ 200)
    → Returns (Clipped pixels x y w h color a b) (paint_rect pixels x y w h color)
paint_rect_lem pixels x y w h color a b size k fits fits' =
    elim (Bool-cases (int_lt 0 w && int_lt 0 h)) [
      | inr hidden ↦ rw hidden (refl, ground arith)
      | inl some_size ↦
          let wide : x + w ≤ 320 = ground (arith, fits, some_size) in
          let high : y + h ≤ 200 = ground (arith, fits', some_size) in
          rw some_size (
            Returns-map (Drawn pixels x y w h color a b) (Clipped pixels x y w h color a b)
              (rect pixels x y w h color) (rect_lem pixels x y w h color a b size k wide high)
              λ after drawn. (drawn.0, ground (arith, drawn.1, some_size)))
    ]

stops : ℕ → ℕ → ℕ → ℕ → Bool
stops x y w h = not (int_lt 0 w) || not (int_lt 0 h) || not (int_lt x 320) || not (int_lt y 200)

-- On a whole screen and with ints of at most 30 bits, `gui_paint` writes nothing outside the screen, and
-- sets exactly the pixels of the screen that lie in the rectangle to the lowest byte of the color;
-- a rectangle may start left of the screen or above it, or end behind it.
pub gui_paint_lem :
    (pixels : List ℕ) (x y w h color a b : ℕ)
    → length pixels ≡ screen_size
    → IsSmall x
    → IsSmall y
    → IsSmall w
    → IsSmall h
    → a < 320
    → b < 200
    → Returns (Painted pixels x y w h color a b) (gui_paint pixels x y w h color)
unfolding gui_paint stops
gui_paint_lem pixels x y w h color a b size sx sy sw sh k l = elim (Bool-cases (stops x y w h)) [
  | inl hidden ↦ rw hidden (refl, ground (arith, sx, sy, sw, sh))
  | inr goes ↦
      let before : int_lt x 320 ≡ true = ground arith in
      let before' : int_lt y 200 ≡ true = ground arith in
      let (low, high, fits) = clip_lem 320 x w sx sw (omega arith) (omega arith) before in
      let (low', high', fits') = clip_lem 200 y h sy sh (omega arith) (omega arith) before' in
      let x' = low_start x in
      let y' = low_start y in
      let w' = high_size 320 x' (low_size x w) in
      let h' = high_size 200 y' (low_size y h) in
      rw goes (
        rw low (
          rw low' (
            rw high (
              rw high' (
                Returns-map (Clipped pixels x' y' w' h' (u8 color) a b)
                  (Painted pixels x y w h color a b) (paint_rect pixels x' y' w' h' (u8 color))
                  (paint_rect_lem pixels x' y' w' h' (u8 color) a b size k fits fits')
                  λ after drawn. (
                    drawn.0,
                    rw
                        (
                          clip_shows 320 x w a sx sw (omega arith) k before,
                          clip_shows 200 y h b sy sh (omega arith) l before',
                        )
                        at drawn.1,
                  ))))))
]
