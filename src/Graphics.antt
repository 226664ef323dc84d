-- ===== src/Graphics.antt =====
-- jordyOS/gui.c: drawing on the screen of 320 by 200 bytes. A write or a read outside the screen or the
-- font, and a signed overflow, are a `fault`. An int of `gui_paint` and `gui_drawtext` is given by
-- its bit pattern; the other functions are called with numbers that are not negative. The font that
-- the boot loader leaves is a parameter.
pub mod Console
pub mod Desktop
pub mod Called
pub mod Clipped
pub mod Painted
pub mod Picture
pub mod Rows
pub mod Printed
mod Tests
use os_research_lab.Base.{
  ℕ, zero, suc, ◌+◌, ◌-◌, ◌*◌, ◌^◌, ◌%◌, bit_and, List, [], ◌∷◌, Bool, true, false, not, ◌&&◌, ◌||◌,
  leb, ltb, ◌==◌, ◌!=◌, get_elem?, u8, ◌>>>◌, codes, if◌then◌else◌,
}
use os_research_lab.Base.Fault.{Outcome, fault, done, load, ◌>>=◌}
use os_research_lab.Calc.{int_add, int_sub}
use os_research_lab.Text.{store, is_negative}

-- The colors of the palette.
abbrev pub navy : ℕ
navy = 0

abbrev pub panel : ℕ
panel = 1

abbrev pub card : ℕ
card = 2

abbrev pub muted : ℕ
muted = 3

abbrev pub teal : ℕ
teal = 4

abbrev pub mint : ℕ
mint = 5

abbrev pub gold : ℕ
gold = 6

abbrev pub white : ℕ
white = 7

abbrev pub ink : ℕ
ink = 8

abbrev pub highlight : ℕ
highlight = 9

-- `w` bytes from `i` on.
unfoldable pub fill_row : List ℕ → ℕ → ℕ → ℕ → Outcome (List ℕ)
fill_row pixels i zero color = done pixels
fill_row pixels i (suc w) color = do
  pixels' ← store pixels i color
  fill_row pixels' (i + 1) w color

unfoldable pub rect : List ℕ → ℕ → ℕ → ℕ → ℕ → ℕ → Outcome (List ℕ)
rect pixels x y w zero color = done pixels
rect pixels x y w (suc h) color = do
  pixels' ← fill_row pixels (y * 320 + x) w color
  rect pixels' x (y + 1) w h color

-- The last `left` of the eight pixels of a row of a character, from `i` on.
unfoldable pub glyph_row : List ℕ → ℕ → ℕ → ℕ → ℕ → ℕ → Outcome (List ℕ)
glyph_row pixels bits i fg bg zero = done pixels
glyph_row pixels bits i fg bg (suc left) = do
  pixels' ← store pixels i (if bit_and bits (0x80 >>> (7 - left)) != 0 then fg else bg)
  glyph_row pixels' bits (i + 1) fg bg left

unfoldable pub glyph_rows : List ℕ → List ℕ → ℕ → ℕ → ℕ → ℕ → ℕ → ℕ → Outcome (List ℕ)
glyph_rows font pixels x y c fg bg zero = done pixels
glyph_rows font pixels x y c fg bg (suc left) = do
  bits ← load (get_elem? font (c * 8 + (7 - left)))
  pixels' ← glyph_row pixels bits ((y + (7 - left)) * 320 + x) fg bg 8
  glyph_rows font pixels' x y c fg bg left

-- A character that the font does not have is drawn as `?`.
abbrev pub known : ℕ → ℕ
known c = if ltb 127 c then b'?' else c

unfoldable pub glyph : List ℕ → List ℕ → ℕ → ℕ → ℕ → ℕ → ℕ → Outcome (List ℕ)
glyph font pixels x y c fg bg = glyph_rows font pixels x y (known c) fg bg 8

-- A label, a C string given without its zero byte.
unfoldable pub text : List ℕ → List ℕ → ℕ → ℕ → List ℕ → ℕ → ℕ → Outcome (List ℕ)
text font pixels x y [] fg bg = done pixels
text font pixels x y (c ∷ label) fg bg = do
  pixels' ← glyph font pixels x y c fg bg
  text font pixels' (x + 8) y label fg bg

-- `a < b` of two ints.
abbrev pub int_lt : ℕ → ℕ → Bool
int_lt a b = ltb ((a + 2 ^ 31) % 2 ^ 32) ((b + 2 ^ 31) % 2 ^ 32)

-- `if (x<0) { w+=x; x=0; }`
abbrev pub clip_low : ℕ → ℕ → Outcome (ℕ × ℕ)
clip_low x w = if is_negative x then (do w' ← int_add w x; done (0, w')) else done (x, w)

-- `if (x+w>320) w=320-x;`
abbrev pub clip_high : ℕ → ℕ → ℕ → Outcome ℕ
clip_high limit x w = do end ← int_add x w; if int_lt limit end then int_sub limit x else done w

-- `if (w>0 && h>0) rect(...)`
abbrev pub paint_rect : List ℕ → ℕ → ℕ → ℕ → ℕ → ℕ → Outcome (List ℕ)
paint_rect pixels x y w h color =
    if int_lt 0 w && int_lt 0 h then rect pixels x y w h color else done pixels

unfoldable pub gui_paint : List ℕ → ℕ → ℕ → ℕ → ℕ → ℕ → Outcome (List ℕ)
gui_paint pixels x y w h color =
    if not (int_lt 0 w) || not (int_lt 0 h) || not (int_lt x 320) || not (int_lt y 200)
    then done pixels
    else (do
      (x', w') ← clip_low x w
      (y', h') ← clip_low y h
      w'' ← clip_high 320 x' w'
      h'' ← clip_high 200 y' h'
      paint_rect pixels x' y' w'' h'' (u8 color))

-- The pixels of a row of a character that are set, the last `left` of eight.
unfoldable pub draw_row : List ℕ → ℕ → ℕ → ℕ → ℕ → Outcome (List ℕ)
draw_row pixels bits i color zero = done pixels
draw_row pixels bits i color (suc left) = do
  pixels' ← (if bit_and bits (0x80 >>> (7 - left)) != 0 then store pixels i color else done pixels)
  draw_row pixels' bits (i + 1) color left

unfoldable pub draw_rows : List ℕ → List ℕ → ℕ → ℕ → ℕ → ℕ → ℕ → Outcome (List ℕ)
draw_rows font pixels x y c color zero = done pixels
draw_rows font pixels x y c color (suc left) = do
  bits ← load (get_elem? font (c * 8 + (7 - left)))
  pixels' ← draw_row pixels bits ((y + (7 - left)) * 320 + x) color 8
  draw_rows font pixels' x y c color left

-- The loop of `gui_drawtext`.
unfoldable pub draw_label : List ℕ → List ℕ → ℕ → ℕ → List ℕ → ℕ → Outcome (List ℕ)
draw_label font pixels x y [] color = done pixels
draw_label font pixels x y (c ∷ label) color =
    let drawn =
      if is_negative x then done pixels else draw_rows font pixels x y (known c) (u8 color) 8 in
    let rest = (do pixels' ← drawn; x' ← int_add x 8; draw_label font pixels' x' y label color) in
    if int_lt 312 x then done pixels else rest

unfoldable pub gui_drawtext : List ℕ → List ℕ → ℕ → ℕ → List ℕ → ℕ → Outcome (List ℕ)
gui_drawtext font pixels x y label color =
    if is_negative y || int_lt 192 y then done pixels else draw_label font pixels x y label color
