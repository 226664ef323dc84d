-- ===== src/Graphics/Printed.antt =====
-- jordyOS/gui.c: what `gui_putc` does to the picture on the screen and to the cursor.
use os_research_lab.Base.{
  ℕ, ◌+◌, ◌-◌, ◌*◌, ◌≤◌, ◌<◌, List, true, false, leb, ltb, ◌==◌, length, Bool-cases, ◌≡◌, inl, inr,
  refl, arith, if◌then◌else◌,
}
use os_research_lab.Base.Fault.{done, Returns, >>=-Returns, ◌>>=◌}
use os_research_lab.Graphics.{ink, white, mint, rect, known, glyph}
use os_research_lab.Graphics.Console.{Terminal, scroll_rows, blank, put, scrolled, gui_putc}
use os_research_lab.Graphics.Painted.{pixel, screen_size}
use os_research_lab.Graphics.Picture.{Picture, filled_in, lettered, moved_up, Shows}
use os_research_lab.Graphics.Rows.{rect-Shows, glyph-Shows, scroll-Shows}

-- The font has eight bytes for each of 128 characters.
abbrev pub IsFont : List ℕ → Type 0
IsFont font = length font ≡ 1024

-- The screen is whole and the cursor stands in the grid.
abbrev pub IsTerminal : Terminal → Type 0
IsTerminal t = (length t.pixels ≡ screen_size) × (t.row < 20) × (t.column < 38)

-- A picture with the cursor's place.
pub record Page : Type 0 where
  pub picture : Picture
  pub row : ℕ
  pub column : ℕ

-- The place of a character, in a color.
abbrev pub cell_filled : Page → Picture
cell_filled g = filled_in g.picture (8 + g.column * 8) (24 + g.row * 8) 8 8 ink

-- The cursor behind a character.
abbrev pub stepped : Page → Page
stepped g =
    if leb 38 (g.column + 1)
    then record g { column = 0; row = g.row + 1 }
    else record g { column = g.column + 1 }

-- A character at the cursor, whose place is blank.
abbrev pub typed : List ℕ → ℕ → Page → Page
typed font c g =
    if c == 8
    then (let back = record g { column = g.column - 1 } in
        record back { picture = cell_filled back })
    else if c == 10
    then record g { column = 0; row = g.row + 1 }
    else if c == 13
    then record g { column = 0 }
    else stepped (record g {
      picture = lettered font g.picture (8 + g.column * 8) (24 + g.row * 8) (known c) white ink;
    })

-- Behind the last row all rows move up, and the last one is blank.
abbrev pub in_grid : Page → Page
in_grid g =
    if leb 20 g.row
    then record g { picture = filled_in (moved_up g.picture 24 152) 8 176 304 8 ink; row = 19 }
    else g

-- The line under the cursor's place.
abbrev pub cursor_drawn : Page → Page
cursor_drawn g = record g {
  picture = filled_in g.picture (8 + g.column * 8) (30 + g.row * 8) 7 1 mint;
}

-- What a character makes of the page.
abbrev pub printed : List ℕ → ℕ → Page → Page
printed font c g = cursor_drawn (in_grid (typed font c (record g { picture = cell_filled g })))

-- The terminal shows the page.
abbrev pub ShowsPage : Page → Terminal → Type 0
ShowsPage g t = Shows g.picture t.pixels × (t.row ≡ g.row) × (t.column ≡ g.column)

-- The page of a terminal.
abbrev pub page_of : Terminal → Page
page_of t = record { picture = pixel t.pixels; row = t.row; column = t.column }

-- The same with a cursor in the grid, or in the row behind it.
abbrev PutPage : Page → Terminal → Type 0
PutPage g t = ShowsPage g t × (g.row ≤ 20) × (g.column < 38)

abbrev pub GridPage : Page → Terminal → Type 0
GridPage g t = ShowsPage g t × (g.row < 20) × (g.column < 38)

stepped-PutPage :
    (t : Terminal) (p : Picture) (pixels : List ℕ)
    → Shows p pixels
    → t.row < 20
    → t.column < 38
    → Returns (PutPage (stepped (record { picture = p; row = t.row; column = t.column }))) (
        if leb 38 (t.column + 1)
        then done (record t { pixels = pixels; column = 0; row = t.row + 1 })
        else done (record t { pixels = pixels; column = t.column + 1 }))
stepped-PutPage t p pixels s k l = elim (Bool-cases (leb 38 (t.column + 1))) [
  | inl wraps ↦ rw wraps ((s, refl, refl), omega arith, omega arith)
  | inr fits ↦ rw fits ((s, refl, refl), omega arith, ground arith)
]

put-PutPage :
    (font : List ℕ) (t : Terminal) (p : Picture) (pixels : List ℕ) (c : ℕ)
    → IsFont font
    → Shows p pixels
    → t.row < 20
    → t.column < 38
    → Returns
        (PutPage (typed font c (record { picture = p; row = t.row; column = t.column })))
        (put font t pixels c)
put-PutPage font t p pixels c full s k l = elim (Bool-cases (c == 8)) [
  | inl erases ↦
      let back : (if ltb 0 t.column then t.column - 1 else t.column) ≡ t.column - 1 =
        ground arith in
      let x = 8 + (t.column - 1) * 8 in
      rw (erases, back)
        (>>=-Returns (Shows (filled_in p x (24 + t.row * 8) 8 8 ink)) _
          (rect pixels x (24 + t.row * 8) 8 8 ink) _
          (rect-Shows p pixels x (24 + t.row * 8) 8 8 ink s (omega arith) (omega arith))
          λ next s'. ((s', refl, refl), omega arith, omega arith))
  | inr a ↦ rw a (elim (Bool-cases (c == 10)) [
    | inl newline ↦ rw newline ((s, refl, refl), omega arith, omega arith)
    | inr b ↦ rw b (elim (Bool-cases (c == 13)) [
      | inl returns ↦ rw returns ((s, refl, refl), omega arith, omega arith)
      | inr prints ↦
          let x = 8 + t.column * 8 in
          let y = 24 + t.row * 8 in
          rw prints (
            >>=-Returns (Shows (lettered font p x y (known c) white ink)) _
              (glyph font pixels x y c white ink) _
              (glyph-Shows font p pixels x y c white ink full s (omega arith) (omega arith))
              λ next s'. stepped-PutPage t (lettered font p x y (known c) white ink) next s' k l)
    ])
  ])
]

scrolled-GridPage :
    (g : Page) (t : Terminal) → PutPage g t → Returns (GridPage (in_grid g)) (scrolled t)
scrolled-GridPage g t ((s, r, c), k, l) = elim (Bool-cases (leb 20 g.row)) [
  | inr fits ↦
      let fits' : leb 20 t.row ≡ false = ground arith in
      rw (fits, fits') ((s, r, c), ground arith, l)
  | inl beyond ↦
      let beyond' : leb 20 t.row ≡ true = ground arith in
      let p = moved_up g.picture 24 152 in
      rw (beyond, beyond')
        (>>=-Returns (Shows p) _ (scroll_rows t.pixels 24 152) _
          (scroll-Shows g.picture t.pixels 24 152 s (omega arith))
          λ next s'.
            >>=-Returns (Shows (filled_in p 8 176 304 8 ink)) _ (rect next 8 176 304 8 ink) _
              (rect-Shows p next 8 176 304 8 ink s' (omega arith) (omega arith))
              λ last s''. ((s'', refl, c), omega arith, l))
]

cursor-GridPage :
    (g : Page) (t : Terminal)
    → GridPage g t
    → Returns (GridPage (cursor_drawn g)) (
        rect t.pixels (8 + t.column * 8) (30 + t.row * 8) 7 1 mint >>= λ pixels.
        done (record t { pixels = pixels }))
cursor-GridPage g t ((s, r, c), k, l) =
    rw (r, c)
      (>>=-Returns (Shows (cursor_drawn g).picture) _
        (rect t.pixels (8 + g.column * 8) (30 + g.row * 8) 7 1 mint) _
        (rect-Shows g.picture t.pixels (8 + g.column * 8) (30 + g.row * 8) 7 1 mint s (omega arith)
          (omega arith))
        λ last s'. ((s', refl, refl), k, l))

-- From any whole screen and a cursor in the grid of 20 rows of 38 characters, `gui_putc` of any character
-- writes and reads nothing outside the screen and the font, and leaves on the screen, pixel by
-- pixel, and in the cursor what `printed` makes of the page: the cursor's place is blanked, the
-- character drawn by the bits of the font or the cursor moved by a backspace, a new line or a
-- return, the rows moved up behind the last one, and the line under the cursor drawn; and the
-- cursor stands in the grid again.
pub gui_putc_lem :
    (font : List ℕ) (t : Terminal) (c : ℕ)
    → IsFont font
    → IsTerminal t
    → Returns (GridPage (printed font c (page_of t))) (gui_putc font t c)
unfolding gui_putc
gui_putc_lem font t c full (size, k, l) =
    let p = cell_filled (page_of t) in
    let g : Page = record { picture = p; row = t.row; column = t.column } in
    >>=-Returns (Shows p) _ (blank t.pixels t.row t.column) _
      (rect-Shows (pixel t.pixels) t.pixels (8 + t.column * 8) (24 + t.row * 8) 8 8 ink
        (size, λ a b m n. refl) (omega arith) (omega arith))
      λ pixels s.
        >>=-Returns (PutPage (typed font c g)) _ (put font t pixels c) _
          (put-PutPage font t p pixels c full s k l)
          λ t' v.
            >>=-Returns (GridPage (in_grid (typed font c g))) _ (scrolled t') _
              (scrolled-GridPage (typed font c g) t' v)
              λ u w. cursor-GridPage (in_grid (typed font c g)) u w
