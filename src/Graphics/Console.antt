-- ===== src/Graphics/Console.antt =====
-- jordyOS/gui.c: the terminal, a grid of 20 rows of 38 characters under a title.
use os_research_lab.Base.{
  ℕ, zero, suc, ◌+◌, ◌-◌, ◌*◌, List, leb, ltb, ◌==◌, get_elem?, codes, if◌then◌else◌,
}
use os_research_lab.Base.Fault.{Outcome, done, load, ◌>>=◌}
use os_research_lab.Text.{store, strncpy}
use os_research_lab.Editor.{c_string}
use os_research_lab.Graphics.{panel, teal, muted, mint, white, ink, rect, glyph, text}

-- The screen, `row`, `column` and `terminal_title`.
pub record Terminal : Type 0 where
  pub pixels : List ℕ
  pub row : ℕ
  pub column : ℕ
  pub title : List ℕ

unfoldable pub gui_clear : List ℕ → Terminal → Outcome Terminal
gui_clear font t = do
  pixels ← rect t.pixels 0 0 320 200 ink
  pixels ← rect pixels 0 0 320 19 panel
  pixels ← rect pixels 0 19 320 1 teal
  title ← c_string t.title
  pixels ← text font pixels 8 6 title white panel
  pixels ← rect pixels 0 191 320 9 panel
  pixels ← text font pixels 8 192 (codes "JordyOS  /  Apelang runtime") muted panel
  done (record t { pixels = pixels; row = 0; column = 0 })

abbrev pub title_size : ℕ
title_size = 38

unfoldable pub gui_terminal : List ℕ → Terminal → List ℕ → Outcome Terminal
gui_terminal font t title = do
  copied ← strncpy t.title title (title_size - 1)
  ended ← store copied (title_size - 1) 0
  gui_clear font (record t { title = ended })

-- The pixels of a row from `i` on take the ones eight rows below.
unfoldable pub scroll_row : List ℕ → ℕ → ℕ → Outcome (List ℕ)
scroll_row pixels i zero = done pixels
scroll_row pixels i (suc left) = do
  below ← load (get_elem? pixels (i + 8 * 320))
  pixels' ← store pixels i below
  scroll_row pixels' (i + 1) left

unfoldable pub scroll_rows : List ℕ → ℕ → ℕ → Outcome (List ℕ)
scroll_rows pixels y zero = done pixels
scroll_rows pixels y (suc left) = do
  pixels' ← scroll_row pixels (y * 320 + 8) (312 - 8)
  scroll_rows pixels' (y + 1) left

-- The place where a character is drawn, blank.
abbrev pub blank : List ℕ → ℕ → ℕ → Outcome (List ℕ)
blank pixels row column = rect pixels (8 + column * 8) (24 + row * 8) 8 8 ink

-- What a character does before the rows are scrolled.
abbrev pub put : List ℕ → Terminal → List ℕ → ℕ → Outcome Terminal
put font t pixels c =
    let column' = if ltb 0 t.column then t.column - 1 else t.column in
    if c == 8
    then (do
      pixels' ← blank pixels t.row column'
      done (record t { pixels = pixels'; column = column' }))
    else if c == 10
    then done (record t { pixels = pixels; column = 0; row = t.row + 1 })
    else if c == 13
    then done (record t { pixels = pixels; column = 0 })
    else (do
      pixels' ← glyph font pixels (8 + t.column * 8) (24 + t.row * 8) c white ink
      if leb 38 (t.column + 1)
          then done (record t { pixels = pixels'; column = 0; row = t.row + 1 })
          else done (record t { pixels = pixels'; column = t.column + 1 }))

-- `if (row>=20) ...`
abbrev pub scrolled : Terminal → Outcome Terminal
scrolled t =
    if leb 20 t.row
    then (do
      pixels ← scroll_rows t.pixels 24 (176 - 24)
      pixels' ← rect pixels 8 176 304 8 ink
      done (record t { pixels = pixels'; row = 19 }))
    else done t

-- A character, given as an unsigned byte.
unfoldable pub gui_putc : List ℕ → Terminal → ℕ → Outcome Terminal
gui_putc font t c = do
  pixels ← blank t.pixels t.row t.column
  t' ← put font t pixels c
  t'' ← scrolled t'
  pixels' ← rect t''.pixels (8 + t''.column * 8) (30 + t''.row * 8) 7 1 mint
  done (record t'' { pixels = pixels' })
