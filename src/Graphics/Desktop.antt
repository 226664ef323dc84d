-- ===== src/Graphics/Desktop.antt =====
-- jordyOS/gui.c: the palette, the desktop with its six entries, and the choice of one.
use os_research_lab.Base.{
  ℕ, zero, suc, ◌+◌, ◌-◌, ◌*◌, ◌/◌, ◌%◌, List, [], ◌∷◌, map, Option, some, none, ◌&&◌, ◌||◌, leb,
  ltb, ◌==◌, get_or, codes, if◌then◌else◌,
}
use os_research_lab.Base.Fault.{Outcome, done, ◌>>=◌}
use os_research_lab.Graphics.{
  navy, panel, card, muted, teal, mint, gold, white, ink, highlight, rect, glyph, text,
}

-- Red, green and blue of each color.
abbrev pub palette : List ℕ
palette =
    4 ∷ 7 ∷ 13 ∷ 8 ∷ 12 ∷ 20 ∷ 11 ∷ 16 ∷ 25 ∷ 30 ∷ 38 ∷ 45 ∷ 10 ∷ 40 ∷ 43 ∷ 24 ∷ 58 ∷ 47 ∷ 63 ∷ 49
    ∷ 22 ∷ 57 ∷ 60 ∷ 63 ∷ 3 ∷ 5 ∷ 9 ∷ 12 ∷ 27 ∷ 34 ∷ []

-- What `gui_init` writes to the ports.
unfoldable pub gui_init : List (ℕ × ℕ)
gui_init = (0x3c8, 0) ∷ map (λ v. (0x3c9, v)) palette

-- Three times two dots, from the one of column `a` and row `b` on.
abbrev pub calc_dots : List ℕ → ℕ → ℕ → Outcome (List ℕ)
calc_dots pixels x y = do
  pixels ← rect pixels (x + 4) (y + 12) 3 3 teal
  pixels ← rect pixels (x + 4) (y + 18) 3 3 teal
  pixels ← rect pixels (x + 10) (y + 12) 3 3 teal
  pixels ← rect pixels (x + 10) (y + 18) 3 3 teal
  pixels ← rect pixels (x + 16) (y + 12) 3 3 teal
  rect pixels (x + 16) (y + 18) 3 3 teal

abbrev pub calc_icon : List ℕ → ℕ → ℕ → Outcome (List ℕ)
calc_icon pixels x y = do
  pixels ← rect pixels x y 25 24 mint
  pixels ← rect pixels (x + 3) (y + 3) 19 5 ink
  calc_dots pixels x y

abbrev pub editor_icon : List ℕ → ℕ → ℕ → ℕ → Outcome (List ℕ)
editor_icon pixels x y bg = do
  pixels ← rect pixels (x + 3) y 19 24 gold
  pixels ← rect pixels (x + 7) (y + 5) 11 2 bg
  pixels ← rect pixels (x + 7) (y + 10) 11 2 bg
  rect pixels (x + 7) (y + 15) 8 2 bg

abbrev pub ape_icon : List ℕ → List ℕ → ℕ → ℕ → Outcome (List ℕ)
ape_icon font pixels x y = do
  pixels ← rect pixels x (y + 2) 26 20 teal
  text font pixels (x + 1) (y + 8) (codes ">_") mint teal

abbrev pub shell_icon : List ℕ → List ℕ → ℕ → ℕ → Outcome (List ℕ)
shell_icon font pixels x y = do
  pixels ← rect pixels x (y + 2) 26 20 muted
  pixels ← rect pixels (x + 2) (y + 4) 22 16 ink
  text font pixels (x + 4) (y + 8) (codes ">") white ink

unfoldable pub icon : List ℕ → List ℕ → ℕ → ℕ → ℕ → ℕ → Outcome (List ℕ)
icon font pixels x y index bg =
    if index == 0
    then calc_icon pixels x y
    else if index == 1
    then editor_icon pixels x y bg
    else if index == 2
    then ape_icon font pixels x y
    else shell_icon font pixels x y

abbrev pub snake_icon : List ℕ → ℕ → ℕ → Outcome (List ℕ)
snake_icon pixels x y = do
  pixels ← rect pixels (x + 12) (y + 10) 22 7 mint
  pixels ← rect pixels (x + 27) (y + 10) 7 20 mint
  pixels ← rect pixels (x + 12) (y + 23) 20 7 mint
  pixels ← rect pixels (x + 14) (y + 12) 2 2 ink
  rect pixels (x + 42) (y + 11) 7 7 gold

abbrev pub history_icon : List ℕ → ℕ → ℕ → Outcome (List ℕ)
history_icon pixels x y = do
  pixels ← rect pixels (x + 12) (y + 7) 22 24 gold
  pixels ← rect pixels (x + 17) (y + 12) 12 2 ink
  pixels ← rect pixels (x + 17) (y + 18) 12 2 ink
  rect pixels (x + 17) (y + 24) 8 2 ink

unfoldable pub labels : List (List ℕ)
labels =
    codes "Calc"
    ∷ codes "Editor"
    ∷ codes "Apelang"
    ∷ codes "Shell"
    ∷ codes "Snake"
    ∷ codes "History"
    ∷ []

unfoldable pub programs : List (List ℕ)
programs =
    codes "calc.ape"
    ∷ codes "edit.ape"
    ∷ codes "REPL"
    ∷ codes "Built-in"
    ∷ codes "snake.ape"
    ∷ codes "history.ape"
    ∷ []

abbrev pub entry_icon : List ℕ → List ℕ → ℕ → ℕ → ℕ → ℕ → Outcome (List ℕ)
entry_icon font pixels x y i bg =
    if i == 4
    then snake_icon pixels x y
    else if i == 5
    then history_icon pixels x y
    else icon font pixels (x + 10) (y + 6) i bg

-- One of the six entries.
unfoldable pub desktop_entry : List ℕ → List ℕ → ℕ → ℕ → Outcome (List ℕ)
desktop_entry font pixels selected i =
    let x = 14 + i % 3 * 100 in
    let y = 45 + i / 3 * 64 in
    let bg = if i == selected then highlight else card in
    (do
      pixels ← rect pixels x y 92 62 bg
      pixels ← rect pixels x y 3 62 (if i == selected then mint else card)
      pixels ← entry_icon font pixels x y i bg
      pixels ← text font pixels (x + 8) (y + 35) (get_or labels i []) white bg
      pixels ←
          text font pixels (x + (if i == 5 then 3 else 8)) (y + 49) (get_or programs i [])
            (if i == selected then mint else muted) bg
      glyph font pixels (x + 77) (y + 6) (b'1' + i) muted bg)

-- The entries from the last `left` of six on.
unfoldable pub desktop_entries : List ℕ → List ℕ → ℕ → ℕ → Outcome (List ℕ)
desktop_entries font pixels selected zero = done pixels
desktop_entries font pixels selected (suc left) = do
  pixels' ← desktop_entry font pixels selected (5 - left)
  desktop_entries font pixels' selected left

unfoldable pub desktop : List ℕ → List ℕ → ℕ → Outcome (List ℕ)
desktop font pixels selected = do
  pixels ← rect pixels 0 0 320 200 navy
  pixels ← rect pixels 0 0 320 25 panel
  pixels ← rect pixels 10 8 7 7 mint
  pixels ← text font pixels 25 8 (codes "jordyOS") white panel
  pixels ← text font pixels 218 8 (codes "Research OS") muted panel
  pixels ← desktop_entries font pixels selected 6
  pixels ← rect pixels 0 180 320 20 panel
  text font pixels 8 186 (codes "Tab / arrows: select   Enter: open") muted panel

-- What a key does: it ends the choice, moves it, or is passed over.
pub data Choice : Type 0 where
  chosen moved : ℕ → Choice
  passed : Choice

unfoldable pub choose : ℕ → ℕ → Choice
choose selected c =
    if leb b'1' c && leb c b'6'
    then chosen (c - b'1')
    else if c == 10
    then chosen selected
    else if c == 27
    then chosen 3
    else if (c == 9) || (c == 0x12)
    then moved ((selected + 1) % 6)
    else if c == 0x11
    then moved ((selected + 5) % 6)
    else if (c == 0x13) || (c == 0x14)
    then moved (if ltb selected 3 then selected + 3 else selected - 3)
    else passed

-- The choice, the screen and the keys that are left; `none` is a wait for more keys.
abbrev pub Chosen : Type 0
Chosen = Option (ℕ × List ℕ × List ℕ)

unfoldable pub choice_loop : List ℕ → List ℕ → ℕ → List ℕ → Outcome Chosen
choice_loop font pixels selected [] = done none
choice_loop font pixels selected (c ∷ keys) =
    let drawn =
      λ (next : ℕ). (do pixels' ← desktop font pixels next; choice_loop font pixels' next keys) in
    let same = choice_loop font pixels selected keys in
    elim (choose selected c) [
      | chosen i ↦ done (some (i, pixels, keys))
      | moved next ↦ drawn next
      | passed ↦ same
    ]

-- `sys_write` between the two drawings paints the console, which the second one covers.
unfoldable pub gui_desktop : List ℕ → List ℕ → List ℕ → Outcome Chosen
gui_desktop font pixels keys = do
  pixels ← desktop font pixels 0
  pixels ← desktop font pixels 0
  choice_loop font pixels 0 keys
