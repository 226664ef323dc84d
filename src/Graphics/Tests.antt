-- ===== src/Graphics/Tests.antt =====
-- Examples for the drawing of gui.c: a rectangle that starts left of the screen, and a character.
use os_research_lab.Base.{
  ℕ, ◌||◌, ◌⊎◌, ltb, u32, true, ◌-◌, ◌^◌, List, [], ◌∷◌, replicate, length-replicate, ◌≡◌, refl,
  arith,
}
use os_research_lab.Base.Fault.{done, reject, Returns}
use os_research_lab.Isolation.{Kernel, paint, outside, asked, sys_paint}
use os_research_lab.Graphics.Called.{sys_paint-gui_paint}
use os_research_lab.Graphics.{fill_row, rect, gui_paint}
use os_research_lab.Graphics.Painted.{screen_size, Painted, gui_paint_lem}
use os_research_lab.Graphics.Console.{Terminal, gui_putc}
use os_research_lab.Graphics.Printed.{GridPage, printed, page_of, gui_putc_lem}
use os_research_lab.Graphics.Desktop.{moved, choose}

blank_screen : List ℕ
blank_screen = replicate screen_size 0

blank_font : List ℕ
blank_font = replicate 1024 0

-- Ten pixels wide, from three pixels left of the screen on.
off_the_left :
    Returns
      (Painted blank_screen (2 ^ 32 - 3) 5 10 2 7 6 6)
      (gui_paint blank_screen (2 ^ 32 - 3) 5 10 2 7)
unfolding blank_screen
off_the_left =
    gui_paint_lem blank_screen (2 ^ 32 - 3) 5 10 2 7 6 6 (length-replicate {A = ℕ} screen_size 0)
      (omega arith) (omega arith) (omega arith) (omega arith) (omega arith) (omega arith)

abbrev process : Kernel
process = record { files = []; memory = λ x. 0; keys = []; calls = []; pid = 1; rejected = 0 }

-- The same rectangle, asked for by a process.
sys_paint-gui_paint_example :
    ((sys_paint process (2 ^ 64 - 3) 5 10 2 7 ≡ reject)
      × ((outside (2 ^ 64 - 3) 320 || outside 5 200 || ltb 640 10 || ltb 400 2 || ltb 9 7) ≡ true))
    ⊎ ((sys_paint process (2 ^ 64 - 3) 5 10 2 7 ≡ asked process (paint (2 ^ 64 - 3) 5 10 2 7))
        × Returns
            (Painted blank_screen (u32 (2 ^ 64 - 3)) (u32 5) (u32 10) (u32 2) (u32 7) 6 6)
            (gui_paint blank_screen (u32 (2 ^ 64 - 3)) (u32 5) (u32 10) (u32 2) (u32 7)))
unfolding blank_screen
sys_paint-gui_paint_example =
    sys_paint-gui_paint process blank_screen (2 ^ 64 - 3) 5 10 2 7 6 6
      (length-replicate {A = ℕ} screen_size 0) (omega arith) (omega arith) (omega arith)
      (omega arith)

corner : rect (1 ∷ 1 ∷ 1 ∷ []) 1 0 2 1 5 ≡ done (1 ∷ 5 ∷ 5 ∷ [])
unfolding rect fill_row
corner = refl

-- The last place of the grid.
abbrev last_place : Terminal
last_place = record { pixels = blank_screen; row = 19; column = 37; title = [] }

gui_putc_lem_example :
    Returns
      (GridPage (printed blank_font 65 (page_of last_place)))
      (gui_putc blank_font last_place 65)
unfolding blank_screen blank_font
gui_putc_lem_example =
    gui_putc_lem blank_font last_place 65 (length-replicate {A = ℕ} 1024 0)
      (length-replicate {A = ℕ} screen_size 0, omega arith, omega arith)

-- The key to the left of the first entry.
wraps_around : choose 0 0x11 ≡ moved 5
unfolding choose
wraps_around = refl
