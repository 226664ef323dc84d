-- ===== src/Graphics/Called.antt =====
-- The rectangles that the kernel of isolation.c lets a process paint, as gui.c is given them.
use os_research_lab.Base.{ℕ, ◌^◌, ◌≤◌, ◌<◌, true, false, ◌||◌, ◌≡◌, refl, arith, u32, ltb}
use os_research_lab.Base.{inl, inr, ◌⊎◌, Bool-cases, List, length}
use os_research_lab.Base.Fault.{reject, Returns}
use os_research_lab.Isolation.{Kernel, paint, outside, asked, sys_paint}
use os_research_lab.Graphics.{gui_paint}
use os_research_lab.Graphics.Painted.{Painted, screen_size, gui_paint_lem}
use os_research_lab.Graphics.Clipped.{IsSmall}

-- An argument that the kernel lets through stays small as an int.
outside-IsSmall : (n m : ℕ) → n < 2 ^ 64 → m ≤ 320 → outside n m ≡ false → IsSmall (u32 n)
outside-IsSmall n m h k e = ground arith

-- A process whose first two registers hold 64 bits each may ask for any rectangle. A call with a place
-- further than 320 or 200 from the origin, a width over 640, a height over 400 or a color over 9 is
-- refused; any other is handed on, and painting it, truncated to ints, on a whole screen writes
-- nothing outside the screen and sets exactly the pixels of the screen that lie in it.
pub sys_paint-gui_paint :
    (k : Kernel) (pixels : List ℕ) (x y w h color a b : ℕ)
    → length pixels ≡ screen_size
    → x < 2 ^ 64
    → y < 2 ^ 64
    → a < 320
    → b < 200
    → ((sys_paint k x y w h color ≡ reject)
        × ((outside x 320 || outside y 200 || ltb 640 w || ltb 400 h || ltb 9 color) ≡ true))
      ⊎ ((sys_paint k x y w h color ≡ asked k (paint x y w h color))
          × Returns
              (Painted pixels (u32 x) (u32 y) (u32 w) (u32 h) (u32 color) a b)
              (gui_paint pixels (u32 x) (u32 y) (u32 w) (u32 h) (u32 color)))
unfolding sys_paint
sys_paint-gui_paint k pixels x y w h color a b size fx fy low low' =
    elim (Bool-cases (outside x 320 || outside y 200 || ltb 640 w || ltb 400 h || ltb 9 color)) [
      | inl refused ↦ inl (rw refused refl, refused)
      | inr allowed ↦
          let ex : outside x 320 ≡ false = ground arith in
          let ey : outside y 200 ≡ false = ground arith in
          inr (
            rw allowed refl,
            gui_paint_lem pixels (u32 x) (u32 y) (u32 w) (u32 h) (u32 color) a b size
                (outside-IsSmall x 320 fx (omega arith) ex)
                (outside-IsSmall y 200 fy (omega arith) ey) (ground arith) (ground arith) low low',
          )
    ]
