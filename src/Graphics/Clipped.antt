-- ===== src/Graphics/Clipped.antt =====
-- jordyOS/gui.c: the clipping of `gui_paint` on one axis.
use os_research_lab.Base.{
  ℕ, ◌+◌, ◌-◌, ◌*◌, ◌^◌, ◌≤◌, ◌<◌, Bool, true, false, ◌&&◌, leb, ltb, Bool-cases, u32, ◌≡◌, ◌⊎◌,
  inl, inr, refl, ap, arith, if◌then◌else◌,
}
use os_research_lab.Base.Fault.{done}
use os_research_lab.Calc.Answer.{raised, sum_fits, difference_fits, int_add_lem, int_sub_lem}
use os_research_lab.Text.{is_negative}
use os_research_lab.Graphics.{int_lt, clip_low, clip_high}

-- An int of at most 30 bits and a sign.
abbrev pub IsSmall : ℕ → Type 0
IsSmall n = (n < 2 ^ 32) × (2 ^ 30 ≤ raised n) × (raised n < 3 * 2 ^ 30)

-- `x <= a && a < x + w` of ints, for an `a` that is not negative.
abbrev pub shows : ℕ → ℕ → ℕ → Bool
shows x w a = leb (raised x) (a + 2 ^ 31) && ltb (a + 2 ^ 32) (raised x + raised w)

abbrev pub low_start : ℕ → ℕ
low_start x = if is_negative x then 0 else x

abbrev pub low_size : ℕ → ℕ → ℕ
low_size x w = if is_negative x then u32 (w + x) else w

clip_low_lem : (x w : ℕ) → IsSmall x → IsSmall w → clip_low x w ≡ done (low_start x, low_size x w)
clip_low_lem x w (h, k, l) (h', k', l') = elim (Bool-cases (is_negative x)) [
  | inr positive ↦ rw positive refl
  | inl negative ↦
      let fits : sum_fits w x ≡ true = ground arith in
      let sum = int_add_lem w x h' h in rw negative (rw sum (rw fits refl))
]

-- After the first step both lie in the range of an int and start on the screen.
low_lem :
    (x w limit : ℕ)
    → IsSmall x
    → IsSmall w
    → limit ≤ 320
    → int_lt x limit ≡ true
    → (low_start x < limit ⊎ (limit ≡ 0))
      × (low_size x w < 2 ^ 32)
      × (raised (low_start x) + raised (low_size x w) < 2 ^ 32 + 2 ^ 31)
      × (2 ^ 31 ≤ raised (low_start x) + raised (low_size x w))
low_lem x w limit (h, k, l) (h', k', l') small before = elim (Bool-cases (is_negative x)) [
  | inr positive ↦ rw positive (ground arith, omega arith, omega arith, omega arith)
  | inl negative ↦ rw negative (ground arith, omega arith, ground arith, ground arith)
]

abbrev pub high_size : ℕ → ℕ → ℕ → ℕ
high_size limit x w = if int_lt limit (u32 (x + w)) then limit - x else w

clip_high_lem :
    (limit x w : ℕ)
    → limit ≤ 320
    → x < limit
    → w < 2 ^ 32
    → raised x + raised w < 2 ^ 32 + 2 ^ 31
    → 2 ^ 31 ≤ raised x + raised w
    → clip_high limit x w ≡ done (high_size limit x w)
clip_high_lem limit x w small on h k l =
    let fits : sum_fits x w ≡ true = ground arith in
    let sum = int_add_lem x w (omega arith) h in
    let fits' : difference_fits limit x ≡ true = ground arith in
    let difference = int_sub_lem limit x (omega arith) (omega arith) in
    let rest : u32 (limit + 2 ^ 32 - x) ≡ limit - x = omega arith in
    rw sum (
      rw fits (elim (Bool-cases (int_lt limit (u32 (x + w)))) [
        | inr within ↦ rw within refl
        | inl beyond ↦ rw beyond (rw difference (rw fits' (ap done rest)))
      ]))

-- The clipped stretch lies on the screen, and shows the pixels of the whole that do.
abbrev pub ClipsAs : ℕ → ℕ → ℕ → ℕ → ℕ → Type 0
ClipsAs limit x w start size =
    (clip_low x w ≡ done (start, low_size x w))
    × (clip_high limit start (low_size x w) ≡ done size)
    × ((int_lt 0 size ≡ false) ⊎ (start + size ≤ limit))

within_lem :
    (limit x w : ℕ)
    → IsSmall x
    → IsSmall w
    → limit ≤ 320
    → int_lt x limit ≡ true
    → (int_lt 0 (high_size limit (low_start x) (low_size x w)) ≡ false)
      ⊎ (low_start x + high_size limit (low_start x) (low_size x w) ≤ limit)
within_lem limit x w (h, k, l) (h', k', l') small before =
    elim (Bool-cases (int_lt 0 (high_size limit (low_start x) (low_size x w)))) [
      | inr hidden ↦ inl hidden
      | inl some_size ↦ inr (elim (Bool-cases (is_negative x)) [
        | inr positive ↦ rw positive (ground (arith, rw positive at some_size))
        | inl negative ↦ rw negative (ground (arith, rw negative at some_size))
      ])
    ]

pub clip_lem :
    (limit x w : ℕ)
    → IsSmall x
    → IsSmall w
    → 0 < limit
    → limit ≤ 320
    → int_lt x limit ≡ true
    → ClipsAs limit x w (low_start x) (high_size limit (low_start x) (low_size x w))
clip_lem limit x w sx sw some_limit small before =
    let (on, h, k, l) = low_lem x w limit sx sw small before in
    (
      clip_low_lem x w sx sw,
      clip_high_lem limit (low_start x) (low_size x w) small (ground (arith, on)) h k l,
      within_lem limit x w sx sw small before,
    )

pub clip_shows :
    (limit x w a : ℕ)
    → IsSmall x
    → IsSmall w
    → limit ≤ 320
    → a < limit
    → int_lt x limit ≡ true
    → (int_lt 0 (high_size limit (low_start x) (low_size x w))
        && leb (low_start x) a
        && ltb a (low_start x + high_size limit (low_start x) (low_size x w)))
      ≡ shows x w a
clip_shows limit x w a (h, k, l) (h', k', l') small on before = elim (Bool-cases (is_negative x)) [
  | inr positive ↦ rw positive (ground arith)
  | inl negative ↦ rw negative (ground arith)
]
