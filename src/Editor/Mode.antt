-- ===== src/Editor/Mode.antt =====
-- jordyOS/app_edit.c: the laws of `enter_text_edit_mode`.
use os_research_lab.Base.{
  ℕ, zero, suc, ◌+◌, ◌-◌, ◌<◌, List, [], ◌∷◌, ◌++◌, Option, some, none, Bool, true, false, ltb,
  ◌==◌, length, set, get_or, take, length-set, length-take, get_or-set_self, Bool-cases, ◌≡◌, inl,
  inr, refl, ap, ◌∙◌, arith, codes, if◌then◌else◌,
}
use os_research_lab.Base.Fault.{Outcome, done, ◌>>=◌}
use os_research_lab.Fs.{max_filename_len}
use os_research_lab.Text.Line.{take-set}
use os_research_lab.Editor.{
  edit_buffer_size, Editor, Edited, c_string, after_loop, line_start_col, enter_text_edit_mode,
}
use os_research_lab.Editor.Column.{column, line_start_col_lem}
use os_research_lab.Editor.Typing.{edit_of, LoopsAs, Holds, edit_loop_lem}

-- What the commands of the editor keep: both buffers have their size and the content leaves room for
-- a zero byte, as the name does with its last byte.
pub record IsEditor (e : Editor) : Type 0 where
  pub room : length e.content ≡ edit_buffer_size
  pub fits : e.content_length < edit_buffer_size
  pub name_room : length e.filename ≡ max_filename_len
  pub name_ends : get_or e.filename (max_filename_len - 1) 1 ≡ 0

-- The text that the editor holds.
abbrev pub text_of : Editor → List ℕ
text_of e = take e.content_length e.content

-- An outcome gives that text, ended by a zero byte, and its column.
abbrev pub EditsAs : Option (List ℕ × List ℕ) → Outcome (Option Edited) → Type 0
EditsAs none o = o ≡ done none
EditsAs (some (text, rest)) o =
    (r : Edited) × (o ≡ done (some r))
    × (take (length text + 1) r.content ≡ text ++ 0 ∷ [])
    × (r.content_length ≡ length text)
    × (length r.content ≡ edit_buffer_size)
    × (r.col ≡ column text)
    × (r.rest ≡ rest)
    × (length text < edit_buffer_size)

-- An array with a zero byte holds a string.
pub c_string_total : (s : List ℕ) (k : ℕ) → get_or s k 1 ≡ 0 → (t : List ℕ) × (c_string s ≡ done t)
unfolding c_string
c_string_total [] k h = absurd (omega arith)
c_string_total (c ∷ s) zero h = ([], rw h refl)
c_string_total (c ∷ s) (suc k) h = elim (Bool-cases (c == 0)) [
  | inl ends ↦ ([], rw ends refl)
  | inr goes ↦ let (t, e) = c_string_total s k h in (c ∷ t, rw (goes, e) refl)
]

shown_text :
    (b : Bool) (s : List ℕ) (k : ℕ)
    → get_or s k 1 ≡ 0
    → (t : List ℕ) × ((if b then c_string s else done []) ≡ done t)
shown_text true s k h = c_string_total s k h
shown_text false s k h = ([], refl)

leave_edit_mode_lem :
    (before : List ℕ) (l : Option (List ℕ × List ℕ)) (o : Outcome (Option Edited))
    → LoopsAs l o
    → EditsAs l (o >>= after_loop before)
leave_edit_mode_lem before none o e = rw e refl
leave_edit_mode_lem before (some (text, rest)) o (r, e, holds, size, room, col, left, fits) =
    let inside : ltb r.content_length (length r.content) ≡ true = ground arith in
    let ends : take (length text + 1) (set r.content r.content_length 0) ≡ text ++ 0 ∷ [] =
      rw size (take-set r.content (length text) 0 (omega arith) ∙ ap (λ t. t ++ 0 ∷ []) holds) in
    rw (e, inside)
      (_, refl, ends, size, length-set r.content r.content_length 0 ∙ room, col, left, fits)

pub length-text_of : {e : Editor} → IsEditor e → length (text_of e) ≡ e.content_length
length-text_of {e} v = omega (arith, length-take e.content_length e.content, v.room, v.fits)

pub take-set_self : (xs : List ℕ) (n v : ℕ) → take n (set xs n v) ≡ take n xs
take-set_self xs zero v = refl
take-set_self [] (suc n) v = refl
take-set_self (x ∷ xs) (suc n) v = ap (λ l. x ∷ l) (take-set_self xs n v)

-- The text mode on a valid editor never leaves the buffer, whatever the keys: it waits while neither
-- the escape key nor a full buffer ends it, and else leaves in the buffer of 512 bytes the text
-- typed and corrected, ended by a zero byte, with the column behind its last new line.
pub enter_text_edit_mode_lem :
    (e : Editor) (keys : List ℕ)
    → IsEditor e
    → EditsAs (edit_of (text_of e) keys) (enter_text_edit_mode e keys)
unfolding enter_text_edit_mode
enter_text_edit_mode_lem e keys v =
    let n = e.content_length in
    let content = set e.content n 0 in
    let inside : ltb n (length e.content) ≡ true = ground (arith, v.room, v.fits) in
    let room : length content ≡ edit_buffer_size = length-set e.content n 0 ∙ v.room in
    let size = length-text_of v in
    let same : take n content ≡ text_of e = take-set_self e.content n 0 in
    let holds : Holds content (text_of e) =
      (room, omega (arith, size, v.fits), ap (λ k. take k content) size ∙ same) in
    let (shown, printed) =
      shown_text (ltb 0 n) content n (get_or-set_self e.content n 0 1 (ground arith)) in
    let col : line_start_col content n ≡ done (column (text_of e)) =
      line_start_col_lem content n (omega (arith, room, v.fits)) ∙ ap (λ t. done (column t)) same in
    let step = edit_loop_lem keys content (text_of e) holds in
    rw inside (
      rw printed (
        rw col (
          leave_edit_mode_lem (codes "--- Text Edit Mode (Press ESC to finish) ---\n" ++ shown) _ _
            (rw size at step))))
