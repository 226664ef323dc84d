-- ===== src/Editor/Safety.antt =====
-- jordyOS/app_edit.c: the laws of the commands of the editor.
use os_research_lab.Base.{
  ℕ, suc, ◌+◌, ◌-◌, ◌≤◌, ◌<◌, List, [], ◌∷◌, ◌++◌, Option, some, none, not, ◌&&◌, ◌||◌, ltb, leb,
  ◌==◌, length, get_or, take, Bool-cases, if-P, codes, inl, inr, arith,
}
use os_research_lab.Base.Fault.{Outcome, ◌>>=◌}
use os_research_lab.Fs.{File, str_eq}
use os_research_lab.Fs.Invariant.{IsFs}
use os_research_lab.Text.{is_erase, is_printable}
use os_research_lab.Text.Line.{line_of}
use os_research_lab.Text.Copy.{IsText}
use os_research_lab.Editor.{Editor, Edited, edit_buffer_size, enter_text_edit_mode}
use os_research_lab.Editor.Typing.{edit_of}
use os_research_lab.Editor.Mode.{IsEditor, EditsAs, text_of, enter_text_edit_mode_lem}
use os_research_lab.Editor.Commands.{edited, edit_command}
use os_research_lab.Editor.Session.{run_command}
use os_research_lab.Editor.Valid.{GoesOn, list_command-GoesOn, new_command-GoesOn}
use os_research_lab.Editor.Files.{open_command-GoesOn, save_command-GoesOn, delete_command-GoesOn}

-- Less than `n` keys are left.
abbrev pub Less : ℕ → Option (List ℕ × List ℕ) → Type 0
Less n none = Unit {0}
Less n (some (text, rest)) = length rest < n

Less-suc : (n : ℕ) (o : Option (List ℕ × List ℕ)) → Less n o → Less (suc n) o
Less-suc n none l = tt
Less-suc n (some (text, rest)) l = omega arith

edit_of-Less : (text keys : List ℕ) → Less (suc (length keys)) (edit_of text keys)
unfolding edit_of
edit_of-Less text [] = elim (Bool-cases (ltb (length text) (edit_buffer_size - 1))) [
  | inl small ↦ rw small tt
  | inr full ↦ rw full (omega arith)
]
edit_of-Less text (c ∷ keys) =
    let n = suc (length keys) in
    let rest = λ (text' : List ℕ). Less-suc n (edit_of text' keys) (edit_of-Less text' keys) in
    if-P (Less (suc n)) (leb (edit_buffer_size - 1) (length text)) {x = some (text, c ∷ keys)}
      (omega arith)
      (if-P (Less (suc n)) (c == 27) {x = some (text, keys)} (omega arith) (
        if-P (Less (suc n)) ((c == 10) || is_printable c) (rest (text ++ c ∷ []))
          (if-P (Less (suc n)) (is_erase c) (rest (take (length text - 1) text)) (rest text))))

pub line_of-Less : (max : ℕ) (line keys : List ℕ) → Less (length keys) (line_of max line keys)
unfolding line_of
line_of-Less max line [] = tt
line_of-Less max line (c ∷ keys) =
    let n = length keys in
    let rest =
      λ (line' : List ℕ). Less-suc n (line_of max line' keys) (line_of-Less max line' keys) in
    if-P (Less (suc n)) (c == 10) {x = some (line, keys)} (omega arith) (
      if-P (Less (suc n)) (is_erase c && ltb 0 (length line)) (rest (take (length line - 1) line)) (
        if-P (Less (suc n)) (is_printable c && ltb (length line + 1) max) (rest (line ++ c ∷ []))
          (rest line)))

edited-GoesOn :
    (e : Editor) (files : List File) (keys : List ℕ) (l : Option (List ℕ × List ℕ))
    (o : Outcome (Option Edited))
    → IsEditor e
    → IsFs files
    → Less (suc (length keys)) l
    → EditsAs l o
    → GoesOn keys (o >>= edited e files)
edited-GoesOn e files keys none o v w left h = rw h tt
edited-GoesOn e files keys (some (text, rest)) o v w left
      (r, h, ends, size, room, col, behind, fits) =
    rw h (
      record { room = room; fits = omega arith; name_room = v.name_room; name_ends = v.name_ends },
      w,
      rw behind (omega arith),
    )

edit_command-GoesOn :
    (e : Editor) (files : List File) (keys : List ℕ)
    → IsEditor e
    → IsFs files
    → GoesOn keys (edit_command e files keys)
unfolding edit_command
edit_command-GoesOn e files keys v w =
    if-P (GoesOn keys) (not e.is_open && (get_or e.filename 0 0 == 0)) (v, w, omega arith)
      (edited-GoesOn e files keys (edit_of (text_of e) keys) (enter_text_edit_mode e keys) v w
        (edit_of-Less (text_of e) keys) (enter_text_edit_mode_lem e keys v))

-- Every command returns.
pub run_command-GoesOn :
    (e : Editor) (files : List File) (command argument keys : List ℕ)
    → IsEditor e
    → IsFs files
    → IsText argument
    → GoesOn keys (run_command e files command argument keys)
unfolding run_command
run_command-GoesOn e files command argument keys v w text =
    let is = λ (name : List ℕ). str_eq command name in
    let stays : IsEditor e × IsFs files × (length keys ≤ length keys) = (v, w, omega arith) in
    if-P (GoesOn keys) (is (codes "quit")) stays (
      if-P (GoesOn keys) (is (codes "list")) (list_command-GoesOn e files keys v w) (
        if-P (GoesOn keys) (is (codes "new")) (new_command-GoesOn e files argument keys v w text) (
          if-P (GoesOn keys) (is (codes "open"))
            (open_command-GoesOn e files argument keys v w text)
            (if-P (GoesOn keys) (is (codes "edit")) (edit_command-GoesOn e files keys v w) (
              if-P (GoesOn keys) (is (codes "save"))
                (save_command-GoesOn e files argument keys v w text)
                (if-P (GoesOn keys) (is (codes "delete"))
                  (delete_command-GoesOn e files argument keys v w)
                  (if-P (GoesOn keys) (length command == 0) stays stays)))))))
