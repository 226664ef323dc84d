-- ===== src/Editor/Session.antt =====
-- jordyOS/app_edit.c: the command lines of `app_edit` and its loop. A line is cut into a command and an
-- argument, C strings that are given without their zero byte.
use os_research_lab.Base.{
  ℕ, zero, suc, ◌+◌, ◌-◌, List, [], ◌∷◌, ◌++◌, Option, some, none, true, ◌||◌, ◌==◌, length, codes,
  if◌then◌else◌,
}
use os_research_lab.Base.Fault.{Outcome, fault, reject, done, ◌>>=◌}
use os_research_lab.Fs.{File, str_eq}
use os_research_lab.Text.{Typed, read_line}
use os_research_lab.Editor.{Editor, clear_file_buffer, clear_current_filename, c_string}
use os_research_lab.Editor.Commands.{
  Turn, say, list_command, new_command, open_command, edit_command, save_command, delete_command,
}

abbrev pub command_buffer_size : ℕ
command_buffer_size = 64

-- The bytes before a space or the end, at most `room` of them, and the line behind them.
unfoldable pub take_command : ℕ → List ℕ → Outcome (List ℕ × List ℕ)
take_command room [] = fault
take_command zero (c ∷ line) = done ([], c ∷ line)
take_command (suc room) (c ∷ line) =
    let rest = take_command room line in
    if (c == 32) || (c == 0)
    then done ([], c ∷ line)
    else (do (w, line') ← rest; done (c ∷ w, line'))

unfoldable pub skip_blanks : List ℕ → Outcome (List ℕ)
skip_blanks [] = fault
skip_blanks (c ∷ line) = let rest = skip_blanks line in if c == 32 then rest else done (c ∷ line)

-- The bytes before the end, at most `room` of them.
unfoldable pub take_argument : ℕ → List ℕ → Outcome (List ℕ)
take_argument room [] = fault
take_argument zero (c ∷ line) = done []
take_argument (suc room) (c ∷ line) =
    let rest = take_argument room line in if c == 0 then done [] else (do w ← rest; done (c ∷ w))

unfoldable pub run_command : Editor → List File → List ℕ → List ℕ → List ℕ → Outcome (Option Turn)
run_command e files command argument keys =
    if str_eq command (codes "quit")
    then done (
        some (record {
          editor = e;
          files = files;
          shown = codes "Exiting editor...\n";
          rest = keys;
          quit = true;
        }))
    else if str_eq command (codes "list")
    then list_command e files keys
    else if str_eq command (codes "new")
    then new_command e files argument keys
    else if str_eq command (codes "open")
    then open_command e files argument keys
    else if str_eq command (codes "edit")
    then edit_command e files keys
    else if str_eq command (codes "save")
    then save_command e files argument keys
    else if str_eq command (codes "delete")
    then delete_command e files argument keys
    else if length command == 0
    then say e files keys []
    else say e files keys (codes "Unknown command: '" ++ command ++ codes "'.\n")

abbrev pub prompt : Editor → Outcome (List ℕ)
prompt e =
    if e.is_open
    then (do name ← c_string e.filename; done (codes "edit [" ++ name ++ codes "]# "))
    else done (codes "edit# ")

abbrev pub turn_shown : List ℕ → Outcome (Option Turn) → Outcome (Option Turn)
turn_shown shown fault = fault
turn_shown shown reject = reject
turn_shown shown (done none) = done none
turn_shown shown (done (some t)) = done (some (record t { shown = shown ++ t.shown }))

abbrev pub with_line : List ℕ → Option Turn → Option (List ℕ × Turn)
with_line line none = none
with_line line (some t) = some (line, t)

-- The command that was typed, with what `command_line` holds then.
unfoldable pub run_line :
    Editor → List File → List ℕ → Option Typed → Outcome (Option (List ℕ × Turn))
run_line e files shown none = done none
run_line e files shown (some t) = do
  (command, line) ← take_command (command_buffer_size - 1) t.buf
  line' ← skip_blanks line
  argument ← take_argument (command_buffer_size - 1) line'
  r ← turn_shown (shown ++ t.shown) (run_command e files command argument t.rest)
  done (with_line t.buf r)

-- One round of the loop of `app_edit`.
unfoldable pub editor_round :
    Editor → List File → List ℕ → List ℕ → Outcome (Option (List ℕ × Turn))
editor_round e files command_line keys = do
  shown ← prompt e
  typed ← read_line keys (some command_line) command_buffer_size
  run_line e files shown typed

-- The next round, unless the command was `quit`.
abbrev pub next_round :
    (Turn → List ℕ → Outcome (Option Turn)) → Option (List ℕ × Turn) → Outcome (Option Turn)
next_round loop none = done none
next_round loop (some (command_line, t)) =
    if t.quit then done (some t) else turn_shown t.shown (loop t command_line)

-- The loop; every round reads a key at least, and `reject` is a loop that ran out of rounds.
unfoldable pub editor_loop : ℕ → Editor → List File → List ℕ → List ℕ → Outcome (Option Turn)
editor_loop zero e files command_line keys = reject
editor_loop (suc rounds) e files command_line keys =
    editor_round e files command_line keys
    >>= next_round (λ t line. editor_loop rounds t.editor t.files line t.rest)

unfoldable pub app_edit : Editor → List File → List ℕ → List ℕ → Outcome (Option Turn)
app_edit before files command_line keys = do
  e ← clear_current_filename (clear_file_buffer before)
  turn_shown
      (codes "Editor v0.4 (In-Memory FS)\n"
        ++ codes "Commands: list, new <fn>, open <fn>, edit, save [fn], delete <fn>, quit\n")
      (editor_loop (length keys + 1) e files command_line keys)
