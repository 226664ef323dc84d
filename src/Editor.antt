-- ===== src/Editor.antt =====
-- jordyOS/app_edit.c: the editor, on the console of kernel.c and the files of the RAM file system. A
-- write or a read outside an array of the editor is a `fault`. The bytes that it prints are
-- collected; the keys are the bytes that the console gives, and `none` is a wait for more of them.
pub mod Commands
pub mod Session
pub mod Valid
pub mod Files
pub mod Safety
pub mod Returns
pub mod Saved
pub mod Column
pub mod Typing
pub mod Mode
mod Tests
use os_research_lab.Base.{
  ℕ, zero, suc, ◌+◌, ◌-◌, List, [], ◌∷◌, ◌++◌, Option, some, none, Bool, true, false, ◌&&◌, ◌||◌,
  ltb, leb, ◌==◌, get_elem?, replicate, codes, if◌then◌else◌,
}
use os_research_lab.Base.Fault.{Outcome, fault, reject, done, load, ◌>>=◌}
use os_research_lab.Fs.{max_filename_len}
use os_research_lab.Text.{store, is_erase, is_printable}

abbrev pub edit_buffer_size : ℕ
edit_buffer_size = 512

-- `file_content_buffer`, `current_content_length`, `current_filename` and `file_is_open`
pub record Editor : Type 0 where
  pub content : List ℕ
  pub content_length : ℕ
  pub filename : List ℕ
  pub is_open : Bool

-- The static variables before the first run.
abbrev pub zeroed : Editor
zeroed = record {
  content = replicate edit_buffer_size 0;
  content_length = 0;
  filename = replicate max_filename_len 0;
  is_open = false;
}

abbrev pub clear_file_buffer : Editor → Editor
clear_file_buffer e = record e { content = replicate edit_buffer_size 0; content_length = 0 }

abbrev pub clear_current_filename : Editor → Outcome Editor
clear_current_filename e = do
  name ← store e.filename 0 0
  done (record e { filename = name; is_open = false })

-- What `sys_write` prints of an array: the bytes before the first zero byte.
unfoldable pub c_string : List ℕ → Outcome (List ℕ)
c_string [] = fault
c_string (c ∷ s) = if c == 0 then done [] else (do t ← c_string s; done (c ∷ t))

-- `last_newline_idx + 1` after the loop from `k - 1` down to 0.
unfoldable pub last_newline : List ℕ → ℕ → Outcome ℕ
last_newline content zero = done 0
last_newline content (suc k) = do
  c ← load (get_elem? content k)
  if c == 10 then done (suc k) else last_newline content k

-- `line_start_col` of a content of that length.
unfoldable pub line_start_col : List ℕ → ℕ → Outcome ℕ
line_start_col content zero = done 0
line_start_col content (suc k) = do
  c ← load (get_elem? content k)
  if c == 10 then done 0 else (do n ← last_newline content (suc k); done (suc k - n))

-- What `enter_text_edit_mode` leaves: the content, what it printed, and the keys after it.
pub record Edited : Type 0 where
  pub content : List ℕ
  pub content_length : ℕ
  pub col : ℕ
  pub shown : List ℕ
  pub rest : List ℕ

abbrev pub with_shown : List ℕ → Outcome (Option Edited) → Outcome (Option Edited)
with_shown shown fault = fault
with_shown shown reject = reject
with_shown shown (done none) = done none
with_shown shown (done (some e)) = done (some (record e { shown = shown ++ e.shown }))

-- The column after an erased character, of the content that is left.
unfoldable pub erased_col : List ℕ → ℕ → ℕ → Outcome ℕ
erased_col content len col = if ltb 0 col then done (col - 1) else line_start_col content len

-- The loop of `enter_text_edit_mode`.
unfoldable pub edit_loop : List ℕ → List ℕ → ℕ → ℕ → Outcome (Option Edited)
edit_loop [] content len col =
    if ltb len (edit_buffer_size - 1)
    then done none
    else done (
        some (record { content = content; content_length = len; col = col; shown = []; rest = [] }))
edit_loop (c ∷ keys) content len col =
    let put = λ (shown : List ℕ) (col' : ℕ). (do
      content' ← store content len c
      with_shown shown (edit_loop keys content' (len + 1) col')) in
    let erased = (do
      col' ← erased_col content (len - 1) col
      with_shown (8 ∷ 32 ∷ 8 ∷ []) (edit_loop keys content (len - 1) col')) in
    let same = edit_loop keys content len col in
    if ltb len (edit_buffer_size - 1)
    then (if c == 27
        then done (
            some (record {
              content = content;
              content_length = len;
              col = col;
              shown = codes "\n--- Exiting Text Edit Mode ---\n";
              rest = keys;
            }))
        else if c == 10
        then put (10 ∷ []) 0
        else if is_erase c
        then (if ltb 0 len then erased else same)
        else if is_printable c
        then put (c ∷ []) (col + 1)
        else same)
    else done (
        some (record {
          content = content;
          content_length = len;
          col = col;
          shown = [];
          rest = c ∷ keys;
        }))

-- The end of `enter_text_edit_mode`.
abbrev pub leave_edit_mode : List ℕ → Edited → Outcome (Option Edited)
leave_edit_mode before e = do
  content ← store e.content e.content_length 0
  done (
      some (record e {
        content = content;
        shown =
            before
            ++ e.shown
            ++ (if leb (edit_buffer_size - 1) e.content_length
                then codes "Warning: Edit buffer is full. Some input may have been lost.\n"
                else []);
      }))

abbrev pub after_loop : List ℕ → Option Edited → Outcome (Option Edited)
after_loop before none = done none
after_loop before (some e) = leave_edit_mode before e

unfoldable pub enter_text_edit_mode : Editor → List ℕ → Outcome (Option Edited)
enter_text_edit_mode e keys = do
  content ← store e.content e.content_length 0
  text ← (if ltb 0 e.content_length then c_string content else done [])
  col ← line_start_col content e.content_length
  result ← edit_loop keys content e.content_length col
  after_loop (codes "--- Text Edit Mode (Press ESC to finish) ---\n" ++ text) result
