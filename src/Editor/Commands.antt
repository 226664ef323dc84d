-- ===== src/Editor/Commands.antt =====
-- jordyOS/app_edit.c: the commands of `app_edit`. The command and its argument are C strings, given
-- without their zero byte.
use os_research_lab.Base.{
  ℕ, ◌+◌, ◌-◌, ◌*◌, ◌^◌, List, [], ◌∷◌, ◌++◌, Option, some, none, Bool, true, false, not, ◌&&◌, ltb,
  ◌==◌, ◌!=◌, get_or, take, replicate, u32, codes, if◌then◌else◌,
}
use os_research_lab.Base.Fault.{Outcome, done, ◌>>=◌}
use os_research_lab.Fs.{
  File, Status, ok, failed, max_files, max_filename_len, str_eq, sys_list_files, sys_read_file,
  sys_write_file, sys_delete_file,
}
use os_research_lab.Text.{store, strncpy, memcpy, itoa}
use os_research_lab.Editor.{
  Editor, Edited, edit_buffer_size, clear_file_buffer, clear_current_filename, c_string,
  enter_text_edit_mode,
}

-- The editor and the files after a command, what it printed, the keys behind it, and whether it was
-- `quit`.
pub record Turn : Type 0 where
  pub editor : Editor
  pub files : List File
  pub shown : List ℕ
  pub rest : List ℕ
  pub quit : Bool

abbrev pub say : Editor → List File → List ℕ → List ℕ → Outcome (Option Turn)
say e files keys shown =
    done (some (record { editor = e; files = files; shown = shown; rest = keys; quit = false }))

-- `strncpy(current_filename, argument, MAX_FILENAME_LEN - 1)` and the zero byte behind it.
unfoldable pub set_filename : List ℕ → List ℕ → Outcome (List ℕ)
set_filename name argument = do
  name' ← strncpy name (argument ++ 0 ∷ []) (max_filename_len - 1)
  store name' (max_filename_len - 1) 0

abbrev pub list_buffer_size : ℕ
list_buffer_size = max_files * max_filename_len + max_files

abbrev pub list_shown : ℕ → List ℕ → Outcome (List ℕ)
list_shown bytes text =
    if ltb 0 bytes
    then (do
      printed ← c_string (text ++ 0 ∷ [])
      done (
          codes "Files:\n"
          ++ printed
          ++ (if get_or text (bytes - 1) 0 != 10 then codes "\n" else [])))
    else done (codes "No files found.\n")

abbrev pub listed : Status × List ℕ → Outcome (List ℕ)
listed (ok bytes, text) = list_shown bytes text
listed (failed code, text) = done (codes "Error listing files.\n")

unfoldable pub list_command : Editor → List File → List ℕ → Outcome (Option Turn)
list_command e files keys = do
  shown ← listed (sys_list_files files (list_buffer_size - 1))
  say e files keys shown

unfoldable pub new_command : Editor → List File → List ℕ → List ℕ → Outcome (Option Turn)
new_command e files [] keys = say e files keys (codes "Usage: new <filename>\n")
new_command e files (c ∷ argument) keys = do
  name ← set_filename e.filename (c ∷ argument)
  printed ← c_string name
  say (record (clear_file_buffer e) { filename = name; is_open = true }) files keys
      (codes "New file '" ++ printed ++ codes "' in buffer. Use 'edit', then 'save'.\n")

-- A file of `n` bytes was read into the cleared buffer.
abbrev pub opened : Editor → List File → List ℕ → List ℕ → ℕ → List ℕ → Outcome (Option Turn)
opened e files argument keys n bytes = do
  read ← memcpy (replicate edit_buffer_size 0) bytes n
  content ← store read n 0
  name ← set_filename e.filename argument
  printed ← c_string name
  say (record { content = content; content_length = n; filename = name; is_open = true }) files keys
      (codes "File '"
        ++ printed
        ++ codes "' opened ("
        ++ itoa n
        ++ codes " bytes).\nUse 'edit' to modify/view.\n")

abbrev pub open_error : ℕ → List ℕ → List ℕ
open_error code argument =
    if code == 1
    then codes "Error: File '" ++ argument ++ codes "' not found.\n"
    else if code == 2
    then codes "Error: Buffer too small for '"
      ++ argument
      ++ codes "'. File exceeds editor capacity.\n"
    else codes "Error reading file.\n"

abbrev pub open_result :
    Editor → List File → List ℕ → List ℕ → Status × List ℕ → Outcome (Option Turn)
open_result e files argument keys (ok n, bytes) = opened e files argument keys n bytes
open_result e files argument keys (failed code, bytes) = do
  e' ← clear_current_filename (clear_file_buffer e)
  say e' files keys (open_error code argument)

unfoldable pub open_command : Editor → List File → List ℕ → List ℕ → Outcome (Option Turn)
open_command e files [] keys = say e files keys (codes "Usage: open <filename>\n")
open_command e files (c ∷ argument) keys =
    open_result e files (c ∷ argument) keys
      (sys_read_file files (some (c ∷ argument)) (edit_buffer_size - 1))

abbrev pub edited : Editor → List File → Option Edited → Outcome (Option Turn)
edited e files none = done none
edited e files (some r) =
    say (record e { content = r.content; content_length = r.content_length }) files r.rest r.shown

unfoldable pub edit_command : Editor → List File → List ℕ → Outcome (Option Turn)
edit_command e files keys =
    if not e.is_open && (get_or e.filename 0 0 == 0)
    then say e files keys (codes "No file. Use 'new <fn>' or 'open <fn>' first.\n")
    else (do r ← enter_text_edit_mode e keys; edited e files r)

abbrev pub save_result : Editor → List ℕ → List ℕ → Status × List File → Outcome (Option Turn)
save_result e fn keys (ok count, files) =
    say e files keys
      (codes "File '" ++ fn ++ codes "' saved (" ++ itoa e.content_length ++ codes " bytes).\n")
save_result e fn keys (failed code, files) = say e files keys (
    codes "Error saving file '"
    ++ fn
    ++ codes "'. Code: "
    ++ itoa (u32 (2 ^ 32 - code))
    ++ codes ".\n")

unfoldable pub save_as : Editor → List File → List ℕ → List ℕ → Outcome (Option Turn)
save_as e files fn keys = do
  content ← store e.content e.content_length 0
  save_result (record e { content = content }) fn keys
      (sys_write_file files (some fn) (some (take e.content_length content)))

unfoldable pub save_command : Editor → List File → List ℕ → List ℕ → Outcome (Option Turn)
save_command e files [] keys =
    if e.is_open && (get_or e.filename 0 0 != 0)
    then (do fn ← c_string e.filename; save_as e files fn keys)
    else say e files keys (
        codes
          "Usage: save <filename> (or open/new a file first to save without filename argument)\n")
save_command e files (c ∷ argument) keys = do
  name ← set_filename e.filename (c ∷ argument)
  save_as (record e { filename = name; is_open = true }) files (c ∷ argument) keys

-- `file_is_open && strcmp(current_filename, argument) == 0`
abbrev pub holds_file : Editor → List ℕ → Outcome Bool
holds_file e argument =
    if e.is_open then (do name ← c_string e.filename; done (str_eq name argument)) else done false

abbrev pub deleted : Editor → Bool → Outcome Editor
deleted e true = clear_current_filename (clear_file_buffer e)
deleted e false = done e

abbrev pub delete_result : Editor → List ℕ → List ℕ → Status × List File → Outcome (Option Turn)
delete_result e argument keys (ok count, files) = do
  closes ← holds_file e argument
  e' ← deleted e closes
  say e' files keys (codes "File '" ++ argument ++ codes "' deleted.\n")
delete_result e argument keys (failed code, files) =
    say e files keys (codes "Error deleting '" ++ argument ++ codes "'. Not found?\n")

unfoldable pub delete_command : Editor → List File → List ℕ → List ℕ → Outcome (Option Turn)
delete_command e files [] keys = say e files keys (codes "Usage: delete <filename>\n")
delete_command e files (c ∷ argument) keys =
    delete_result e (c ∷ argument) keys (sys_delete_file files (some (c ∷ argument)))
