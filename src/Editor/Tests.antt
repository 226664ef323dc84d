-- ===== src/Editor/Tests.antt =====
-- Examples for the editor of app_edit.c: a short session, and the text that its keys make.
use os_research_lab.Base.{
  ℕ, Option, List, [], ◌∷◌, some, none, true, replicate, length, codes, ◌≡◌, ◌⊎◌, refl, arith,
}
use os_research_lab.Base.Fault.{Outcome, done, Returns}
use os_research_lab.Fs.{fs_init, fs_find_empty_slot, str_eq}
use os_research_lab.Fs.Invariant.{fs_init-IsFs}
use os_research_lab.Fs.View.{view}
use os_research_lab.Text.{read_line}
use os_research_lab.Editor.{Editor, zeroed, c_string, enter_text_edit_mode}
use os_research_lab.Editor.Commands.{Turn, save_command, open_command}
use os_research_lab.Editor.Session.{
  take_command, skip_blanks, take_argument, run_command, run_line, editor_round, editor_loop,
  app_edit,
}
use os_research_lab.Editor.Typing.{edit_of}
use os_research_lab.Editor.Mode.{IsEditor, EditsAs, text_of, enter_text_edit_mode_lem}
use os_research_lab.Editor.Saved.{HoldsFile, open_command-save_command}

zeroed-IsEditor : IsEditor zeroed
zeroed-IsEditor = record { room = refl; fits = omega arith; name_room = refl; name_ends = refl }

-- `a`, a new line, `b` erased, `c`, and the escape key.
abbrev typed_keys : List ℕ
typed_keys = 97 ∷ 10 ∷ 98 ∷ 8 ∷ 99 ∷ 27 ∷ 113 ∷ []

typed_text : edit_of [] typed_keys ≡ some (97 ∷ 10 ∷ 99 ∷ [], 113 ∷ [])
unfolding edit_of
typed_text = refl

-- A full buffer ends the text mode before a key is read, also an erasing one.
full_text :
    (text keys : List ℕ) (c : ℕ)
    → length text ≡ 511
    → edit_of text (c ∷ keys) ≡ some (text, c ∷ keys)
unfolding edit_of
full_text text keys c h = rw h refl

-- An editor that holds `hi` as the file `a`.
abbrev holds_hi : Editor
holds_hi = record {
  content = 104 ∷ 105 ∷ replicate 510 0;
  content_length = 2;
  filename = 97 ∷ replicate 31 0;
  is_open = true;
}

holds_hi-IsEditor : IsEditor holds_hi
holds_hi-IsEditor = record { room = refl; fits = omega arith; name_room = refl; name_ends = refl }

-- `quit` and the return key.
quit_keys : List ℕ
quit_keys = 113 ∷ 117 ∷ 105 ∷ 116 ∷ 10 ∷ []

-- What a session printed.
shown_of : Outcome (Option Turn) → List ℕ
shown_of (done (some t)) = t.shown
shown_of r = []

quit_session :
    shown_of (app_edit zeroed [] (replicate 64 0) quit_keys)
    ≡ codes
        "Editor v0.4 (In-Memory FS)\nCommands: list, new <fn>, open <fn>, edit, save [fn], delete <fn>, quit\nedit# quit\nExiting editor...\n"
unfolding shown_of codes str_eq read_line c_string take_command skip_blanks take_argument
    run_command run_line editor_round editor_loop app_edit quit_keys
quit_session = refl

enter_text_edit_mode_lem_example :
    EditsAs (edit_of (104 ∷ 105 ∷ []) typed_keys) (enter_text_edit_mode holds_hi typed_keys)
enter_text_edit_mode_lem_example = enter_text_edit_mode_lem holds_hi typed_keys holds_hi-IsEditor

open_command-save_command_example :
    (t : Turn) × (save_command holds_hi fs_init (98 ∷ []) [] ≡ done (some t))
    × ((t.files ≡ fs_init) × (view fs_init (98 ∷ []) ≡ none) × (fs_find_empty_slot fs_init ≡ none)
        ⊎ ((u : Turn) × (open_command zeroed t.files (98 ∷ []) [] ≡ done (some u))
            × HoldsFile (98 ∷ []) (text_of holds_hi) u.editor
            × (u.files ≡ t.files)))
open_command-save_command_example =
    open_command-save_command holds_hi zeroed fs_init 98 [] [] [] holds_hi-IsEditor zeroed-IsEditor
      fs_init-IsFs (omega arith) (omega arith)
