-- ===== src/Editor/Files.antt =====
-- jordyOS/app_edit.c: the laws of the commands of the editor on files.
use os_research_lab.Base.{
  ℕ, ◌-◌, ◌<◌, List, [], ◌∷◌, ◌++◌, Option, some, none, Bool, true, false, ◌&&◌, ltb, ◌!=◌, length,
  set, get_or, take, drop, replicate, length-set, length-append, length-take, length-drop,
  length-replicate, Bool-cases, codes, ◌≡◌, inl, inr, refl, ◌∙◌, arith,
}
use os_research_lab.Base.Fault.{done, ◌>>=◌, Returns, >>=-Returns, Each}
use os_research_lab.Fs.{File, Status, ok, failed, max_filename_len, sys_write_file, sys_delete_file}
use os_research_lab.Fs.Invariant.{IsFs, sys_write_file-IsFs, sys_delete_file_lem}
use os_research_lab.Fs.Laws.{read_of, sys_read_file_lem}
use os_research_lab.Fs.View.{view}
use os_research_lab.Text.{itoa}
use os_research_lab.Text.Copy.{IsText, memcpy_lem}
use os_research_lab.Editor.{
  Editor, edit_buffer_size, clear_file_buffer, clear_current_filename, c_string,
}
use os_research_lab.Editor.Mode.{IsEditor, c_string_total}
use os_research_lab.Editor.Valid.{
  IsTurn, GoesOn, name-GoesOn, printed-GoesOn, clear_file_buffer-IsEditor,
  clear_current_filename-IsEditor,
}
use os_research_lab.Editor.Commands.{
  Turn, set_filename, opened, open_result, open_command, save_result, save_as, save_command,
  holds_file, deleted, delete_result, delete_command,
}

-- A read gives at most the bytes that there is room for, and their number.
abbrev IsRead : Status × List ℕ → Type 0
IsRead (ok n, bytes) = (n ≡ length bytes) × (n < edit_buffer_size)
IsRead (failed code, bytes) = Unit {0}

read_of-IsRead : (c : Option (List ℕ)) → IsRead (read_of c (edit_buffer_size - 1))
read_of-IsRead none = tt
read_of-IsRead (some d) = elim (Bool-cases (ltb (edit_buffer_size - 1) (length d))) [
  | inl large ↦ rw large tt
  | inr fits ↦ rw fits (refl, ground arith)
]

-- The buffer after `bytes` were read into it, and a zero byte put behind them.
abbrev pub buffer_of : List ℕ → List ℕ
buffer_of bytes =
    set (take (length bytes) bytes ++ drop (length bytes) (replicate edit_buffer_size 0))
      (length bytes) 0

length-read :
    (bytes : List ℕ)
    → length bytes < edit_buffer_size
    → length (take (length bytes) bytes ++ drop (length bytes) (replicate edit_buffer_size 0))
      ≡ edit_buffer_size
length-read bytes h = omega (
  arith,
  length-append (take (length bytes) bytes) (drop (length bytes) (replicate edit_buffer_size 0)),
  length-take (length bytes) bytes,
  length-drop (length bytes) (replicate {A = ℕ} edit_buffer_size 0),
  length-replicate {A = ℕ} edit_buffer_size 0,
)

-- The turn that `open` makes of a file that it could read.
abbrev pub opened_turn : List File → List ℕ → List ℕ → List ℕ → List ℕ → Turn
opened_turn files keys bytes name printed = record {
  editor = record {
    content = buffer_of bytes;
    content_length = length bytes;
    filename = name;
    is_open = true;
  };
  files = files;
  shown =
      codes "File '"
      ++ printed
      ++ codes "' opened ("
      ++ itoa (length bytes)
      ++ codes " bytes).\nUse 'edit' to modify/view.\n";
  rest = keys;
  quit = false;
}

pub opened_lem :
    (e : Editor) (files : List File) (argument keys bytes : List ℕ)
    → length bytes < edit_buffer_size
    → opened e files argument keys (length bytes) bytes ≡ (
        set_filename e.filename argument >>= λ name.
        c_string name >>= λ printed. done (some (opened_turn files keys bytes name printed)))
opened_lem e files argument keys bytes h =
    let cleared = replicate {A = ℕ} edit_buffer_size 0 in
    let full = length-replicate {A = ℕ} edit_buffer_size 0 in
    let copy = memcpy_lem cleared bytes (length bytes) (omega arith) (omega (arith, full)) in
    let inside : ltb (length bytes)
          (length (take (length bytes) bytes ++ drop (length bytes) cleared))
        ≡ true =
      ground (arith, length-read bytes h) in
    rw copy (rw inside refl)

opened-GoesOn :
    (e : Editor) (files : List File) (argument keys bytes : List ℕ)
    → IsEditor e
    → IsFs files
    → IsText argument
    → length bytes < edit_buffer_size
    → GoesOn keys (opened e files argument keys (length bytes) bytes)
opened-GoesOn e files argument keys bytes v w text fits =
    rw (opened_lem e files argument keys bytes fits) (
      name-GoesOn e.filename argument keys _ v.name_room text λ name valid.
        printed-GoesOn name keys _ valid λ t. (
          record {
            room = length-set _ (length bytes) 0 ∙ length-read bytes fits;
            fits = fits;
            name_room = valid.0;
            name_ends = valid.1;
          },
          w,
          omega arith,
        ))

open_result-GoesOn :
    (e : Editor) (files : List File) (argument keys : List ℕ) (r : Status × List ℕ)
    → IsEditor e
    → IsFs files
    → IsText argument
    → IsRead r
    → GoesOn keys (open_result e files argument keys r)
open_result-GoesOn e files argument keys (ok n, bytes) v w text (size, fits) =
    rw size (opened-GoesOn e files argument keys bytes v w text (omega arith))
open_result-GoesOn e files argument keys (failed code, bytes) v w text h =
    >>=-Returns IsEditor (Each (IsTurn keys)) (clear_current_filename (clear_file_buffer e)) _
      (clear_current_filename-IsEditor (clear_file_buffer e) (clear_file_buffer-IsEditor e v))
      λ e' v'. (v', w, omega arith)

pub open_command-GoesOn :
    (e : Editor) (files : List File) (argument keys : List ℕ)
    → IsEditor e
    → IsFs files
    → IsText argument
    → GoesOn keys (open_command e files argument keys)
unfolding open_command
open_command-GoesOn e files [] keys v w text = (v, w, omega arith)
open_command-GoesOn e files (c ∷ argument) keys v w text =
    rw (sys_read_file_lem files (c ∷ argument) (edit_buffer_size - 1) w) (
      open_result-GoesOn e files (c ∷ argument) keys _ v w text
        (read_of-IsRead (view files (c ∷ argument))))

save_result-GoesOn :
    (e : Editor) (fn keys : List ℕ) (r : Status × List File)
    → IsEditor e
    → IsFs r.1
    → GoesOn keys (save_result e fn keys r)
save_result-GoesOn e fn keys (ok count, files) v w = (v, w, omega arith)
save_result-GoesOn e fn keys (failed code, files) v w = (v, w, omega arith)

pub save_as-GoesOn :
    (e : Editor) (files : List File) (fn keys : List ℕ)
    → IsEditor e
    → IsFs files
    → GoesOn keys (save_as e files fn keys)
unfolding save_as
save_as-GoesOn e files fn keys v w =
    let inside : ltb e.content_length (length e.content) ≡ true = ground (arith, v.room, v.fits) in
    let content = set e.content e.content_length 0 in
    rw inside (
      save_result-GoesOn (record e { content = content }) fn keys
        (sys_write_file files (some fn) (some (take e.content_length content)))
        (record {
          room = length-set e.content e.content_length 0 ∙ v.room;
          fits = v.fits;
          name_room = v.name_room;
          name_ends = v.name_ends;
        })
        (sys_write_file-IsFs files (some fn) (some (take e.content_length content)) w))

pub save_command-GoesOn :
    (e : Editor) (files : List File) (argument keys : List ℕ)
    → IsEditor e
    → IsFs files
    → IsText argument
    → GoesOn keys (save_command e files argument keys)
unfolding save_command
save_command-GoesOn e files [] keys v w text =
    elim (Bool-cases (e.is_open && (get_or e.filename 0 0 != 0))) [
      | inl has ↦ rw has (
          printed-GoesOn e.filename keys _ (v.name_room, v.name_ends)
            λ t. save_as-GoesOn e files t keys v w)
      | inr lacks ↦ rw lacks (v, w, omega arith)
    ]
save_command-GoesOn e files (c ∷ argument) keys v w text =
    name-GoesOn e.filename (c ∷ argument) keys _ v.name_room text λ name valid.
      save_as-GoesOn (record e { filename = name; is_open = true }) files (c ∷ argument) keys
        (record { room = v.room; fits = v.fits; name_room = valid.0; name_ends = valid.1 }) w

holds_file-Returns :
    (e : Editor) (argument : List ℕ) → IsEditor e → Returns (λ b. Unit {0}) (holds_file e argument)
holds_file-Returns e argument v = elim (Bool-cases e.is_open) [
  | inl opens ↦
      let (t, s) = c_string_total e.filename (max_filename_len - 1) v.name_ends in rw (opens, s) tt
  | inr shut ↦ rw shut tt
]

deleted-IsEditor : (e : Editor) (b : Bool) → IsEditor e → Returns IsEditor (deleted e b)
deleted-IsEditor e true v =
    clear_current_filename-IsEditor (clear_file_buffer e) (clear_file_buffer-IsEditor e v)
deleted-IsEditor e false v = v

delete_result-GoesOn :
    (e : Editor) (argument keys : List ℕ) (r : Status × List File)
    → IsEditor e
    → IsFs r.1
    → GoesOn keys (delete_result e argument keys r)
delete_result-GoesOn e argument keys (ok count, files) v w =
    >>=-Returns (λ b. Unit {0}) (Each (IsTurn keys)) (holds_file e argument) _
      (holds_file-Returns e argument v)
      λ b h.
        >>=-Returns IsEditor (Each (IsTurn keys)) (deleted e b) _ (deleted-IsEditor e b v)
          λ e' v'. (v', w, omega arith)
delete_result-GoesOn e argument keys (failed code, files) v w = (v, w, omega arith)

delete-IsFs :
    (files : List File) (fn : List ℕ) → IsFs files → IsFs (sys_delete_file files (some fn)).1
delete-IsFs files fn w = elim (sys_delete_file_lem files fn w) [
  | inl (missing, e) ↦ rw e w
  | inr (after, e, shows, w') ↦ rw e w'
]

pub delete_command-GoesOn :
    (e : Editor) (files : List File) (argument keys : List ℕ)
    → IsEditor e
    → IsFs files
    → GoesOn keys (delete_command e files argument keys)
unfolding delete_command
delete_command-GoesOn e files [] keys v w = (v, w, omega arith)
delete_command-GoesOn e files (c ∷ argument) keys v w =
    delete_result-GoesOn e (c ∷ argument) keys _ v (delete-IsFs files (c ∷ argument) w)
