-- ===== src/Editor/Saved.antt =====
-- jordyOS/app_edit.c with the files of kernel.c: `save` and `open`.
use os_research_lab.Base.{
  ℕ, zero, suc, ◌-◌, ◌≤◌, ◌<◌, List, [], ◌∷◌, ◌++◌, some, none, true, false, ltb, ◌==◌, length, set,
  take, drop, replicate, length-drop, ◌≡◌, ◌⊎◌, inl, inr, refl, ap, ◌∙◌, arith,
}
use os_research_lab.Base.Fault.{done}
use os_research_lab.Fs.{
  File, Status, ok, failed, max_filename_len, fs_find_empty_slot, sys_write_file,
}
use os_research_lab.Fs.Invariant.{IsFs, sys_write_file-IsFs}
use os_research_lab.Fs.Laws.{Written, name_ok, sys_read_file_lem, sys_write_file_lem}
use os_research_lab.Fs.View.{view, str_eq_refl, take-append, take-all}
use os_research_lab.Text.Copy.{IsText, padded}
use os_research_lab.Editor.{Editor, edit_buffer_size, c_string}
use os_research_lab.Editor.Mode.{IsEditor, text_of, length-text_of, take-set_self}
use os_research_lab.Editor.Commands.{Turn, save_result, save_as, save_command, open_command}
use os_research_lab.Editor.Valid.{named, set_filename_lem}
use os_research_lab.Editor.Files.{buffer_of, opened_turn, opened_lem}

c_string-padded :
    (n : ℕ) (s rest : List ℕ)
    → IsText s
    → length s ≤ n
    → 0 < length rest
    → c_string (set (padded n s ++ rest) n 0) ≡ done s
unfolding c_string
c_string-padded zero [] [] text fits more = absurd (omega arith)
c_string-padded zero [] (c ∷ rest) text fits more = refl
c_string-padded zero (c ∷ s) rest text fits more = absurd (omega arith)
c_string-padded (suc n) [] rest text fits more = refl
c_string-padded (suc n) (c ∷ s) rest text fits more =
    let e : c == 0 ≡ false = ground (arith, text.0) in
    rw (e, c_string-padded n s rest text.1 (omega arith) more) refl

-- A name that fits is what the array holds after it was copied there.
c_string-named :
    (name s : List ℕ)
    → length name ≡ max_filename_len
    → IsText s
    → length s < max_filename_len
    → c_string (named name s) ≡ done s
c_string-named name s room text fits =
    c_string-padded (max_filename_len - 1) s (drop (max_filename_len - 1) name) text (omega arith)
      (omega (arith, length-drop (max_filename_len - 1) name, room))

refl_le : (n : ℕ) → n ≤ n
refl_le n = omega arith

take-buffer_of : (bytes : List ℕ) → take (length bytes) (buffer_of bytes) ≡ bytes
take-buffer_of bytes =
    let part = drop (length bytes) (replicate {A = ℕ} edit_buffer_size 0) in
    take-set_self (take (length bytes) bytes ++ part) (length bytes) 0
    ∙ (ap (λ t. take (length bytes) (t ++ part))
          (take-all bytes (length bytes) (refl_le (length bytes)))
        ∙ take-append bytes (drop (length bytes) (replicate edit_buffer_size 0)))

-- The editor holds that text, of a file of that name.
abbrev pub HoldsFile : List ℕ → List ℕ → Editor → Type 0
HoldsFile fn text e =
    (text_of e ≡ text)
    × (e.content_length ≡ length text)
    × (e.is_open ≡ true)
    × (c_string e.filename ≡ done fn)

-- Opening a file of fewer bytes than the buffer has.
open_command-view :
    (e : Editor) (files : List File) (c : ℕ) (fn text keys : List ℕ)
    → IsEditor e
    → IsFs files
    → IsText (c ∷ fn)
    → length (c ∷ fn) < max_filename_len
    → view files (c ∷ fn) ≡ some text
    → length text < edit_buffer_size
    → (u : Turn) × (open_command e files (c ∷ fn) keys ≡ done (some u))
      × HoldsFile (c ∷ fn) text u.editor
      × (u.files ≡ files)
unfolding open_command
open_command-view e files c fn text keys v w name short shows fits =
    let read = sys_read_file_lem files (c ∷ fn) (edit_buffer_size - 1) w in
    let large : ltb (edit_buffer_size - 1) (length text) ≡ false = ground arith in
    let copied = set_filename_lem e.filename (c ∷ fn) v.name_room name in
    let printed = c_string-named e.filename (c ∷ fn) v.name_room name short in
    (
      opened_turn files keys text (named e.filename (c ∷ fn)) (c ∷ fn),
      rw (read, shows)
          (rw large
            (rw (opened_lem e files (c ∷ fn) keys text fits) (rw copied (rw printed refl)))),
      (take-buffer_of text, refl, refl, printed),
      refl,
    )

-- A file of that name holds the text, or there is no such file and no slot is free.
abbrev pub SavedOrFull : List File → List ℕ → List ℕ → List File → Type 0
SavedOrFull files fn text after =
    (after ≡ files) × (view files fn ≡ none) × (fs_find_empty_slot files ≡ none)
    ⊎ (view after fn ≡ some text)

-- What `save` answers.
save_result_lem :
    (e : Editor) (files : List File) (fn text keys : List ℕ) (status : Status) (after : List File)
    → name_ok fn ≡ true
    → length text < edit_buffer_size
    → Written files fn text status after
    → (t : Turn) × (save_result e fn keys (status, after) ≡ done (some t))
      × (t.editor ≡ e)
      × (t.files ≡ after)
      × SavedOrFull files fn text t.files
save_result_lem e files fn text keys (ok count) after good fits (zero_count, named, small, shows) =
    (_, refl, refl, refl, inr (shows fn ∙ ground (arith, str_eq_refl fn)))
save_result_lem e files fn text keys (failed code) after good fits (same, why) = (
  _,
  refl,
  refl,
  refl,
  elim why [
    | inl (is_2, bad) ↦ absurd (ground arith)
    | inr (inl (is_3, named, large)) ↦ absurd (omega arith)
    | inr (inr (is_4, named, small, missing, full)) ↦ inl (same, missing, full)
  ],
)

save_command_lem :
    (e : Editor) (files : List File) (c : ℕ) (fn keys : List ℕ)
    → IsEditor e
    → IsText (c ∷ fn)
    → length (c ∷ fn) < max_filename_len
    → (t : Turn) × (save_command e files (c ∷ fn) keys ≡ done (some t))
      × (t.files ≡ (sys_write_file files (some (c ∷ fn)) (some (text_of e))).1)
      × SavedOrFull files (c ∷ fn) (text_of e) t.files
unfolding save_command save_as
save_command_lem e files c fn keys v name short =
    let content = set e.content e.content_length 0 in
    let inside : ltb e.content_length (length e.content) ≡ true = ground (arith, v.room, v.fits) in
    let good : name_ok (c ∷ fn) ≡ true = ground arith in
    let fits : length (text_of e) < edit_buffer_size = omega (arith, length-text_of v, v.fits) in
    let r = sys_write_file files (some (c ∷ fn)) (some (text_of e)) in
    let after : Editor = record e {
      content = content;
      filename = named e.filename (c ∷ fn);
      is_open = true;
    } in
    let (t, answers, same, kept, saved) =
      save_result_lem after files (c ∷ fn) (text_of e) keys r.0 r.1 good fits
        (sys_write_file_lem files (c ∷ fn) (text_of e)) in
    (
      t,
      rw (set_filename_lem e.filename (c ∷ fn) v.name_room name)
          (rw inside (rw (take-set_self e.content e.content_length 0) answers)),
      kept,
      saved,
    )

-- With a valid editor and well-formed files, `save` under a name of 1 to 31 bytes, none of them zero,
-- either finds no file of that name and no free slot, and leaves the files as they were; or the
-- file can be opened by any valid editor, which then holds the text and the name that were saved.
pub open_command-save_command :
    (e e' : Editor) (files : List File) (c : ℕ) (fn keys keys' : List ℕ)
    → IsEditor e
    → IsEditor e'
    → IsFs files
    → IsText (c ∷ fn)
    → length (c ∷ fn) < max_filename_len
    → (t : Turn) × (save_command e files (c ∷ fn) keys ≡ done (some t))
      × ((t.files ≡ files) × (view files (c ∷ fn) ≡ none) × (fs_find_empty_slot files ≡ none)
          ⊎ ((u : Turn) × (open_command e' t.files (c ∷ fn) keys' ≡ done (some u))
              × HoldsFile (c ∷ fn) (text_of e) u.editor
              × (u.files ≡ t.files)))
open_command-save_command e e' files c fn keys keys' v v' w name short =
    let (t, answers, kept, saved) = save_command_lem e files c fn keys v name short in
    let w' : IsFs t.files =
      rw kept (sys_write_file-IsFs files (some (c ∷ fn)) (some (text_of e)) w) in
    (
      t,
      answers,
      elim saved [
        | inl full ↦ inl full
        | inr shows ↦ inr (
            open_command-view e' t.files c fn (text_of e) keys' v' w' name short shows
              (omega (arith, length-text_of v, v.fits)))
      ],
    )
