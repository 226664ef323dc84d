-- ===== src/Editor/Valid.antt =====
-- jordyOS/app_edit.c: what makes an editor valid, and the commands that need no files.
use os_research_lab.Base.{
  ℕ, zero, suc, ◌-◌, ◌≤◌, List, [], ◌∷◌, ◌++◌, Option, true, ltb, length, set, get_or, drop,
  length-set, length-append, length-drop, length-replicate, get_or-set_self, get_or-set_ne,
  Bool-cases, ◌≡◌, inl, inr, refl, ap, ◌∙◌, arith,
}
use os_research_lab.Base.Fault.{Outcome, done, ◌>>=◌, Returns, >>=-Returns, Each}
use os_research_lab.Fs.{File, Status, ok, failed, max_filename_len, sys_list_files}
use os_research_lab.Fs.Invariant.{IsFs}
use os_research_lab.Text.Copy.{IsText, padded, strncpy_lem}
use os_research_lab.Editor.{
  Editor, edit_buffer_size, clear_file_buffer, clear_current_filename, c_string,
}
use os_research_lab.Editor.Mode.{IsEditor, c_string_total}
use os_research_lab.Editor.Commands.{Turn, set_filename, listed, list_command, new_command}

-- A name in the array of the editor.
abbrev pub IsName : List ℕ → Type 0
IsName name = (length name ≡ max_filename_len) × (get_or name (max_filename_len - 1) 1 ≡ 0)

length-padded : (n : ℕ) (s : List ℕ) → length (padded n s) ≡ n
length-padded zero s = refl
length-padded (suc n) [] = ap suc (length-padded n [])
length-padded (suc n) (c ∷ s) = ap suc (length-padded n s)

-- The array after `argument` is copied to it.
abbrev pub named : List ℕ → List ℕ → List ℕ
named name argument =
    set (padded (max_filename_len - 1) argument ++ drop (max_filename_len - 1) name)
      (max_filename_len - 1) 0

length-named :
    (name argument : List ℕ)
    → length name ≡ max_filename_len
    → length (padded (max_filename_len - 1) argument ++ drop (max_filename_len - 1) name)
      ≡ max_filename_len
length-named name argument h = omega (
  arith,
  length-append (padded (max_filename_len - 1) argument) (drop (max_filename_len - 1) name),
  length-drop (max_filename_len - 1) name,
  length-padded (max_filename_len - 1) argument,
  h,
)

pub set_filename_lem :
    (name argument : List ℕ)
    → length name ≡ max_filename_len
    → IsText argument
    → set_filename name argument ≡ done (named name argument)
unfolding set_filename
set_filename_lem name argument room text =
    let copy = strncpy_lem name argument [] (max_filename_len - 1) text (omega arith) in
    let inside : ltb (max_filename_len - 1)
          (length (padded (max_filename_len - 1) argument ++ drop (max_filename_len - 1) name))
        ≡ true =
      ground (arith, length-named name argument room) in
    rw (copy, inside) refl

named-IsName :
    (name argument : List ℕ) → length name ≡ max_filename_len → IsName (named name argument)
named-IsName name argument room =
    let size = length-named name argument room in
    let array = padded (max_filename_len - 1) argument ++ drop (max_filename_len - 1) name in
    let n = max_filename_len - 1 in
    (length-set array n 0 ∙ size, get_or-set_self array n 0 1 (omega (arith, size)))

pub set_filename-IsName :
    (name argument : List ℕ)
    → length name ≡ max_filename_len
    → IsText argument
    → Returns IsName (set_filename name argument)
set_filename-IsName name argument room text =
    rw (set_filename_lem name argument room text) (named-IsName name argument room)

-- What a command leaves when the editor and the files were valid before it.
abbrev pub IsTurn : List ℕ → Turn → Type 0
IsTurn keys t = IsEditor t.editor × IsFs t.files × (length t.rest ≤ length keys)

-- A command returns, with that or with a wait for more keys.
abbrev pub GoesOn : List ℕ → Outcome (Option Turn) → Type 0
GoesOn keys = Returns (Each (IsTurn keys))

pub clear_file_buffer-IsEditor : (e : Editor) → IsEditor e → IsEditor (clear_file_buffer e)
clear_file_buffer-IsEditor e v = record {
  room = length-replicate {A = ℕ} edit_buffer_size 0;
  fits = omega arith;
  name_room = v.name_room;
  name_ends = v.name_ends;
}

pub clear_current_filename-IsEditor :
    (e : Editor) → IsEditor e → Returns IsEditor (clear_current_filename e)
clear_current_filename-IsEditor e v =
    let inside : ltb 0 (length e.filename) ≡ true = ground (arith, v.name_room) in
    rw inside (record {
      room = v.room;
      fits = v.fits;
      name_room = length-set e.filename 0 0 ∙ v.name_room;
      name_ends =
          get_or-set_ne e.filename 0 (max_filename_len - 1) 0 1 (ground arith) ∙ v.name_ends;
    })

c_string-Returns : (s : List ℕ) (k : ℕ) → get_or s k 1 ≡ 0 → Returns (λ t. Unit {0}) (c_string s)
c_string-Returns s k h = let (t, e) = c_string_total s k h in rw e tt

pub get_or-end : (s : List ℕ) → get_or (s ++ 0 ∷ []) (length s) 1 ≡ 0
get_or-end [] = refl
get_or-end (c ∷ s) = get_or-end s

listed-Returns : (r : Status × List ℕ) → Returns (λ t. Unit {0}) (listed r)
listed-Returns (ok bytes, text) = elim (Bool-cases (ltb 0 bytes)) [
  | inl some_text ↦
      let (t, e) = c_string_total (text ++ 0 ∷ []) (length text) (get_or-end text) in
      rw (some_text, e) tt
  | inr empty ↦ rw empty tt
]
listed-Returns (failed code, text) = tt

pub list_command-GoesOn :
    (e : Editor) (files : List File) (keys : List ℕ)
    → IsEditor e
    → IsFs files
    → GoesOn keys (list_command e files keys)
unfolding list_command
list_command-GoesOn e files keys v w =
    >>=-Returns (λ t. Unit {0}) (Each (IsTurn keys)) (listed (sys_list_files files 527)) _
      (listed-Returns (sys_list_files files 527)) λ t h. (v, w, omega arith)

-- A command that sets the name goes on when what it does with a valid name goes on.
pub name-GoesOn :
    (name argument keys : List ℕ) (f : List ℕ → Outcome (Option Turn))
    → length name ≡ max_filename_len
    → IsText argument
    → ((name' : List ℕ) → IsName name' → GoesOn keys (f name'))
    → GoesOn keys (set_filename name argument >>= f)
name-GoesOn name argument keys f room text goes =
    >>=-Returns IsName (Each (IsTurn keys)) (set_filename name argument) f
      (set_filename-IsName name argument room text) goes

pub printed-GoesOn :
    (name keys : List ℕ) (f : List ℕ → Outcome (Option Turn))
    → IsName name
    → ((t : List ℕ) → GoesOn keys (f t))
    → GoesOn keys (c_string name >>= f)
printed-GoesOn name keys f valid goes =
    >>=-Returns (λ t. Unit {0}) (Each (IsTurn keys)) (c_string name) f
      (c_string-Returns name (max_filename_len - 1) valid.1) λ t h. goes t

pub new_command-GoesOn :
    (e : Editor) (files : List File) (argument keys : List ℕ)
    → IsEditor e
    → IsFs files
    → IsText argument
    → GoesOn keys (new_command e files argument keys)
unfolding new_command
new_command-GoesOn e files [] keys v w text = (v, w, omega arith)
new_command-GoesOn e files (c ∷ argument) keys v w text =
    name-GoesOn e.filename (c ∷ argument) keys _ v.name_room text λ name valid.
      printed-GoesOn name keys _ valid λ t. (
        record {
          room = length-replicate {A = ℕ} edit_buffer_size 0;
          fits = omega arith;
          name_room = valid.0;
          name_ends = valid.1;
        },
        w,
        omega arith,
      )
