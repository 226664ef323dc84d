-- ===== src/Fs.antt =====
-- jordyOS/kernel.c and util.h: the RAM file system behind the sys_ calls on files. A C string is the
-- list of its bytes before the terminating zero; a null pointer is `none`.
pub mod View
pub mod Invariant
pub mod Laws
mod Tests
use mathlib.Core.Option
use os_research_lab.Base.{
  ℕ, zero, suc, ◌+◌, ◌-◌, List, [], ◌∷◌, ◌++◌, Option, some, none, Bool, true, false, not, ◌&&◌,
  ◌||◌, ltb, leb, ◌==◌, length, get_or, set, take, drop, replicate, if◌then◌else◌,
}

abbrev pub max_files : ℕ
max_files = 16

abbrev pub max_filename_len : ℕ
max_filename_len = 32

abbrev pub max_file_size : ℕ
max_file_size = 16384

-- `file_t`: `data` is the whole buffer, of which `size` bytes are the file's.
pub record File : Type 0 where
  pub name : List ℕ
  pub bytes : List ℕ
  pub size : ℕ
  pub in_use : Bool

-- What a call returns: a count of bytes or 0, or a negative code given by its magnitude.
pub data Status : Type 0 where
  ok : ℕ → Status
  failed : ℕ → Status

-- `!strcmp(a, b)`
unfoldable pub str_eq : List ℕ → List ℕ → Bool
str_eq [] [] = true
str_eq [] (y ∷ b) = false
str_eq (x ∷ a) [] = false
str_eq (x ∷ a) (y ∷ b) = (x == y) && str_eq a b

abbrev pub empty_file : File
empty_file = record { name = []; bytes = replicate max_file_size 0; size = 0; in_use = false }

-- What is read of an index out of range, which the searches never give.
abbrev pub no_file : File
no_file = record { name = []; bytes = []; size = 0; in_use = false }

-- `fs_init`
unfoldable pub fs_init : List File
fs_init = replicate max_files empty_file

-- `fs_find_file`; `none` is -1.
unfoldable pub fs_find_file : List File → List ℕ → Option ℕ
unfolding str_eq
fs_find_file [] fn = none
fs_find_file (f ∷ files) fn =
    let rest = Option.map suc (fs_find_file files fn) in
    if f.in_use && str_eq f.name fn then some 0 else rest

-- `fs_find_empty_slot`; `none` is -1.
unfoldable pub fs_find_empty_slot : List File → Option ℕ
fs_find_empty_slot [] = none
fs_find_empty_slot (f ∷ files) =
    let rest = Option.map suc (fs_find_empty_slot files) in if not f.in_use then some 0 else rest

-- `memcpy(data, d, dl)` with the size set.
abbrev pub fill : File → List ℕ → File
fill f d = record f { bytes = d ++ drop (length d) f.bytes; size = length d }

-- The name as `strncpy` of 31 bytes and the zero behind them leave it.
abbrev pub claim : File → List ℕ → File
claim f fn = record f { in_use = true; name = take (max_filename_len - 1) fn }

-- `sys_write_file`; `d` holds the `dl` bytes, so `dl` is not negative.
unfoldable pub sys_write_file : List File → Option (List ℕ) → Option (List ℕ) → Status × List File
sys_write_file files none d = (failed 1, files)
sys_write_file files (some fn) none = (failed 1, files)
sys_write_file files (some fn) (some d) =
    if (length fn == 0) || leb max_filename_len (length fn)
    then (failed 2, files)
    else if ltb max_file_size (length d)
    then (failed 3, files)
    else elim (fs_find_file files fn) [
      | some fi ↦ (ok 0, set files fi (fill (get_or files fi no_file) d))
      | none ↦ elim (fs_find_empty_slot files) [
        | none ↦ (failed 4, files)
        | some fi ↦ (ok 0, set files fi (fill (claim (get_or files fi no_file) fn) d))
      ]
    ]

-- `sys_read_file` into a buffer of `us` bytes; with the bytes copied.
unfoldable pub sys_read_file : List File → Option (List ℕ) → ℕ → Status × List ℕ
sys_read_file files none us = (failed 1, [])
sys_read_file files (some fn) us =
    if us == 0 then (failed 1, []) else elim (fs_find_file files fn) [
      | none ↦ (failed 1, [])
      | some fi ↦
          let f = get_or files fi no_file in
          if ltb us f.size then (failed 2, []) else (ok f.size, take f.size f.bytes)
    ]

abbrev pub release : File → File
release f = record f { in_use = false; name = []; size = 0 }

-- `sys_delete_file`
unfoldable pub sys_delete_file : List File → Option (List ℕ) → Status × List File
sys_delete_file files none = (failed 1, files)
sys_delete_file files (some fn) = elim (fs_find_file files fn) [
  | none ↦ (failed 1, files)
  | some fi ↦ (ok 0, set files fi (release (get_or files fi no_file)))
]

-- The loop of `sys_list_files`: `text` is what stands in the buffer of `bl` bytes, and `first`
-- holds until a name is written.
unfoldable pub list_from : List File → ℕ → List ℕ → Bool → List ℕ
list_from [] bl text first = text
list_from (f ∷ files) bl text first =
    let separated = if first then text else text ++ b'\n' ∷ [] in
    let skipped = list_from files bl text first in
    let written = list_from files bl (separated ++ f.name) false in
    if not f.in_use
    then skipped
    else if not first && leb (bl - 1) (length text)
    then text
    else if ltb (length separated + length f.name) bl
    then written
    else separated

-- `sys_list_files` into a buffer of `bl` bytes; the status counts the bytes of the text.
unfoldable pub sys_list_files : List File → ℕ → Status × List ℕ
unfolding list_from
sys_list_files files bl =
    if bl == 0
    then (failed 1, [])
    else (let text = list_from files bl [] true in (ok (length text), text))
