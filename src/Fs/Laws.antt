-- ===== src/Fs/Laws.antt =====
-- The calls on files as operations on the map from names to contents.
use os_research_lab.Base.{
  ℕ, zero, suc, ◌≤◌, ◌<◌, List, [], ◌∷◌, Option, some, none, Bool, true, false, not, ◌&&◌, ◌||◌,
  ltb, leb, ◌==◌, length, get_or, take, Bool-cases, Option-cases, ◌≡◌, ◌⊎◌, inl, inr, refl, ap,
  arith, if◌then◌else◌,
}
use os_research_lab.Fs.{
  File, Status, ok, failed, str_eq, fs_find_file, fs_find_empty_slot, no_file, max_filename_len,
  max_file_size, sys_write_file, sys_read_file,
}
use os_research_lab.Fs.View.{view, contents, view-find, view-find_none, view-fill, view-claim}
use os_research_lab.Fs.Invariant.{EachFits, IsFs}

-- A name that a file can have.
abbrev pub name_ok : List ℕ → Bool
name_ok fn = not (length fn == 0) && ltb (length fn) max_filename_len

-- What became of a write of `d` under the name `fn`.
abbrev pub Written : List File → List ℕ → List ℕ → Status → List File → Type 0
Written files fn d (failed code) after =
    (after ≡ files)
    × ((code ≡ 2) × (name_ok fn ≡ false)
        ⊎ ((code ≡ 3) × (name_ok fn ≡ true) × (max_file_size < length d)
            ⊎ (code ≡ 4)
              × (name_ok fn ≡ true)
              × (length d ≤ max_file_size)
              × (view files fn ≡ none)
              × (fs_find_empty_slot files ≡ none)))
Written files fn d (ok count) after =
    (count ≡ 0)
    × (name_ok fn ≡ true)
    × (length d ≤ max_file_size)
    × ((n : List ℕ) → view after n ≡ (if str_eq fn n then some d else view files n))

-- A write either leaves the files as they were, with code 2 for a name that is empty or too long,
-- 3 for more bytes than a file holds, and 4 for a new name when no slot is free; or it returns 0,
-- and afterwards that name has the bytes and every other name what it had.
pub sys_write_file_lem :
    (files : List File) (fn d : List ℕ)
    → Written files fn d
        (sys_write_file files (some fn) (some d)).0
        (sys_write_file files (some fn) (some d)).1
unfolding sys_write_file
sys_write_file_lem files fn d = elim (Bool-cases (name_ok fn)) [
  | inr bad ↦
      let refuses : ((length fn == 0) || leb max_filename_len (length fn)) ≡ true = ground arith in
      rw refuses (refl, inl (refl, bad))
  | inl good ↦
      let goes : ((length fn == 0) || leb max_filename_len (length fn)) ≡ false = ground arith in
      let short : length fn < max_filename_len = ground arith in
      rw goes (elim (Bool-cases (ltb max_file_size (length d))) [
        | inl large ↦ rw large (refl, inr (inl (refl, good, ground arith)))
        | inr fits ↦ rw fits (elim (Option-cases (fs_find_file files fn)) [
          | inr (i, found) ↦
              rw found (refl, good, ground arith, λ n. view-fill files fn d n i found)
          | inl new ↦ rw new (elim (Option-cases (fs_find_empty_slot files)) [
            | inl full ↦
                rw full
                  (refl, inr (inr (refl, good, ground arith, view-find_none files fn new, full)))
            | inr (i, slot) ↦
                rw slot (refl, good, ground arith, λ n. view-claim files fn d n i short new slot)
          ])
        ])
      ])
]

get_or-fits :
    (files : List File) (i : ℕ)
    → EachFits files
    → (get_or files i no_file).size ≤ length (get_or files i no_file).bytes
get_or-fits [] i h = omega arith
get_or-fits (f ∷ files) zero h = omega arith
get_or-fits (f ∷ files) (suc i) h = get_or-fits files i h.2

length-take_of_le : (d : List ℕ) (n : ℕ) → n ≤ length d → length (take n d) ≡ n
length-take_of_le d zero h = refl
length-take_of_le [] (suc n) h = absurd (omega arith)
length-take_of_le (x ∷ d) (suc n) h = ap suc (length-take_of_le d n (omega arith))

-- What a read into `us` bytes returns of the contents of a name.
abbrev pub read_of : Option (List ℕ) → ℕ → Status × List ℕ
read_of none us = (failed 1, [])
read_of (some d) us =
    if us == 0
    then (failed 1, [])
    else if ltb us (length d)
    then (failed 2, [])
    else (ok (length d), d)

-- Of a well-formed file system a read gives the contents of the name and their
-- length: code 1 when no file has the name or the buffer is empty, 2 when the buffer is too small.
pub sys_read_file_lem :
    (files : List File) (fn : List ℕ) (us : ℕ)
    → IsFs files
    → sys_read_file files (some fn) us ≡ read_of (view files fn) us
unfolding sys_read_file
sys_read_file_lem files fn us h = elim (Option-cases (fs_find_file files fn)) [
  | inl nowhere ↦ rw (nowhere, view-find_none files fn nowhere) (ground arith)
  | inr (i, found) ↦
      let f = get_or files i no_file in
      let whole : length (contents f) ≡ f.size =
        length-take_of_le f.bytes f.size (get_or-fits files i h.fits) in
      rw (found, view-find files fn i found, whole)
]
