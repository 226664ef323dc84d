-- ===== src/Fs/View.antt =====
-- The file system as a map from names to contents, and what the searches of kernel.c find.
use os_research_lab.Base.{
  ℕ, zero, suc, ◌-◌, ◌≤◌, ◌<◌, List, [], ◌∷◌, ◌++◌, Option, some, none, Bool, true, false, ◌&&◌,
  length, get_or, set, take, drop, Bool-cases, Option-cases, ◌≡◌, ◌⊎◌, inl, inr, refl, ap, arith,
  if◌then◌else◌,
}
use os_research_lab.Fs.{
  max_filename_len, claim, fs_find_empty_slot, File, str_eq, fs_find_file, fill, no_file,
}

pub str_eq_lem : (a b : List ℕ) → str_eq a b ≡ true → a ≡ b
unfolding str_eq
str_eq_lem [] [] h = refl
str_eq_lem [] (y ∷ b) h = cc
str_eq_lem (x ∷ a) [] h = cc
str_eq_lem (x ∷ a) (y ∷ b) h = ground (arith, str_eq_lem a b)

pub str_eq_refl : (a : List ℕ) → str_eq a a ≡ true
unfolding str_eq
str_eq_refl [] = refl
str_eq_refl (x ∷ a) = ground (arith, str_eq_refl a)

-- The bytes of a file.
abbrev pub contents : File → List ℕ
contents f = take f.size f.bytes

-- The contents of the first file of that name.
abbrev pub view : List File → List ℕ → Option (List ℕ)
view [] n = none
view (f ∷ files) n = if f.in_use && str_eq f.name n then some (contents f) else view files n

abbrev pub is_named : File → List ℕ → Bool
is_named f fn = f.in_use && str_eq f.name fn

-- A search that found index `i` stopped at the head, or found `i - 1` in the tail.
pub find-cons :
    (f : File) (files : List File) (fn : List ℕ) (i : ℕ)
    → fs_find_file (f ∷ files) fn ≡ some i
    → (is_named f fn ≡ true) × (i ≡ 0)
      ⊎ ((j : ℕ) × (is_named f fn ≡ false) × (i ≡ suc j) × (fs_find_file files fn ≡ some j))
unfolding fs_find_file
find-cons f files fn i h = elim (Bool-cases (is_named f fn)) [
  | inl here ↦ inl (here, ground arith)
  | inr past ↦ elim (Option-cases (fs_find_file files fn)) [
    | inl nowhere ↦ absurd (ground (arith, past, nowhere))
    | inr (j, found) ↦ inr (j, past, ground (arith, past, found), found)
  ]
]

pub find-none-cons :
    (f : File) (files : List File) (fn : List ℕ)
    → fs_find_file (f ∷ files) fn ≡ none
    → (is_named f fn ≡ false) × (fs_find_file files fn ≡ none)
unfolding fs_find_file
find-none-cons f files fn h = elim (Bool-cases (is_named f fn)) [
  | inl here ↦ absurd (ground (arith, here))
  | inr past ↦ elim (Option-cases (fs_find_file files fn)) [
    | inl nowhere ↦ (past, nowhere)
    | inr (j, found) ↦ absurd (ground (arith, past, found))
  ]
]

-- What `fs_find_file` gives is the file that the view shows.
pub view-find :
    (files : List File) (fn : List ℕ) (i : ℕ)
    → fs_find_file files fn ≡ some i
    → view files fn ≡ some (contents (get_or files i no_file))
view-find [] fn i h = absurd (unfold fs_find_file in ground arith)
view-find (f ∷ files) fn i h = elim (find-cons f files fn i h) [
  | inl (here, e) ↦ rw (e, here)
  | inr (j, past, e, found) ↦ rw (e, past) (view-find files fn j found)
]

pub view-find_none :
    (files : List File) (fn : List ℕ) → fs_find_file files fn ≡ none → view files fn ≡ none
view-find_none [] fn h = refl
view-find_none (f ∷ files) fn h =
    let (past, nowhere) = find-none-cons f files fn h in rw past (view-find_none files fn nowhere)

pub take-append : (d rest : List ℕ) → take (length d) (d ++ rest) ≡ d
take-append [] rest = refl
take-append (x ∷ d) rest = ap (◌∷◌ x) (take-append d rest)

-- Filling the file that was found sets the contents under its name.
pub view-fill :
    (files : List File) (fn d n : List ℕ) (i : ℕ)
    → fs_find_file files fn ≡ some i
    → view (set files i (fill (get_or files i no_file) d)) n
      ≡ (if str_eq fn n then some d else view files n)
view-fill [] fn d n i h = absurd (unfold fs_find_file in ground arith)
view-fill (f ∷ files) fn d n i h = elim (find-cons f files fn i h) [
  | inl (here, e) ↦
      let named : f.name ≡ fn = str_eq_lem f.name fn (ground arith) in
      let used : f.in_use ≡ true = ground arith in
      rw e (ground (arith, named, take-append d (drop (length d) f.bytes)))
  | inr (j, past, e, found) ↦ rw e (
      ground (
        arith,
        view-fill files fn d n j found,
        str_eq_lem f.name n,
        str_eq_lem fn n,
        str_eq_refl n,
      ))
]

pub slot-cons :
    (f : File) (files : List File) (i : ℕ)
    → fs_find_empty_slot (f ∷ files) ≡ some i
    → (f.in_use ≡ false) × (i ≡ 0)
      ⊎ ((j : ℕ) × (f.in_use ≡ true) × (i ≡ suc j) × (fs_find_empty_slot files ≡ some j))
unfolding fs_find_empty_slot
slot-cons f files i h = elim (Bool-cases f.in_use) [
  | inr free ↦ inl (free, ground (arith, free))
  | inl used ↦ elim (Option-cases (fs_find_empty_slot files)) [
    | inl nowhere ↦ absurd (ground (arith, used, nowhere))
    | inr (j, found) ↦ inr (j, used, ground (arith, used, found), found)
  ]
]

pub take-all : (d : List ℕ) (n : ℕ) → length d ≤ n → take n d ≡ d
take-all [] zero h = refl
take-all [] (suc n) h = refl
take-all (x ∷ d) zero h = absurd (omega arith)
take-all (x ∷ d) (suc n) h = ap (◌∷◌ x) (take-all d n (omega arith))

-- Claiming the empty slot that was found, for a name that no file has, adds the contents under the
-- name.
pub view-claim :
    (files : List File) (fn d n : List ℕ) (i : ℕ)
    → length fn < max_filename_len
    → fs_find_file files fn ≡ none
    → fs_find_empty_slot files ≡ some i
    → view (set files i (fill (claim (get_or files i no_file) fn) d)) n
      ≡ (if str_eq fn n then some d else view files n)
view-claim [] fn d n i short h slot = absurd (unfold fs_find_empty_slot in ground arith)
view-claim (f ∷ files) fn d n i short h slot =
    let (past, nowhere) = find-none-cons f files fn h in
    elim (slot-cons f files i slot) [
      | inl (free, e) ↦
          rw (e, take-all fn (max_filename_len - 1) (omega arith))
            (ground (arith, free, take-append d (drop (length d) f.bytes)))
      | inr (j, used, e, there) ↦ rw e (
          ground (
            arith,
            past,
            used,
            view-claim files fn d n j short nowhere there,
            str_eq_lem f.name n,
            str_eq_lem fn n,
            str_eq_refl n,
          ))
    ]
