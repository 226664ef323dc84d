-- ===== src/Fs/Invariant.antt =====
-- jordyOS/kernel.c: the invariant of the file system, and the laws of `sys_delete_file`.
use os_research_lab.Base.{
  ℕ, zero, suc, ◌-◌, ◌≤◌, ◌<◌, List, [], ◌∷◌, Option, some, none, false, ◌||◌, ltb, leb, ◌==◌,
  length, get_or, set, drop, replicate, length-set, length-append, length-drop, length-replicate,
  Bool-cases, Option-cases, ◌≡◌, ◌⊎◌, inl, inr, refl, ◌∙◌, arith, if◌then◌else◌,
}
use os_research_lab.Fs.{
  File, ok, failed, str_eq, fs_find_file, fs_find_empty_slot, fill, claim, release, no_file,
  empty_file, fs_init, max_files, max_filename_len, max_file_size, sys_write_file, sys_delete_file,
}
use os_research_lab.Fs.View.{
  view, find-cons, find-none-cons, slot-cons, view-find_none, view-fill, view-claim, take-all,
  str_eq_lem, str_eq_refl,
}

-- Every buffer has its full length, and the size lies inside it.
abbrev pub EachFits : List File → Type 0
EachFits [] = Unit {0}
EachFits (f ∷ files) = (length f.bytes ≡ max_file_size) × (f.size ≤ max_file_size) × EachFits files

-- No later file has the name of a file in use.
abbrev pub NoTwice : List File → Type 0
NoTwice [] = Unit {0}
NoTwice (f ∷ files) = ((f.in_use ≡ false) ⊎ (view files f.name ≡ none)) × NoTwice files

pub record IsFs (files : List File) : Type 0 where
  pub slots : length files ≡ max_files
  pub fits : EachFits files
  pub names : NoTwice files

length-fill :
    (f : File) (d : List ℕ) → length d ≤ length f.bytes → length (fill f d).bytes ≡ length f.bytes
length-fill f d h =
    omega (arith, length-append d (drop (length d) f.bytes), length-drop (length d) f.bytes)

set-fits :
    (files : List File) (i : ℕ) (change : File → File)
    → EachFits files
    → ((f : File)
        → length f.bytes ≡ max_file_size
        → f.size ≤ max_file_size
        → (length (change f).bytes ≡ max_file_size) × ((change f).size ≤ max_file_size))
    → EachFits (set files i (change (get_or files i no_file)))
set-fits [] i change h keeps = tt
set-fits (f ∷ files) zero change h keeps = let kept = keeps f h.0 h.1 in (kept.0, kept.1, h.2)
set-fits (f ∷ files) (suc i) change h keeps = (h.0, h.1, set-fits files i change h.2 keeps)

fill-fits :
    (d : List ℕ) (f : File)
    → length d ≤ max_file_size
    → length f.bytes ≡ max_file_size
    → (length (fill f d).bytes ≡ max_file_size) × ((fill f d).size ≤ max_file_size)
fill-fits d f small h = (length-fill f d (omega arith) ∙ h, small)

fill-NoTwice :
    (files : List File) (fn d : List ℕ) (i : ℕ)
    → NoTwice files
    → fs_find_file files fn ≡ some i
    → NoTwice (set files i (fill (get_or files i no_file) d))
fill-NoTwice [] fn d i h e = tt
fill-NoTwice (f ∷ files) fn d i h e = elim (find-cons f files fn i e) [
  | inl (here, at) ↦ rw at h
  | inr (j, past, at, found) ↦ rw at (
    ground (arith, view-fill files fn d f.name j found, str_eq_lem fn f.name, str_eq_refl fn),
    fill-NoTwice files fn d j h.1 found,
  )
]

claim-NoTwice :
    (files : List File) (fn d : List ℕ) (i : ℕ)
    → length fn < max_filename_len
    → NoTwice files
    → fs_find_file files fn ≡ none
    → fs_find_empty_slot files ≡ some i
    → NoTwice (set files i (fill (claim (get_or files i no_file) fn) d))
claim-NoTwice [] fn d i short h e slot = tt
claim-NoTwice (f ∷ files) fn d i short h e slot =
    let (past, nowhere) = find-none-cons f files fn e in
    elim (slot-cons f files i slot) [
      | inl (free, at) ↦
          rw (at, take-all fn (max_filename_len - 1) (omega arith))
            (inr (view-find_none files fn nowhere), h.1)
      | inr (j, used, at, there) ↦ rw at (
        ground (
          arith,
          past,
          used,
          view-claim files fn d f.name j short nowhere there,
          str_eq_lem fn f.name,
          str_eq_refl fn,
        ),
        claim-NoTwice files fn d j short h.1 nowhere there,
      )
    ]

-- With no name twice, releasing the file that was found leaves none of that name.
view-release :
    (files : List File) (fn n : List ℕ) (i : ℕ)
    → NoTwice files
    → fs_find_file files fn ≡ some i
    → view (set files i (release (get_or files i no_file))) n
      ≡ (if str_eq fn n then none else view files n)
view-release [] fn n i h e = absurd (unfold fs_find_file in ground arith)
view-release (f ∷ files) fn n i h e = elim (find-cons f files fn i e) [
  | inl (here, at) ↦
      rw at (ground (arith, h.0, here, str_eq_lem f.name fn, str_eq_lem fn n, str_eq_refl n))
  | inr (j, past, at, found) ↦ rw at (
      ground (
        arith,
        view-release files fn n j h.1 found,
        str_eq_lem f.name n,
        str_eq_lem fn n,
        str_eq_refl n,
      ))
]

release-NoTwice :
    (files : List File) (fn : List ℕ) (i : ℕ)
    → NoTwice files
    → fs_find_file files fn ≡ some i
    → NoTwice (set files i (release (get_or files i no_file)))
release-NoTwice [] fn i h e = tt
release-NoTwice (f ∷ files) fn i h e = elim (find-cons f files fn i e) [
  | inl (here, at) ↦ rw at (inl refl, h.1)
  | inr (j, past, at, found) ↦ rw at (
    ground (arith, h.0, view-release files fn f.name j h.1 found),
    release-NoTwice files fn j h.1 found,
  )
]

empty-fits : (n : ℕ) → EachFits (replicate n empty_file)
empty-fits zero = tt
empty-fits (suc n) = (length-replicate {A = ℕ} max_file_size 0, omega arith, empty-fits n)

empty-NoTwice : (n : ℕ) → NoTwice (replicate n empty_file)
empty-NoTwice zero = tt
empty-NoTwice (suc n) = (inl refl, empty-NoTwice n)

-- The files after `fs_init`.
pub fs_init-IsFs : IsFs fs_init
unfolding fs_init
fs_init-IsFs = record {
  slots = length-replicate {A = File} max_files empty_file;
  fits = empty-fits max_files;
  names = empty-NoTwice max_files;
}

-- Any write, refused or not, keeps the sixteen slots, the sizes inside the buffers, and no name
-- twice.
pub sys_write_file-IsFs :
    (files : List File) (fn d : Option (List ℕ)) → IsFs files → IsFs (sys_write_file files fn d).1
unfolding sys_write_file
sys_write_file-IsFs files none d valid = valid
sys_write_file-IsFs files (some fn) none valid = valid
sys_write_file-IsFs files (some fn) (some d) valid =
    elim (Bool-cases ((length fn == 0) || leb max_filename_len (length fn))) [
      | inl bad ↦ rw bad valid
      | inr good ↦ rw good (elim (Bool-cases (ltb max_file_size (length d))) [
        | inl large ↦ rw large valid
        | inr small ↦ rw small (elim (Option-cases (fs_find_file files fn)) [
          | inr (i, found) ↦ rw found (record {
            slots = length-set files i _ ∙ valid.slots;
            fits =
                set-fits files i (λ f. fill f d) valid.fits
                  λ f full low. fill-fits d f (ground arith) full;
            names = fill-NoTwice files fn d i valid.names found;
          })
          | inl new ↦ rw new (elim (Option-cases (fs_find_empty_slot files)) [
            | inl full ↦ rw full valid
            | inr (i, slot) ↦ rw slot (record {
              slots = length-set files i _ ∙ valid.slots;
              fits =
                  set-fits files i (λ f. fill (claim f fn) d) valid.fits
                    λ f full low. fill-fits d (claim f fn) (ground arith) full;
              names = claim-NoTwice files fn d i (ground arith) valid.names new slot;
            })
          ])
        ])
      ])
    ]

-- Of a well-formed file system, deleting a name that no file has is refused with code 1 and changes
-- nothing; otherwise it returns 0, no file has the name then, every other name has what it had, and
-- the file system stays well formed.
pub sys_delete_file_lem :
    (files : List File) (fn : List ℕ)
    → IsFs files
    → ((view files fn ≡ none) × (sys_delete_file files (some fn) ≡ (failed 1, files)))
      ⊎ ((after : List File) × (sys_delete_file files (some fn) ≡ (ok 0, after))
          × ((n : List ℕ) → view after n ≡ (if str_eq fn n then none else view files n))
          × IsFs after)
unfolding sys_delete_file
sys_delete_file_lem files fn valid = elim (Option-cases (fs_find_file files fn)) [
  | inl nowhere ↦ inl (view-find_none files fn nowhere, rw (sys_delete_file, nowhere))
  | inr (i, found) ↦ inr (
    set files i (release (get_or files i no_file)),
    rw (sys_delete_file, found),
    (λ n. view-release files fn n i valid.names found),
    record {
      slots = length-set files i _ ∙ valid.slots;
      fits = set-fits files i release valid.fits λ f full low. (full, omega arith);
      names = release-NoTwice files fn i valid.names found;
    },
  )
]
