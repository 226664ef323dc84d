-- ===== src/Isolation/Copies.antt =====
-- jordyOS/isolation.c: the sizes of what a system call takes from the process and gives to it.
use os_research_lab.Base.{
  ℕ, zero, suc, ◌+◌, ◌-◌, ◌^◌, ◌≤◌, ◌<◌, List, [], ◌∷◌, ◌++◌, some, Bool, true, false, not, ◌&&◌,
  leb, ltb, ◌==◌, length, take, get_or, length-append, length-take, Bool-cases, Option-cases, ◌≡◌,
  ◌≢◌, inl, inr, refl, arith, if◌then◌else◌,
}
use os_research_lab.Base.Fault.{Outcome, done, Ensures, >>=-Ensures, require, ◌>>=◌, ◌>>◌}
use os_research_lab.Fs.{File, list_from, sys_list_files, sys_read_file, fs_find_file, no_file}
use os_research_lab.Text.{strlen}
use os_research_lab.Isolation.{user_range, string_loop, copied}
use os_research_lab.Isolation.Range.{IsTables, may, user_range-reads, user_range-may}

pub strlen_stops :
    (line buf : List ℕ)
    → take (length line + 1) buf ≡ line ++ 0 ∷ []
    → (n : ℕ) × (strlen buf ≡ done n) × (n ≤ length line)
unfolding strlen
strlen_stops [] [] e = absurd (ground (arith, e))
strlen_stops [] (b ∷ buf) e = (0, let z : b ≡ 0 = cc in rw z refl, omega arith)
strlen_stops (c ∷ line) [] e =
    let n : suc (length line) + 1 ≡ suc (length line + 1) = omega arith in
    absurd (ground (arith, rw n at e))
strlen_stops (c ∷ line) (b ∷ buf) e =
    let n : suc (length line) + 1 ≡ suc (length line + 1) = omega arith in
    let step = rw n at e in
    let tail : take (length line + 1) buf ≡ line ++ 0 ∷ [] = cc in
    let (k, is, small) = strlen_stops line buf tail in
    elim (Bool-cases (b == 0)) [
      | inl z ↦ (0, rw z refl, omega arith)
      | inr z ↦ (suc k, rw (z, is) refl, omega arith)
    ]

pub copied-kept :
    (pt : List (List ℕ)) (memory : ℕ → ℕ) (address size x : ℕ) (bytes : List ℕ)
    → IsTables pt
    → may true pt x ≡ false
    → user_range (some pt) address size true ≡ done true
    → length bytes ≤ size
    → copied memory address bytes x ≡ memory x
copied-kept pt memory address size x bytes h shut passes fits =
    elim (Bool-cases (leb address x && ltb x (address + length bytes))) [
      | inr out ↦ rw out refl
      | inl inside ↦ absurd (
          ground
            (arith, user_range-may pt address size x true h passes (ground arith) (ground arith)))
    ]

-- A check of a range, and what follows when it passes.
pub checked :
    {A : Type 0} (P : A → Type 0) (pt : List (List ℕ)) (address size : ℕ) (write : Bool)
    (f : Outcome A)
    → IsTables pt
    → (user_range (some pt) address size write ≡ done true → Ensures P f)
    → Ensures P (user_range (some pt) address size write >>= λ allowed. require allowed >> f)
checked P pt address size write f h next = elim (user_range-reads pt address size write h) [
  | inl passes ↦ rw passes (next passes)
  | inr stops ↦ rw stops tt
]

pub string_loop-reads :
    (left : ℕ) (pt : List (List ℕ)) (memory : ℕ → ℕ) (source i : ℕ)
    → IsTables pt
    → Ensures (λ (s : List ℕ). length s < left) (string_loop left (some pt) memory source i)
unfolding string_loop
string_loop-reads zero pt memory source i h = tt
string_loop-reads (suc left) pt memory source i h =
    elim (Bool-cases (ltb (2 ^ 64 - 1 - i) source)) [
      | inl over ↦ rw over tt
      | inr within ↦ rw within (
          checked (λ (s : List ℕ). length s < suc left) pt (source + i) 1 false _ h
            (λ passes. elim (Bool-cases (memory (source + i) == 0)) [
              | inl ends ↦ rw ends (omega arith)
              | inr more ↦ rw more (
                  >>=-Ensures (λ (s : List ℕ). length s < left)
                    (λ (s : List ℕ). length s < suc left)
                    (string_loop left (some pt) memory source (i + 1)) _
                    (string_loop-reads left pt memory source (i + 1) h) (λ s small. omega arith))
            ]))
    ]

separated-length :
    (first : Bool) (text : List ℕ) (bl : ℕ)
    → length text < bl
    → (not first && leb (bl - 1) (length text)) ≡ false
    → length (if first then text else text ++ 10 ∷ []) < bl
separated-length true text bl h room = h
separated-length false text bl h room = ground (arith, length-append text (10 ∷ []))

list_from-length :
    (files : List File) (bl : ℕ) (text : List ℕ) (first : Bool)
    → length text < bl
    → length (list_from files bl text first) < bl
unfolding list_from
list_from-length [] bl text first h = h
list_from-length (f ∷ files) bl text first h =
    let separated = if first then text else text ++ 10 ∷ [] in
    elim (Bool-cases f.in_use) [
      | inr free ↦ rw free (list_from-length files bl text first h)
      | inl used ↦ rw used (elim (Bool-cases (not first && leb (bl - 1) (length text))) [
        | inl full ↦ rw full h
        | inr room ↦ rw room (elim (Bool-cases (ltb (length separated + length f.name) bl)) [
          | inl fits ↦ rw fits (
              list_from-length files bl (separated ++ f.name) false
                (ground (arith, length-append separated f.name)))
          | inr large ↦ rw large (separated-length first text bl h room)
        ])
      ])
    ]

-- What is copied to the process fits the range that it gave.
pub listed-fits :
    (files : List File) (b : ℕ) → b ≢ 0 → length ((sys_list_files files b).1 ++ 0 ∷ []) ≤ b
unfolding sys_list_files
listed-fits files b n =
    let z : b == 0 ≡ false = ground arith in
    rw z (
      omega (
        arith,
        list_from-length files b [] true (omega arith),
        length-append (list_from files b [] true) (0 ∷ []),
      ))

pub read-fits :
    (files : List File) (name : List ℕ) (us : ℕ)
    → length (sys_read_file files (some name) us).1 ≤ us
unfolding sys_read_file
read-fits files name us = elim (Bool-cases (us == 0)) [
  | inl none_asked ↦ rw none_asked (omega arith)
  | inr some_asked ↦ rw some_asked (elim (Option-cases (fs_find_file files name)) [
    | inl missing ↦ rw (sys_read_file, missing) (omega arith)
    | inr (i, is) ↦
        rw (sys_read_file, is)
          (elim (Bool-cases (ltb us (get_or files i no_file).size)) [
            | inl large ↦ rw large (omega arith)
            | inr fits ↦ rw fits (
                ground
                  (arith, length-take (get_or files i no_file).size (get_or files i no_file).bytes))
          ])
  ])
]
