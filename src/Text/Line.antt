-- ===== src/Text/Line.antt =====
-- jordyOS/kernel.c: the laws of `read_line`.
use os_research_lab.Base.{
  ℕ, zero, suc, ◌+◌, ◌-◌, ◌≤◌, ◌<◌, List, [], ◌∷◌, ◌++◌, Option, some, none, true, false, ◌&&◌, ltb,
  ◌==◌, length, set, take, length-set, length-take, length-append, Bool-cases, ◌≡◌, ◌≢◌, inl, inr,
  refl, sym, ap, ◌∙◌, arith, if◌then◌else◌,
}
use os_research_lab.Base.Fault.{Outcome, done}
use os_research_lab.Text.{Typed, is_erase, is_printable, with_shown, read_loop, read_line}

-- The line that the keys make of the one typed so far, and the keys behind it: a new line ends it, an
-- erasing key takes the last character, a printable one that fits is put at the end.
unfoldable pub line_of : ℕ → List ℕ → List ℕ → Option (List ℕ × List ℕ)
line_of max line [] = none
line_of max line (c ∷ keys) =
    let erased = line_of max (take (length line - 1) line) keys in
    let same = line_of max line keys in
    let longer = line_of max (line ++ c ∷ []) keys in
    if c == 10
    then some (line, keys)
    else if is_erase c && ltb 0 (length line)
    then erased
    else if is_printable c && ltb (length line + 1) max
    then longer
    else same

-- An outcome gives the line, ended by a zero byte, in a buffer of `n` bytes.
abbrev pub ReadsAs : ℕ → ℕ → Option (List ℕ × List ℕ) → Outcome (Option Typed) → Type 0
ReadsAs n max none o = o ≡ done none
ReadsAs n max (some (line, rest)) o =
    (t : Typed) × (o ≡ done (some t))
    × (take (length line + 1) t.buf ≡ line ++ 0 ∷ [])
    × (length t.buf ≡ n)
    × (t.rest ≡ rest)
    × (length line < max)

with_shown-ReadsAs :
    (n max : ℕ) (shown : List ℕ) (l : Option (List ℕ × List ℕ)) (o : Outcome (Option Typed))
    → ReadsAs n max l o
    → ReadsAs n max l (with_shown shown o)
with_shown-ReadsAs n max shown none o e = rw e refl
with_shown-ReadsAs n max shown (some (line, rest)) o (t, e, ends, size, left, fits) =
    (record t { shown = shown ++ t.shown }, rw e refl, ends, size, left, fits)

pub take-set :
    (xs : List ℕ) (n v : ℕ) → n < length xs → take (n + 1) (set xs n v) ≡ take n xs ++ v ∷ []
take-set [] n v h = absurd (omega arith)
take-set (x ∷ xs) zero v h = refl
take-set (x ∷ xs) (suc n) v h =
    let e : suc n + 1 ≡ suc (n + 1) = omega arith in
    rw e (ap (λ l. x ∷ l) (take-set xs n v (omega arith)))

pub take-take_less : (xs : List ℕ) (n k : ℕ) → k ≤ n → take k (take n xs) ≡ take k xs
take-take_less xs n zero h = refl
take-take_less [] zero (suc k) h = refl
take-take_less [] (suc n) (suc k) h = refl
take-take_less (x ∷ xs) zero (suc k) h = absurd (omega arith)
take-take_less (x ∷ xs) (suc n) (suc k) h = ap (λ l. x ∷ l) (take-take_less xs n k (omega arith))

read_loop_lem :
    (keys buf line : List ℕ) (max : ℕ)
    → max ≤ length buf
    → length line < max
    → take (length line) buf ≡ line
    → ReadsAs (length buf) max (line_of max line keys) (read_loop keys buf max (length line))
unfolding line_of read_loop
read_loop_lem [] buf line max room fits holds = refl
read_loop_lem (c ∷ keys) buf line max room fits holds = elim (Bool-cases (c == 10)) [
  | inl ends ↦ rw ends (
      let inside : ltb (length line) (length buf) ≡ true = ground arith in
      (
        record { buf = set buf (length line) 0; shown = 10 ∷ []; rest = keys },
        rw inside refl,
        take-set buf (length line) 0 (omega arith) ∙ ap (λ l. l ++ 0 ∷ []) holds,
        length-set buf (length line) 0,
        refl,
        fits,
      ))
  | inr typed ↦ rw typed (elim (Bool-cases (is_erase c && ltb 0 (length line))) [
    | inl erases ↦ rw erases (
        let less = length line - 1 in
        let size : length (take less line) ≡ less = omega (arith, length-take less line) in
        let holds' : take less buf ≡ take less line =
          sym (take-take_less buf (length line) less (omega arith)) ∙ ap (take less) holds in
        let step =
          read_loop_lem keys buf (take less line) max room (omega arith)
            (ap (λ n. take n buf) size ∙ holds') in
        with_shown-ReadsAs (length buf) max (8 ∷ 32 ∷ 8 ∷ []) (line_of max (take less line) keys) _
          (rw size at step))
    | inr keeps ↦ rw keeps (elim (Bool-cases (is_printable c && ltb (length line + 1) max)) [
      | inr other ↦ rw other (read_loop_lem keys buf line max room fits holds)
      | inl puts ↦ rw puts (
          let inside : ltb (length line) (length buf) ≡ true = ground arith in
          let size : length (line ++ c ∷ []) ≡ length line + 1 = length-append line (c ∷ []) in
          let same = length-set buf (length line) c in
          let holds' : take (length line + 1) (set buf (length line) c) ≡ line ++ c ∷ [] =
            take-set buf (length line) c (omega arith) ∙ ap (λ l. l ++ c ∷ []) holds in
          let step =
            read_loop_lem keys (set buf (length line) c) (line ++ c ∷ []) max (omega arith)
              (ground arith) (ap (λ n. take n (set buf (length line) c)) size ∙ holds') in
          rw inside (
            with_shown-ReadsAs (length buf) max (c ∷ []) (line_of max (line ++ c ∷ []) keys) _
              (rw (size, same) at step)))
    ])
  ])
]

-- With a buffer of at least `max` bytes, `read_line` writes only inside it: it waits while no key ends
-- the line, and else leaves in the buffer, ended by a zero byte, the line that was typed and
-- corrected, shorter than `max`.
pub read_line_lem :
    (keys buf : List ℕ) (max : ℕ)
    → max ≤ length buf
    → max ≢ 0
    → ReadsAs (length buf) max (line_of max [] keys) (read_line keys (some buf) max)
unfolding read_line
read_line_lem keys buf max room some_room =
    let e : max == 0 ≡ false = ground arith in
    rw e (read_loop_lem keys buf [] max room (omega arith) refl)
