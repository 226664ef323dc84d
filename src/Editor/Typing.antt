-- ===== src/Editor/Typing.antt =====
-- jordyOS/app_edit.c: what is typed in the text mode, and the loop that reads it.
use os_research_lab.Base.{
  ℕ, suc, ◌+◌, ◌-◌, ◌<◌, List, [], ◌∷◌, ◌++◌, Option, some, none, true, false, ◌||◌, ltb, leb, ◌==◌,
  length, set, take, length-set, length-take, length-append, Bool-cases, ◌≡◌, inl, inr, refl, ap,
  sym, ◌∙◌, arith, if◌then◌else◌,
}
use os_research_lab.Base.Fault.{Outcome, done}
use os_research_lab.Text.{is_erase, is_printable}
use os_research_lab.Text.Line.{take-set, take-take_less}
use os_research_lab.Editor.{edit_buffer_size, Edited, with_shown, erased_col, edit_loop}
use os_research_lab.Editor.Column.{column, column-snoc, erased_col_lem}

-- The text that the keys make of the one typed so far, and the keys behind it: the escape key or a
-- full buffer ends it, an erasing key takes the last byte, a new line or a printable byte is put
-- at the end.
unfoldable pub edit_of : List ℕ → List ℕ → Option (List ℕ × List ℕ)
edit_of text [] = if ltb (length text) (edit_buffer_size - 1) then none else some (text, [])
edit_of text (c ∷ keys) =
    let longer = edit_of (text ++ c ∷ []) keys in
    let erased = edit_of (take (length text - 1) text) keys in
    let same = edit_of text keys in
    if leb (edit_buffer_size - 1) (length text)
    then some (text, c ∷ keys)
    else if c == 27
    then some (text, keys)
    else if (c == 10) || is_printable c
    then longer
    else if is_erase c
    then erased
    else same

-- The loop leaves that text at the front of the buffer, with its column.
abbrev pub LoopsAs : Option (List ℕ × List ℕ) → Outcome (Option Edited) → Type 0
LoopsAs none o = o ≡ done none
LoopsAs (some (text, rest)) o =
    (r : Edited) × (o ≡ done (some r))
    × (take (length text) r.content ≡ text)
    × (r.content_length ≡ length text)
    × (length r.content ≡ edit_buffer_size)
    × (r.col ≡ column text)
    × (r.rest ≡ rest)
    × (length text < edit_buffer_size)

with_shown-LoopsAs :
    (shown : List ℕ) (l : Option (List ℕ × List ℕ)) (o : Outcome (Option Edited))
    → LoopsAs l o
    → LoopsAs l (with_shown shown o)
with_shown-LoopsAs shown none o e = rw e refl
with_shown-LoopsAs shown (some (text, rest)) o (r, e, holds, size, room, col, left, fits) =
    (record r { shown = shown ++ r.shown }, rw e refl, holds, size, room, col, left, fits)

-- What holds of the buffer while the loop runs.
abbrev pub Holds : List ℕ → List ℕ → Type 0
Holds content text =
    (length content ≡ edit_buffer_size)
    × (length text < edit_buffer_size)
    × (take (length text) content ≡ text)

Holds-snoc :
    (content text : List ℕ) (c : ℕ)
    → length text < edit_buffer_size - 1
    → Holds content text
    → Holds (set content (length text) c) (text ++ c ∷ [])
Holds-snoc content text c small (room, fits, holds) =
    let size : length (text ++ c ∷ []) ≡ length text + 1 = length-append text (c ∷ []) in
    (
      length-set content (length text) c ∙ room,
      omega arith,
      ap (λ n. take n (set content (length text) c)) size
          ∙ (take-set content (length text) c (omega arith) ∙ ap (λ l. l ++ c ∷ []) holds),
    )

length-shorter : (text : List ℕ) → length (take (length text - 1) text) ≡ length text - 1
length-shorter text = omega (arith, length-take (length text - 1) text)

Holds-shorter :
    (content text : List ℕ) → Holds content text → Holds content (take (length text - 1) text)
Holds-shorter content text (room, fits, holds) =
    let size = length-shorter text in
    (
      room,
      omega arith,
      ap (λ n. take n content) size
          ∙ (sym (take-take_less content (length text) (length text - 1) (omega arith))
              ∙ ap (take (length text - 1)) holds),
    )

-- The column after erasing the last byte of the text.
erased_col-Holds :
    (content text : List ℕ)
    → 0 < length text
    → Holds content text
    → erased_col content (length text - 1) (column text)
      ≡ done (column (take (length text - 1) text))
erased_col-Holds content text some_byte (room, fits, holds) =
    let n : suc (length text - 1) ≡ length text = omega arith in
    let whole : take (suc (length text - 1)) content ≡ text = ap (λ k. take k content) n ∙ holds in
    let part =
      sym (take-take_less content (length text) (length text - 1) (omega arith))
      ∙ ap (take (length text - 1)) holds in
    sym (ap (λ t. erased_col content (length text - 1) (column t)) whole)
    ∙ (erased_col_lem content (length text - 1) (omega arith) ∙ ap (λ t. done (column t)) part)

-- The recursive call of the loop, for the text that a key leaves.
abbrev pub Goes : List ℕ → Type 0
Goes keys =
    (content text : List ℕ)
    → Holds content text
    → LoopsAs (edit_of text keys) (edit_loop keys content (length text) (column text))

put_lem :
    (keys content text shown : List ℕ) (c col : ℕ)
    → Goes keys
    → length text < edit_buffer_size - 1
    → Holds content text
    → col ≡ column (text ++ c ∷ [])
    → LoopsAs
        (edit_of (text ++ c ∷ []) keys)
        (with_shown shown (edit_loop keys (set content (length text) c) (length text + 1) col))
put_lem keys content text shown c col goes small holds e =
    let size : length (text ++ c ∷ []) ≡ length text + 1 = length-append text (c ∷ []) in
    let step =
      goes (set content (length text) c) (text ++ c ∷ []) (Holds-snoc content text c small holds) in
    with_shown-LoopsAs shown (edit_of (text ++ c ∷ []) keys) _ (rw e (rw size at step))

erase_lem :
    (keys content text : List ℕ)
    → Goes keys
    → Holds content text
    → LoopsAs (edit_of (take (length text - 1) text) keys) (
        with_shown
          (8 ∷ 32 ∷ 8 ∷ [])
          (edit_loop keys content (length text - 1) (column (take (length text - 1) text))))
erase_lem keys content text goes holds =
    let step = goes content (take (length text - 1) text) (Holds-shorter content text holds) in
    with_shown-LoopsAs (8 ∷ 32 ∷ 8 ∷ []) (edit_of (take (length text - 1) text) keys) _
      (rw (length-shorter text) at step)

nothing_to_erase : (text : List ℕ) → length text ≡ 0 → take (length text - 1) text ≡ text
nothing_to_erase [] h = refl
nothing_to_erase (c ∷ text) h = absurd (omega arith)

pub edit_loop_lem : (keys : List ℕ) → Goes keys
unfolding edit_loop edit_of
edit_loop_lem [] content text holds = elim (Bool-cases (ltb (length text) (edit_buffer_size - 1))) [
  | inl small ↦ rw small refl
  | inr full ↦ rw full (_, refl, holds.2, refl, holds.0, refl, refl, holds.1)
]
edit_loop_lem (c ∷ keys) content text holds =
    let goes = edit_loop_lem keys in
    elim (Bool-cases (ltb (length text) (edit_buffer_size - 1))) [
      | inr full ↦
          let full' : leb (edit_buffer_size - 1) (length text) ≡ true = ground arith in
          rw (full, full') (_, refl, holds.2, refl, holds.0, refl, refl, holds.1)
      | inl small ↦
          let small' : leb (edit_buffer_size - 1) (length text) ≡ false = ground arith in
          let inside : ltb (length text) (length content) ≡ true = ground (arith, holds.0) in
          let room : length text < edit_buffer_size - 1 = ground arith in
          rw (small, small', inside)
            (elim (Bool-cases (c == 27)) [
              | inl escape ↦ rw escape (_, refl, holds.2, refl, holds.0, refl, refl, holds.1)
              | inr key ↦ rw key (elim (Bool-cases (c == 10)) [
                | inl newline ↦ rw newline (
                    put_lem keys content text (10 ∷ []) c 0 goes room holds
                      (ground (arith, column-snoc text c)))
                | inr inline ↦ rw inline (elim (Bool-cases (is_printable c)) [
                  | inl prints ↦
                      let keeps : is_erase c ≡ false = ground arith in
                      rw (prints, keeps)
                        (put_lem keys content text (c ∷ []) c (column text + 1) goes room holds
                          (ground (arith, column-snoc text c)))
                  | inr other ↦ rw other (elim (Bool-cases (is_erase c)) [
                    | inr ignored ↦ rw ignored (goes content text holds)
                    | inl erases ↦ rw erases (elim (Bool-cases (ltb 0 (length text))) [
                      | inl some_byte ↦
                          rw (some_byte, erased_col-Holds content text (ground arith) holds)
                            (erase_lem keys content text goes holds)
                      | inr empty ↦
                          rw (empty, nothing_to_erase text (ground arith)) (goes content text holds)
                    ])
                  ])
                ])
              ])
            ])
    ]
